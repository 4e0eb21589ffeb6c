-- ===== src/Scheduler/Spacing.antt =====
-- Tasks of one node in a plan of engines/scheduler.py: how far apart they stand, and the last one.
use Prim.Native.String.{String}
use text.Mathlib.Text.{◌==◌ as str_eq}
use text.Mathlib.TextEquality.{eq_iff}
use resin_compute.Scheduler.Solve.{last_day}
use resin_compute.Base.{
  max, refl, Option, none, some, Option-cases, eq_of_some, inl, inr, ℕ, ◌+◌, ◌≤◌, ◌≡◌, true, List,
  [], ◌∷◌, ◌++◌, arith, if◌then◌else◌, All,
}
use resin_compute.Types.{ScheduledTask}
use resin_compute.Scheduler.Probe.{in_window}
use resin_compute.Scheduler.Window.{
  is_weekly, weekly_in, weekly_days_of, IsSorted, All-snoc, All-weaken,
}

-- Of two weekly tasks of one node, the later one stands a week or more behind.
abbrev pub IsSpaced : List ScheduledTask → Type 0
IsSpaced [] = Unit
IsSpaced (t ∷ ts) =
    All
      (λ u.
        is_weekly t ≡ true
        → is_weekly u ≡ true
        → t.node_id ≡ u.node_id
        → t.earliest_day + 7 ≤ u.earliest_day)
      ts
    × IsSpaced ts

-- The day of the last task of a node.
abbrev pub latest_of : String → List ScheduledTask → Option ℕ
latest_of key [] = none
latest_of key (t ∷ ts) = elim (latest_of key ts) [
  | some d ↦ some d
  | none ↦ if str_eq t.node_id key then some t.earliest_day else none
]

pub IsSpaced-snoc :
    (ts : List ScheduledTask) (t : ScheduledTask)
    → IsSpaced ts
    → All
        (λ u.
          is_weekly u ≡ true
          → is_weekly t ≡ true
          → u.node_id ≡ t.node_id
          → u.earliest_day + 7 ≤ t.earliest_day)
        ts
    → IsSpaced (ts ++ t ∷ [])
IsSpaced-snoc [] t s h = (tt, tt)
IsSpaced-snoc (x ∷ ts) t s h = (All-snoc _ ts t s.0 h.0, IsSpaced-snoc ts t s.1 h.1)

pub latest_of-snoc :
    (key : String) (ts : List ScheduledTask) (t : ScheduledTask)
    → latest_of key (ts ++ t ∷ [])
      ≡ (if str_eq t.node_id key then some t.earliest_day else latest_of key ts)
latest_of-snoc key [] t = refl
latest_of-snoc key (x ∷ ts) t = ground (arith, latest_of-snoc key ts t)

pub latest_of-none :
    (key : String) (ts : List ScheduledTask)
    → latest_of key ts ≡ none
    → All (λ t. ¬ (t.node_id ≡ key)) ts
latest_of-none key [] h = tt
latest_of-none key (t ∷ ts) h = elim (Option-cases (latest_of key ts)) [
  | inl e ↦ (λ same. cc (rw (e, (eq_iff t.node_id key).1 same) at h), latest_of-none key ts e)
  | inr (d, e) ↦ cc (rw e at h)
]

-- In a plan in order of days, the last task of a node is its latest.
pub latest_of-latest :
    (key : String) (lo : ℕ) (ts : List ScheduledTask) {d : ℕ}
    → IsSorted lo ts
    → latest_of key ts ≡ some d
    → (lo ≤ d) × All (λ t. t.node_id ≡ key → t.earliest_day ≤ d) ts
latest_of-latest key lo [] s h = cc
latest_of-latest key lo (t ∷ ts) {d} s h = elim (Option-cases (latest_of key ts)) [
  | inl e ↦
      let none_left = latest_of-none key ts e in
      let here : t.earliest_day ≡ d = ground arith in
      (
        omega (arith, s.0),
        (
          λ _. omega arith,
          All-weaken (λ u. ¬ (u.node_id ≡ key)) _ ts (λ u other same. absurd (other same))
              none_left,
        ),
      )
  | inr (d', e) ↦
      let same : d' ≡ d = eq_of_some (rw e at h) in
      let (up, rest) = latest_of-latest key t.earliest_day ts s.1 e in
      (omega (arith, s.0), (λ _. omega arith, rw same at rest))
]

-- What holds of the day of every task of a node holds of the last one.
pub latest_of-All :
    (key : String) (day : ℕ) (ts : List ScheduledTask) {d : ℕ}
    → All (λ t. t.node_id ≡ key → t.earliest_day + 7 ≤ day) ts
    → latest_of key ts ≡ some d
    → d + 7 ≤ day
latest_of-All key day [] h e = cc
latest_of-All key day (t ∷ ts) {d} h e = elim (Option-cases (latest_of key ts)) [
  | inr (d', e') ↦
      let same : d' ≡ d = eq_of_some (rw e' at e) in rw same at (latest_of-All key day ts h.1 e')
  | inl e' ↦ ground (arith, eq_iff t.node_id key, h.0)
]

-- Once every task stands, the slots that count in a window are those of the seven days up to it.
pub in_window-eq-weekly_in :
    (day : ℕ) (ts : List ScheduledTask)
    → All (λ t. t.earliest_day ≤ day) ts
    → in_window day (weekly_days_of ts) ≡ weekly_in day ts
in_window-eq-weekly_in day [] h = omega arith
in_window-eq-weekly_in day (t ∷ ts) h = ground (arith, in_window-eq-weekly_in day ts h.1, h.0)

pub last_day-snoc :
    (ts : List ScheduledTask) (t : ScheduledTask)
    → last_day (ts ++ t ∷ []) ≡ max (last_day ts) t.earliest_day
last_day-snoc [] t = omega arith
last_day-snoc (x ∷ ts) t = omega (arith, last_day-snoc ts t)

pub last_day-le : (ts : List ScheduledTask) → All (λ t. t.earliest_day ≤ last_day ts) ts
last_day-le [] = tt
last_day-le (t ∷ ts) = (omega arith, All-weaken _ _ ts (λ u h. omega (arith, h)) (last_day-le ts))
