-- ===== src/Scheduler/Window.antt =====
-- Sums and counts over a plan: the resin that is spent by a day, and the weekly slots in a window.
use resin_compute.Base.{
  ℕ, ◌+◌, ◌≤◌, ◌≡◌, Bool, true, false, ◌&&◌, List, [], ◌∷◌, ◌++◌, arith, ltb, leb, if◌then◌else◌,
  All,
}
use resin_compute.Types.{ScheduledTask, weekly}
use resin_compute.Scheduler.Probe.{in_window}

abbrev pub is_weekly : ScheduledTask → Bool
is_weekly t = elim t.cadence [ weekly ↦ true | _ ↦ false ]

-- The resin of the tasks that stand on a day or before it.
abbrev pub spent_by : ℕ → List ScheduledTask → ℕ
spent_by d [] = 0
spent_by d (t ∷ ts) = (if leb t.earliest_day d then t.resin_cost else 0) + spent_by d ts

abbrev pub total_cost : List ScheduledTask → ℕ
total_cost [] = 0
total_cost (t ∷ ts) = t.resin_cost + total_cost ts

-- How many weekly tasks stand on the seven days that end with a day.
abbrev pub weekly_in : ℕ → List ScheduledTask → ℕ
weekly_in d [] = 0
weekly_in d (t ∷ ts) =
    (if is_weekly t && (leb t.earliest_day d && ltb d (t.earliest_day + 7)) then 1 else 0)
    + weekly_in d ts

abbrev pub weekly_days_of : List ScheduledTask → List ℕ
weekly_days_of [] = []
weekly_days_of (t ∷ ts) =
    let rest = weekly_days_of ts in if is_weekly t then t.earliest_day ∷ rest else rest

-- No task stands on an earlier day than the one before it.
abbrev pub IsSorted : ℕ → List ScheduledTask → Type 0
IsSorted d [] = Unit
IsSorted d (t ∷ ts) = (d ≤ t.earliest_day) × IsSorted t.earliest_day ts

pub spent_by-snoc :
    (d : ℕ) (ts : List ScheduledTask) (t : ScheduledTask)
    → spent_by d (ts ++ t ∷ []) ≡ spent_by d ts + (if leb t.earliest_day d then t.resin_cost else 0)
spent_by-snoc d [] t = omega arith
spent_by-snoc d (x ∷ ts) t = omega (arith, spent_by-snoc d ts t)

pub total_cost-snoc :
    (ts : List ScheduledTask) (t : ScheduledTask)
    → total_cost (ts ++ t ∷ []) ≡ total_cost ts + t.resin_cost
total_cost-snoc [] t = omega arith
total_cost-snoc (x ∷ ts) t = omega (arith, total_cost-snoc ts t)

pub spent_by-le : (d : ℕ) (ts : List ScheduledTask) → spent_by d ts ≤ total_cost ts
spent_by-le d [] = omega arith
spent_by-le d (t ∷ ts) = ground (arith, spent_by-le d ts)

pub weekly_in-snoc :
    (d : ℕ) (ts : List ScheduledTask) (t : ScheduledTask)
    → weekly_in d (ts ++ t ∷ [])
      ≡ weekly_in d ts
        + (if is_weekly t && (leb t.earliest_day d && ltb d (t.earliest_day + 7)) then 1 else 0)
weekly_in-snoc d [] t = omega arith
weekly_in-snoc d (x ∷ ts) t = omega (arith, weekly_in-snoc d ts t)

pub weekly_days_of-snoc :
    (ts : List ScheduledTask) (t : ScheduledTask)
    → weekly_days_of (ts ++ t ∷ [])
      ≡ (if is_weekly t then weekly_days_of ts ++ t.earliest_day ∷ [] else weekly_days_of ts)
weekly_days_of-snoc [] t = ground arith
weekly_days_of-snoc (x ∷ ts) t = ground (arith, weekly_days_of-snoc ts t)

-- A window that ends later holds no more of the slots that were taken before it began.
pub weekly_in-le-in_window :
    (day d : ℕ) (ts : List ScheduledTask)
    → day ≤ d
    → weekly_in d ts ≤ in_window day (weekly_days_of ts)
weekly_in-le-in_window day d [] h = omega arith
weekly_in-le-in_window day d (t ∷ ts) h = ground (arith, weekly_in-le-in_window day d ts h)

pub All-snoc {ℓ κ} :
    {A : Type ℓ} (P : A → Type κ) (xs : List A) (x : A) → All P xs → P x → All P (xs ++ x ∷ [])
All-snoc P [] x h p = (p, tt)
All-snoc P (y ∷ xs) x h p = (h.0, All-snoc P xs x h.1 p)

pub IsSorted-snoc :
    (d : ℕ) (ts : List ScheduledTask) (t : ScheduledTask)
    → d ≤ t.earliest_day
    → IsSorted d ts
    → All (λ x. x.earliest_day ≤ t.earliest_day) ts
    → IsSorted d (ts ++ t ∷ [])
IsSorted-snoc d [] t p s h = (p, tt)
IsSorted-snoc d (x ∷ ts) t p s h = (s.0, IsSorted-snoc x.earliest_day ts t h.0 s.1 h.1)

pub All-weaken {ℓ κ μ} :
    {A : Type ℓ} (P : A → Type κ) (Q : A → Type μ) (xs : List A)
    → ((x : A) → P x → Q x)
    → All P xs
    → All Q xs
All-weaken P Q [] f h = tt
All-weaken P Q (x ∷ xs) f h = (f x h.0, All-weaken P Q xs f h.1)
