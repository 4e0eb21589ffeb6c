-- ===== src/Gacha/Timeline/Earliest.antt =====
-- The day that agents/pity_engine/timeline.py answers is the earliest of the schedule.
use Prim.Native.String.{String}
use resin_compute.Base.{
  ℕ, zero, suc, ◌+◌, ◌-◌, ◌≤◌, ◌<◌, ◌≡◌, ◌≢◌, refl, true, false, Option, none, some, List, [], ◌∷◌,
  arith, All, ◌⊎◌, inl, inr, Bool-cases,
}
use native.Mathlib.Decide.{ℕ_discrete}
use resin_compute.Gacha.Timeline.{
  BannerWindow, Question, Search, Day, meets, look, better, exceeds, add_outcome, first_day,
  start_search,
}
use resin_compute.Gacha.Timeline.Order.{IsApart}
use resin_compute.Gacha.Timeline.Accrual.{chance_on, day_on, outcome_on, pass_days, pass_windows}

-- A day is eligible in a window that is open on it, from the day asked from on.
abbrev pub IsOpen : Question → BannerWindow → ℕ → Type 0
IsOpen q w e = (w.start ≤ e) × (q.origin ≤ e) × (e ≤ w.end)

abbrev pub IsEligible : Question → List BannerWindow → ℕ → Type 0
IsEligible q [] e = ⊥
IsEligible q (w ∷ ws) e = IsOpen q w e ⊎ IsEligible q ws e

-- The first day of those that satisfy a predicate on which the confidence is met, if there is one.
abbrev pub IsEarliest : Question → (ℕ → Type 0) → Option Day → Type 0
IsEarliest q on by =
    ((by ≡ none) × ((e : ℕ) → on e → meets q (chance_on q e) ≡ false))
    ⊎ ((d : ℕ) × (label : String) × (by ≡ some (day_on q d label))
        × on d
        × (meets q (chance_on q d) ≡ true)
        × ((e : ℕ) → on e → e < d → meets q (chance_on q e) ≡ false))

abbrev IsScanned : (ordinal left : ℕ) → ℕ → Type 0
IsScanned ordinal left e = (ordinal ≤ e) × (e < ordinal + left)

module _ (q : Question) where
  pass_days_kept :
      (label : String) (left ordinal : ℕ) (s : Search) {d : Day}
      → s.by ≡ some d
      → (pass_days q label left ordinal s).by ≡ some d
  unfolding pass_days
  pass_days_kept label zero ordinal s h = h
  pass_days_kept label (suc left) ordinal s {d} h =
      pass_days_kept label left (ordinal + 1) (look q s (day_on q ordinal label)) (rw h refl)

  pass_days-IsEarliest :
      (label : String) (left ordinal : ℕ) (s : Search)
      → s.by ≡ none
      → IsEarliest q (IsScanned ordinal left) (pass_days q label left ordinal s).by
  unfolding pass_days
  pass_days-IsEarliest label zero ordinal s h = inl (h, λ e (lo, hi). absurd (omega arith))
  pass_days-IsEarliest label (suc left) ordinal s h =
      elim (Bool-cases (meets q (chance_on q ordinal))) [
        | inl met ↦ inr (
          ordinal,
          label,
          pass_days_kept label left (ordinal + 1) (look q s (day_on q ordinal label))
              (rw (h, met) refl),
          (omega arith, omega arith),
          met,
          λ e (lo, hi) lt. absurd (omega arith),
        )
        | inr unmet ↦
            elim (pass_days-IsEarliest label left (ordinal + 1) (look q s (day_on q ordinal label))
              (rw (h, unmet) refl)) [
                | inl (none_found, never) ↦ inl (
                  none_found,
                  λ e (lo, hi). elim (ℕ_discrete e ordinal) [
                    | yes same ↦ rw same unmet
                    | no ne ↦ never e (omega (arith, ne), omega arith)
                  ],
                )
                | inr (d, l, found, (lo, hi), met, before) ↦ inr (
                  d,
                  l,
                  found,
                  (omega arith, omega arith),
                  met,
                  λ e (lo', hi') lt. elim (ℕ_discrete e ordinal) [
                    | yes same ↦ rw same unmet
                    | no ne ↦ before e (omega (arith, ne), omega arith) lt
                  ],
                )
              ]
      ]

  -- The days of a window are those that its loop goes through.
  window_days :
      (w : BannerWindow) (e : ℕ)
      → IsOpen q w e
      → IsScanned (first_day q w) (w.end + 1 - first_day q w) e
  window_days w e (a, b, c) = (omega arith, omega arith)

  days_window :
      (w : BannerWindow) (e : ℕ)
      → IsScanned (first_day q w) (w.end + 1 - first_day q w) e
      → IsOpen q w e
  days_window w e (lo, hi) = (omega arith, omega arith, omega arith)

  -- What is eligible behind a window comes after its end.
  eligible_after :
      (w : BannerWindow) (ws : List BannerWindow) (e : ℕ)
      → All (λ v. v.start ≤ v.end) ws
      → IsApart (w ∷ ws)
      → IsEligible q ws e
      → w.end < e
  eligible_after w [] e full apart h = absurd h
  eligible_after w (w' ∷ ws) e full apart (inl (a, b, c)) = omega (arith, apart.0)
  eligible_after w (w' ∷ ws) e full apart (inr h) =
      omega (arith, eligible_after w' ws e full.1 apart.1 h, apart.0, full.0)

  pass_windows_kept :
      (ws : List BannerWindow) (s : Search) {d : Day}
      → s.by ≡ some d
      → (pass_windows q ws s).by ≡ some d
  unfolding pass_windows
  pass_windows_kept [] s h = h
  pass_windows_kept (w ∷ ws) s h = pass_windows_kept ws _ (pass_days_kept w.label _ _ s h)

  after_window : BannerWindow → Search → Search
  after_window w s =
      add_outcome (outcome_on q w)
        (pass_days q w.label (w.end + 1 - first_day q w) (first_day q w) s)

  pub pass_windows-IsEarliest :
      (ws : List BannerWindow) (s : Search)
      → All (λ v. v.start ≤ v.end) ws
      → IsApart ws
      → s.by ≡ none
      → IsEarliest q (IsEligible q ws) (pass_windows q ws s).by
  unfolding pass_windows after_window
  pass_windows-IsEarliest [] s full apart h = inl (h, λ e no. absurd no)
  pass_windows-IsEarliest (w ∷ ws) s full apart h =
      elim (pass_days-IsEarliest w.label (w.end + 1 - first_day q w) (first_day q w) s h) [
        | inr (d, l, found, inside, met, before) ↦ inr (
          d,
          l,
          pass_windows_kept ws _ found,
          inl (days_window w d inside),
          met,
          λ e on lt. elim on [
            | inl here ↦ before e (window_days w e here) lt
            | inr there ↦ absurd (
                omega (arith, eligible_after w ws e full.1 apart there, (days_window w d inside).2))
          ],
        )
        | inl (none_found, never) ↦
            elim (pass_windows-IsEarliest ws (after_window w s) full.1 (IsApart-tail w ws apart)
              none_found) [
                | inl (none_there, nowhere) ↦ inl (
                  none_there,
                  λ e on. elim on [
                    | inl here ↦ never e (window_days w e here)
                    | inr there ↦ nowhere e there
                  ],
                )
                | inr (d, l, found, on, met, before) ↦ inr (
                  d,
                  l,
                  found,
                  inr on,
                  met,
                  λ e on' lt. elim on' [
                    | inl here ↦ never e (window_days w e here)
                    | inr there ↦ before e there lt
                  ],
                )
              ]
      ]
    where
      IsApart-tail : (w : BannerWindow) (ws : List BannerWindow) → IsApart (w ∷ ws) → IsApart ws
      IsApart-tail w [] h = tt
      IsApart-tail w (w' ∷ ws) h = h.1

  -- A best day is known once a day was looked at, and stays known.
  pass_days-best :
      (label : String) (left ordinal : ℕ) (s : Search)
      → (1 ≤ left) ⊎ ((b : Day) × (s.best ≡ some b))
      → (b : Day) × ((pass_days q label left ordinal s).best ≡ some b)
  unfolding pass_days
  pass_days-best label zero ordinal s (inl h) = absurd (omega arith)
  pass_days-best label zero ordinal s (inr h) = h
  pass_days-best label (suc left) ordinal s h =
      pass_days-best label left (ordinal + 1) _ (inr (better_some s.best (day_on q ordinal label)))
    where
      better_some : (best : Option Day) (day : Day) → (b : Day) × (better best day ≡ some b)
      better_some none day = (day, refl)
      better_some (some best) day = elim (Bool-cases (exceeds day.probability best.probability)) [
        | inl e ↦ rw e (day, refl)
        | inr e ↦ rw e (best, refl)
      ]

  pass_windows-best :
      (ws : List BannerWindow) (s : Search) {b : Day}
      → s.best ≡ some b
      → (b' : Day) × ((pass_windows q ws s).best ≡ some b')
  unfolding pass_windows
  pass_windows-best [] s {b} h = (b, h)
  pass_windows-best (w ∷ ws) s {b} h =
      let (b', known) =
        pass_days-best w.label (w.end + 1 - first_day q w) (first_day q w) s (inr (b, h)) in
      pass_windows-best ws _ known

-- A schedule that is accepted has an eligible day.
pub scanned-best :
    (q : Question) (windows : List BannerWindow)
    → All (λ w. w.start ≤ w.end) windows
    → All (λ w. q.origin ≤ w.end) windows
    → windows ≢ []
    → (b : Day) × ((pass_windows q windows start_search).best ≡ some b)
unfolding pass_windows after_window
scanned-best q [] full unclosed h = absurd (h refl)
scanned-best q (w ∷ ws) full unclosed h =
    let (b, known) =
      pass_days-best q w.label (w.end + 1 - first_day q w) (first_day q w) start_search
        (inl (omega (arith, full.0, unclosed.0))) in
    pass_windows-best q ws (after_window q w start_search) (after known)
  where
    after :
        {b : Day}
        → (pass_days q w.label (w.end + 1 - first_day q w) (first_day q w) start_search).best
          ≡ some b
        → (after_window q w start_search).best ≡ some b
    after known = known
