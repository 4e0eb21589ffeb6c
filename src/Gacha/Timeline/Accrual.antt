-- ===== src/Gacha/Timeline/Accrual.antt =====
-- The loops of agents/pity_engine/timeline.py `by_when` where what accrues stays finite, and where it
-- does not.
use Prim.Native.String.{String}
use native.Mathlib.Nat.{mul-le-mul_left}
use resin_compute.Base.{
  ℕ, zero, suc, ◌+◌, ◌-◌, ◌/◌, ◌&&◌, ◌≤◌, ◌<◌, ◌≡◌, refl, Bool, true, false, List, [], ◌∷◌, arith,
  All, ◌⊎◌, inl, inr, Bool-cases, ltb,
}
use resin_compute.Base.Int.{pos_part}
use resin_compute.Gacha.Solve.{answer, value_error}
use resin_compute.Gacha.Forecast.{Fraction}
use resin_compute.Gacha.Timeline.{
  BannerWindow, WindowOutcome, Question, Search, Day, Chance, is_finite, accrued, accrues, wallet,
  chance_of, probability, day_of, look, scan_days, scan_windows, outcome_at, add_outcome, first_day,
}

-- The wallet and the probability of a day, whatever accrues by it.
abbrev pub pulls_on : Question → ℕ → ℕ
pulls_on q d = q.on_hand + accrued q.rate q.origin d / q.rate.denominator

abbrev pub chance_on : Question → ℕ → Chance
chance_on q d = chance_of q (pulls_on q d)

abbrev pub day_on : Question → ℕ → String → Day
day_on q d label = record {
  date = d;
  label = label;
  pulls_available = pulls_on q d;
  probability = chance_on q d;
}

-- By an earlier day less has accrued.
pub accrues_before :
    (rate : Fraction) (origin d e : ℕ)
    → d ≤ e
    → accrues rate origin e ≡ true
    → accrues rate origin d ≡ true
unfolding is_finite
accrues_before rate origin d e h k =
    let less : accrued rate origin d ≤ accrued rate origin e =
      mul-le-mul_left (pos_part rate.numerator) (omega arith) in
    lower (accrued rate origin d) (accrued rate origin e) _ less k
  where
    lower : (a b l : ℕ) → a ≤ b → ltb b l ≡ true → ltb a l ≡ true
    lower a b l p q = ground arith

-- By the end of every window, what has accrued is finite.
abbrev pub all_accrue : Fraction → (origin : ℕ) → List BannerWindow → Bool
all_accrue rate origin [] = true
all_accrue rate origin (w ∷ ws) = accrues rate origin w.end && all_accrue rate origin ws

module _ (q : Question) where
  pub wallet_on : (d : ℕ) → accrues q.rate q.origin d ≡ true → wallet q d ≡ answer (pulls_on q d)
  unfolding wallet
  wallet_on d h = rw h refl

  wallet_over : (d : ℕ) → accrues q.rate q.origin d ≡ false → wallet q d ≡ value_error
  unfolding wallet
  wallet_over d h = rw h refl

  pub probability_on :
      (d : ℕ) → accrues q.rate q.origin d ≡ true → probability q d ≡ answer (chance_on q d)
  unfolding probability
  probability_on d h = rw (wallet_on d h) refl

  day_of_on :
      (d : ℕ) (label : String)
      → accrues q.rate q.origin d ≡ true
      → day_of q d label ≡ answer (day_on q d label)
  unfolding day_of
  day_of_on d label h = rw (probability_on d h, wallet_on d h) refl

  day_of_over :
      (d : ℕ) (label : String) → accrues q.rate q.origin d ≡ false → day_of q d label ≡ value_error
  unfolding day_of probability
  day_of_over d label h = rw (wallet_over d h) refl

  abbrev pub outcome_on : BannerWindow → WindowOutcome
  outcome_on w = record {
    window = w;
    pulls_available_at_end = pulls_on q w.end;
    probability_at_end = chance_on q w.end;
  }

  outcome_at_on :
      (w : BannerWindow)
      → accrues q.rate q.origin w.end ≡ true
      → outcome_at q w ≡ answer (outcome_on w)
  unfolding outcome_at
  outcome_at_on w h = rw (wallet_on w.end h, probability_on w.end h) refl

  outcome_at_over :
      (w : BannerWindow) → accrues q.rate q.origin w.end ≡ false → outcome_at q w ≡ value_error
  unfolding outcome_at
  outcome_at_over w h = rw (wallet_over w.end h) refl

  -- The loops without the check.
  unfoldable pub pass_days : String → (left ordinal : ℕ) → Search → Search
  pass_days label zero ordinal s = s
  pass_days label (suc left) ordinal s =
      pass_days label left (ordinal + 1) (look q s (day_on q ordinal label))

  unfoldable pub pass_windows : List BannerWindow → Search → Search
  pass_windows [] s = s
  pass_windows (w ∷ ws) s =
      pass_windows ws (
        add_outcome (outcome_on w)
          (pass_days w.label (w.end + 1 - first_day q w) (first_day q w) s))

  scan_days_pass :
      (label : String) (left ordinal : ℕ) (s : Search)
      → ((d : ℕ) → d < ordinal + left → accrues q.rate q.origin d ≡ true)
      → scan_days q label left ordinal s ≡ answer (pass_days label left ordinal s)
  unfolding scan_days pass_days
  scan_days_pass label zero ordinal s h = refl
  scan_days_pass label (suc left) ordinal s h =
      rw (day_of_on ordinal label (h ordinal (omega arith)))
        (scan_days_pass label left (ordinal + 1) _ (λ d lt. h d (omega arith)))

  -- Where everything accrued stays finite up to the end of each window, the loops return.
  pub scan_windows_pass :
      (ws : List BannerWindow) (s : Search)
      → All (λ w. q.origin ≤ w.end) ws
      → All (λ w. w.start ≤ w.end) ws
      → All (λ w. accrues q.rate q.origin w.end ≡ true) ws
      → scan_windows q ws s ≡ answer (pass_windows ws s)
  unfolding scan_windows pass_windows
  scan_windows_pass [] s unclosed full h = refl
  scan_windows_pass (w ∷ ws) s unclosed full h =
      rw
        (
          scan_days_pass w.label (w.end + 1 - first_day q w) (first_day q w) s (λ d lt.
              accrues_before q.rate q.origin d w.end (omega (arith, unclosed.0, full.0)) h.0),
          outcome_at_on w h.0,
        )
        (scan_windows_pass ws _ unclosed.1 full.1 h.1)

  -- The loop over the days of a window returns or raises the ValueError.
  scan_days_cases :
      (label : String) (left ordinal : ℕ) (s : Search)
      → ((s' : Search) × (scan_days q label left ordinal s ≡ answer s'))
        ⊎ (scan_days q label left ordinal s ≡ value_error)
  unfolding scan_days
  scan_days_cases label zero ordinal s = inl (s, refl)
  scan_days_cases label (suc left) ordinal s = elim (Bool-cases (accrues q.rate q.origin ordinal)) [
    | inl e ↦ rw (day_of_on ordinal label e) (scan_days_cases label left (ordinal + 1) _)
    | inr e ↦ rw (day_of_over ordinal label e) (inr refl)
  ]

  -- A window by whose end too much has accrued ends the loops with the ValueError.
  pub scan_windows_over :
      (ws : List BannerWindow) (s : Search)
      → all_accrue q.rate q.origin ws ≡ false
      → scan_windows q ws s ≡ value_error
  unfolding scan_windows
  scan_windows_over [] s h = cc
  scan_windows_over (w ∷ ws) s h =
      elim (scan_days_cases w.label (w.end + 1 - first_day q w) (first_day q w) s) [
        | inr failed ↦ rw failed refl
        | inl (s', looked) ↦ elim (Bool-cases (accrues q.rate q.origin w.end)) [
          | inl e ↦ rw (looked, outcome_at_on w e) (scan_windows_over ws _ (rw e at h))
          | inr e ↦ rw (looked, outcome_at_over w e) refl
        ]
      ]
