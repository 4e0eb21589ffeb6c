-- ===== src/Gacha/Timeline.antt =====
-- agents/pity_engine/timeline.py: by which day a confidence is reached over a schedule of windows. A
-- date is its ordinal, and the rate of pulls per day, a finite float, is the fraction that it is worth;
-- what has accrued is the exact product, without the rounding of floats, except that it is refused where
-- floats overflow. The isinstance guards are the types here.
pub mod Order
pub mod Accrual
pub mod Earliest
pub mod Answered
pub mod Needed
use Prim.Native.String.{String}
use resin_compute.Base.{
  ℕ, zero, suc, ◌+◌, ◌-◌, ◌*◌, ◌/◌, ◌^◌, min, max, Bool, true, false, Option, none, some, List, [],
  ◌∷◌, ◌++◌, length, get_or, ltb, leb, if◌then◌else◌,
}
use resin_compute.Base.Int.{ℤ, pos, pos_part, ltb_ℤ}
use resin_compute.Types.{BannerKind, PityState}
use resin_compute.Gacha.Markov.{unit}
use resin_compute.Gacha.Solve.{Answer, answer, value_error, index_error, ChainSolution}
use resin_compute.Gacha.Forecast.{
  Fraction, reaches, config_for, solve_for, pulls_needed_for_confidence,
}

-- Its `__post_init__` demands that it does not end before it starts.
pub record BannerWindow : Type 0 where
  pub start : ℕ
  pub end : ℕ
  pub label : String

-- A probability: the mass counts parts of `unit ^ pulls`.
pub record Chance : Type 0 where
  pub pulls : ℕ
  pub mass : ℕ

pub record WindowOutcome : Type 0 where
  pub window : BannerWindow
  pub pulls_available_at_end : ℕ
  pub probability_at_end : Chance

-- A day that the answer names, with its label, wallet and probability.
pub record Day : Type 0 where
  pub date : ℕ
  pub label : String
  pub pulls_available : ℕ
  pub probability : Chance

pub record ByWhenResult : Type 0 where
  pub reachable : Bool
  pub by_date : Option Day
  pub best : Day
  pub pulls_needed : ℕ
  pub pulls_short : ℕ
  pub windows : List WindowOutcome

-- `list.sort` by the start: stable.
abbrev pub insert : BannerWindow → List BannerWindow → List BannerWindow
insert w [] = w ∷ []
insert w (x ∷ xs) = if leb w.start x.start then w ∷ x ∷ xs else x ∷ insert w xs

abbrev pub sort : List BannerWindow → List BannerWindow
sort [] = []
sort (w ∷ ws) = insert w (sort ws)

abbrev pub any_closed : List BannerWindow → (as_of : ℕ) → Bool
any_closed [] as_of = false
any_closed (w ∷ ws) as_of = let rest = any_closed ws as_of in if ltb w.end as_of then true else rest

abbrev pub any_overlap : List BannerWindow → Bool
any_overlap [] = false
any_overlap (w ∷ []) = false
any_overlap (w ∷ w' ∷ ws) =
    let rest = any_overlap (w' ∷ ws) in if leb w'.start w.end then true else rest

-- `none` is a ValueError.
unfoldable pub sorted_schedule : List BannerWindow → (as_of : ℕ) → Option (List BannerWindow)
sorted_schedule [] as_of = none
sorted_schedule (w ∷ ws) as_of =
    if any_closed (w ∷ ws) as_of
    then none
    else if any_overlap (sort (w ∷ ws))
    then none
    else some (sort (w ∷ ws))

-- What the nested functions of `by_when` read.
pub record Question : Type 0 where
  pub curve : List ℕ
  pub confidence : Fraction
  pub on_hand : ℕ
  pub rate : Fraction
  pub origin : ℕ

infixl 5 ◌>>=◌
-- The first error ends a block.
abbrev pub ◌>>=◌ {ℓ κ} : {A : Type ℓ} {B : Type κ} → Answer A → (A → Answer B) → Answer B
answer a >>= next = next a
value_error >>= next = value_error
index_error >>= next = index_error

-- `math.isfinite` of a product of floats, from its exact value: half a step above the largest double and
-- beyond, it rounds to infinity.
unfoldable pub is_finite : (numerator denominator : ℕ) → Bool
is_finite numerator denominator = ltb numerator ((2 ^ 1024 - 2 ^ 970) * denominator)

-- What has come in by a day at a rate, times the rate's denominator. No day is before the origin.
abbrev pub accrued : Fraction → (origin ordinal : ℕ) → ℕ
accrued rate origin ordinal = pos_part rate.numerator * (ordinal - origin)

abbrev pub accrues : Fraction → (origin ordinal : ℕ) → Bool
accrues rate origin ordinal = is_finite (accrued rate origin ordinal) rate.denominator

unfoldable pub wallet : Question → ℕ → Answer ℕ
wallet q ordinal =
    if accrues q.rate q.origin ordinal
    then answer (q.on_hand + accrued q.rate q.origin ordinal / q.rate.denominator)
    else value_error

-- The curve at a wallet, or at its end.
abbrev pub chance_of : Question → (pulls : ℕ) → Chance
chance_of q pulls =
    let t = min pulls (length q.curve - 1) in record { pulls = t; mass = get_or q.curve t 0 }

unfoldable pub probability : Question → ℕ → Answer Chance
probability q ordinal = do pulls ← wallet q ordinal; answer (chance_of q pulls)

-- `p >= threshold` and `p > best_probability`
abbrev pub meets : Question → Chance → Bool
meets q p = reaches q.confidence p.pulls p.mass

abbrev pub exceeds : Chance → Chance → Bool
exceeds p best = ltb (best.mass * unit ^ p.pulls) (p.mass * unit ^ best.pulls)

-- A day that is looked at, with the wallet that the answer reads again where it names the day.
unfoldable pub day_of : Question → ℕ → String → Answer Day
day_of q ordinal label = do
  p ← probability q ordinal
  pulls ← wallet q ordinal
  answer (record { date = ordinal; label = label; pulls_available = pulls; probability = p })

-- The variables of the loops. A best probability of -1.0 is `none`.
pub record Search : Type 0 where
  pub by : Option Day
  pub best : Option Day
  pub outcomes : List WindowOutcome

abbrev pub first_met : Question → Option Day → Day → Option Day
first_met q (some d) day = some d
first_met q none day = if meets q day.probability then some day else none

abbrev pub better : Option Day → Day → Option Day
better none day = some day
better (some best) day = if exceeds day.probability best.probability then some day else some best

-- The body of the loop over the days of a window.
abbrev pub look : Question → Search → Day → Search
look q s day = record { by = first_met q s.by day; best = better s.best day; outcomes = s.outcomes }

-- The loop over the days of a window, with the number of days that are left.
unfoldable pub scan_days : Question → String → (left ordinal : ℕ) → Search → Answer Search
scan_days q label zero ordinal s = answer s
scan_days q label (suc left) ordinal s = do
  day ← day_of q ordinal label
  scan_days q label left (ordinal + 1) (look q s day)

unfoldable pub outcome_at : Question → BannerWindow → Answer WindowOutcome
outcome_at q w = do
  pulls ← wallet q w.end
  p ← probability q w.end
  answer (record { window = w; pulls_available_at_end = pulls; probability_at_end = p })

abbrev pub add_outcome : WindowOutcome → Search → Search
add_outcome outcome s = record s { outcomes = s.outcomes ++ outcome ∷ [] }

abbrev pub first_day : Question → BannerWindow → ℕ
first_day q w = max w.start q.origin

unfoldable pub scan_windows : Question → List BannerWindow → Search → Answer Search
scan_windows q [] s = answer s
scan_windows q (w ∷ ws) s = do
  looked ← scan_days q w.label (w.end + 1 - first_day q w) (first_day q w) s
  outcome ← outcome_at q w
  scan_windows q ws (add_outcome outcome looked)

abbrev pub start_search : Search
start_search = record { by = none; best = none; outcomes = [] }

-- What follows the loops.
abbrev pub answer_of : (pulls_needed : ℕ) → Search → Answer ByWhenResult
answer_of pulls_needed s = elim s.best [
  | none ↦ value_error
  | some best ↦ elim s.by [
    | none ↦ answer (record {
      reachable = false;
      by_date = none;
      best = best;
      pulls_needed = pulls_needed;
      pulls_short = pulls_needed - best.pulls_available;
      windows = s.outcomes;
    })
    | some day ↦ answer (record {
      reachable = true;
      by_date = some day;
      best = best;
      pulls_needed = pulls_needed;
      pulls_short = 0;
      windows = s.outcomes;
    })
  ]
]

abbrev pub question :
    ChainSolution → Fraction → (on_hand : ℕ) → (rate : Fraction) → (as_of : ℕ) → Question
question solution confidence on_hand rate as_of = record {
  curve = solution.absorbed_by_pull;
  confidence = confidence;
  on_hand = on_hand;
  rate = rate;
  origin = as_of;
}

unfoldable pub by_when :
    PityState
    → (target_count : ℤ) → List BannerWindow
    → (as_of : ℕ) → (pulls_on_hand : ℤ) → (pulls_per_day confidence : Fraction) → BannerKind
    → (weapon_increment : Option ℕ) → (carry : Bool) → Answer ByWhenResult
by_when state target_count schedule as_of pulls_on_hand pulls_per_day confidence banner
      weapon_increment carry =
    if ltb_ℤ pulls_on_hand (pos 0)
    then value_error
    else if ltb_ℤ pulls_per_day.numerator (pos 0)
    then value_error
    else elim (sorted_schedule schedule as_of) [
      | none ↦ value_error
      | some windows ↦
          elim (pulls_needed_for_confidence state target_count confidence banner weapon_increment
            carry) [
              | value_error ↦ value_error
              | index_error ↦ index_error
              | answer needed ↦
                  elim (solve_for (config_for banner weapon_increment) state target_count (pos 0)
                    carry) [
                      | value_error ↦ value_error
                      | index_error ↦ index_error
                      | answer solution ↦
                          let q =
                            question solution confidence (pos_part pulls_on_hand) pulls_per_day
                              as_of in
                          scan_windows q windows start_search >>= answer_of needed
                    ]
            ]
    ]
