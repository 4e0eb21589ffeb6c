-- ===== src/Gacha/Forecast.antt =====
-- agents/pity_engine/forecast.py: the public calls. The confidence is a fraction, and the tolerance is
-- one part in 10 ^ 12. The isinstance guards are the types here.
pub mod Success
pub mod Confidence
pub mod Reachable
use resin_compute.Base.{
  ℕ, zero, suc, ◌+◌, ◌*◌, ◌^◌, Bool, true, false, Option, none, some, List, [], ◌∷◌, leb,
  if◌then◌else◌,
}
use resin_compute.Base.Int.{ℤ, pos, pos_part, ltb_ℤ, leb_ℤ}
use resin_compute.Types.{BannerKind, PityState}
use resin_compute.Gacha.Banners.{BannerConfig, banner_config}
use resin_compute.Gacha.Markov.{unit}
use resin_compute.Gacha.Solve.{Answer, answer, value_error, index_error, ChainSolution, solve}

-- core/types.py. The numbers are those of `ChainSolution`, with the pulls that it was read at.
pub record ForecastResult : Type 0 where
  pub probability : ℕ
  pub read_at : ℕ
  pub pull_budget : ℤ
  pub target_count : ℤ
  pub banner : BannerKind
  pub distribution : List ℕ
  pub expected_pulls : ℕ

-- The increment is in thousandths.
abbrev pub config_for : BannerKind → (weapon_increment : Option ℕ) → Option BannerConfig
config_for banner none = banner_config banner 70
config_for banner (some increment) = banner_config banner increment

abbrev pub result_of : (target_count pull_budget : ℤ) → BannerKind → ChainSolution → ForecastResult
result_of target_count pull_budget banner solution = record {
  probability = solution.probability;
  read_at = solution.read_at;
  pull_budget = pull_budget;
  target_count = target_count;
  banner = banner;
  distribution = solution.distribution;
  expected_pulls = solution.expected_pulls;
}

abbrev forecast_of :
    (target_count pull_budget : ℤ) → BannerKind → Answer ChainSolution → Answer ForecastResult
forecast_of target_count pull_budget banner value_error = value_error
forecast_of target_count pull_budget banner index_error = index_error
forecast_of target_count pull_budget banner (answer solution) =
    answer (result_of target_count pull_budget banner solution)

abbrev pub solve_for :
    Option BannerConfig → PityState → (target_count pull_budget : ℤ) → Bool → Answer ChainSolution
solve_for none state target_count pull_budget carry = value_error
solve_for (some config) state target_count pull_budget carry =
    solve config state target_count pull_budget carry

unfoldable pub probability_of_success :
    PityState
    → (target_count pull_budget : ℤ) → BannerKind
    → (weapon_increment : Option ℕ) → (carry : Bool) → Answer ForecastResult
probability_of_success state target_count pull_budget banner weapon_increment carry =
    if ltb_ℤ target_count (pos 1)
    then value_error
    else if ltb_ℤ pull_budget (pos 0)
    then value_error
    else forecast_of target_count pull_budget banner
        (solve_for (config_for banner weapon_increment) state target_count pull_budget carry)

-- A confidence as a fraction with a positive denominator.
pub record Fraction : Type 0 where
  pub numerator : ℤ
  pub denominator : ℕ

-- `cumulative >= confidence - _CONFIDENCE_EPS` at the curve's entry of pull t.
unfoldable pub reaches : Fraction → (t cumulative : ℕ) → Bool
reaches confidence t cumulative =
    leb (unit ^ t * (pos_part confidence.numerator * 10 ^ 12))
      (cumulative * (confidence.denominator * 10 ^ 12) + unit ^ t * confidence.denominator)

-- The loop over the curve from the entry of pull t on; the end of the curve is a ValueError.
abbrev pub first_reaching : Fraction → ℕ → List ℕ → Answer ℕ
first_reaching confidence t [] = value_error
first_reaching confidence t (cumulative ∷ curve) =
    let rest = first_reaching confidence (t + 1) curve in
    if reaches confidence t cumulative then answer t else rest

abbrev needed_of : Fraction → Answer ChainSolution → Answer ℕ
needed_of confidence value_error = value_error
needed_of confidence index_error = index_error
needed_of confidence (answer solution) = first_reaching confidence 0 solution.absorbed_by_pull

unfoldable pub pulls_needed_for_confidence :
    PityState
    → (target_count : ℤ) → (confidence : Fraction) → BannerKind
    → (weapon_increment : Option ℕ) → (carry : Bool) → Answer ℕ
pulls_needed_for_confidence state target_count confidence banner weapon_increment carry =
    if ltb_ℤ target_count (pos 1)
    then value_error
    else if ltb_ℤ confidence.numerator (pos 0)
    then value_error
    else if ltb_ℤ (pos confidence.denominator) confidence.numerator
    then value_error
    else if leb_ℤ confidence.numerator (pos 0)
    then answer 0
    else needed_of confidence
        (solve_for (config_for banner weapon_increment) state target_count (pos 0) carry)
