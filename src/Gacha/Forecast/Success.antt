-- ===== src/Gacha/Forecast/Success.antt =====
-- What agents/pity_engine/forecast.py answers for a budget.
use resin_compute.Base.{
  ℕ, ◌+◌, ◌^◌, ◌≤◌, ◌<◌, ◌≡◌, refl, sym, ◌∙◌, Bool, false, Option, none, some, arith, length,
  get_or, eq_of_some,
}
use resin_compute.Base.Int.{pos, ltb_ℤ}
use resin_compute.Types.{BannerKind, PityState}
use resin_compute.Gacha.Banners.{BannerConfig, hard_pity}
use resin_compute.Gacha.Markov.{unit, sum}
use resin_compute.Gacha.Solve.{answer, ChainSolution, solve}
use resin_compute.Gacha.Solve.Total.{IsConfig, IsSolution, solve-IsSolution}
use resin_compute.Gacha.Solve.Kinds.{banner_config-IsConfig}
use resin_compute.Gacha.Forecast.{ForecastResult, result_of, config_for, probability_of_success}

pub config_for-IsConfig :
    (banner : BannerKind) (increment : Option ℕ) {config : BannerConfig}
    → config_for banner increment ≡ some config
    → (hard : ℕ) × IsConfig config hard
config_for-IsConfig banner none h = banner_config-IsConfig banner 70 h
config_for-IsConfig banner (some increment) h = banner_config-IsConfig banner increment h

-- The solve of a banner's configuration returns for every state below its hard pity.
pub solve_banner :
    (state : PityState) (copies budget : ℕ) (banner : BannerKind) (increment : Option ℕ)
    (carry : Bool) {config : BannerConfig} {hard : ℕ}
    → config_for banner increment ≡ some config
    → hard_pity config ≡ some hard
    → state.pity_5star < hard
    → 1 ≤ copies
    → (solution : ChainSolution) × (solve config state (pos copies) (pos budget) carry
        ≡ answer solution)
      × IsSolution copies solution
solve_banner state copies budget banner increment carry {config} {hard} built at_hard lt some_copy =
    let (hard', is) = config_for-IsConfig banner increment built in
    let same : hard ≡ hard' = eq_of_some (sym at_hard ∙ is.hard_pity_eq) in
    solve-IsSolution config state copies budget carry is (rw (← same) lt) some_copy

-- For every banner whose table is built, every state below the hard pity, one copy or more and any
-- budget, the forecast is returned: its distribution has a chance for each number of copies up to the
-- target, these sum to one, the probability is the chance of the target, and it is at most one.
pub probability_of_success_lem :
    (state : PityState) (copies budget : ℕ) (banner : BannerKind) (increment : Option ℕ)
    (carry : Bool) {config : BannerConfig} {hard : ℕ}
    → config_for banner increment ≡ some config
    → hard_pity config ≡ some hard
    → state.pity_5star < hard
    → 1 ≤ copies
    → (result : ForecastResult) × (probability_of_success state
          (pos copies)
          (pos budget)
          banner
          increment
          carry
        ≡ answer result)
      × (length result.distribution ≡ copies + 1)
      × (sum result.distribution ≡ unit ^ result.read_at)
      × (result.probability ≡ get_or result.distribution copies 0)
      × (result.probability ≤ unit ^ result.read_at)
unfolding probability_of_success
probability_of_success_lem state copies budget banner increment carry {config} {hard} built at_hard
      lt some_copy =
    let (solution, done, is) =
      solve_banner state copies budget banner increment carry built at_hard lt some_copy in
    let guard : ltb_ℤ (pos copies) (pos 1) ≡ false = ground arith in
    let guard' : ltb_ℤ (pos budget) (pos 0) ≡ false = ground arith in
    (
      result_of (pos copies) (pos budget) banner solution,
      rw (guard, guard', built, done) refl,
      is.distribution.length_eq,
      is.distribution.whole,
      is.answered ∙ sym is.distribution.last,
      rw is.answered (is.curve.chance solution.read_at is.distribution.read),
    )
