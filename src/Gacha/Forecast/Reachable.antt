-- ===== src/Gacha/Forecast/Reachable.antt =====
-- Every confidence up to one is reached: the query of agents/pity_engine/forecast.py always answers.
use native.Mathlib.Nat.{mul-le-mul_right, mul-le-mul_left}
use resin_compute.Base.{
  ℕ, ◌+◌, ◌-◌, ◌*◌, ◌^◌, ◌≤◌, ◌<◌, ◌≡◌, inl, inr, sym, ◌∙◌, Bool, true, false, Option, some, arith,
  get_or, leb, eq_of_some,
}
use resin_compute.Base.Int.{pos, pos_part, ◌≤ℤ◌}
use resin_compute.Types.{BannerKind, PityState}
use resin_compute.Gacha.Banners.{BannerConfig, hard_pity}
use resin_compute.Gacha.Markov.{unit, nearly_absorbed}
use resin_compute.Gacha.Solve.{answer}
use resin_compute.Gacha.Solve.Absorbed.{solve-IsAbsorbed}
use resin_compute.Gacha.Forecast.{Fraction, config_for, reaches, pulls_needed_for_confidence}
use resin_compute.Gacha.Forecast.Success.{config_for-IsConfig}
use resin_compute.Gacha.Forecast.Confidence.{pulls_needed_for_confidence_lem}

near_products :
    (u a n d : ℕ)
    → (10 ^ 15 - 1) * u ≤ a * 10 ^ 15
    → n ≤ d
    → u * (n * 10 ^ 12) ≤ a * (d * 10 ^ 12) + u * d
near_products u a n d h k =
    let one : (10 ^ 15 - 1) * u * d ≤ a * 10 ^ 15 * d = mul-le-mul_right d h in
    let two : u * n ≤ u * d = mul-le-mul_left u k in omega (arith, one, two)

-- What is all but absorbed reaches every confidence up to one.
reaches_near :
    (confidence : Fraction) (t a : ℕ)
    → confidence.numerator ≤ℤ pos confidence.denominator
    → nearly_absorbed a t ≡ true
    → reaches confidence t a ≡ true
unfolding reaches
reaches_near confidence t a le h = leb-true _ _ (
    near_products (unit ^ t) a (pos_part confidence.numerator) confidence.denominator
      (le_of_leb _ _ h) (ground arith))
  where
    leb-true : (a b : ℕ) → a ≤ b → leb a b ≡ true
    leb-true a b h = ground arith

    le_of_leb : (a b : ℕ) → leb a b ≡ true → a ≤ b
    le_of_leb a b h = ground arith

eq_of_answer {ℓ} : {A : Type ℓ} {a b : A} → answer a ≡ answer b → a ≡ b
eq_of_answer h = cc

clash : (b : Bool) → b ≡ true → b ≡ false → ⊥
clash b h k = cc

-- For a confidence above zero and up to one, every banner whose table is built, every state below the
-- hard pity and one copy or more, the query answers, and it never asks for more pulls than two hard
-- pities for each copy.
pub pulls_needed_total :
    (state : PityState) (copies : ℕ) (confidence : Fraction) (banner : BannerKind)
    (increment : Option ℕ) (carry : Bool) {config : BannerConfig} {hard : ℕ}
    → config_for banner increment ≡ some config
    → hard_pity config ≡ some hard
    → state.pity_5star < hard
    → 1 ≤ copies
    → pos 1 ≤ℤ confidence.numerator
    → confidence.numerator ≤ℤ pos confidence.denominator
    → (n : ℕ) × (pulls_needed_for_confidence state (pos copies) confidence banner increment carry
        ≡ answer n)
      × (n ≤ 2 * hard * copies)
pulls_needed_total state copies confidence banner increment carry {config} {hard} built at_hard lt
      some_copy some_num le =
    let (hard', is) = config_for-IsConfig banner increment built in
    let same_hard : hard' ≡ hard = eq_of_some (sym is.hard_pity_eq ∙ at_hard) in
    let is' = rw same_hard at is in
    let (solution, done, _, end) = solve-IsAbsorbed config state copies 0 carry is' lt some_copy in
    let (solution', done', first) =
      pulls_needed_for_confidence_lem state copies confidence banner increment carry built at_hard
        lt some_copy some_num le in
    let same : solution' ≡ solution = eq_of_answer (sym done' ∙ done) in
    let reached =
      reaches_near confidence end.pulls (get_or solution.absorbed_by_pull end.pulls 0) le
        end.near in
    elim (rw same at first) [
      | inl (n, answered, inside, there, before) ↦
          (n, answered, omega (arith, inside, end.entries, end.bounded))
      | inr (_, never) ↦ absurd (clash _ reached (never end.pulls (omega (arith, end.entries))))
    ]
