-- ===== src/Gacha/Timeline/Needed.antt =====
-- The confidence that a day of agents/pity_engine/timeline.py meets, told from its wallet alone.
use native.Mathlib.Nat.{pow-succ', mul-le-mul_left}
use resin_compute.Base.{
  ℕ, zero, suc, ◌+◌, ◌-◌, ◌*◌, ◌^◌, ◌≤◌, ◌<◌, ◌≡◌, ◌↔◌, sym, ◌∙◌, Bool, true, false, List, arith,
  length, get_or, leb, ltb, min,
}
use resin_compute.Base.Int.{pos, pos_part, ◌≤ℤ◌}
use resin_compute.Base.{Option, some, inl, inr, Bool-cases}
use resin_compute.Types.{BannerKind, PityState}
use resin_compute.Gacha.Banners.{BannerConfig, hard_pity}
use resin_compute.Gacha.Solve.{answer, ChainSolution, solve}
use resin_compute.Gacha.Forecast.{config_for, pulls_needed_for_confidence}
use resin_compute.Gacha.Forecast.Success.{solve_banner}
use resin_compute.Gacha.Forecast.Confidence.{IsFirst, pulls_needed_for_confidence_lem}
use resin_compute.Gacha.Timeline.{question, accrues, Chance, wallet, probability, meets}
use resin_compute.Gacha.Timeline.Accrual.{pulls_on, chance_on, wallet_on, probability_on}
use resin_compute.Gacha.Markov.{unit}
use resin_compute.Gacha.Solve.Rounds.{IsCurve}
use resin_compute.Gacha.Forecast.{Fraction, reaches}

leb-true : (a b : ℕ) → a ≤ b → leb a b ≡ true
leb-true a b h = ground arith

le_of_leb : (a b : ℕ) → leb a b ≡ true → a ≤ b
le_of_leb a b h = ground arith

-- What is reached by one entry is reached by the next one.
scaled : (u p a b n d e : ℕ) → u * a ≤ b → p * n ≤ a * d + p * e → u * p * n ≤ b * d + u * p * e
scaled u p a b n d e h k =
    let one : u * (p * n) ≤ u * (a * d + p * e) = mul-le-mul_left u k in
    let two : d * (u * a) ≤ d * b = mul-le-mul_left d h in omega (arith, one, two)

reaches_next :
    (confidence : Fraction) (t a b : ℕ)
    → unit * a ≤ b
    → reaches confidence t a ≡ true
    → reaches confidence (t + 1) b ≡ true
unfolding reaches
reaches_next confidence t a b h k =
    let e : t + 1 ≡ suc t = omega arith in
    rw (e, pow-succ' unit t)
      (leb-true _ _ (
        scaled unit (unit ^ t) a b (pos_part confidence.numerator * 10 ^ 12)
          (confidence.denominator * 10 ^ 12) confidence.denominator h (le_of_leb _ _ k)))

-- On a curve that never falls, an entry that reaches a confidence is followed only by such entries.
pub reaches_later :
    (confidence : Fraction) (curve : List ℕ) (t more : ℕ)
    → IsCurve curve
    → t + more < length curve
    → reaches confidence t (get_or curve t 0) ≡ true
    → reaches confidence (t + more) (get_or curve (t + more) 0) ≡ true
reaches_later confidence curve t zero is lt h = let e : t + 0 ≡ t = omega arith in rw e h
reaches_later confidence curve t (suc more) is lt h =
    let e : t + suc more ≡ t + more + 1 = omega arith in
    rw e (
      reaches_next confidence (t + more) _ _ (is.rising (t + more) (omega arith))
        (reaches_later confidence curve t more is (omega arith) h))

eq_of_answer {ℓ} : {A : Type ℓ} {a b : A} → answer a ≡ answer b → a ≡ b
eq_of_answer h = cc

not_true : (b : Bool) → b ≡ false → b ≡ true → ⊥
not_true b h k = cc

-- The entry read at a wallet reaches the confidence if the wallet holds the first one that does.
reaches_from :
    (confidence : Fraction) (curve : List ℕ) (n w : ℕ)
    → IsCurve curve
    → IsFirst confidence curve (answer n)
    → (reaches confidence (min w (length curve - 1)) (get_or curve (min w (length curve - 1)) 0)
        ≡ true)
      ↔ (n ≤ w)
reaches_from confidence curve n w is (inr (wrong, _)) = absurd (cc)
reaches_from confidence curve n w is (inl (m, same, lt, there, before)) =
    let e : n ≡ m = eq_of_answer same in
    let k : ℕ = min w (length curve - 1) in
    rw e (
      λ h. elim (Bool-cases (ltb k m)) [
        | inl early ↦ absurd (not_true _ (before k (ground arith)) h)
        | inr late ↦ ground arith
      ],
      λ le.
          let split : m + (k - m) ≡ k = omega arith in
          rw split at (reaches_later confidence curve m (k - m) is (omega arith) there),
    )

-- For a confidence above zero and up to one and a day by which the rate accrues a finite number of pulls,
-- the wallet and the probability of the day are answered, and the probability meets the confidence exactly
-- if the wallet holds the pulls that the confidence query answers, for every banner whose table is built,
-- every state below the hard pity, one copy or more and any pulls on hand.
pub meets_iff_needed :
    (state : PityState) (copies : ℕ) (confidence : Fraction) (banner : BannerKind)
    (increment : Option ℕ) (carry : Bool) (as_of on_hand : ℕ) (rate : Fraction) (d : ℕ)
    {config : BannerConfig} {hard needed : ℕ}
    → config_for banner increment ≡ some config
    → hard_pity config ≡ some hard
    → state.pity_5star < hard
    → 1 ≤ copies
    → pos 1 ≤ℤ confidence.numerator
    → confidence.numerator ≤ℤ pos confidence.denominator
    → accrues rate as_of d ≡ true
    → pulls_needed_for_confidence state (pos copies) confidence banner increment carry
      ≡ answer needed
    → (solution : ChainSolution) × (solve config state (pos copies) (pos 0) carry ≡ answer solution)
      × (let q = question solution confidence on_hand rate as_of in
          (pulls : ℕ) × (p : Chance) × (wallet q d ≡ answer pulls)
          × (probability q d ≡ answer p)
          × ((meets q p ≡ true) ↔ (needed ≤ pulls)))
meets_iff_needed state copies confidence banner increment carry as_of on_hand rate d {config} {hard}
      {needed} built at_hard lt some_copy some_num le finite known =
    let (solution, done, is) =
      solve_banner state copies 0 banner increment carry built at_hard lt some_copy in
    let (solution', done', first) =
      pulls_needed_for_confidence_lem state copies confidence banner increment carry built at_hard
        lt some_copy some_num le in
    let same : solution' ≡ solution = eq_of_answer (sym done' ∙ done) in
    let first' : IsFirst confidence solution.absorbed_by_pull (answer needed) =
      rw (known, same) at first in
    let q = question solution confidence on_hand rate as_of in
    (
      solution,
      done,
      (
        pulls_on q d,
        chance_on q d,
        wallet_on q d finite,
        probability_on q d finite,
        reaches_from confidence solution.absorbed_by_pull needed (pulls_on q d) is.curve first',
      ),
    )
