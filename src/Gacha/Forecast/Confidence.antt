-- ===== src/Gacha/Forecast/Confidence.antt =====
-- The inverse question of agents/pity_engine/forecast.py: the pulls that a confidence needs.
use resin_compute.Base.{
  ℕ, zero, suc, ◌+◌, ◌≤◌, ◌<◌, ◌≡◌, refl, sym, ap, ◌∙◌, Bool, true, false, Option, some, List, [],
  ◌∷◌, arith, length, get_or, ◌⊎◌, inl, inr, Bool-cases,
}
use native.Mathlib.Nat.{add-zero}
use resin_compute.Base.Int.{pos, ltb_ℤ, leb_ℤ, ◌≤ℤ◌}
use resin_compute.Types.{BannerKind, PityState}
use resin_compute.Gacha.Banners.{BannerConfig, hard_pity}
use resin_compute.Gacha.Solve.{Answer, answer, value_error, ChainSolution, solve}
use resin_compute.Gacha.Forecast.{
  Fraction, config_for, reaches, first_reaching, pulls_needed_for_confidence,
}
use resin_compute.Gacha.Forecast.Success.{solve_banner}

-- What is said of an answer to "how many pulls": the first entry of the curve that reaches the
-- confidence, or an error where none does.
abbrev pub IsFirst : Fraction → List ℕ → Answer ℕ → Type 0
IsFirst confidence curve result =
    ((n : ℕ) × (result ≡ answer n)
      × (n < length curve)
      × (reaches confidence n (get_or curve n 0) ≡ true)
      × ((m : ℕ) → m < n → reaches confidence m (get_or curve m 0) ≡ false))
    ⊎ (result ≡ value_error)
      × ((m : ℕ) → m < length curve → reaches confidence m (get_or curve m 0) ≡ false)

-- The same for a curve whose first entry is that of pull t.
abbrev IsFirstFrom : Fraction → ℕ → List ℕ → Answer ℕ → Type 0
IsFirstFrom confidence t curve result =
    ((n : ℕ) × (result ≡ answer (t + n))
      × (n < length curve)
      × (reaches confidence (t + n) (get_or curve n 0) ≡ true)
      × ((m : ℕ) → m < n → reaches confidence (t + m) (get_or curve m 0) ≡ false))
    ⊎ (result ≡ value_error)
      × ((m : ℕ) → m < length curve → reaches confidence (t + m) (get_or curve m 0) ≡ false)

module _ (confidence : Fraction) where
  not_before :
      (t cumulative : ℕ) (curve : List ℕ) (n : ℕ)
      → reaches confidence t cumulative ≡ false
      → ((m : ℕ) → m < n → reaches confidence (t + 1 + m) (get_or curve m 0) ≡ false)
      → (m : ℕ) → m < suc n
      → reaches confidence (t + m) (get_or (cumulative ∷ curve) m 0) ≡ false
  not_before t cumulative curve n e h zero lt = rw (add-zero t) e
  not_before t cumulative curve n e h (suc m) lt =
      let shift : t + suc m ≡ t + 1 + m = omega arith in rw shift (h m (omega arith))

  first_reaching-IsFirstFrom :
      (t : ℕ) (curve : List ℕ) → IsFirstFrom confidence t curve (first_reaching confidence t curve)
  first_reaching-IsFirstFrom t [] = inr (refl, λ m lt. absurd (omega arith))
  first_reaching-IsFirstFrom t (cumulative ∷ curve) =
      elim (Bool-cases (reaches confidence t cumulative)) [
        | inl e ↦ rw e (
            inl (
              0,
              ap answer (sym (add-zero t)),
              omega arith,
              rw (add-zero t) e,
              λ m lt. absurd (omega arith),
            ))
        | inr e ↦ rw e (elim (first_reaching-IsFirstFrom (t + 1) curve) [
          | inl (n, found, lt, there, before) ↦
              let shift : t + suc n ≡ t + 1 + n = omega arith in
              inl (
                suc n,
                found ∙ ap answer (sym shift),
                omega arith,
                rw shift there,
                not_before t cumulative curve n e before,
              )
          | inr (none_found, never) ↦
              inr (none_found, not_before t cumulative curve (length curve) e never)
        ])
      ]

  first_reaching-IsFirst :
      (curve : List ℕ) → IsFirst confidence curve (first_reaching confidence 0 curve)
  first_reaching-IsFirst curve = elim (first_reaching-IsFirstFrom 0 curve) [
    | inl (n, found, lt, there, before) ↦
        let zero_add : (m : ℕ) → 0 + m ≡ m = λ m. omega arith in
        inl (
          n,
          rw (zero_add n) at found,
          lt,
          rw (zero_add n) at there,
          λ m p. rw (zero_add m) at (before m p),
        )
    | inr (none_found, never) ↦ inr (none_found, λ m p. rw (zero_add_lem m) at (never m p))
  ]
    where
      zero_add_lem : (m : ℕ) → 0 + m ≡ m
      zero_add_lem m = omega arith

-- For a confidence above zero and up to one, the answer is the least number of pulls whose chance on
-- the curve of the chain reaches the confidence, less the tolerance. A ValueError is raised only if no
-- entry of the curve does. The curve is the one that `solve` returns, for every banner whose table is
-- built, every state below the hard pity and one copy or more.
pub pulls_needed_for_confidence_lem :
    (state : PityState) (copies : ℕ) (confidence : Fraction) (banner : BannerKind)
    (increment : Option ℕ) (carry : Bool) {config : BannerConfig} {hard : ℕ}
    → config_for banner increment ≡ some config
    → hard_pity config ≡ some hard
    → state.pity_5star < hard
    → 1 ≤ copies
    → pos 1 ≤ℤ confidence.numerator
    → confidence.numerator ≤ℤ pos confidence.denominator
    → (solution : ChainSolution) × (solve config state (pos copies) (pos 0) carry ≡ answer solution)
      × IsFirst confidence solution.absorbed_by_pull
          (pulls_needed_for_confidence state (pos copies) confidence banner increment carry)
unfolding pulls_needed_for_confidence
pulls_needed_for_confidence_lem state copies confidence banner increment carry built at_hard lt
      some_copy some_num le =
    let (solution, done, is) =
      solve_banner state copies 0 banner increment carry built at_hard lt some_copy in
    let enough : ltb_ℤ (pos copies) (pos 1) ≡ false = ground arith in
    let positive : ltb_ℤ confidence.numerator (pos 0) ≡ false = ground arith in
    let inside : ltb_ℤ (pos confidence.denominator) confidence.numerator ≡ false = ground arith in
    let above : leb_ℤ confidence.numerator (pos 0) ≡ false = ground arith in
    (
      solution,
      done,
      rw (enough, positive, inside, above, built, done)
          (first_reaching-IsFirst confidence solution.absorbed_by_pull),
    )
