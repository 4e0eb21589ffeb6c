-- ===== src/Gacha/Expected.antt =====
-- agents/pity_engine/markov.py: `expected_wishes_per_five_star` and `consolidated_rate`, as fractions
-- over a power of `certain`.
pub mod Survival
use resin_compute.Base.{
  ℕ, zero, suc, ◌+◌, ◌-◌, ◌*◌, ◌^◌, Bool, Option, none, some, List, [], ◌∷◌, length, ltb, ◌==◌,
  if◌then◌else◌,
}
use resin_compute.Gacha.Banners.{certain}

-- The loop over the pity counts from n on. After each round both sums count parts of `certain` times
-- what they counted before.
unfoldable pub expected_rounds : (n expected survival : ℕ) → List ℕ → ℕ
expected_rounds n expected survival [] = expected
expected_rounds n expected survival (h ∷ hazards) =
    expected_rounds (n + 1) (expected * certain + n * survival * h) (survival * (certain - h))
      hazards

abbrev positive : ℕ → ℕ → Option (ℕ × ℕ)
positive zero whole = none
positive (suc n) whole = some (suc n, whole)

-- A numerator and a denominator; `none` is a ValueError. Position 0 of the table is no pity count.
unfoldable pub expected_wishes_per_five_star : List ℕ → Option (ℕ × ℕ)
expected_wishes_per_five_star [] = none
expected_wishes_per_five_star (_ ∷ []) = none
expected_wishes_per_five_star (_ ∷ h ∷ hazards) =
    positive (expected_rounds 1 0 1 (h ∷ hazards)) (certain ^ length (h ∷ hazards))

unfoldable pub consolidated_rate : List ℕ → Option (ℕ × ℕ)
consolidated_rate table = elim (expected_wishes_per_five_star table) [
  | none ↦ none
  | some (wishes, whole) ↦ some (whole, wishes)
]
