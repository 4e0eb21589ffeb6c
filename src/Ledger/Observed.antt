-- ===== src/Ledger/Observed.antt =====
-- The rarities that `apply_wish_batch` of core/ledger.py counts.
use resin_compute.Base.{
  ℕ, zero, suc, ◌<◌, ◌≡◌, refl, ◌∙◌, Option, none, some, List, [], ◌∷◌, ◌++◌, arith, ◌==◌, length,
  get_or, take, replicate, length-append, length-take, length-replicate, Bool-cases, inl, inr,
}
use resin_compute.Ledger.{observe}

-- One observation is kept for each pull.
pub length-observe :
    (pulls : ℕ) (rarities : Option (List ℕ)) → length (observe pulls rarities) ≡ pulls
unfolding observe
length-observe pulls none = length-replicate pulls 3
length-observe pulls (some rarities) = elim (Bool-cases (length rarities == pulls)) [
  | inl e ↦ rw e (ground arith)
  | inr e ↦ rw e (take_all pulls rarities)
]
  where
    take_all : (n : ℕ) (xs : List ℕ) → length (take n (xs ++ replicate n 3)) ≡ n
    take_all n xs = omega (
      arith,
      length-take n (xs ++ replicate n 3),
      length-append xs (replicate n 3),
      length-replicate n (suc (suc (suc zero))),
    )

-- The rarity that is counted for a pull: the one reported for it, and a 3-star where none is.
abbrev pub reported : Option (List ℕ) → ℕ → ℕ
reported none i = 3
reported (some rarities) i = get_or rarities i 3

get_or-replicate : (n i a : ℕ) → i < n → get_or (replicate n a) i 0 ≡ a
get_or-replicate zero i a lt = absurd (omega arith)
get_or-replicate (suc n) zero a lt = refl
get_or-replicate (suc n) (suc i) a lt = get_or-replicate n i a (omega arith)

get_or-take : (n i : ℕ) (xs : List ℕ) → i < n → get_or (take n xs) i 0 ≡ get_or xs i 0
get_or-take zero i xs lt = absurd (omega arith)
get_or-take (suc n) i [] lt = refl
get_or-take (suc n) zero (x ∷ xs) lt = refl
get_or-take (suc n) (suc i) (x ∷ xs) lt = get_or-take n i xs (omega arith)

get_or-padded : (n i : ℕ) (xs : List ℕ) → i < n → get_or (xs ++ replicate n 3) i 0 ≡ get_or xs i 3
get_or-padded n i [] lt = get_or-replicate n i 3 lt
get_or-padded n zero (x ∷ xs) lt = refl
get_or-padded n (suc i) (x ∷ xs) lt = get_or-padded n i xs (omega arith)

get_or-inside : (i : ℕ) (xs : List ℕ) → i < length xs → get_or xs i 0 ≡ get_or xs i 3
get_or-inside i [] lt = absurd (omega arith)
get_or-inside zero (x ∷ xs) lt = refl
get_or-inside (suc i) (x ∷ xs) lt = get_or-inside i xs (omega arith)

pub get_or-observe :
    (pulls : ℕ) (rarities : Option (List ℕ)) (i : ℕ)
    → i < pulls
    → get_or (observe pulls rarities) i 0 ≡ reported rarities i
unfolding observe
get_or-observe pulls none i lt = get_or-replicate pulls i 3 lt
get_or-observe pulls (some rarities) i lt = elim (Bool-cases (length rarities == pulls)) [
  | inl e ↦ rw e (get_or-inside i rarities (ground arith))
  | inr e ↦
      rw e
        (get_or-take pulls i (rarities ++ replicate pulls 3) lt ∙ get_or-padded pulls i rarities lt)
]
