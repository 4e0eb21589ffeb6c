-- ===== src/Gacha/Expected/Survival.antt =====
-- The expected number of wishes of agents/pity_engine/markov.py, as the chances that a run goes on.
use native.Mathlib.Nat.{pow-succ'}
use resin_compute.Base.{
  ℕ, zero, suc, ◌+◌, ◌-◌, ◌*◌, ◌^◌, ◌≤◌, ◌≡◌, refl, ap, ◌∙◌, some, List, [], ◌∷◌, ◌++◌, arith,
  length, All,
}
use resin_compute.Gacha.Banners.{certain}
use resin_compute.Gacha.Expected.{
  expected_rounds, positive, expected_wishes_per_five_star, consolidated_rate,
}
use resin_compute.Gacha.Markov.Writes.{All-append}

-- The sum, over the wishes of a table, of the chance that none before it was a 5-star, in parts of
-- `certain` to the number of wishes, from a chance `survival` on.
abbrev pub survivals : (survival : ℕ) → List ℕ → ℕ
survivals survival [] = 0
survivals survival (h ∷ hazards) =
    survival * certain ^ length (h ∷ hazards) + survivals (survival * (certain - h)) hazards

-- The chance that is left after the last wish.
abbrev pub left_over : (survival : ℕ) → List ℕ → ℕ
left_over survival [] = survival
left_over survival (h ∷ hazards) = left_over (survival * (certain - h)) hazards

left_over-zero : (hazards : List ℕ) → left_over 0 hazards ≡ 0
left_over-zero [] = refl
left_over-zero (h ∷ hazards) =
    ap (λ (s : ℕ). left_over s hazards) (omega arith) ∙ left_over-zero hazards

-- A table that ends with a hazard of one leaves nothing over.
pub left_over-certain :
    (survival : ℕ) (hazards : List ℕ) → left_over survival (hazards ++ certain ∷ []) ≡ 0
left_over-certain survival [] = omega arith
left_over-certain survival (h ∷ hazards) = left_over-certain (survival * (certain - h)) hazards

-- One round, with a the complement of the hazard.
round_sum :
    (m e s h a : ℕ)
    → h + a ≡ 1000
    → e * 1000 + (m + 1) * s * h + (m + 1) * (s * a) ≡ (e + m * s) * 1000 + s * 1000
round_sum m e s h a k = omega (arith, ap (λ (x : ℕ). (m + 1) * s * x) k)

rounds-survivals :
    (m e s : ℕ) (hazards : List ℕ)
    → All (λ h. h ≤ certain) hazards
    → expected_rounds (m + 1) e s hazards + (m + length hazards) * left_over s hazards
      ≡ (e + m * s) * certain ^ length hazards + survivals s hazards
unfolding expected_rounds
rounds-survivals m e s [] bound = let z : m + 0 ≡ m = omega arith in rw z (omega arith)
rounds-survivals m e s (h ∷ hazards) bound =
    let a : ℕ = 1000 - h in
    let p : ℕ = 1000 ^ length hazards in
    let power : 1000 ^ suc (length hazards) ≡ 1000 * p = pow-succ' 1000 (length hazards) in
    let rest = rounds-survivals (m + 1) (e * 1000 + (m + 1) * s * h) (s * a) hazards bound.1 in
    let one = ap (λ (x : ℕ). x * p) (round_sum m e s h a (omega (arith, bound.0))) in
    let shift : m + 1 + length hazards ≡ m + suc (length hazards) = omega arith in
    rw power (rw shift at rest ∙ ap (λ (x : ℕ). x + survivals (s * a) hazards) one ∙ omega arith)

some_power : (n : ℕ) → 1 ≤ 1000 ^ n
some_power zero = omega arith
some_power (suc n) = rw (pow-succ' 1000 n) (omega (arith, some_power n))

positive-some : (n whole : ℕ) → 1 ≤ n → positive n whole ≡ some (n, whole)
positive-some zero whole h = absurd (omega arith)
positive-some (suc n) whole h = refl

-- For a table of hazards up to one that ends with a hazard of one, the expected number of wishes is the
-- sum over the wishes of the chance that none before it was a 5-star, and the consolidated rate is its
-- reciprocal.
pub expected_wishes_survival :
    (first : ℕ) (hazards : List ℕ)
    → All (λ h. h ≤ certain) hazards
    → let table = hazards ++ certain ∷ [] in
      (expected_wishes_per_five_star (first ∷ table)
        ≡ some (survivals 1 table, certain ^ length table))
      × (consolidated_rate (first ∷ table) ≡ some (certain ^ length table, survivals 1 table))
unfolding consolidated_rate expected_wishes_per_five_star
expected_wishes_survival first hazards bound =
    (found hazards bound, rw (found hazards bound, consolidated_rate) refl)
  where
    rounds :
        (hs : List ℕ)
        → All (λ h. h ≤ certain) hs
        → expected_rounds 1 0 1 (hs ++ certain ∷ []) ≡ survivals 1 (hs ++ certain ∷ [])
    rounds hs b =
        let all : All (λ h. h ≤ certain) (hs ++ certain ∷ []) =
          All-append (λ h. h ≤ certain) hs (certain ∷ []) b (omega arith, tt) in
        let sum = rounds-survivals 0 0 1 (hs ++ certain ∷ []) all in
        let none_left : (0 + length (hs ++ certain ∷ [])) * left_over 1 (hs ++ certain ∷ []) ≡ 0 =
          rw (left_over-certain 1 hs) (omega arith) in
        omega (arith, sum, none_left)

    found :
        (hs : List ℕ)
        → All (λ h. h ≤ certain) hs
        → expected_wishes_per_five_star (first ∷ (hs ++ certain ∷ []))
          ≡ some (survivals 1 (hs ++ certain ∷ []), certain ^ length (hs ++ certain ∷ []))
    found [] b = rw (rounds [] b) (positive-some _ _ (omega (arith, some_power 1)))
    found (h ∷ hs) b =
        rw (rounds (h ∷ hs) b)
          (positive-some _ _ (omega (arith, some_power (suc (length (hs ++ certain ∷ []))))))
