-- ===== src/Gacha/Markov/Cells.antt =====
-- One state of the chain of agents/pity_engine/markov.py: where its writes land and what they weigh.
use resin_compute.Base.{
  ℕ, ◌+◌, ◌-◌, ◌*◌, ◌≤◌, ◌<◌, ◌≡◌, ◌≢◌, refl, ap, ◌∙◌, Bool, true, false, List, [], ◌++◌, arith,
  get_or, All, ltb, ◌==◌, if◌then◌else◌, ◌⊎◌, inl, inr, Bool-cases,
}
use resin_compute.Gacha.Banners.{certain, sure}
use resin_compute.Gacha.Markov.{
  Table, unit, guaranteed, losses_of, cell_writes, split_writes, write_if, hazard_at, branch_of,
}
use resin_compute.Gacha.Markov.Writes.{weigh_writes, All-append}

-- What the hazards and the branch rule must be: the hazard is one where the pity runs out and never
-- more, a branch never has a chance above one, and a guaranteed branch is sure.
pub record IsSound (t : Table) : Type 0 where
  pub some_pity : 1 ≤ t.hard
  pub clipped : (c : ℕ) → c < t.hard → get_or t.hazards (c + 1) 0 ≤ certain
  pub last : (c : ℕ) → c + 1 ≡ t.hard → get_or t.hazards (c + 1) 0 ≡ certain
  pub likely : (g : Bool) (r : ℕ) → t.rate_up g r ≤ sure
  pub kept : (r : ℕ) → t.rate_up true r ≡ sure

weigh_write_if :
    (g : ℕ → ℕ) (test : Bool) (i v : ℕ) (ws : List (ℕ × ℕ))
    → (test ≡ false → v ≡ 0)
    → weigh_writes g (write_if test i v ++ ws) ≡ g i * v + weigh_writes g ws
weigh_write_if g true i v ws h = refl
weigh_write_if g false i v ws h = let e : v ≡ 0 = h refl in rw e (omega arith)

no_product : (a b c : ℕ) → (a ≡ 0) ⊎ (b ≡ 0) → a * b * c ≡ 0
no_product a b c (inl e) = rw e (omega arith)
no_product a b c (inr e) = rw e (omega arith)

no_factor : (a b c : ℕ) → c ≡ 0 → a * b * c ≡ 0
no_factor a b c e = rw e (omega arith)

weigh_write_one :
    (g : ℕ → ℕ) (test : Bool) (i v : ℕ)
    → (test ≡ false → v ≡ 0)
    → weigh_writes g (write_if test i v) ≡ g i * v
weigh_write_one g true i v h = omega arith
weigh_write_one g false i v h = let e : v ≡ 0 = h refl in rw e (omega arith)

-- A write that is left out would have added nothing.
pub weigh-split_writes :
    (g : ℕ → ℕ) (m h w missed won lost : ℕ)
    → weigh_writes g (split_writes m h w missed won lost)
      ≡ g missed * (m * (certain - h) * sure)
        + (g won * (m * h * w) + g lost * (m * h * (sure - w)))
unfolding split_writes
weigh-split_writes g m h w missed won lost = elim (Bool-cases (m == 0)) [
  | inl e ↦ rw e (let z : m ≡ 0 = ground arith in rw z (omega arith))
  | inr e ↦ rw e (
      weigh_write_if g (ltb 0 (certain - h)) missed _ _
        (λ f. no_product m (certain - h) sure (inr (ground arith)))
      ∙ ap (λ x. g missed * (m * (certain - h) * sure) + x) (rest (Bool-cases (h == 0))))
]
  where
    rest :
        (((h == 0) ≡ true) ⊎ ((h == 0) ≡ false))
        → weigh_writes g (
            if h == 0
            then []
            else write_if (ltb 0 w) won (m * h * w)
              ++ write_if (ltb w sure) lost (m * h * (sure - w)))
          ≡ g won * (m * h * w) + g lost * (m * h * (sure - w))
    rest (inl e) = rw e (
        let z : h ≡ 0 = ground arith in
        omega (
          arith,
          ap (λ (x : ℕ). g won * x) (no_h w z),
          ap (λ (x : ℕ). g lost * x) (no_h (sure - w) z),
        ))
      where
        no_h : (v : ℕ) → h ≡ 0 → m * h * v ≡ 0
        no_h v z = no_product m h v (inr z)
    rest (inr e) = rw e (
        weigh_write_if g (ltb 0 w) won _ _ (λ f. no_factor m h w (ground arith))
        ∙ ap (λ x. g won * (m * h * w) + x)
            (weigh_write_one g (ltb w sure) lost _ (λ f. no_factor m h (sure - w) (ground arith))))

pub All-split_writes :
    (P : ℕ × ℕ → Type 0) (m h w missed won lost : ℕ)
    → (m ≢ 0 → h < certain → P (missed, m * (certain - h) * sure))
    → (m ≢ 0 → h ≢ 0 → P (won, m * h * w))
    → (m ≢ 0 → h ≢ 0 → w < sure → P (lost, m * h * (sure - w)))
    → All P (split_writes m h w missed won lost)
unfolding split_writes
All-split_writes P m h w missed won lost p q r = elim (Bool-cases (m == 0)) [
  | inl e ↦ rw e tt
  | inr e ↦ rw e (
      let full : m ≢ 0 = ground arith in
      All-append P (write_if (ltb 0 (certain - h)) missed _) _
        (one (ltb 0 (certain - h)) _ _ (λ t. p full (ground arith)))
        (elim (Bool-cases (h == 0)) [
          | inl e' ↦ rw e' tt
          | inr e' ↦ rw e' (
              let some_h : h ≢ 0 = ground arith in
              All-append P (write_if (ltb 0 w) won _) _ (one (ltb 0 w) _ _ (λ t. q full some_h))
                (one (ltb w sure) _ _ (λ t. r full some_h (ground arith))))
        ]))
]
  where
    one : (test : Bool) (i v : ℕ) → (test ≡ true → P (i, v)) → All P (write_if test i v)
    one true i v h = (h refl, tt)
    one false i v h = tt

-- The whole mass of a state is written, as a win, a loss or a pull without a 5-star.
split_mass :
    (m h w a b : ℕ)
    → h + a ≡ 1000
    → w + b ≡ 100_000
    → m * a * 100_000 + (m * h * w + m * h * b) ≡ m * 100_000_000
split_mass m h w a b p q =
    omega (arith, ap (λ (t : ℕ). m * h * t) q, ap (λ (t : ℕ). m * t * 100_000) p)

pub cell-mass :
    (t : Table) (k c j m : ℕ)
    → IsSound t
    → c < t.hard
    → weigh_writes (λ _. 1) (cell_writes t k c j m) ≡ m * unit
unfolding cell_writes
cell-mass t k c j m sound lt =
    let h = hazard_at t c in
    let w = branch_of t j in
    weigh-split_writes (λ _. 1) m h w _ _ _
    ∙ omega (
      arith,
      split_mass m h w (certain - h) (sure - w) (omega (arith, sound.clipped c lt))
          (omega (arith, sound.likely (guaranteed j) (losses_of j))),
    )
