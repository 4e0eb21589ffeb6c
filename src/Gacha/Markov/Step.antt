-- ===== src/Gacha/Markov/Step.antt =====
-- One pull of the chain of agents/pity_engine/markov.py: no write misses the grid, and no mass is lost.
use native.Mathlib.Decide.{ℕ_discrete}
use resin_compute.Base.{
  ℕ, zero, ◌+◌, ◌*◌, ◌≤◌, ◌<◌, ◌≡◌, ◌∙◌, some, List, arith, length, get_or, All, ltb, ◌&&◌,
  if◌then◌else◌, min, replicate, length-replicate,
}
use resin_compute.Gacha.Banners.{certain}
use resin_compute.Gacha.Markov.{
  Table, width, size, guaranteed, losses_of, cell_writes, missed_at, won_at, lost_at, hazard_at,
  branch_of, position, absorbed_writes, all_writes, step,
}
use resin_compute.Gacha.Markov.Writes.{
  weigh, weigh_writes, apply_writes_lem, All-append, All-gather, weigh-zeros,
}
use resin_compute.Gacha.Markov.Cells.{IsSound, All-split_writes}

-- Positions stay inside the rows they are built from.
row_bound : (k n w x : ℕ) → k < n → x < w → k * w + x < n * w
row_bound k n w x p q = grind arith

pub position_bound :
    (t : Table) (k c j : ℕ) → k ≤ t.copies → c < t.hard → j < 8 → position t k c j < size t
position_bound t k c j kn ch j8 =
    let inner : c * 8 + j < width t = row_bound c t.hard 8 j ch j8 in
    let outer : k * width t + (c * 8 + j) < size t =
      row_bound k (t.copies + 1) (width t) (c * 8 + j) (omega arith) inner in
    omega (arith, outer)

-- Where the writes of a state land.
module _ (t : Table) (sound : IsSound t) (k c j : ℕ) (kn : k < t.copies) (ch : c < t.hard)
    (j8 : j < 8) where
  next_pity : hazard_at t c < certain → c + 1 < t.hard
  next_pity p = elim (ℕ_discrete (c + 1) t.hard) [
    | yes e ↦ absurd (omega (arith, sound.last c e))
    | no ne ↦ omega arith
  ]

  pub missed_at_lem : missed_at t k c j ≡ position t k (c + 1) j
  missed_at_lem = omega arith

  pub won_at_lem : (r : ℕ) × (r < 4) × (won_at t k j ≡ position t (k + 1) 0 r)
  won_at_lem = (
    (if t.carry && guaranteed j then losses_of j else 0),
    ground arith,
    (let e : min (k + 1) t.copies ≡ k + 1 = omega arith in rw e (omega arith)),
  )

  pub lost_at_lem : (r : ℕ) × (4 ≤ r) × (r < 8) × (lost_at t k j ≡ position t k 0 r)
  lost_at_lem = (
    4 + (if ltb (losses_of j) 3 then losses_of j + 1 else 3),
    ground arith,
    ground arith,
    omega arith,
  )

  cell-bound : (m : ℕ) → All (λ w. w.0 < size t) (cell_writes t k c j m)
  unfolding cell_writes
  cell-bound m =
      let (r, r4, won) = won_at_lem in
      let (r', _, r8, lost) = lost_at_lem in
      All-split_writes _ m (hazard_at t c) (branch_of t j) _ _ _
        (λ _ p. rw missed_at_lem (position_bound t k (c + 1) j (omega arith) (next_pity p) j8))
        (λ _ _. rw won (
          position_bound t (k + 1) 0 r (omega arith) (omega (arith, sound.some_pity))
            (omega arith)))
        (λ _ _ _.
          rw lost (position_bound t k 0 r' (omega arith) (omega (arith, sound.some_pity)) r8))

all_writes-bound : (t : Table) (f : List ℕ) → IsSound t → All (λ w. w.0 < size t) (all_writes t f)
unfolding all_writes absorbed_writes
all_writes-bound t f sound =
    All-append _ _ _
      (All-gather _ t.copies _ (λ k kn. All-gather _ t.hard _ (λ c ch.
        All-gather _ 8 _
          (λ j j8. cell-bound t sound k c j kn ch j8 (get_or f (position t k c j) 0)))))
      (All-gather _ (width t) _
        (λ i lt. (omega (arith, row_bound t.copies (t.copies + 1) (width t) i), tt)))

-- One pull on a grid of the right size finds every position that it writes, and weighs what it wrote.
pub step-weigh :
    (t : Table) (f : List ℕ)
    → IsSound t
    → (f' : List ℕ) × (step t f ≡ some f')
      × (length f' ≡ size t)
      × ((g : ℕ → ℕ) → weigh g 0 f' ≡ weigh_writes g (all_writes t f))
unfolding step
step-weigh t f sound =
    let zeros = replicate (size t) 0 in
    let same : length zeros ≡ size t = length-replicate (size t) zero in
    let (f', done, kept, weighed) =
      apply_writes_lem (all_writes t f) zeros (rw same (all_writes-bound t f sound)) in
    (f', done, kept ∙ same, λ g. omega (arith, weighed g, weigh-zeros g 0 (size t)))
