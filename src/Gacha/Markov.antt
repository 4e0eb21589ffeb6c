-- ===== src/Gacha/Markov.antt =====
-- agents/pity_engine/markov.py: the absorbing chain over copies, pity, guarantee and losses, on its flat
-- grid. The grid after t pulls counts parts of `unit ^ t`. The source's loops over the cells are lists
-- of writes in their order; a write past the end of the grid is Python's IndexError.
pub mod Writes
pub mod Cells
pub mod Step
pub mod Mass
pub mod Horizon
pub mod Absorbing
use resin_compute.Base.{
  ℕ, zero, suc, ◌+◌, ◌-◌, ◌*◌, ◌/◌, ◌%◌, ◌^◌, min, max, Bool, true, false, not, ◌&&◌, Option, none,
  some, List, [], ◌∷◌, ◌++◌, length, take, drop, replicate, get_or, ltb, leb, ◌==◌, if◌then◌else◌,
}
use resin_compute.Base.Int.{ℤ, pos, pos_part, neg_part, ltb_ℤ}
use resin_compute.Types.{BannerKind, weapon_event}
use resin_compute.Gacha.Banners.{BannerConfig, hard_pity, certain, sure}

-- What one pull multiplies the parts by: a hazard and a branch.
abbrev pub unit : ℕ
unit = certain * sure

-- Each state block is (guarantee in 0..1) x (losses in 0..3).
abbrev pub block : ℕ
block = 8

abbrev pub sum : List ℕ → ℕ
sum [] = 0
sum (x ∷ xs) = x + sum xs

-- `nf[i] += v`
abbrev pub add_at : List ℕ → ℕ → ℕ → Option (List ℕ)
add_at [] i v = none
add_at (x ∷ xs) zero v = some ((x + v) ∷ xs)
add_at (x ∷ xs) (suc i) v = elim (add_at xs i v) [ none ↦ none | some ys ↦ some (x ∷ ys) ]

unfoldable pub apply_writes : List ℕ → List (ℕ × ℕ) → Option (List ℕ)
apply_writes nf [] = some nf
apply_writes nf ((i, v) ∷ ws) = elim (add_at nf i v) [
  | none ↦ none
  | some nf' ↦ apply_writes nf' ws
]

-- `for i in range(n)`, gathering what the body gives.
unfoldable pub gather {ℓ} : {A : Type ℓ} → ℕ → (ℕ → List A) → List A
gather zero body = []
gather (suc n) body = gather n body ++ body n

-- What the loops read besides the grid.
pub record Table : Type 0 where
  pub hazards : List ℕ
  pub rate_up : Bool → ℕ → ℕ
  pub hard : ℕ
  pub copies : ℕ
  pub carry : Bool

abbrev pub width : Table → ℕ
width t = t.hard * block

abbrev pub size : Table → ℕ
size t = (t.copies + 1) * width t

-- `j >> 2` is the guarantee bit and `j & 3` the losses.
abbrev pub guaranteed : ℕ → Bool
guaranteed j = leb 4 j

abbrev pub losses_of : ℕ → ℕ
losses_of j = j % 4

-- `if test: nf[i] += v`
abbrev pub write_if : Bool → ℕ → ℕ → List (ℕ × ℕ)
write_if test i v = if test then (i, v) ∷ [] else []

-- The writes of a state of some mass, by the hazard `h` of the pull and the chance `w` of the branch,
-- at the positions of the state after no 5-star, after a win and after a loss.
unfoldable pub split_writes : (mass h w missed won lost : ℕ) → List (ℕ × ℕ)
split_writes mass h w missed won lost =
    let miss = certain - h in
    if mass == 0
    then []
    else write_if (ltb 0 miss) missed (mass * miss * sure)
      ++ (if h == 0
          then []
          else write_if (ltb 0 w) won (mass * h * w)
            ++ write_if (ltb w sure) lost (mass * h * (sure - w)))

-- `k_base + c * _BLOCK + j`
abbrev pub position : Table → (k c j : ℕ) → ℕ
position t k c j = k * width t + c * block + j

abbrev pub missed_at : Table → (k c j : ℕ) → ℕ
missed_at t k c j = k * width t + c * block + block + j

abbrev pub won_at : Table → (k j : ℕ) → ℕ
won_at t k j = min (k + 1) t.copies * width t + (if t.carry && guaranteed j then losses_of j else 0)

abbrev pub lost_at : Table → (k j : ℕ) → ℕ
lost_at t k j = k * width t + 4 + (if ltb (losses_of j) 3 then losses_of j + 1 else 3)

abbrev pub hazard_at : Table → ℕ → ℕ
hazard_at t c = get_or t.hazards (c + 1) 0

abbrev pub branch_of : Table → ℕ → ℕ
branch_of t j = t.rate_up (guaranteed j) (losses_of j)

-- The writes for one state: k copies, pity c and the slot j of its block.
unfoldable pub cell_writes : Table → (k c j mass : ℕ) → List (ℕ × ℕ)
cell_writes t k c j mass =
    split_writes mass (hazard_at t c) (branch_of t j) (missed_at t k c j) (won_at t k j)
      (lost_at t k j)

unfoldable pub absorbed_writes : Table → List ℕ → List (ℕ × ℕ)
absorbed_writes t f =
    gather (width t)
      (λ i. (t.copies * width t + i, get_or f (t.copies * width t + i) 0 * unit) ∷ [])

unfoldable pub all_writes : Table → List ℕ → List (ℕ × ℕ)
all_writes t f =
    gather t.copies (λ k.
      gather t.hard (λ c. gather block (λ j. cell_writes t k c j (get_or f (position t k c j) 0))))
    ++ absorbed_writes t f

-- One pull.
unfoldable pub step : Table → List ℕ → Option (List ℕ)
step t f = apply_writes (replicate (size t) 0) (all_writes t f)

abbrev pub absorbed : Table → List ℕ → ℕ
absorbed t f = sum (drop (t.copies * width t) f)

-- The chances of 0, 1, … copies.
unfoldable pub marginal : Table → List ℕ → List ℕ
marginal t f = gather (t.copies + 1) (λ k. sum (take (width t) (drop (k * width t) f)) ∷ [])

-- `_ABSORB_EPS` is one part in 10 ^ 15.
abbrev pub nearly_absorbed : (mass pulls : ℕ) → Bool
nearly_absorbed mass pulls = leb ((10 ^ 15 - 1) * unit ^ pulls) (mass * 10 ^ 15)

-- The variables of the loop over the pulls. The curve and the distribution hold numerators: entry t of
-- the curve counts parts of `unit ^ t`, and the distribution comes with the pulls it was read at.
pub record Chain : Type 0 where
  pub grid : List ℕ
  pub pulls : ℕ
  pub curve : List ℕ
  pub distribution : Option (List ℕ × ℕ)

-- The loop with the rounds up to `max_steps`; `none` is an IndexError.
unfoldable pub run : Table → (budget left : ℕ) → Chain → Option Chain
run t budget zero s = some s
run t budget (suc left) s =
    if nearly_absorbed (absorbed t s.grid) s.pulls then some s else elim (step t s.grid) [
      | none ↦ none
      | some grid ↦ run t budget left (record {
        grid = grid;
        pulls = s.pulls + 1;
        curve = s.curve ++ absorbed t grid ∷ [];
        distribution =
            if s.pulls + 1 == budget then some (marginal t grid, s.pulls + 1) else s.distribution;
      })
    ]
