-- ===== src/Gacha/Solve.antt =====
-- agents/pity_engine/markov.py: `solve` around the loop over the pulls, and `pull_distribution`.
pub mod Grid
pub mod Rounds
pub mod Total
pub mod Kinds
pub mod Absorbed
use resin_compute.Base.{
  ℕ, zero, suc, ◌+◌, ◌-◌, ◌*◌, ◌^◌, min, max, Bool, true, false, Option, none, some, List, [], ◌∷◌,
  ◌++◌, length, take, replicate, get_or, ltb, leb, ◌==◌, if◌then◌else◌,
}
use resin_compute.Base.Int.{ℤ, pos, pos_part, ltb_ℤ}
use resin_compute.Types.{BannerKind, character_event, weapon_event, standard, chronicled, PityState}
use resin_compute.Gacha.Banners.{BannerConfig, hard_pity}
use resin_compute.Gacha.Markov.{
  unit, sum, Table, width, size, block, absorbed, marginal, apply_writes, Chain, run,
}

-- What a call gives: its value, or the exception that it raises.
pub data Answer {ℓ} (A : Type ℓ) : Type ℓ where
  answer : A → Answer A
  value_error : Answer A
  index_error : Answer A

-- The distribution and the probability count parts of `unit ^ read_at`. Entry t of `absorbed_by_pull`
-- counts parts of `unit ^ t`, and the expectation parts of `unit` to the number of the last pull.
pub record ChainSolution : Type 0 where
  pub distribution : List ℕ
  pub read_at : ℕ
  pub probability : ℕ
  pub expected_pulls : ℕ
  pub absorbed_by_pull : List ℕ

-- `_validate`, with the hard pity that it reads; `none` is a ValueError.
unfoldable pub validate : BannerConfig → PityState → (target_count pull_budget : ℤ) → Option ℕ
validate config state target_count pull_budget =
    if ltb_ℤ target_count (pos 1)
    then none
    else if ltb_ℤ pull_budget (pos 0)
    then none
    else elim (hard_pity config) [
      | none ↦ none
      | some hard ↦ if leb hard state.pity_5star then none else some hard
    ]

unfoldable pub initial_guarantee_bit : BannerKind → PityState → ℕ
initial_guarantee_bit weapon_event state = if leb 1 state.fate_points then 1 else 0
initial_guarantee_bit character_event state = if state.has_guarantee then 1 else 0
initial_guarantee_bit standard state = if state.has_guarantee then 1 else 0
initial_guarantee_bit chronicled state = if state.has_guarantee then 1 else 0

abbrev pub table_of : BannerConfig → (hard copies : ℕ) → (carry : Bool) → Table
table_of config hard copies carry = record {
  hazards = config.five_star;
  rate_up = config.rate_up;
  hard = hard;
  copies = copies;
  carry = carry;
}

-- The position of the state that the chain starts from.
abbrev pub start_position : BannerConfig → PityState → ℕ
start_position config state =
    let r0 = if config.capturing_radiance then min state.consecutive_5050_losses 3 else 0 in
    state.pity_5star * block + initial_guarantee_bit config.kind state * 4 + r0

-- The zeros with a one at the start; `none` is an IndexError.
unfoldable pub initial_grid : Table → BannerConfig → PityState → Option (List ℕ)
initial_grid t config state =
    apply_writes (replicate (size t) 0) ((start_position config state, 1) ∷ [])

abbrev pub initial_chain : Table → (pull_budget : ℕ) → List ℕ → Chain
initial_chain t pull_budget f = record {
  grid = f;
  pulls = 0;
  curve = absorbed t f ∷ [];
  distribution = if pull_budget == 0 then some (marginal t f, 0) else none;
}

abbrev pub max_steps : Table → (pull_budget : ℕ) → ℕ
max_steps t pull_budget = max pull_budget (2 * t.hard * t.copies)

-- `sum(1.0 - a for a in absorbed_by_pull)` from the entry of pull `t` on.
abbrev pub expected_from : (t total : ℕ) → List ℕ → ℕ
expected_from t total [] = total
expected_from t total (a ∷ curve) = expected_from (t + 1) (total * unit + (unit ^ t - a)) curve

abbrev read_or : List ℕ × ℕ → Option (List ℕ × ℕ) → List ℕ × ℕ
read_or last none = last
read_or last (some read) = read

-- The distribution that the loop has read, or the one of the last grid.
unfoldable pub read_of : Table → Chain → List ℕ × ℕ
read_of t s = read_or (marginal t s.grid, s.pulls) s.distribution

-- What follows the loop.
abbrev pub solution_of : Table → Chain → ChainSolution
solution_of t s = record {
  distribution = (read_of t s).0;
  read_at = (read_of t s).1;
  probability = get_or (read_of t s).0 t.copies 0;
  expected_pulls = expected_from 0 0 s.curve;
  absorbed_by_pull = s.curve;
}

unfoldable pub solve :
    BannerConfig
    → PityState
    → (target_count pull_budget : ℤ) → (carry : Bool) → Answer ChainSolution
solve config state target_count pull_budget carry =
    elim (validate config state target_count pull_budget) [
      | none ↦ value_error
      | some hard ↦
          let t = table_of config hard (pos_part target_count) carry in
          let budget = pos_part pull_budget in
          elim (initial_grid t config state) [
            | none ↦ index_error
            | some f ↦ elim (run t budget (max_steps t budget) (initial_chain t budget f)) [
              | none ↦ index_error
              | some s ↦ answer (solution_of t s)
            ]
          ]
    ]

-- The differences of neighbours: entry t, counted from `t`, counts parts of `unit ^ t`.
abbrev pub differences : List ℕ → List ℕ
differences [] = []
differences (a ∷ []) = []
differences (a ∷ b ∷ curve) = (b - unit * a) ∷ differences (b ∷ curve)

-- `pull_distribution`, with the source's default written as `none`.
unfoldable pub pull_distribution :
    BannerConfig → PityState → (max_pulls : Option ℤ) → (carry : Bool) → Answer (List ℕ)
pull_distribution config state max_pulls carry = elim (solve config state (pos 1) (pos 0) carry) [
  | value_error ↦ value_error
  | index_error ↦ index_error
  | answer solution ↦
      let mass = 0 ∷ differences solution.absorbed_by_pull in
      elim max_pulls [
        | none ↦ answer mass
        | some most ↦
            if ltb_ℤ most (pos 0)
            then value_error
            else let trimmed = take (pos_part most + 1) mass in
              answer (trimmed ++ replicate (pos_part most + 1 - length trimmed) 0)
      ]
]
