-- ===== src/Gacha/Solve/Absorbed.antt =====
-- `solve` of agents/pity_engine/markov.py runs until the target is all but certain.
use resin_compute.Base.{
  ℕ, zero, suc, ◌+◌, ◌-◌, ◌*◌, ◌^◌, ◌≤◌, ◌<◌, ◌≡◌, ◌⊎◌, inl, inr, refl, ◌∙◌, Bool, true, some, List,
  arith, length, get_or, leb, max, Bool-cases,
}
use resin_compute.Base.Int.{pos}
use resin_compute.Types.{PityState}
use resin_compute.Gacha.Banners.{BannerConfig}
use resin_compute.Gacha.Markov.{unit, Table, absorbed, nearly_absorbed, Chain, run}
use resin_compute.Gacha.Markov.Writes.{weigh, weigh-below}
use resin_compute.Gacha.Markov.Cells.{IsSound}
use resin_compute.Gacha.Markov.Step.{step-weigh}
use resin_compute.Gacha.Markov.Horizon.{late, late_start, deadline}
use resin_compute.Gacha.Markov.Absorbing.{step-late, absorbed_whole, below_zeros}
use resin_compute.Gacha.Solve.{
  answer, ChainSolution, table_of, initial_chain, max_steps, solution_of, solve,
}
use resin_compute.Gacha.Solve.Rounds.{IsChain}
use resin_compute.Gacha.Solve.Total.{
  IsConfig, IsSolution, table_of-IsSound, initial_grid_lem, initial_chain-IsChain, next_chain,
  next_chain-IsChain, validate_lem, read_of-IsDistribution,
}

-- The loop ends because the target is all but certain, or at its bound; no state holds mass late.
record IsDone (t : Table) (bound : ℕ) (s : Chain) : Type 0 where
  chain : IsChain t s
  on_time : weigh (late t s.pulls) 0 s.grid ≡ 0
  bounded : s.pulls ≤ bound
  ended : (nearly_absorbed (absorbed t s.grid) s.pulls ≡ true) ⊎ (s.pulls ≡ bound)

run-IsDone :
    (t : Table) (budget left : ℕ) (s : Chain)
    → IsSound t
    → IsChain t s
    → weigh (late t s.pulls) 0 s.grid ≡ 0
    → (s' : Chain) × (run t budget left s ≡ some s') × IsDone t (s.pulls + left) s'
unfolding run
run-IsDone t budget zero s sound is on_time = (
  s,
  refl,
  record { chain = is; on_time = on_time; bounded = omega arith; ended = inr (omega arith) },
)
run-IsDone t budget (suc left) s sound is on_time =
    elim (Bool-cases (nearly_absorbed (absorbed t s.grid) s.pulls)) [
      | inl e ↦
          rw e (
            s,
            refl,
            record { chain = is; on_time = on_time; bounded = omega arith; ended = inl e },
          )
      | inr e ↦
          let (grid, done, fits, _) = step-weigh t s.grid sound in
          let shift : s.pulls + 1 + left ≡ s.pulls + suc left = omega arith in
          let rest =
            run-IsDone t budget left (next_chain t budget s grid) sound
              (next_chain-IsChain t budget s sound is fits done)
              (step-late t sound s.pulls s.grid is.fits on_time done) in
          rw (e, done) (rw shift at rest)
    ]

-- All the mass is more than all but one part in 10 ^ 15 of it.
nearly_whole : (mass pulls : ℕ) → mass ≡ unit ^ pulls → nearly_absorbed mass pulls ≡ true
nearly_whole mass pulls e = rw e (all_but (unit ^ pulls))
  where
    all_but : (u : ℕ) → leb ((10 ^ 15 - 1) * u) (u * 10 ^ 15) ≡ true
    all_but u = ground arith

-- What is said of the last entry of a solution's curve.
pub record IsAbsorbed (bound deadline : ℕ) (solution : ChainSolution) : Type 0 where
  pub pulls : ℕ
  pub entries : length solution.absorbed_by_pull ≡ pulls + 1
  pub bounded : pulls ≤ bound
  pub near : nearly_absorbed (get_or solution.absorbed_by_pull pulls 0) pulls ≡ true
  pub whole : deadline ≤ pulls → get_or solution.absorbed_by_pull pulls 0 ≡ unit ^ pulls

IsDone-IsAbsorbed :
    (t : Table) (bound : ℕ) (s : Chain)
    → IsSound t
    → deadline t ≤ bound
    → IsDone t bound s
    → IsAbsorbed bound (deadline t) (solution_of t s)
IsDone-IsAbsorbed t bound s sound enough is = record {
  pulls = s.pulls;
  entries = is.chain.rounds;
  bounded = is.bounded;
  near = rw is.chain.newest (elim is.ended [
    | inl near ↦ near
    | inr e ↦ nearly_whole (absorbed t s.grid) s.pulls (all_there (omega (arith, e)))
  ]);
  whole = λ late. is.chain.newest ∙ all_there late;
}
  where
    all_there : deadline t ≤ s.pulls → absorbed t s.grid ≡ unit ^ s.pulls
    all_there late =
        absorbed_whole t sound s.pulls s.grid is.chain.fits is.on_time late ∙ is.chain.mass

on_time_start : (t : Table) (f : List ℕ) → weigh (late t 0) 0 f ≡ 0
on_time_start t f =
    weigh-below (late t 0) 0 f
    ∙ below_zeros (length f) _ (λ i lt. rw (late_start t (0 + i)) (omega arith))

-- On a configuration whose hazards are clipped at the hard pity and whose guaranteed branch is sure,
-- below its hard pity and for one copy or more, `solve` returns with its curve up to a pull, not after
-- the larger of the budget and two hard pities for each copy, by which the target is reached but for
-- one part in 10 ^ 15. If that pull is not before the two hard pities for each copy, it is reached
-- with certainty.
pub solve-IsAbsorbed :
    (config : BannerConfig) (state : PityState) (copies budget : ℕ) (carry : Bool) {hard : ℕ}
    → IsConfig config hard
    → state.pity_5star < hard
    → 1 ≤ copies
    → (solution : ChainSolution) × (solve config state (pos copies) (pos budget) carry
        ≡ answer solution)
      × IsSolution copies solution
      × IsAbsorbed (max budget (2 * hard * copies)) (2 * hard * copies) solution
unfolding solve
solve-IsAbsorbed config state copies budget carry {hard} is lt some_copy =
    let t : Table = table_of config hard copies carry in
    let sound = table_of-IsSound config hard copies carry is in
    let (f, placed, fits, one) = initial_grid_lem t config state lt in
    let (s, done, end) =
      run-IsDone t budget (max_steps t budget) (initial_chain t budget f) sound
        (initial_chain-IsChain t budget f fits one) (on_time_start t f) in
    let e : 0 + max_steps t budget ≡ max budget (2 * hard * copies) = omega arith in
    let read = read_of-IsDistribution t s end.chain in
    (
      solution_of t s,
      rw (validate_lem config state copies budget is.hard_pity_eq lt some_copy, placed, done, solve)
          refl,
      record { curve = end.chain.curve; distribution = read; answered = read.last },
      IsDone-IsAbsorbed t (max budget (2 * hard * copies)) s sound (omega arith) (rw e at end),
    )
