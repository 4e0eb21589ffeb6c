-- ===== src/Gacha/Solve/Total.antt =====
-- The loop of agents/pity_engine/markov.py `solve` keeps its invariant, and the call returns.
use native.Mathlib.Nat.{pow-succ'}
use resin_compute.Base.{
  ℕ, zero, suc, ◌+◌, ◌*◌, ◌^◌, ◌≤◌, ◌<◌, ◌≡◌, refl, sym, ◌∙◌, Bool, true, false, Option, none, some,
  List, [], ◌∷◌, ◌++◌, arith, length, get_or, length-append, length-replicate, replicate,
  if◌then◌else◌, ◌==◌, inl, inr, Bool-cases,
}
use resin_compute.Base.Int.{pos}
use resin_compute.Types.{PityState, character_event, weapon_event, standard, chronicled}
use resin_compute.Gacha.Banners.{BannerConfig, hard_pity, certain, sure}
use resin_compute.Gacha.Markov.{
  unit, Table, width, size, sum, marginal, absorbed, step, nearly_absorbed, Chain, run,
}
use resin_compute.Gacha.Markov.Writes.{apply_writes_lem, weigh-one, weigh-zeros}
use resin_compute.Gacha.Markov.Cells.{IsSound}
use resin_compute.Gacha.Markov.Step.{step-weigh}
use resin_compute.Gacha.Markov.Mass.{step-sum, step-absorbed}
use resin_compute.Gacha.Solve.{
  answer, ChainSolution, validate, initial_guarantee_bit, table_of, start_position, initial_grid,
  initial_chain, max_steps, read_of, read_or, solution_of, solve,
}
use resin_compute.Gacha.Solve.Grid.{get_or-end, sum-drop}
use resin_compute.Gacha.Solve.Rounds.{
  IsCurve, IsDistribution, IsRead, IsChain, marginal-IsDistribution, IsCurve-snoc, IsRead-snoc,
}

pow_next : (n : ℕ) → unit * unit ^ n ≡ unit ^ (n + 1)
pow_next n = let e : n + 1 ≡ suc n = omega arith in rw e (sym (pow-succ' unit n))

-- The variables after one pull more.
abbrev pub next_chain : Table → (budget : ℕ) → Chain → List ℕ → Chain
next_chain t budget s grid = record {
  grid = grid;
  pulls = s.pulls + 1;
  curve = s.curve ++ absorbed t grid ∷ [];
  distribution =
      if s.pulls + 1 == budget then some (marginal t grid, s.pulls + 1) else s.distribution;
}

choose-IsRead :
    (test : Bool) (copies : ℕ) (curve : List ℕ) (d e : Option (List ℕ × ℕ))
    → IsRead copies curve d
    → IsRead copies curve e
    → IsRead copies curve (if test then d else e)
choose-IsRead true copies curve d e h k = h
choose-IsRead false copies curve d e h k = k

pub next_chain-IsChain :
    (t : Table) (budget : ℕ) (s : Chain) {grid : List ℕ}
    → IsSound t
    → IsChain t s
    → length grid ≡ size t
    → step t s.grid ≡ some grid
    → IsChain t (next_chain t budget s grid)
next_chain-IsChain t budget s {grid} sound is fits done =
    let a = absorbed t grid in
    let curve = s.curve ++ a ∷ [] in
    let mass : sum grid ≡ unit ^ (s.pulls + 1) =
      step-sum t s.grid sound is.fits done ∙ rw is.mass (pow_next s.pulls) in
    let rounds : length curve ≡ s.pulls + 1 + 1 =
      omega (arith, length-append s.curve (a ∷ []), is.rounds) in
    let newest : get_or curve (s.pulls + 1) 0 ≡ a = rw (← is.rounds) (get_or-end s.curve a) in
    record {
      fits = fits;
      mass = mass;
      rounds = rounds;
      newest = newest;
      curve =
          IsCurve-snoc s.curve a s.pulls is.curve is.rounds
            (omega (arith, mass, sum-drop (t.copies * width t) grid))
            (rw is.newest (step-absorbed t s.grid sound is.fits done));
      distribution =
          choose-IsRead (s.pulls + 1 == budget) t.copies curve _ _
            (marginal-IsDistribution t grid curve (s.pulls + 1) fits mass rounds newest)
            (IsRead-snoc t.copies s.curve a s.distribution is.distribution);
    }

-- The loop comes to its end from any state of the invariant, and keeps it.
pub run-IsChain :
    (t : Table) (budget left : ℕ) (s : Chain)
    → IsSound t
    → IsChain t s
    → (s' : Chain) × (run t budget left s ≡ some s') × IsChain t s'
unfolding run
run-IsChain t budget zero s sound is = (s, refl, is)
run-IsChain t budget (suc left) s sound is =
    elim (Bool-cases (nearly_absorbed (absorbed t s.grid) s.pulls)) [
      | inl e ↦ rw e (s, refl, is)
      | inr e ↦
          let (grid, done, fits, _) = step-weigh t s.grid sound in
          let rest =
            run-IsChain t budget left (next_chain t budget s grid) sound
              (next_chain-IsChain t budget s sound is fits done) in
          rw (e, done) rest
    ]

-- What the chain asks of a banner configuration with its hard pity.
pub record IsConfig (config : BannerConfig) (hard : ℕ) : Type 0 where
  pub hard_pity_eq : hard_pity config ≡ some hard
  pub some_pity : 1 ≤ hard
  pub clipped : (c : ℕ) → c < hard → get_or config.five_star (c + 1) 0 ≤ certain
  pub last : (c : ℕ) → c + 1 ≡ hard → get_or config.five_star (c + 1) 0 ≡ certain
  pub likely : (g : Bool) (r : ℕ) → config.rate_up g r ≤ sure
  pub kept : (r : ℕ) → config.rate_up true r ≡ sure

pub table_of-IsSound :
    (config : BannerConfig) (hard copies : ℕ) (carry : Bool)
    → IsConfig config hard
    → IsSound (table_of config hard copies carry)
table_of-IsSound config hard copies carry is = record {
  some_pity = is.some_pity;
  clipped = is.clipped;
  last = is.last;
  likely = is.likely;
  kept = is.kept;
}

initial_guarantee_bit-le :
    (config : BannerConfig) (state : PityState) → initial_guarantee_bit config.kind state ≤ 1
unfolding initial_guarantee_bit
initial_guarantee_bit-le config state =
    elim config.kind as (λ k. initial_guarantee_bit k state ≤ 1) [
      | character_event ↦ ground arith
      | weapon_event ↦ ground arith
      | standard ↦ ground arith
      | chronicled ↦ ground arith
    ]

pub initial_grid_lem :
    (t : Table) (config : BannerConfig) (state : PityState)
    → state.pity_5star < t.hard
    → (f : List ℕ) × (initial_grid t config state ≡ some f) × (length f ≡ size t) × (sum f ≡ 1)
unfolding initial_grid
initial_grid_lem t config state lt =
    let zeros : List ℕ = replicate (size t) 0 in
    let same : length zeros ≡ size t = length-replicate (size t) 0 in
    let i : ℕ = start_position config state in
    let small : i < width t = ground (arith, initial_guarantee_bit-le config state) in
    let inside : i < size t = omega (arith, small) in
    let (f, done, kept, weighed) = apply_writes_lem ((i, 1) ∷ []) zeros (rw same (inside, tt)) in
    (
      f,
      done,
      kept ∙ same,
      sym (weigh-one 0 f) ∙ weighed (λ _. 1) ∙ omega (arith, weigh-zeros (λ _. 1) 0 (size t)),
    )

pub initial_chain-IsChain :
    (t : Table) (budget : ℕ) (f : List ℕ)
    → length f ≡ size t
    → sum f ≡ 1
    → IsChain t (initial_chain t budget f)
initial_chain-IsChain t budget f fits one =
    let curve : List ℕ = absorbed t f ∷ [] in
    record {
      fits = fits;
      mass = one;
      rounds = refl;
      newest = refl;
      curve = record {
        chance =
            λ i lt. first (absorbed t f) (omega (arith, one, sum-drop (t.copies * width t) f)) i lt;
        rising = λ i lt. absurd (omega (arith, lt));
      };
      distribution =
          choose-IsRead (budget == 0) t.copies curve _ _
            (marginal-IsDistribution t f curve 0 fits one refl refl) tt;
    }
  where
    first : (a : ℕ) → a ≤ 1 → (i : ℕ) → i < 1 → get_or (a ∷ []) i 0 ≤ unit ^ i
    first a le zero lt = le
    first a le (suc i) lt = absurd (omega arith)

pub read_of-IsDistribution :
    (t : Table) (s : Chain)
    → IsChain t s
    → IsDistribution t.copies s.curve (read_of t s).0 (read_of t s).1
unfolding read_of
read_of-IsDistribution t s is = go s.distribution is.distribution
  where
    go :
        (d : Option (List ℕ × ℕ))
        → IsRead t.copies s.curve d
        → IsDistribution t.copies s.curve
            (read_or (marginal t s.grid, s.pulls) d).0
            (read_or (marginal t s.grid, s.pulls) d).1
    go none h = marginal-IsDistribution t s.grid s.curve s.pulls is.fits is.mass is.rounds is.newest
    go (some read) h = h

pub validate_lem :
    (config : BannerConfig) (state : PityState) (copies budget : ℕ) {hard : ℕ}
    → hard_pity config ≡ some hard
    → state.pity_5star < hard
    → 1 ≤ copies
    → validate config state (pos copies) (pos budget) ≡ some hard
unfolding validate
validate_lem config state copies budget {hard} e lt some_copy = rw e (ground arith)

-- What is said of a solution.
pub record IsSolution (copies : ℕ) (solution : ChainSolution) : Type 0 where
  pub curve : IsCurve solution.absorbed_by_pull
  pub distribution :
      IsDistribution copies solution.absorbed_by_pull solution.distribution solution.read_at
  pub answered : solution.probability ≡ get_or solution.absorbed_by_pull solution.read_at 0

-- On a configuration whose hazards are clipped at the hard pity and whose guaranteed branch is sure,
-- below its hard pity and for one copy or more, `solve` returns. The distribution holds a chance for
-- each number of copies, and they sum to one. The chance of the last is the probability, and the curve's
-- entry of the pull it was read at. The curve never falls and never passes one.
pub solve-IsSolution :
    (config : BannerConfig) (state : PityState) (copies budget : ℕ) (carry : Bool) {hard : ℕ}
    → IsConfig config hard
    → state.pity_5star < hard
    → 1 ≤ copies
    → (solution : ChainSolution) × (solve config state (pos copies) (pos budget) carry
        ≡ answer solution)
      × IsSolution copies solution
unfolding solve
solve-IsSolution config state copies budget carry {hard} is lt some_copy =
    let t : Table = table_of config hard copies carry in
    let (f, placed, fits, one) = initial_grid_lem t config state lt in
    let (s, done, kept) =
      run-IsChain t budget (max_steps t budget) (initial_chain t budget f)
        (table_of-IsSound config hard copies carry is)
        (initial_chain-IsChain t budget f fits one) in
    let read = read_of-IsDistribution t s kept in
    (
      solution_of t s,
      rw (validate_lem config state copies budget is.hard_pity_eq lt some_copy, placed, done, solve)
          refl,
      record { curve = kept.curve; distribution = read; answered = read.last },
    )
