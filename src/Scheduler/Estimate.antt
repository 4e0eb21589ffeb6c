-- ===== src/Scheduler/Estimate.antt =====
-- When `solve` of engines/scheduler.py returns a plan, and how its length compares with `naive_days`.
use Prim.Native.String.{String}
use mathlib.Core.Path.{subst}
use resin_compute.Base.{
  ℕ, ◌+◌, ◌-◌, ◌*◌, ◌/◌, ◌≤◌, ◌<◌, ◌≡◌, refl, sym, Option, some, List, [], ◌∷◌, ◌++◌, arith, inl,
  inr, Option-cases,
}
use native.Mathlib.Nat.{div-lt_iff_lt-mul}
use resin_compute.Base.Int.{ℤ, pos, pos_part}
use resin_compute.Types.{ObjectiveNode, ScheduledTask, ResolutionPath}
use resin_compute.Scheduler.Probe.{Setup, State, Nodes, as_index}
use resin_compute.Scheduler.Solve.{
  ok, put, probe, place_all, start_state, solve, setup_of, outcome_of, ScheduleOutcome, last_day,
  naive_days, dedupe,
}
use resin_compute.Scheduler.Window.{spent_by, total_cost}
use resin_compute.Scheduler.Placement.{solve_inv, solve-Respects}

-- Every node of the path is in the node set.
abbrev pub AllKnown : (String → Option ObjectiveNode) → List String → Type 0
AllKnown index [] = Unit
AllKnown index (i ∷ is) = ((node : ObjectiveNode) × (index i ≡ some node)) × AllKnown index is

place_all_total :
    (c : Setup) (s : State) (ids : List String)
    → AllKnown c.index ids
    → (s' : State) × (place_all c s ids ≡ ok s')
unfolding place_all
place_all_total c s [] known = (s, refl)
place_all_total c s (node_id ∷ rest) ((node, here), known) =
    elim (Option-cases (probe c s node_id node).placed) [
      | inl missing ↦ (
        record s {
          blocked = s.blocked ++ node_id ∷ rest;
          iterations = (probe c s node_id node).iterations;
          exhausted = (probe c s node_id node).exhausted;
        },
        ground arith,
      )
      | inr (day, found) ↦
          let (s', run) =
            place_all_total c (put s node_id node day (probe c s node_id node).iterations) rest
              known in
          (s', ground arith)
    ]

spent_by_last : (d : ℕ) (ts : List ScheduledTask) → last_day ts ≤ d → spent_by d ts ≡ total_cost ts
spent_by_last d [] h = refl
spent_by_last d (t ∷ ts) h = ground (arith, spent_by_last d ts (omega arith))

round_up_le :
    (total rate days : ℕ) → 0 < rate → total ≤ rate * days → (total + rate - 1) / rate ≤ days
round_up_le total rate days h p =
    let below : total + rate - 1 < (days + 1) * rate = omega arith in
    omega (arith, (div-lt_iff_lt-mul h).1 below)

-- With valid parameters and a path of known nodes, `solve` returns a plan.
pub solve_total :
    (path : ResolutionPath) (nodes : Nodes) (per_day weekday on_hand horizon slots : ℕ)
    → 1 ≤ slots
    → weekday < 7
    → AllKnown (as_index nodes) path.ordered_nodes
    → (out : ScheduleOutcome) × (solve path nodes
          (pos per_day)
          (pos weekday)
          (pos on_hand)
          (pos horizon)
          (pos slots)
        ≡ ok out)
unfolding solve
solve_total path nodes per_day weekday on_hand horizon slots one week known =
    let c = setup_of path.ordered_nodes nodes per_day weekday on_hand horizon slots in
    let (s, run) = place_all_total c start_state path.ordered_nodes known in
    (outcome_of c s, ground arith)

dedupe_nil : (xs : List String) → dedupe [] xs ≡ [] → xs ≡ []
dedupe_nil [] h = refl
dedupe_nil (x ∷ xs) h = cc

last_day-le_horizon :
    (c : Setup) (s : State) → s.blocked ≡ [] → last_day s.tasks ≤ (outcome_of c s).horizon
last_day-le_horizon c s h = ground arith

ended_by :
    (c : Setup) (s : State) (out : ScheduleOutcome)
    → out ≡ outcome_of c s
    → out.blocked_on ≡ []
    → last_day out.tasks ≤ out.horizon
ended_by c s out e free =
    subst (λ o. o.blocked_on ≡ [] → last_day o.tasks ≤ o.horizon) (sym e)
      (λ f. last_day-le_horizon c s (dedupe_nil s.blocked f)) free

-- With no resin on hand and none of the path blocked, the plan takes at least the days that the resin
-- of its tasks takes at the daily rate, which is what `naive_days` reports for that total.
pub naive_days-le-estimate :
    (path : ResolutionPath) (nodes : Nodes) (per_day weekday : ℕ) (horizon slots : ℤ)
    {out : ScheduleOutcome} {naive : ℕ}
    → solve path nodes (pos per_day) (pos weekday) (pos 0) horizon slots ≡ ok out
    → out.blocked_on ≡ []
    → path.total_resin ≡ total_cost out.tasks
    → naive_days path (pos per_day) ≡ ok naive
    → naive ≤ out.horizon
unfolding naive_days
naive_days-le-estimate path nodes per_day weekday horizon slots {out} {naive} h free total n =
    let c =
      setup_of path.ordered_nodes nodes per_day weekday 0 (pos_part horizon) (pos_part slots) in
    let plan = solve-Respects path nodes (pos per_day) (pos weekday) (pos 0) horizon slots h in
    let (s, run, e) = solve_inv path nodes (pos per_day) (pos weekday) (pos 0) horizon slots h in
    let last = last_day out.tasks in
    let ended : last ≤ out.horizon = ended_by c s out e free in
    let funded = plan.funded last in
    let spent = spent_by_last last out.tasks (omega arith) in
    ground (arith, round_up_le path.total_resin per_day last)
