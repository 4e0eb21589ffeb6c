-- ===== src/Scheduler/Placement.antt =====
-- What every plan of engines/scheduler.py respects: the gates, the resin and the weekly slots.
use Prim.Native.String.{String}
use mathlib.Core.Path.{subst}
use resin_compute.Base.Int.{ℤ, pos_part}
use resin_compute.Base.{
  ℕ, ◌+◌, ◌-◌, ◌≡◌, sym, none, some, List, [], ◌∷◌, ◌++◌, arith, inl, inr, Option-cases, ◌⊎◌,
}
use resin_compute.Base.Results.{ok-injective, Outcome-cases}
use resin_compute.Types.{ObjectiveNode, ResolutionPath}
use resin_compute.Scheduler.Probe.{Setup, State, verdict, Nodes}
use resin_compute.Scheduler.Solve.{
  ok, put, probe, place_all, start_state, solve, setup_of, outcome_of, ScheduleOutcome,
}
use resin_compute.Scheduler.Search.{search_day_found}
use resin_compute.Scheduler.Invariant.{Respects, Inv, put-Inv, start-Inv}

-- One node: an unknown id, the end of the plan, or a day for it.
pub place_all_step :
    (c : Setup) (s : State) (node_id : String) (rest : List String) {s' : State}
    → place_all c s (node_id ∷ rest) ≡ ok s'
    → (node : ObjectiveNode) × (c.index node_id ≡ some node)
      × (((probe c s node_id node).placed ≡ none)
            × (s' ≡ record s {
              blocked = s.blocked ++ node_id ∷ rest;
              iterations = (probe c s node_id node).iterations;
              exhausted = (probe c s node_id node).exhausted;
            })
          ⊎ ((day : ℕ) × ((probe c s node_id node).placed ≡ some day)
              × (place_all c (put s node_id node day (probe c s node_id node).iterations) rest
                  ≡ ok s')))
unfolding place_all
place_all_step c s node_id rest {s'} h = elim (Option-cases (c.index node_id)) [
  | inl unknown ↦ absurd (ground arith)
  | inr (node, known) ↦ (
    node,
    known,
    elim (Option-cases (probe c s node_id node).placed) [
      | inl missing ↦ inl (missing, ground arith)
      | inr (day, found) ↦ inr (day, found, ground arith)
    ],
  )
]

place_all-Inv :
    (c : Setup) (s : State) (ids : List String) {s' : State}
    → Inv c s
    → place_all c s ids ≡ ok s'
    → Inv c s'
unfolding place_all
place_all-Inv c s [] inv h = subst (Inv c) (ok-injective h) inv
place_all-Inv c s (node_id ∷ rest) inv h =
    let (node, known, next) = place_all_step c s node_id rest h in
    elim next [
      | inl (_, e) ↦ subst (Inv c) (sym e) (record {
        respects = inv.respects;
        spent = inv.spent;
        past = inv.past;
        taken = inv.taken;
        latest = inv.latest;
        last = inv.last;
      })
      | inr (day, found, more) ↦
          let (later, before, taken, _) =
            search_day_found c (verdict c s node_id node) (c.horizon_days + 1 - s.cursor) s.cursor
              s.iterations day found in
          place_all-Inv c (put s node_id node day (probe c s node_id node).iterations) rest
            (put-Inv c s node_id node day (probe c s node_id node).iterations inv known later
              (omega arith) taken)
            more
    ]

-- A run of `solve` that returns has passed the guards and is a run of the loop.
pub solve_inv :
    (path : ResolutionPath) (nodes : Nodes) (per_day weekday on_hand horizon slots : ℤ)
    {out : ScheduleOutcome}
    → solve path nodes per_day weekday on_hand horizon slots ≡ ok out
    → let c =
        setup_of path.ordered_nodes nodes
          (pos_part per_day)
          (pos_part weekday)
          (pos_part on_hand)
          (pos_part horizon)
          (pos_part slots) in
      (s : State) × (place_all c start_state path.ordered_nodes ≡ ok s) × (out ≡ outcome_of c s)
unfolding solve
solve_inv path nodes per_day weekday on_hand horizon slots h =
    let c =
      setup_of path.ordered_nodes nodes (pos_part per_day) (pos_part weekday) (pos_part on_hand)
        (pos_part horizon) (pos_part slots) in
    elim (Outcome-cases (place_all c start_state path.ordered_nodes)) [
      | inl (s, run) ↦ (s, run, ground arith)
      | inr (e, failed) ↦ absurd (ground arith)
    ]

-- A plan that `solve` returns respects every gate, whatever the order of the path: each task stands on
-- a day on which its node's domain is open, inside the horizon and not before the task ahead of it; by
-- no day is more resin spent than was on hand or has come in; no seven days in a row hold more weekly
-- tasks than there are slots; and of two weekly tasks of one node the later stands a week or more behind.
pub solve-Respects :
    (path : ResolutionPath) (nodes : Nodes) (per_day weekday on_hand horizon slots : ℤ)
    {out : ScheduleOutcome}
    → solve path nodes per_day weekday on_hand horizon slots ≡ ok out
    → Respects
        (setup_of path.ordered_nodes nodes
          (pos_part per_day)
          (pos_part weekday)
          (pos_part on_hand)
          (pos_part horizon)
          (pos_part slots))
        out.tasks
solve-Respects path nodes per_day weekday on_hand horizon slots h =
    let (s, run, e) = solve_inv path nodes per_day weekday on_hand horizon slots h in
    rw e (place_all-Inv _ start_state path.ordered_nodes (start-Inv _) run).respects
