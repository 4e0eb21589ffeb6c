-- ===== src/Headless/Plans.antt =====
-- headless/jobs.py: the planning job, on the engines as they are: every goal that nothing else depends on
-- gets its path and the path its plan.
pub mod Kept
pub mod Covered
pub use resin_compute.Base.Results.{ok, err, ◌>>=◌, ◌>>◌}
use resin_compute.Base.Results.{Outcome}
use Prim.Native.String.{String}
use resin_compute.Base.{ℕ, Bool, true, false, List, [], ◌∷◌, if◌then◌else◌}
use resin_compute.Base.Int.{ℤ, pos}
use resin_compute.Types.{ObjectiveNode, ResolutionPath}
use resin_compute.Objectives.Graph as Graph
use resin_compute.Objectives.Path.{ObjectiveGraph, build_graph, dependents_of, critical_path}
use resin_compute.Scheduler.Probe.{Nodes, listed}
use resin_compute.Scheduler.Solve as Solve

abbrev pub default_horizon_days : ℕ
default_horizon_days = 365

-- What a planning step raises, by the engine that raises it.
pub data PlanError : Type 0 where
  graph_error : Graph.GraphError → PlanError
  schedule_error : Solve.ScheduleError → PlanError

abbrev pub Result {ℓ} : Type ℓ → Type ℓ
Result A = Outcome PlanError A

abbrev pub of_graph {ℓ} : {A : Type ℓ} → Graph.Result A → Result A
of_graph (Graph.ok a) = ok a
of_graph (Graph.err e) = err (graph_error e)

abbrev pub of_schedule {ℓ} : {A : Type ℓ} → Solve.Result A → Result A
of_schedule (Solve.ok a) = ok a
of_schedule (Solve.err e) = err (schedule_error e)

-- The ids of the goals with no dependents, in the order of the goals.
abbrev pub leaves : ObjectiveGraph → List ObjectiveNode → Graph.Result (List String)
leaves graph [] = Graph.ok []
leaves graph (node ∷ goals) = Graph.◌>>=◌ (dependents_of graph node.node_id) (λ children.
    Graph.◌>>=◌ (leaves graph goals)
      (λ rest. Graph.ok (elim children [ [] ↦ node.node_id ∷ rest | _ ∷ _ ↦ rest ])))

-- The plan of one goal.
unfoldable pub plan_leaf : List ObjectiveNode → (resin_per_day : ℤ) → String → Result ResolutionPath
plan_leaf goals resin_per_day leaf = do
  path ← of_graph (critical_path goals leaf)
  of_schedule (
      Solve.plan path (listed goals) resin_per_day (pos 0) (pos 0) (pos default_horizon_days)
        (pos 1))

abbrev pub plan_leaves :
    List ObjectiveNode → (resin_per_day : ℤ) → List String → Result (List ResolutionPath)
plan_leaves goals resin_per_day [] = ok []
plan_leaves goals resin_per_day (leaf ∷ rest) = do
  planned ← plan_leaf goals resin_per_day leaf
  others ← plan_leaves goals resin_per_day rest
  ok (planned ∷ others)

-- The engines have neither `solve_goals` nor `resolve`, so the two steps are always taken.
unfoldable pub solve_goal_paths :
    List ObjectiveNode → (resin_per_day : ℤ) → Result (List ResolutionPath)
solve_goal_paths goals resin_per_day = do
  graph ← of_graph (build_graph goals)
  ends ← of_graph (leaves graph goals)
  plan_leaves goals resin_per_day ends
