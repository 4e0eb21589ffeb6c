-- ===== src/Headless/Tests.antt =====
-- Runs of headless/jobs.py on three goals and three jobs, and of headless/quarantine.py on five outcomes.
use Prim.Native.String.{String}
use resin_compute.Base.{Bool, ℕ, ◌≡◌, refl, List, [], ◌∷◌, true, false}
use resin_compute.Base.Texts.{has}
use resin_compute.Base.Int.{pos}
use resin_compute.Types.{ObjectiveNode, ResolutionPath, talent_level}
use resin_compute.Objectives.Graph as Graph
use resin_compute.Objectives.Graph.{
  ids, index_nodes, validate_dependencies, order_of, kahn, start, pop, relax, lower, dependents,
  deps_of, topological_order,
}
use resin_compute.Headless.Jobs.{JobSpec, Registry, names, register, emit, ordered_jobs, job_names}
use resin_compute.Headless.Jobs.Ordered.{IsPass}
use resin_compute.Headless.Jobs.Registered.{Reached, empty, registered, ordered_jobs-IsPass}
use resin_compute.Headless.Quarantine.{Status, pass, fail}
use resin_compute.Headless.Quarantine.Refined.{
  Event, record_after, recent, twice_in_a_row, is_quarantined, apply_result-quarantined,
}
use resin_compute.Headless.Plans.{ok, solve_goal_paths}
use resin_compute.Headless.Plans.Covered.{AreEnds, covers, solve_goal_paths_lem}

abbrev goal_node : String → List String → ℕ → ObjectiveNode
goal_node node_id depends_on resin_cost = record {
  node_id = node_id;
  kind = talent_level;
  subject_id = 1;
  target_value = 2;
  depends_on = depends_on;
  materials = [];
  mora_cost = 100;
  resin_cost = resin_cost;
  available_weekdays = [];
  weekly_capped = false;
  display_name = "";
}

-- Two goals that share what they need.
abbrev goals : List ObjectiveNode
goals = goal_node "b" ("a" ∷ []) 200 ∷ goal_node "c" ("a" ∷ []) 40 ∷ goal_node "a" [] 100 ∷ []

goals_order : topological_order goals ≡ Graph.ok ("a" ∷ "b" ∷ "c" ∷ [])
unfolding topological_order index_nodes validate_dependencies order_of kahn start pop relax lower
    dependents deps_of
goals_order = refl

solve_goal_paths_lem_example :
    (plans : List ResolutionPath) × (solve_goal_paths goals (pos 180) ≡ ok plans)
    × AreEnds goals 180 plans
    × ((n : String) → has n (ids goals) ≡ true → covers n plans ≡ true)
solve_goal_paths_lem_example = solve_goal_paths_lem goals 180 goals_order

abbrev spec : String → List String → ℕ → JobSpec ℕ
spec name depends_on sequence = record {
  name = name;
  description = "";
  cadence = "per_pass";
  func = 0;
  depends_on = depends_on;
  sequence = sequence;
}

-- A job that is registered before the one it depends on, and one that depends on a job that is not there.
abbrev registry : ℕ → List (JobSpec ℕ) → Registry ℕ
registry counter jobs = record { jobs = jobs; counter = counter }

abbrev three_jobs : Registry ℕ
three_jobs = registry 3 (
    spec "plan" ("reconcile" ∷ []) 1 ∷ spec "reconcile" [] 2 ∷ spec "forecast" ("sync" ∷ []) 3 ∷ [])

three_jobs-Reached : Reached three_jobs
unfolding register
three_jobs-Reached =
    registered (registry 2 (spec "plan" ("reconcile" ∷ []) 1 ∷ spec "reconcile" [] 2 ∷ []))
      (spec "forecast" ("sync" ∷ []) 0)
      (registered (registry 1 (spec "plan" ("reconcile" ∷ []) 1 ∷ [])) (spec "reconcile" [] 0)
        (registered (registry 0 []) (spec "plan" ("reconcile" ∷ []) 0) empty refl) refl)
      refl

pass_order : job_names three_jobs ≡ "reconcile" ∷ "plan" ∷ "forecast" ∷ []
unfolding ordered_jobs emit
pass_order = refl

ordered_jobs-IsPass_example :
    IsPass (names three_jobs.jobs) [] three_jobs.jobs (ordered_jobs three_jobs)
ordered_jobs-IsPass_example = ordered_jobs-IsPass three_jobs three_jobs-Reached

abbrev event : String → Bool → Status → Event
event job abandoned status = record {
  job = job;
  status = status;
  abandoned = abandoned;
  now = "now";
}

-- The newest first: `sync` hangs twice with a run of another job between, after it had passed.
abbrev outcomes : List Event
outcomes =
    event "sync" true fail
    ∷ event "plan" false pass
    ∷ event "sync" true fail
    ∷ event "sync" false pass
    ∷ event "sync" true fail
    ∷ []

apply_result-quarantined_example :
    is_quarantined (record_after outcomes "sync") ≡ twice_in_a_row (recent "sync" outcomes)
apply_result-quarantined_example = apply_result-quarantined outcomes "sync"

hung : twice_in_a_row (recent "sync" outcomes) ≡ true
hung = refl
