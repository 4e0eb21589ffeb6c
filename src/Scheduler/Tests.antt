-- ===== src/Scheduler/Tests.antt =====
-- Runs of engines/scheduler.py on two nodes, from a Tuesday.
use resin_compute.Base.{◌+◌, ◌*◌, ◌≤◌, ◌≡◌, refl, true, false, List, [], ◌∷◌, ◌++◌, arith}
use Prim.Native.String.{String}
use resin_compute.Base.Int.{pos}
use resin_compute.Types.{ObjectiveNode, ScheduledTask, ResolutionPath, talent_level, daily, weekly}
use resin_compute.Scheduler.Probe.{
  Nodes, listed, Setup, as_index, find_last, cadence_of, verdict, search_day,
}
use resin_compute.Scheduler.Solve.{
  ok, ScheduleOutcome, place_all, setup_of, dedupe, solve, naive_days,
}
use resin_compute.Scheduler.Invariant.{Respects}
use resin_compute.Scheduler.Placement.{solve-Respects}
use resin_compute.Scheduler.Bounds.{IsStuck, ids_of, solve_complete}
use resin_compute.Scheduler.Estimate.{solve_total, naive_days-le-estimate}

abbrev talent : ObjectiveNode
talent = record {
  node_id = "talent";
  kind = talent_level;
  subject_id = 1;
  target_value = 6;
  depends_on = [];
  materials = [];
  mora_cost = 0;
  resin_cost = 200;
  available_weekdays = 0 ∷ 3 ∷ 6 ∷ [];
  weekly_capped = false;
  display_name = "Talent";
}

abbrev boss : ObjectiveNode
boss = record talent {
  node_id = "boss";
  resin_cost = 30;
  available_weekdays = [];
  weekly_capped = true;
  display_name = "";
}

abbrev nodes : Nodes
nodes = listed (talent ∷ boss ∷ [])

abbrev path : ResolutionPath
path = record {
  goal_id = "goal";
  ordered_nodes = "talent" ∷ "boss" ∷ [];
  tasks = [];
  total_resin = 230;
  total_mora = 0;
  estimated_days = 0;
  blocked_on = [];
}

abbrev tasks : List ScheduledTask
tasks =
    record {
      task_id = ("talent", 2);
      node_id = "talent";
      cadence = daily;
      resin_cost = 200;
      earliest_day = 2;
      description = "Talent";
    }
    ∷ record {
      task_id = ("boss", 2);
      node_id = "boss";
      cadence = weekly;
      resin_cost = 30;
      earliest_day = 2;
      description = "boss";
    }
    ∷ []

abbrev outcome : ScheduleOutcome
outcome = record { tasks = tasks; blocked_on = []; horizon = 3; iterations = 4; exhausted = false }

abbrev setup : Setup
setup = setup_of path.ordered_nodes nodes 160 1 0 5 1

solve_run : solve path nodes (pos 160) (pos 1) (pos 0) (pos 5) (pos 1) ≡ ok outcome
unfolding solve place_all search_day verdict as_index find_last cadence_of
solve_run = refl

solve-Respects_example : Respects setup tasks
solve-Respects_example =
    solve-Respects path nodes (pos 160) (pos 1) (pos 0) (pos 5) (pos 1) solve_run

solve_complete_example :
    (left : List String) × (false ≡ false)
    × (4 ≤ (5 + 1) * 2)
    × (ids_of tasks ++ left ≡ path.ordered_nodes)
    × ([] ≡ dedupe [] left)
    × IsStuck setup tasks left
solve_complete_example =
    solve_complete path nodes (pos 160) (pos 1) (pos 0) (pos 5) (pos 1) (omega arith) solve_run

solve_total_example :
    (out : ScheduleOutcome) × (solve path nodes (pos 160) (pos 1) (pos 0) (pos 5) (pos 1) ≡ ok out)
unfolding as_index find_last
solve_total_example =
    solve_total path nodes 160 1 0 5 1 (omega arith) (omega arith)
      ((talent, refl), ((boss, refl), tt))

naive_days-le-estimate_example : 2 ≤ 3
unfolding naive_days
naive_days-le-estimate_example =
    naive_days-le-estimate path nodes 160 1 (pos 5) (pos 1) {out = outcome} {naive = 2} solve_run
      refl refl refl
