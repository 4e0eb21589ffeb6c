-- ===== src/Scheduler/Solve.antt =====
-- engines/scheduler.py: the loop over the path, `solve`, and the entry points above it.
pub use resin_compute.Base.Results.{ok, err, ◌>>=◌, ◌>>◌}
use resin_compute.Base.Results.{Outcome, refuse_if}
use Prim.Native.String.{String}
use text.Mathlib.Text.{◌==◌ as str_eq}
use resin_compute.Base.{
  ℕ, ◌+◌, ◌-◌, ◌*◌, ◌/◌, min, max, Bool, false, not, ◌||◌, none, some, List, [], ◌∷◌, ◌++◌, length,
  leb, if◌then◌else◌,
}
pub use resin_compute.Base.Texts.{dedupe}
use resin_compute.Base.Int.{ℤ, pos, pos_part, ltb_ℤ}
use resin_compute.Types.{ObjectiveNode, ScheduledTask, ResolutionPath}
use resin_compute.Scheduler.Probe.{
  Nodes, Probe, Setup, State, as_index, cadence_of, days_per_week, max_schedule_iterations,
  search_day, verdict,
}

-- ValueError by the parameter that it names, and UnknownScheduleNodeError.
pub data ScheduleError : Type 0 where
  bad_resin_per_day bad_resin_on_hand bad_horizon bad_slots bad_weekday bad_rate : ScheduleError
  unknown_node : String → ScheduleError

abbrev pub Result {ℓ} : Type ℓ → Type ℓ
Result A = Outcome ScheduleError A

pub record ScheduleOutcome : Type 0 where
  pub tasks : List ScheduledTask
  pub blocked_on : List String
  pub horizon : ℕ
  pub iterations : ℕ
  pub exhausted : Bool

abbrev pub task_of : String → ObjectiveNode → ℕ → ScheduledTask
task_of node_id node day = record {
  task_id = (node_id, day);
  node_id = node_id;
  cadence = cadence_of node;
  resin_cost = node.resin_cost;
  earliest_day = day;
  description = if str_eq node.display_name "" then node_id else node.display_name;
}

-- The bookkeeping after a node is placed. A later entry of `per_node_days` hides an earlier one.
abbrev pub put : State → String → ObjectiveNode → ℕ → ℕ → State
put s node_id node day iterations = record {
  tasks = s.tasks ++ task_of node_id node day ∷ [];
  blocked = s.blocked;
  spent = s.spent + node.resin_cost;
  cursor = day;
  weekly_days = if node.weekly_capped then s.weekly_days ++ day ∷ [] else s.weekly_days;
  per_node_days = (node_id, day) ∷ s.per_node_days;
  iterations = iterations;
  exhausted = s.exhausted;
}

-- The probe of one node, from the cursor to the horizon.
abbrev pub probe : Setup → State → String → ObjectiveNode → Probe
probe c s node_id node =
    search_day c (verdict c s node_id node) (c.horizon_days + 1 - s.cursor) s.cursor s.iterations

-- The loop over the path; what it could not place is blocked with all that stands behind it.
unfoldable pub place_all : Setup → State → List String → Result State
place_all c s [] = ok s
place_all c s (node_id ∷ rest) = elim (c.index node_id) [
  | none ↦ err (unknown_node node_id)
  | some node ↦
      let found = probe c s node_id node in
      elim found.placed [
        | none ↦ ok (record s {
          blocked = s.blocked ++ node_id ∷ rest;
          iterations = found.iterations;
          exhausted = found.exhausted;
        })
        | some day ↦ place_all c (put s node_id node day found.iterations) rest
      ]
]

abbrev pub start_state : State
start_state = record {
  tasks = [];
  blocked = [];
  spent = 0;
  cursor = 0;
  weekly_days = [];
  per_node_days = [];
  iterations = 0;
  exhausted = false;
}

abbrev pub last_day : List ScheduledTask → ℕ
last_day [] = 0
last_day (t ∷ ts) = max t.earliest_day (last_day ts)

abbrev pub outcome_of : Setup → State → ScheduleOutcome
outcome_of c s = record {
  tasks = s.tasks;
  blocked_on = dedupe [] s.blocked;
  horizon = elim s.blocked [
    | _ ∷ _ ↦ c.horizon_days
    | [] ↦ elim s.tasks [ [] ↦ 0 | _ ∷ _ ↦ last_day s.tasks + 1 ]
  ];
  iterations = s.iterations;
  exhausted = s.exhausted;
}

abbrev pub setup_of : List String → Nodes → (per_day weekday on_hand horizon slots : ℕ) → Setup
setup_of ordered nodes per_day weekday on_hand horizon slots = record {
  index = as_index nodes;
  resin_per_day = per_day;
  start_weekday = weekday;
  resin_on_hand = on_hand;
  horizon_days = horizon;
  weekly_slots = slots;
  ceiling = min max_schedule_iterations ((horizon + 1) * (length ordered + 1) + days_per_week);
}

unfoldable pub solve :
    ResolutionPath → Nodes → (per_day weekday on_hand horizon slots : ℤ) → Result ScheduleOutcome
solve path nodes per_day weekday on_hand horizon slots = do
  refuse_if (ltb_ℤ per_day (pos 0)) bad_resin_per_day
  refuse_if (ltb_ℤ on_hand (pos 0)) bad_resin_on_hand
  refuse_if (ltb_ℤ horizon (pos 0)) bad_horizon
  refuse_if (ltb_ℤ slots (pos 1)) bad_slots
  refuse_if (ltb_ℤ weekday (pos 0) || not (ltb_ℤ weekday (pos days_per_week))) bad_weekday
  let c =
      setup_of path.ordered_nodes nodes (pos_part per_day) (pos_part weekday) (pos_part on_hand)
        (pos_part horizon) (pos_part slots)
  s ← place_all c start_state path.ordered_nodes
  ok (outcome_of c s)

unfoldable pub schedule :
    ResolutionPath
    → Nodes
    → (per_day weekday on_hand horizon slots : ℤ) → Result (List ScheduledTask)
schedule path nodes per_day weekday on_hand horizon slots = do
  outcome ← solve path nodes per_day weekday on_hand horizon slots
  ok outcome.tasks

unfoldable pub estimated_days :
    ResolutionPath → Nodes → (per_day weekday on_hand horizon slots : ℤ) → Result ℕ
estimated_days path nodes per_day weekday on_hand horizon slots = do
  outcome ← solve path nodes per_day weekday on_hand horizon slots
  ok outcome.horizon

-- `-(-a // b)` is the quotient rounded up.
unfoldable pub naive_days : ResolutionPath → ℤ → Result ℕ
naive_days path per_day =
    if ltb_ℤ (pos 0) per_day
    then ok (
        if leb path.total_resin 0
        then 0
        else (path.total_resin + pos_part per_day - 1) / pos_part per_day)
    else err bad_rate

unfoldable pub plan :
    ResolutionPath → Nodes → (per_day weekday on_hand horizon slots : ℤ) → Result ResolutionPath
plan path nodes per_day weekday on_hand horizon slots = do
  outcome ← solve path nodes per_day weekday on_hand horizon slots
  ok (record path {
    tasks = outcome.tasks;
    estimated_days = outcome.horizon;
    blocked_on = outcome.blocked_on;
  })
