-- ===== src/Scheduler/Probe.antt =====
-- engines/scheduler.py: what one pass over a path keeps, and the probing of one node. The probing loop
-- recurs on the days that are left up to the horizon.
use Prim.Native.String.{String}
use text.Mathlib.Text.{◌==◌ as str_eq}
use resin_compute.Base.{
  ℕ, zero, suc, ◌+◌, ◌*◌, ◌%◌, Bool, true, false, not, ◌||◌, Option, none, some, List, [], ◌∷◌, ltb,
  leb, ◌==◌, if◌then◌else◌,
}
use resin_compute.Types.{ObjectiveNode, ScheduledTask, TaskCadence, daily, weekly, on_demand}

abbrev pub weekly_window_days : ℕ
weekly_window_days = 7

abbrev pub max_schedule_iterations : ℕ
max_schedule_iterations = 1_000_000

abbrev pub days_per_week : ℕ
days_per_week = 7

-- The nodes come as a mapping or as a collection, of which the last with an id counts.
pub data Nodes : Type 0 where
  by_id : (String → Option ObjectiveNode) → Nodes
  listed : List ObjectiveNode → Nodes

unfoldable pub find_last : String → List ObjectiveNode → Option ObjectiveNode
find_last key [] = none
find_last key (n ∷ ns) = elim (find_last key ns) [
  | some m ↦ some m
  | none ↦ if str_eq n.node_id key then some n else none
]

unfoldable pub as_index : Nodes → String → Option ObjectiveNode
unfolding find_last
as_index (by_id index) key = index key
as_index (listed nodes) key = find_last key nodes

unfoldable pub cadence_of : ObjectiveNode → TaskCadence
cadence_of node =
    if node.weekly_capped then weekly else if ltb 0 node.resin_cost then daily else on_demand

abbrev pub weekday_of : ℕ → ℕ → ℕ
weekday_of day start_weekday = (start_weekday + day) % days_per_week

-- `day in days` on a tuple of weekdays.
abbrev pub contains : ℕ → List ℕ → Bool
contains d [] = false
contains d (x ∷ xs) = d == x || contains d xs

-- The weekday gate: an empty tuple is open on every day.
abbrev pub is_open : List ℕ → ℕ → Bool
is_open [] weekday = true
is_open (x ∷ xs) weekday = contains weekday (x ∷ xs)

abbrev pub lookup : String → List (String × ℕ) → Option ℕ
lookup key [] = none
lookup key ((k, v) ∷ rest) = if str_eq k key then some v else lookup key rest

-- How many of the weekly slots taken lie less than a window before a day.
abbrev pub in_window : ℕ → List ℕ → ℕ
in_window day [] = 0
in_window day (taken ∷ rest) =
    (if ltb day (taken + weekly_window_days) then 1 else 0) + in_window day rest

-- The validated parameters of one call.
pub record Setup : Type 0 where
  pub index : String → Option ObjectiveNode
  pub resin_per_day : ℕ
  pub start_weekday : ℕ
  pub resin_on_hand : ℕ
  pub horizon_days : ℕ
  pub weekly_slots : ℕ
  pub ceiling : ℕ

-- The variables of the loop over the path.
pub record State : Type 0 where
  pub tasks : List ScheduledTask
  pub blocked : List String
  pub spent : ℕ
  pub cursor : ℕ
  pub weekly_days : List ℕ
  pub per_node_days : List (String × ℕ)
  pub iterations : ℕ
  pub exhausted : Bool

-- What the body of the probing loop decides on a day: go on to the next, give up, or take it.
pub data Verdict : Type 0 where
  retry stop place : Verdict

unfoldable pub verdict : Setup → State → String → ObjectiveNode → ℕ → Verdict
verdict c s node_id node day =
    if not (is_open node.available_weekdays (weekday_of day c.start_weekday))
    then retry
    else if ltb (c.resin_on_hand + c.resin_per_day * day) (node.resin_cost + s.spent)
    then (if c.resin_per_day == 0 then stop else retry)
    else if not node.weekly_capped
    then place
    else elim (lookup node_id s.per_node_days) [
      | some previous ↦
          if ltb day (previous + weekly_window_days)
          then retry
          else if leb c.weekly_slots (in_window day s.weekly_days)
          then retry
          else place
      | none ↦ if leb c.weekly_slots (in_window day s.weekly_days) then retry else place
    ]

pub record Probe : Type 0 where
  pub placed : Option ℕ
  pub iterations : ℕ
  pub exhausted : Bool

-- The loop `while day <= horizon_days`, with the number of days that are left.
unfoldable pub search_day : Setup → (ℕ → Verdict) → (left day iterations : ℕ) → Probe
search_day c decide zero day iterations = record {
  placed = none;
  iterations = iterations;
  exhausted = false;
}
search_day c decide (suc left) day iterations =
    let rest = search_day c decide left (day + 1) (iterations + 1) in
    if ltb c.ceiling (iterations + 1)
    then record { placed = none; iterations = iterations + 1; exhausted = true }
    else elim (decide day) [
      | retry ↦ rest
      | stop ↦ record { placed = none; iterations = iterations + 1; exhausted = false }
      | place ↦ record { placed = some day; iterations = iterations + 1; exhausted = false }
    ]
