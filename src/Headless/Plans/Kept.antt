-- ===== src/Headless/Plans/Kept.antt =====
-- What a plan of one goal keeps, over engines/objectives.py, engines/scheduler.py and headless/jobs.py.
use Prim.Native.String.{String}
use text.Mathlib.Text.{◌==◌ as str_eq}
use text.Mathlib.TextPositions.{eq_refl}
use mathlib.Core.Path.{subst}
use mathlib.Core.List.{map-append}
use resin_compute.Base.{
  ℕ, ◌≤◌, ◌≡◌, ◌↔◌, inl, inr, refl, sym, ap, ◌∙◌, Bool, true, false, ◌&&◌, ◌||◌, List, [], ◌∷◌,
  ◌++◌, arith, leb, Bool-cases, some, Option-cases, All,
}
use resin_compute.Base.Int.{ℤ, pos}
use resin_compute.Base.Texts.{has, clash, text_cases, str_eq_comm, IsDistinct}
use resin_compute.Types.{ObjectiveNode, ScheduledTask, ResolutionPath}
use resin_compute.Objectives.Graph.{ids, deps_of, topological_order}
use resin_compute.Objectives.Graph as Graph
use resin_compute.Objectives.Graph.Order.{IsOrderedFrom}
use resin_compute.Objectives.Path.Walk.{Reaches}
use resin_compute.Objectives.Path.Critical.{IsPathTo, critical_path_lem}
use resin_compute.Objectives.Path.Built.{topological_order-IsValid, reaches_known}
use resin_compute.Scheduler.Probe.{Nodes, listed, as_index, find_last}
use resin_compute.Scheduler.Solve as Solve
use resin_compute.Scheduler.Solve.{dedupe, setup_of, start_state, place_all, outcome_of}
use resin_compute.Scheduler.Window.{IsSorted}
use resin_compute.Scheduler.Invariant.{Respects}
use resin_compute.Scheduler.Placement.{solve-Respects, solve_inv}
use resin_compute.Scheduler.Bounds.{ids_of, place_all_ids}
use resin_compute.Scheduler.Estimate.{AllKnown, solve_total}
use resin_compute.Headless.Plans.{ok, plan_leaf, default_horizon_days}

-- Some task of a list has an id and stands on no later day.
abbrev pub placed_by : ℕ → String → List ScheduledTask → Bool
placed_by day d [] = false
placed_by day d (t ∷ ts) = (str_eq d t.node_id && leb t.earliest_day day) || placed_by day d ts

-- Tasks read from the left: the dependencies of each stand before it and on no later day.
abbrev pub IsStaged : List ObjectiveNode → (before tasks : List ScheduledTask) → Type 0
IsStaged goals before [] = Unit
IsStaged goals before (t ∷ ts) =
    ((d : String)
      → has d (deps_of goals t.node_id) ≡ true
      → placed_by t.earliest_day d before ≡ true)
    × IsStaged goals (before ++ t ∷ []) ts

placed_by-has :
    (day : ℕ) (d : String) (ts : List ScheduledTask)
    → All (λ t. t.earliest_day ≤ day) ts
    → has d (ids_of ts) ≡ true
    → placed_by day d ts ≡ true
placed_by-has day d [] early h = cc
placed_by-has day d (t ∷ ts) early h = ground (arith, placed_by-has day d ts early.1, early.0)

All-later :
    (day day' : ℕ) (ts : List ScheduledTask)
    → day ≤ day'
    → All (λ t. t.earliest_day ≤ day) ts
    → All (λ t. t.earliest_day ≤ day') ts
All-later day day' [] h a = tt
All-later day day' (t ∷ ts) h a = (omega (arith, a.0), All-later day day' ts h a.1)

All-snoc :
    (day : ℕ) (ts : List ScheduledTask) (t : ScheduledTask)
    → All (λ u. u.earliest_day ≤ day) ts
    → t.earliest_day ≤ day
    → All (λ u. u.earliest_day ≤ day) (ts ++ t ∷ [])
All-snoc day [] t a h = (h, tt)
All-snoc day (u ∷ ts) t a h = (a.0, All-snoc day ts t a.1 h)

-- Tasks in the order of their path and in the order of their days are staged.
staged :
    (goals : List ObjectiveNode) (day : ℕ) (before tasks : List ScheduledTask) (held : List String)
    → All (λ t. t.earliest_day ≤ day) before
    → IsSorted day tasks
    → IsOrderedFrom goals (ids_of before) (ids_of tasks ++ held)
    → IsStaged goals before tasks
staged goals day before [] held early sorted ordered = tt
staged goals day before (t ∷ ts) held early sorted ordered =
    let early' = All-later day t.earliest_day before sorted.0 early in
    let snoc = map-append (λ (u : ScheduledTask). u.node_id) before (t ∷ []) in
    (
      λ d h. placed_by-has t.earliest_day d before early' (ordered.0 d h),
      staged goals t.earliest_day (before ++ t ∷ []) ts held
          (All-snoc t.earliest_day before t early' (omega arith)) sorted.1 (rw snoc ordered.1),
    )

find_last_known :
    (i : String) (goals : List ObjectiveNode)
    → has i (ids goals) ≡ true
    → (node : ObjectiveNode) × (find_last i goals ≡ some node)
unfolding find_last
find_last_known i [] h = cc
find_last_known i (n ∷ goals) h = elim (Option-cases (find_last i goals)) [
  | inr (node, e) ↦ (node, rw e refl)
  | inl e ↦ elim (Bool-cases (has i (ids goals))) [
    | inl later ↦ let (node, k) = find_last_known i goals later in cc
    | inr out ↦ (n, rw e (ground (arith, str_eq_comm i n.node_id)))
  ]
]

known_all :
    (goals : List ObjectiveNode) (is : List String)
    → ((i : String) → has i is ≡ true → has i (ids goals) ≡ true)
    → AllKnown (as_index (listed goals)) is
unfolding as_index
known_all goals [] h = tt
known_all goals (i ∷ is) h = (
  find_last_known i goals (h i (ground (arith, eq_refl i))),
  known_all goals is (λ j k. h j (ground arith)),
)

IsDistinct-right : (xs ys : List String) → IsDistinct (xs ++ ys) → IsDistinct ys
IsDistinct-right [] ys d = d
IsDistinct-right (x ∷ xs) ys d = IsDistinct-right xs ys d.1

dedupe_same :
    (seen xs : List String)
    → IsDistinct xs
    → ((x : String) → has x xs ≡ true → has x seen ≡ false)
    → dedupe seen xs ≡ xs
dedupe_same seen [] d out = refl
dedupe_same seen (x ∷ xs) d out =
    rw (out x (ground (arith, eq_refl x)))
      (ap (λ l. x ∷ l) (dedupe_same (x ∷ seen) xs d.1 (λ y k. fresh y k)))
  where
    fresh : (y : String) → has y xs ≡ true → has y (x ∷ seen) ≡ false
    fresh y k = elim (text_cases y x) [
      | inl same ↦ absurd (clash (has x xs) (subst (λ z. has z xs ≡ true) same k) d.0)
      | inr other ↦ ground (arith, out y)
    ]

-- Of a path without repetition every id is placed or blocked, in the order of the path.
solve_whole :
    (path : ResolutionPath) (nodes : Nodes) (per_day weekday on_hand horizon slots : ℤ)
    {out : Solve.ScheduleOutcome}
    → Solve.solve path nodes per_day weekday on_hand horizon slots ≡ Solve.ok out
    → IsDistinct path.ordered_nodes
    → ids_of out.tasks ++ out.blocked_on ≡ path.ordered_nodes
solve_whole path nodes per_day weekday on_hand horizon slots h once =
    let (s, run, e) = solve_inv path nodes per_day weekday on_hand horizon slots h in
    let split : ids_of s.tasks ++ s.blocked ≡ path.ordered_nodes =
      place_all_ids _ start_state path.ordered_nodes run refl in
    let held : IsDistinct s.blocked =
      IsDistinct-right (ids_of s.tasks) s.blocked (subst IsDistinct (sym split) once) in
    rw e (ap (λ l. ids_of s.tasks ++ l) (dedupe_same [] s.blocked held (λ x k. refl)) ∙ split)

-- The plan of a goal: its path, of which the tasks are the front and what is blocked the rest; no task
-- stands before those of its dependencies; and every gate of the scheduler is respected.
pub record IsPlanFor (goals : List ObjectiveNode) (resin_per_day : ℕ) (leaf : String)
    (planned : ResolutionPath) : Type 0 where
  pub to_goal : planned.goal_id ≡ leaf
  pub needed : (n : String) → (has n planned.ordered_nodes ≡ true) ↔ Reaches (deps_of goals) leaf n
  pub whole : ids_of planned.tasks ++ planned.blocked_on ≡ planned.ordered_nodes
  pub staged : IsStaged goals [] planned.tasks
  pub respects :
      Respects
        (setup_of planned.ordered_nodes (listed goals) resin_per_day 0 0 default_horizon_days 1)
        planned.tasks

planned_lem :
    (goals : List ObjectiveNode) (resin_per_day : ℕ) (leaf : String) (path : ResolutionPath)
    → IsPathTo goals leaf path
    → has leaf (ids goals) ≡ true
    → ((n : String) → Reaches (deps_of goals) leaf n → has n (ids goals) ≡ true)
    → (planned : ResolutionPath) × (Solve.plan path
          (listed goals)
          (pos resin_per_day)
          (pos 0)
          (pos 0)
          (pos default_horizon_days)
          (pos 1)
        ≡ Solve.ok planned)
      × IsPlanFor goals resin_per_day leaf planned
unfolding Solve.plan
planned_lem goals resin_per_day leaf path is_path known among =
    let (out, solved) =
      solve_total path (listed goals) resin_per_day 0 0 default_horizon_days 1 (omega arith)
        (omega arith)
        (known_all goals path.ordered_nodes (λ i k. among i ((is_path.needed i).0 k))) in
    let gates =
      solve-Respects path (listed goals) (pos resin_per_day) (pos 0) (pos 0)
        (pos default_horizon_days) (pos 1) solved in
    let whole =
      solve_whole path (listed goals) (pos resin_per_day) (pos 0) (pos 0) (pos default_horizon_days)
        (pos 1) solved is_path.once in
    (
      record path { tasks = out.tasks; estimated_days = out.horizon; blocked_on = out.blocked_on },
      rw solved refl,
      record {
        to_goal = is_path.to_goal;
        needed = is_path.needed;
        whole = whole;
        staged =
            staged goals 0 [] out.tasks out.blocked_on tt gates.sorted
              (subst (IsOrderedFrom goals []) (sym whole) is_path.ordered);
        respects = gates;
      },
    )

-- In a set of goals that has an order, any of them is answered with a plan.
pub plan_leaf_lem :
    (goals : List ObjectiveNode) (resin_per_day : ℕ) (leaf : String) {order : List String}
    → topological_order goals ≡ Graph.ok order
    → has leaf (ids goals) ≡ true
    → (planned : ResolutionPath) × (plan_leaf goals (pos resin_per_day) leaf ≡ ok planned)
      × IsPlanFor goals resin_per_day leaf planned
unfolding plan_leaf
plan_leaf_lem goals resin_per_day leaf h known =
    let (path, found, is_path) = critical_path_lem goals leaf h known in
    let v = topological_order-IsValid goals h in
    let (planned, solved, is_plan) =
      planned_lem goals resin_per_day leaf path is_path known
        (λ n r. reaches_known goals v r known) in
    (planned, rw (found, solved) refl, is_plan)
