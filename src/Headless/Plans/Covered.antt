-- ===== src/Headless/Plans/Covered.antt =====
-- The planning job of headless/jobs.py: the goals that it plans, and that no goal is left out.
use Prim.Native.String.{String}
use text.Mathlib.Text.{◌==◌ as str_eq}
use text.Mathlib.TextPositions.{eq_refl}
use mathlib.Core.Path.{subst}
use resin_compute.Base.{
  ℕ, ◌≡◌, inl, inr, refl, sym, ap, ◌∙◌, Bool, true, false, ◌||◌, List, [], ◌∷◌, ◌++◌, arith,
  Bool-cases, All,
}
use resin_compute.Base.Int.{ℤ, pos}
use resin_compute.Base.Texts.{has, clash, text_cases, IsDistinct, has-append}
use resin_compute.Types.{ObjectiveNode, ResolutionPath}
use resin_compute.Objectives.Graph.{ids, deps_of, dependents, topological_order}
use resin_compute.Objectives.Graph as Graph
use resin_compute.Objectives.Graph.Order.{IsOrderedFrom, dependents_known}
use resin_compute.Objectives.Graph.Topological.{text_list_cases}
use resin_compute.Objectives.Graph.Refusal.{topological_order-IsTopological}
use resin_compute.Objectives.Path.{dependents_of}
use resin_compute.Objectives.Path.Walk.{Reaches, here, further, reaches_trans}
use resin_compute.Objectives.Path.Built.{view, build_graph_lem, build_graph_refused}
use resin_compute.Objectives.Path.Blocking.{edge_back}
use resin_compute.Headless.Plans.{ok, err, graph_error, leaves, plan_leaves, solve_goal_paths}
use resin_compute.Headless.Plans.Kept.{IsPlanFor, plan_leaf_lem}

-- A goal that some goal with no dependents needs.
abbrev Leads : List ObjectiveNode → String → Type 0
Leads goals n =
    (leaf : String) × (has leaf (ids goals) ≡ true)
    × (dependents goals leaf ≡ [])
    × Reaches (deps_of goals) leaf n

Leads-step :
    (goals : List ObjectiveNode) (n c : String)
    → has c (dependents goals n) ≡ true
    → Leads goals c
    → Leads goals n
Leads-step goals n c e (leaf, known, end, path) = (
  leaf,
  known,
  end,
  reaches_trans path (further (sym (edge_back goals n c (dependents_known goals n c e)) ∙ e) here),
)

-- From the end of an order on, every goal leads to one with no dependents.
Leads-all :
    (goals : List ObjectiveNode) (before order : List String)
    → IsOrderedFrom goals before order
    → IsDistinct order
    → ((x : String) → has x order ≡ true → has x before ≡ false)
    → ((x d : String) → has x before ≡ true → has d (deps_of goals x) ≡ true → has d before ≡ true)
    → ((x : String) → (has x before || has x order) ≡ has x (ids goals))
    → (n : String) → has n order ≡ true
    → Leads goals n
Leads-all goals before [] ordered once apart closed every n h = cc
Leads-all goals before (x ∷ order) (served, ordered) once apart closed every n h =
    let rest = Leads-all goals (before ++ x ∷ []) order ordered once.1 apart' closed' every' in
    elim (text_cases n x) [
      | inr other ↦ rest n (ground arith)
      | inl same ↦ subst (Leads goals) (sym same) (elim (text_list_cases (dependents goals x)) [
        | inl none ↦ (x, sym (every x) ∙ ground (arith, eq_refl x), none, here)
        | inr (c, cs, e) ↦
            let child : has c (dependents goals x) ≡ true =
              ap (has c) e ∙ ground (arith, eq_refl c) in
            Leads-step goals x c child (rest c (later c child))
      ])
    ]
  where
    snoc : (y : String) → has y (before ++ x ∷ []) ≡ (has y before || str_eq y x)
    snoc y = ground (arith, has-append y before (x ∷ []))

    out : has x before ≡ false
    out = apart x (ground (arith, eq_refl x))

    apart' : (y : String) → has y order ≡ true → has y (before ++ x ∷ []) ≡ false
    apart' y q = elim (text_cases y x) [
      | inl same ↦ absurd (clash (has x order) (subst (λ z. has z order ≡ true) same q) once.0)
      | inr other ↦ ground (arith, snoc y, apart y)
    ]

    closed' :
        (y d : String)
        → has y (before ++ x ∷ []) ≡ true
        → has d (deps_of goals y) ≡ true
        → has d (before ++ x ∷ []) ≡ true
    closed' y d q e = elim (text_cases y x) [
      | inl same ↦
          ground (arith, snoc d, served d (subst (λ z. has d (deps_of goals z) ≡ true) same e))
      | inr other ↦ ground (arith, snoc d, snoc y, closed y d)
    ]

    every' : (y : String) → (has y (before ++ x ∷ []) || has y order) ≡ has y (ids goals)
    every' y = ground (arith, snoc y, every y)

    later : (c : String) → has c (dependents goals x) ≡ true → has c order ≡ true
    later c child =
        let known = dependents_known goals x c child in
        let needs : has x (deps_of goals c) ≡ true = sym (edge_back goals x c known) ∙ child in
        elim (text_cases c x) [
          | inl same ↦ absurd (
              clash (has x before)
                (served x (subst (λ z. has x (deps_of goals z) ≡ true) same needs)) out)
          | inr other ↦ elim (Bool-cases (has c before)) [
            | inl earlier ↦ absurd (clash (has x before) (closed c x earlier needs) out)
            | inr fresh ↦ ground (arith, every c, known)
          ]
        ]

dependents_of_lem :
    (goals : List ObjectiveNode) (order : List String) (i : String)
    → has i (ids goals) ≡ true
    → dependents_of (view goals order) i ≡ Graph.ok (dependents goals i)
unfolding dependents_of
dependents_of_lem goals order i h = rw h refl

-- The ends that the job plans: the goals with no dependents.
leaves_lem :
    (goals some_goals : List ObjectiveNode) (order : List String)
    → ((i : String) → has i (ids some_goals) ≡ true → has i (ids goals) ≡ true)
    → (ends : List String) × (leaves (view goals order) some_goals ≡ Graph.ok ends)
      × ((i : String) → has i (ids some_goals) ≡ true → dependents goals i ≡ [] → has i ends ≡ true)
      × ((i : String)
          → has i ends ≡ true
          → (has i (ids some_goals) ≡ true) × (dependents goals i ≡ []))
leaves_lem goals [] order known = ([], refl, λ i h k. cc, λ i h. cc)
leaves_lem goals (node ∷ rest) order known =
    let (ends, found, all, only) = leaves_lem goals rest order (λ i h. known i (ground arith)) in
    let id = node.node_id in
    elim (text_list_cases (dependents goals id)) [
      | inl none ↦ (
        id ∷ ends,
        rw (looked, found, none) refl,
        λ i h e. elim (text_cases i id) [
          | inl same ↦ subst (λ j. has j (id ∷ ends) ≡ true) (sym same) (ground (arith, eq_refl id))
          | inr other ↦ ground (arith, all i (ground arith) e)
        ],
        λ i h. elim (text_cases i id) [
          | inl same ↦
              subst (λ j. (has j (ids (node ∷ rest)) ≡ true) × (dependents goals j ≡ [])) (sym same)
                (ground (arith, eq_refl id), none)
          | inr other ↦ let (inside, end) = only i (ground arith) in (ground arith, end)
        ],
      )
      | inr (c, cs, some) ↦ (
        ends,
        rw (looked, found, some) refl,
        λ i h e. elim (text_cases i id) [
          | inl same ↦
              let clashing : c ∷ cs ≡ [] = sym some ∙ subst (λ j. dependents goals j ≡ []) same e in
              cc
          | inr other ↦ all i (ground arith) e
        ],
        λ i h. let (inside, end) = only i h in (ground arith, end),
      )
    ]
  where
    looked :
        dependents_of (view goals order) node.node_id ≡ Graph.ok (dependents goals node.node_id)
    looked =
        dependents_of_lem goals order node.node_id
          (known node.node_id (ground (arith, eq_refl node.node_id)))

-- Every plan is that of a goal with no dependents.
abbrev pub AreEnds : List ObjectiveNode → (resin_per_day : ℕ) → List ResolutionPath → Type 0
AreEnds goals resin_per_day = All (λ planned.
    (leaf : String) × (dependents goals leaf ≡ []) × IsPlanFor goals resin_per_day leaf planned)

-- Some plan has an id on its path.
abbrev pub covers : String → List ResolutionPath → Bool
covers n [] = false
covers n (p ∷ ps) = has n p.ordered_nodes || covers n ps

plan_leaves_lem :
    (goals : List ObjectiveNode) (resin_per_day : ℕ) (ends order : List String)
    → topological_order goals ≡ Graph.ok order
    → ((i : String) → has i ends ≡ true → (has i (ids goals) ≡ true) × (dependents goals i ≡ []))
    → (plans : List ResolutionPath) × (plan_leaves goals (pos resin_per_day) ends ≡ ok plans)
      × AreEnds goals resin_per_day plans
      × ((leaf n : String)
          → has leaf ends ≡ true
          → Reaches (deps_of goals) leaf n
          → covers n plans ≡ true)
plan_leaves_lem goals resin_per_day [] order h only = ([], refl, tt, λ leaf n k r. cc)
plan_leaves_lem goals resin_per_day (leaf ∷ ends) order h only =
    let (known, end) = only leaf (ground (arith, eq_refl leaf)) in
    let (planned, found, is_plan) = plan_leaf_lem goals resin_per_day leaf h known in
    let (plans, others, are_ends, cover) =
      plan_leaves_lem goals resin_per_day ends order h (λ i k. only i (ground arith)) in
    (
      planned ∷ plans,
      rw (found, others) refl,
      ((leaf, end, is_plan), are_ends),
      λ l n k r. elim (text_cases l leaf) [
        | inl same ↦
            ground (arith, (is_plan.needed n).1 (subst (λ j. Reaches (deps_of goals) j n) same r))
        | inr other ↦ ground (arith, cover l n (ground arith) r)
      ],
    )

-- In a set of goals that has an order and at any daily resin, the job returns. Each of its plans is that
-- of a goal with no dependents: its path is what the goal needs, of which the tasks are the front and
-- what is blocked the rest, no task stands before those of its dependencies, and the gates of the
-- scheduler are respected. Every goal is on the path of some plan.
pub solve_goal_paths_lem :
    (goals : List ObjectiveNode) (resin_per_day : ℕ) {order : List String}
    → topological_order goals ≡ Graph.ok order
    → (plans : List ResolutionPath) × (solve_goal_paths goals (pos resin_per_day) ≡ ok plans)
      × AreEnds goals resin_per_day plans
      × ((n : String) → has n (ids goals) ≡ true → covers n plans ≡ true)
unfolding solve_goal_paths
solve_goal_paths_lem goals resin_per_day {order} h =
    let top = topological_order-IsTopological goals h in
    let (ends, found, all, only) = leaves_lem goals goals order (λ i k. k) in
    let (plans, planned, are_ends, cover) = plan_leaves_lem goals resin_per_day ends order h only in
    (
      plans,
      rw (build_graph_lem goals h, found) planned,
      are_ends,
      λ n known.
          let (leaf, inside, end, path) =
            Leads-all goals [] order top.ordered top.once (λ x k. refl) (λ x d k e. k) top.every n
              (top.every n ∙ known) in
          cover leaf n (all leaf inside end) path,
    )

-- A set of goals that has no order is refused with the error of the order.
pub solve_goal_paths_refused :
    (goals : List ObjectiveNode) (resin_per_day : ℤ) {e : Graph.GraphError}
    → topological_order goals ≡ Graph.err e
    → solve_goal_paths goals resin_per_day ≡ err (graph_error e)
unfolding solve_goal_paths
solve_goal_paths_refused goals resin_per_day h = rw (build_graph_refused goals h) refl
