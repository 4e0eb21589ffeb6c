-- ===== src/Objectives/Path/Critical.antt =====
-- `critical_path` of engines/objectives.py: what one goal needs, in order, and what it costs.
use Prim.Native.String.{String}
use text.Mathlib.Text.{◌==◌ as str_eq}
use text.Mathlib.TextEquality.{eq_iff}
use mathlib.Core.Path.{subst}
use resin_compute.Base.{
  ℕ, ◌+◌, ◌≡◌, ◌↔◌, inl, inr, refl, sym, ◌∙◌, Bool, true, false, List, [], ◌∷◌, ◌++◌, arith,
  Bool-cases, if◌then◌else◌, none, some, Option-cases,
}
use resin_compute.Base.Texts.{
  has, clash, text_cases, str_eq_comm, IsDistinct, filter_texts, has-filter_texts,
  filter_texts-IsDistinct, has-append,
}
use resin_compute.Types.{ObjectiveNode, ResolutionPath}
use resin_compute.Objectives.Graph.{
  ok, err, GraphError, unknown_objective, ids, deps_of, find, topological_order,
}
use resin_compute.Objectives.Graph.Order.{IsOrderedFrom}
use resin_compute.Objectives.Graph.Refusal.{topological_order-IsTopological}
use resin_compute.Objectives.Path.{pruned, closure, cost_over, critical_path}
use resin_compute.Objectives.Path.Walk.{Reaches, reaches_trans, here, further}
use resin_compute.Objectives.Path.Built.{
  reaches_known, topological_order-IsValid, build_graph_lem, build_graph_refused, closure_lem,
  reaches_deps, reaches_pruned,
}

-- The cost of the nodes of a set, added up in the order of the set.
abbrev pub cost_among : (ObjectiveNode → ℕ) → (String → Bool) → List ObjectiveNode → ℕ
cost_among cost test [] = 0
cost_among cost test (n ∷ ns) = (if test n.node_id then cost n else 0) + cost_among cost test ns

-- The path of a goal: the nodes that it depends on, directly or over others, and itself; each once, the
-- dependencies of each before it, with the resin and the mora of just these nodes and no plan yet.
pub record IsPathTo (nodes : List ObjectiveNode) (goal_id : String) (path : ResolutionPath)
    : Type 0 where
  pub to_goal : path.goal_id ≡ goal_id
  pub needed : (n : String) → (has n path.ordered_nodes ≡ true) ↔ Reaches (deps_of nodes) goal_id n
  pub once : IsDistinct path.ordered_nodes
  pub ordered : IsOrderedFrom nodes [] path.ordered_nodes
  pub resin :
      path.total_resin ≡ cost_among (λ n. n.resin_cost) (λ i. has i path.ordered_nodes) nodes
  pub mora : path.total_mora ≡ cost_among (λ n. n.mora_cost) (λ i. has i path.ordered_nodes) nodes
  pub unplanned : (path.tasks ≡ []) × (path.estimated_days ≡ 0) × (path.blocked_on ≡ [])

-- Leaving out ids from an order keeps it one, where what is kept has its dependencies kept.
filter_texts-IsOrderedFrom :
    (nodes : List ObjectiveNode) (test : String → Bool)
    → ((x d : String) → test x ≡ true → has d (deps_of nodes x) ≡ true → test d ≡ true)
    → (before kept order : List String)
    → ((d : String) → has d before ≡ true → test d ≡ true → has d kept ≡ true)
    → IsOrderedFrom nodes before order
    → IsOrderedFrom nodes kept (filter_texts test order)
filter_texts-IsOrderedFrom nodes test closed before kept [] keeps h = tt
filter_texts-IsOrderedFrom nodes test closed before kept (x ∷ order) keeps (served, h) =
    elim (Bool-cases (test x)) [
      | inl e ↦ rw e (
        λ d k. keeps d (served d k) (closed x d e k),
        filter_texts-IsOrderedFrom nodes test closed (before ++ x ∷ []) (kept ++ x ∷ []) order
            (λ d k t.
              ground (arith, has-append d before (x ∷ []), has-append d kept (x ∷ []), keeps d))
            h,
      )
      | inr e ↦ rw e (
          filter_texts-IsOrderedFrom nodes test closed (before ++ x ∷ []) kept order
            (λ d k t. elim (text_cases d x) [
              | inl same ↦ absurd (clash (test x) (subst (λ y. test y ≡ true) same t) e)
              | inr other ↦ keeps d (ground (arith, has-append d before (x ∷ []))) t
            ])
            h)
    ]

cost_among_none :
    (cost : ObjectiveNode → ℕ) (nodes : List ObjectiveNode) → cost_among cost (λ i. false) nodes ≡ 0
cost_among_none cost [] = refl
cost_among_none cost (n ∷ ns) = ground (arith, cost_among_none cost ns)

find-none :
    (x : String) (nodes : List ObjectiveNode) → has x (ids nodes) ≡ false → find x nodes ≡ none
find-none x [] h = refl
find-none x (n ∷ ns) h = ground (arith, str_eq_comm x n.node_id, find-none x ns)

-- One more id adds the cost of its node.
cost_among_more :
    (cost : ObjectiveNode → ℕ) (nodes : List ObjectiveNode) (x : String) (xs : List String)
    → IsDistinct (ids nodes)
    → has x xs ≡ false
    → cost_among cost (λ i. has i (x ∷ xs)) nodes
      ≡ elim (find x nodes) as (λ o. ℕ) [ none ↦ 0 | some node ↦ cost node ]
        + cost_among cost (λ i. has i xs) nodes
cost_among_more cost [] x xs apart out = refl
cost_among_more cost (n ∷ ns) x xs apart out = elim (text_cases n.node_id x) [
  | inr other ↦ ground (arith, cost_among_more cost ns x xs apart.1 out)
  | inl same ↦
      let rest = cost_among_more cost ns x xs apart.1 out in
      let last : find x ns ≡ none =
        find-none x ns (subst (λ y. has y (ids ns) ≡ false) same apart.0) in
      let first : str_eq n.node_id x ≡ true = (eq_iff n.node_id x).1 same in
      let new : has n.node_id xs ≡ false = subst (λ y. has y xs ≡ false) (sym same) out in
      ground arith
]

cost_over_lem :
    (cost : ObjectiveNode → ℕ) (nodes : List ObjectiveNode) (is : List String)
    → IsDistinct (ids nodes)
    → IsDistinct is
    → cost_over nodes cost is ≡ cost_among cost (λ i. has i is) nodes
cost_over_lem cost nodes [] apart once = sym (cost_among_none cost nodes)
cost_over_lem cost nodes (x ∷ is) apart once =
    let more = cost_among_more cost nodes x is apart once.0 in
    let rest = cost_over_lem cost nodes is apart once.1 in
    elim (Option-cases (find x nodes)) [ inl e ↦ ground (arith) | inr (node, e) ↦ ground (arith) ]

-- The path that is answered, written out.
abbrev path_of :
    (nodes : List ObjectiveNode) (goal_id : String) (order : List String) → ResolutionPath
path_of nodes goal_id order =
    let ordered = filter_texts (λ i. has i (closure nodes goal_id [])) order in
    record {
      goal_id = goal_id;
      ordered_nodes = ordered;
      tasks = [];
      total_resin = cost_over nodes (λ n. n.resin_cost) ordered;
      total_mora = cost_over nodes (λ n. n.mora_cost) ordered;
      estimated_days = 0;
      blocked_on = [];
    }

-- A goal among the nodes of a set that has an order is answered with its path: just the nodes that it
-- depends on, directly or over others, and itself, each once and after its dependencies, with the resin
-- and the mora of just these nodes and no plan yet.
pub critical_path_lem :
    (nodes : List ObjectiveNode) (goal_id : String) {order : List String}
    → topological_order nodes ≡ ok order
    → has goal_id (ids nodes) ≡ true
    → (path : ResolutionPath) × (critical_path nodes goal_id ≡ ok path)
      × IsPathTo nodes goal_id path
unfolding critical_path
critical_path_lem nodes goal_id {order} h known =
    let v = topological_order-IsValid nodes h in
    let top = topological_order-IsTopological nodes h in
    let needed : String → Bool = λ i. has i (closure nodes goal_id []) in
    let once = filter_texts-IsDistinct needed order top.once in
    let reached : (n : String) → (needed n ≡ true) ↔ Reaches (pruned nodes []) goal_id n =
      λ n. closure_lem nodes goal_id [] v known n in
    (
      path_of nodes goal_id order,
      rw (build_graph_lem nodes h, known) refl,
      record {
        to_goal = refl;
        needed = λ n. (
          λ k. reaches_deps nodes ((reached n).0 (((has-filter_texts n needed order).0 k).1)),
          λ r.
              (has-filter_texts n needed order).1 (
                top.every n ∙ reaches_known nodes v r known,
                (reached n).1 (reaches_pruned nodes r),
              ),
        );
        once = once;
        ordered =
            filter_texts-IsOrderedFrom nodes needed
              (λ x d k e. (reached d).1 (reaches_trans ((reached x).0 k) (further e here))) [] []
              order (λ d k t. k) top.ordered;
        resin = cost_over_lem (λ n. n.resin_cost) nodes (filter_texts needed order) v.apart once;
        mora = cost_over_lem (λ n. n.mora_cost) nodes (filter_texts needed order) v.apart once;
        unplanned = (refl, refl, refl);
      },
    )

-- It answers an error only for a node set that has no order, which is then the error, and for a goal that
-- is no node.
pub critical_path_refused :
    (nodes : List ObjectiveNode) (goal_id : String)
    → ((e : GraphError) → topological_order nodes ≡ err e → critical_path nodes goal_id ≡ err e)
      × ((order : List String)
          → topological_order nodes ≡ ok order
          → has goal_id (ids nodes) ≡ false
          → critical_path nodes goal_id ≡ err (unknown_objective goal_id))
unfolding critical_path
critical_path_refused nodes goal_id = (
  λ e h. rw (build_graph_refused nodes h) refl,
  λ order h out. rw (build_graph_lem nodes h, out) refl,
)
