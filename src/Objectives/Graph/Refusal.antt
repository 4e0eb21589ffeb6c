-- ===== src/Objectives/Graph/Refusal.antt =====
-- What `topological_order` of engines/objectives.py answers, on every node set.
use Prim.Native.String.{String}
use text.Mathlib.Text.{◌==◌ as str_eq}
use text.Mathlib.TextPositions.{eq_refl}
use mathlib.Core.Path.{subst}
use mathlib.Core.List.{append_assoc}
use resin_compute.Base.{
  ℕ, ◌+◌, ◌≤◌, ◌<◌, ◌≡◌, ◌⊎◌, inl, inr, refl, sym, ap, ◌∙◌, true, false, List, [], ◌∷◌, ◌++◌, arith,
  length, ◌==◌, Bool-cases, some, Option-cases,
}
use resin_compute.Base.Texts.{
  has, clash, IsDistinct, has-sort_texts, sort_texts, has-append, str_eq_comm,
}
use resin_compute.Base.Results.{Outcome-cases}
use resin_compute.Types.{ObjectiveNode}
use resin_compute.Objectives.Graph.{
  ok, err, GraphError, duplicate_objective, unknown_dependency, unknown_objective, cyclic_objective,
  ids, deps_of, kahn, start, order_of, index_from, index_nodes, first_missing, validate_from,
  validate_dependencies, topological_order,
}
use resin_compute.Objectives.Graph.Index.{ids-append, index_nodes_lem, validate_dependencies_lem}
use resin_compute.Objectives.Cycle.{find_cycle}
use resin_compute.Objectives.Cycle.Found.{IsTrail, IsCycle}
use resin_compute.Objectives.Cycle.Exhausted.{find_cycle-IsCycle}
use resin_compute.Objectives.Graph.Topological.{IsTopological, order_of-IsTopological, left_over}

-- What each error says of the node set.
abbrev pub IsRefusal : List ObjectiveNode → GraphError → Type 0
IsRefusal nodes (duplicate_objective i) =
    (before : List ObjectiveNode) × (node : ObjectiveNode) × (after : List ObjectiveNode) × (nodes
      ≡ before ++ node ∷ after)
    × (node.node_id ≡ i)
    × (has i (ids before) ≡ true)
IsRefusal nodes (unknown_dependency i d) =
    (has i (ids nodes) ≡ true) × (has d (deps_of nodes i) ≡ true) × (has d (ids nodes) ≡ false)
IsRefusal nodes (unknown_objective i) = ⊥
IsRefusal nodes (cyclic_objective cycle) = IsCycle nodes cycle

index_from_refused :
    (index nodes : List ObjectiveNode) {e : GraphError}
    → index_from index nodes ≡ err e
    → IsRefusal (index ++ nodes) e
index_from_refused index [] h = cc
index_from_refused index (n ∷ ns) {e} h = elim (Bool-cases (has n.node_id (ids index))) [
  | inl known ↦
      let same : duplicate_objective n.node_id ≡ e = cc (rw known at h) in
      subst (IsRefusal (index ++ n ∷ ns)) same (index, n, ns, refl, refl, known)
  | inr new ↦
      subst (λ all. IsRefusal all e) (append_assoc index (n ∷ []) ns)
        (index_from_refused (index ++ n ∷ []) ns (rw new at h))
]

first_missing-some :
    (known ds : List String) {d : String}
    → first_missing known ds ≡ some d
    → (has d ds ≡ true) × (has d known ≡ false)
first_missing-some known [] h = cc
first_missing-some known (x ∷ ds) {d} h = elim (Bool-cases (has x known)) [
  | inr e ↦
      let same : x ≡ d = cc (rw e at h) in
      (
        subst (λ y. has y (x ∷ ds) ≡ true) same (ground (arith, eq_refl x)),
        subst (λ y. has y known ≡ false) same e,
      )
  | inl e ↦ let (inside, out) = first_missing-some known ds (rw e at h) in (ground arith, out)
]

validate_from_refused :
    (index : List ObjectiveNode) (is : List String) {e : GraphError}
    → ((i : String) → has i is ≡ true → has i (ids index) ≡ true)
    → validate_from index is ≡ err e
    → IsRefusal index e
validate_from_refused index [] inside h = cc
validate_from_refused index (x ∷ is) {e} inside h =
    elim (Option-cases (first_missing (ids index) (deps_of index x))) [
      | inl none_missing ↦
          validate_from_refused index is (λ i k. inside i (ground arith))
            (rw (none_missing, validate_from) at h)
      | inr (d, found) ↦
          let same : unknown_dependency x d ≡ e = cc (rw (found, validate_from) at h) in
          let (needed, unknown) = first_missing-some (ids index) (deps_of index x) found in
          subst (IsRefusal index) same (inside x (ground (arith, eq_refl x)), needed, unknown)
    ]

order_of_refused :
    (index : List ObjectiveNode) {e : GraphError}
    → order_of index ≡ err e
    → cyclic_objective (find_cycle index) ≡ e
unfolding order_of
order_of_refused index h =
    elim (Bool-cases (length (kahn index (length index) (start index)).order == length index)) [
      | inl same ↦ cc (rw same at h)
      | inr differ ↦ cc (rw differ at h)
    ]

index_refused :
    (nodes : List ObjectiveNode) {e : GraphError} → index_nodes nodes ≡ err e → IsRefusal nodes e
unfolding index_nodes
index_refused nodes h = index_from_refused [] nodes h

dependency_refused :
    (nodes : List ObjectiveNode) {e : GraphError}
    → validate_dependencies nodes ≡ err e
    → IsRefusal nodes e
unfolding validate_dependencies
dependency_refused nodes h =
    validate_from_refused nodes (sort_texts (ids nodes))
      (λ i k. sym (has-sort_texts i (ids nodes)) ∙ k) h

-- The ways through the checks: an error of the index, one of the dependencies, or the loop's answer.
pub checked :
    (nodes : List ObjectiveNode)
    → ((e : GraphError) × (topological_order nodes ≡ err e) × IsRefusal nodes e)
      ⊎ (IsDistinct (ids nodes)
          × ((i d : String)
              → has i (ids nodes) ≡ true
              → has d (deps_of nodes i) ≡ true
              → has d (ids nodes) ≡ true)
          × (topological_order nodes ≡ order_of nodes))
unfolding topological_order
checked nodes = elim (Outcome-cases (index_nodes nodes)) [
  | inr (e, h) ↦ inl (e, rw h refl, index_refused nodes h)
  | inl (index, h) ↦
      let (same, apart) = index_nodes_lem nodes h in
      let h' : index_nodes nodes ≡ ok nodes = h ∙ ap ok same in
      let apart' : IsDistinct (ids nodes) = subst (λ i. IsDistinct (ids i)) same apart in
      elim (Outcome-cases (validate_dependencies nodes)) [
        | inr (e, v) ↦ inl (e, rw (h', v) refl, dependency_refused nodes v)
        | inl (tt, v) ↦ inr (apart', validate_dependencies_lem nodes v, rw (h', v) refl)
      ]
]

-- An order that is answered holds every node once, and the dependencies of each before it.
pub topological_order-IsTopological :
    (nodes : List ObjectiveNode) {order : List String}
    → topological_order nodes ≡ ok order
    → IsTopological nodes order
topological_order-IsTopological nodes {order} h = elim (checked nodes) [
  | inl (e, k, refusal) ↦ cc
  | inr (apart, known, same) ↦ order_of-IsTopological nodes apart (sym same ∙ h)
]

-- An error tells what is wrong: an id that a node before it has, a dependency that is no node, or a cycle
-- along the dependencies, with the entry of the cycle at its end again.
pub topological_order-IsRefusal :
    (nodes : List ObjectiveNode) {e : GraphError}
    → topological_order nodes ≡ err e
    → IsRefusal nodes e
topological_order-IsRefusal nodes {e} h = elim (checked nodes) [
  | inl (e', k, refusal) ↦ subst (IsRefusal nodes) (cc) refusal
  | inr (apart, known, same) ↦
      let cyclic = order_of_refused nodes (sym same ∙ h) in
      let (stuck, is_stuck) = left_over nodes apart known (sym same ∙ h) in
      subst (IsRefusal nodes) cyclic
        (find_cycle-IsCycle nodes stuck (record { apart = apart; known = known }) is_stuck)
]

-- Only a node has dependencies.
depends_known :
    (ns : List ObjectiveNode) (i d : String) → has d (deps_of ns i) ≡ true → has i (ids ns) ≡ true
unfolding deps_of
depends_known [] i d k = cc
depends_known (n ∷ ns) i d k = elim (Bool-cases (str_eq n.node_id i)) [
  | inl here ↦ ground (arith, str_eq_comm i n.node_id)
  | inr other ↦ ground (arith, depends_known ns i d (rw (other, deps_of) at k))
]

-- Ids that differ, dependencies that are nodes and a rank that falls along every dependency: then there
-- is an order.
pub topological_order_acyclic :
    (nodes : List ObjectiveNode) (rank : String → ℕ)
    → IsDistinct (ids nodes)
    → ((i d : String)
        → has i (ids nodes) ≡ true
        → has d (deps_of nodes i) ≡ true
        → (has d (ids nodes) ≡ true) × (rank d < rank i))
    → (order : List String) × (topological_order nodes ≡ ok order) × IsTopological nodes order
topological_order_acyclic nodes rank apart falls = elim (Outcome-cases (topological_order nodes)) [
  | inl (order, h) ↦ (order, h, topological_order-IsTopological nodes h)
  | inr (e, h) ↦ absurd (not_refused e (topological_order-IsRefusal nodes h))
]
  where
    apart_lem :
        (before : List ObjectiveNode) (node : ObjectiveNode) (after : List ObjectiveNode)
        → IsDistinct (ids (before ++ node ∷ after))
        → has node.node_id (ids before) ≡ false
    apart_lem [] node after d = refl
    apart_lem (n ∷ before) node after d = ground (
      arith,
      apart_lem before node after d.1,
      d.0,
      ids-append before (node ∷ after),
      ap (has n.node_id) (ids-append before (node ∷ after)),
      has-append n.node_id (ids before) (node.node_id ∷ ids after),
      str_eq_comm n.node_id node.node_id,
    )

    fall_along :
        (from : String) (rest : List String) (to : String)
        → IsTrail nodes from rest to
        → rank to + length rest ≤ rank from
    fall_along from [] to e = subst (λ y. rank y + 0 ≤ rank from) e (omega arith)
    fall_along from (next ∷ rest) to (edge, trail) =
        let (known, less) = falls from next (depends_known nodes from next edge) edge in
        omega (arith, fall_along next rest to trail)

    not_refused : (e : GraphError) → IsRefusal nodes e → ⊥
    not_refused (duplicate_objective i) (before, node, after, same, at, twice) = clash _ twice (
        subst (λ j. has j (ids before) ≡ false) at
          (apart_lem before node after (subst (λ ns. IsDistinct (ids ns)) same apart)))
    not_refused (unknown_dependency i d) (inside, needs, out) =
        clash _ ((falls i d inside needs).0) out
    not_refused (unknown_objective i) r = r
    not_refused (cyclic_objective cycle) cyc =
        omega (arith, cyc.longer, fall_along cyc.entry cyc.rest cyc.entry cyc.trail)
