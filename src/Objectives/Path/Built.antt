-- ===== src/Objectives/Path/Built.antt =====
-- The graph view that `build_graph` of engines/objectives.py makes of a node set, and its neighbours.
use Prim.Native.String.{String}
use text.Mathlib.TextPositions.{eq_refl}
use mathlib.Core.Path.{subst}
use resin_compute.Base.{
  ◌≡◌, ◌↔◌, inl, inr, refl, sym, ap, ◌∙◌, true, false, ◌||◌, List, [], ◌∷◌, Bool-cases,
}
use resin_compute.Base.Texts.{has, text_cases}
use resin_compute.Base.Results.{Outcome-cases, err-injective}
use resin_compute.Types.{ObjectiveNode}
use resin_compute.Objectives.Graph.{
  ok, err, GraphError, ids, deps_of, dependents, index_nodes, topological_order,
}
use resin_compute.Objectives.Graph.Index.{index_nodes_lem}
pub use resin_compute.Objectives.Graph.Topological.{IsValid}
use resin_compute.Objectives.Graph.Refusal.{checked}
use resin_compute.Objectives.Path.{ObjectiveGraph, build_graph, pruned, closure}
use resin_compute.Objectives.Path.Walk.{Reaches, here, further, IsWithin, walk_from_lem}

-- The view of a node set with an order.
abbrev pub view : List ObjectiveNode → List String → ObjectiveGraph
view nodes order = record { nodes = nodes; dependents = dependents nodes; order = order }

pub topological_order-IsValid :
    (nodes : List ObjectiveNode) {order : List String}
    → topological_order nodes ≡ ok order
    → IsValid nodes
topological_order-IsValid nodes h = elim (checked nodes) [
  | inl (e, k, refusal) ↦ cc
  | inr (apart, known, same) ↦ record { apart = apart; known = known }
]

-- The index passes where the order does.
index_passes :
    (nodes : List ObjectiveNode) {order : List String}
    → topological_order nodes ≡ ok order
    → index_nodes nodes ≡ ok nodes
unfolding topological_order
index_passes nodes h = elim (Outcome-cases (index_nodes nodes)) [
  | inl (index, e) ↦ e ∙ ap ok ((index_nodes_lem nodes e).0)
  | inr (e, k) ↦ cc (rw k at h)
]

pub build_graph_lem :
    (nodes : List ObjectiveNode) {order : List String}
    → topological_order nodes ≡ ok order
    → build_graph nodes ≡ ok (view nodes order)
unfolding build_graph
build_graph_lem nodes h = rw (index_passes nodes h, h) refl

index_refuses :
    (nodes : List ObjectiveNode) {e : GraphError}
    → index_nodes nodes ≡ err e
    → topological_order nodes ≡ err e
unfolding topological_order
index_refuses nodes h = rw h refl

pub build_graph_refused :
    (nodes : List ObjectiveNode) {e : GraphError}
    → topological_order nodes ≡ err e
    → build_graph nodes ≡ err e
unfolding build_graph
build_graph_refused nodes {e} h = elim (Outcome-cases (index_nodes nodes)) [
  | inl (index, k) ↦ rw (k, h) refl
  | inr (e', k) ↦ rw k (ap err (err-injective (sym (index_refuses nodes k) ∙ h)))
]

pub pruned-IsWithin :
    (nodes : List ObjectiveNode) (stop_at : List String)
    → IsValid nodes
    → IsWithin (pruned nodes stop_at) (ids nodes)
pruned-IsWithin nodes stop_at v = record {
  apart = v.apart;
  onward = λ a b h k. elim (Bool-cases (has a stop_at)) [
    | inl e ↦ cc (rw e at k)
    | inr e ↦ v.known a b h (rw e at k)
  ];
}

-- The set that is walked is what the goal reaches.
pub closure_lem :
    (nodes : List ObjectiveNode) (goal_id : String) (stop_at : List String)
    → IsValid nodes
    → has goal_id (ids nodes) ≡ true
    → (n : String)
    → (has n (closure nodes goal_id stop_at) ≡ true) ↔ Reaches (pruned nodes stop_at) goal_id n
unfolding closure
closure_lem nodes goal_id stop_at v known n =
    let walked =
      walk_from_lem (pruned nodes stop_at) (ids nodes) (goal_id ∷ [])
        (pruned-IsWithin nodes stop_at v)
        (λ m h. subst (λ y. has y (ids nodes) ≡ true) (sym (only m h)) known) n in
    (
      λ h.
          let r = walked.0 h in
          subst (λ y. Reaches (pruned nodes stop_at) y n) (only r.origin r.listed) r.path,
      λ r.
          walked.1 (record {
            origin = goal_id;
            listed = ap (λ b. b || false) (eq_refl goal_id);
            path = r;
          }),
    )
  where
    only : (m : String) → has m (goal_id ∷ []) ≡ true → m ≡ goal_id
    only m h = elim (text_cases m goal_id) [ inl e ↦ e | inr other ↦ cc ]

pub reaches_known :
    (nodes : List ObjectiveNode)
    → IsValid nodes
    → {a b : String} → Reaches (deps_of nodes) a b
    → has a (ids nodes) ≡ true
    → has b (ids nodes) ≡ true
reaches_known nodes v here h = h
reaches_known nodes v (further {a} {b} e r) h = reaches_known nodes v r (v.known a b h e)

-- The edges that are not pruned are the dependencies.
pub reaches_deps :
    (nodes : List ObjectiveNode) {a b : String}
    → Reaches (pruned nodes []) a b
    → Reaches (deps_of nodes) a b
reaches_deps nodes here = here
reaches_deps nodes (further h r) = further h (reaches_deps nodes r)

pub reaches_pruned :
    (nodes : List ObjectiveNode) {a b : String}
    → Reaches (deps_of nodes) a b
    → Reaches (pruned nodes []) a b
reaches_pruned nodes here = here
reaches_pruned nodes (further h r) = further h (reaches_pruned nodes r)
