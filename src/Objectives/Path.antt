-- ===== src/Objectives/Path.antt =====
-- engines/objectives.py: the graph view of a node set and the paths through it. A set of ids is a list,
-- a stack has its top at the head, and the dictionary of the reversed edges is a function that answers
-- the empty tuple for an id that is no key.
pub mod Walk
pub mod Built
pub mod Critical
pub mod Blocking
use Prim.Native.String.{String}
use text.Mathlib.Text.{◌==◌ as str_eq}
use resin_compute.Base.{
  ℕ, zero, suc, ◌+◌, Bool, true, false, not, ◌&&◌, none, some, List, [], ◌∷◌, ◌++◌, map, length,
  if◌then◌else◌,
}
use resin_compute.Base.Texts.{has, sort_texts, distinct, filter_texts}
use resin_compute.Types.{ObjectiveNode, ResolutionPath}
pub use resin_compute.Objectives.Nodes.{edge_count}
use resin_compute.Objectives.Graph.{
  Result, ok, err, ◌>>=◌, unknown_objective, ids, deps_of, find, dependents, index_nodes,
  topological_order,
}

pub record ObjectiveGraph : Type 0 where
  pub nodes : List ObjectiveNode
  pub dependents : String → List String
  pub order : List String

abbrev pub contains : ObjectiveGraph → String → Bool
contains graph node_id = has node_id (ids graph.nodes)

abbrev pub push_all : (stack ids : List String) → List String
push_all stack [] = stack
push_all stack (i ∷ is) = push_all (i ∷ stack) is

-- The loop over a stack of ids, of `_closure` and of `transitive_dependents`: an id that was seen is
-- dropped, any other is marked and its edges are pushed.
unfoldable pub walk :
    (String → List String) → (rounds : ℕ) → (stack seen : List String) → List String
walk edges zero stack seen = seen
walk edges (suc rounds) [] seen = seen
walk edges (suc rounds) (current ∷ stack) seen = elim (has current seen) [
  | true ↦ walk edges rounds stack seen
  | false ↦ walk edges rounds (push_all stack (edges current)) (current ∷ seen)
]

-- The loop on as many rounds as it can take: one for each id on the stack and for each edge.
unfoldable pub walk_from : (String → List String) → (all stack : List String) → List String
walk_from edges all stack = walk edges (length stack + edge_count edges all) stack []

unfoldable pub dependencies_of : ObjectiveGraph → String → Result (List String)
dependencies_of graph node_id =
    if contains graph node_id
    then ok (sort_texts (distinct (deps_of graph.nodes node_id)))
    else err (unknown_objective node_id)

unfoldable pub dependents_of : ObjectiveGraph → String → Result (List String)
dependents_of graph node_id =
    if contains graph node_id
    then ok (graph.dependents node_id)
    else err (unknown_objective node_id)

unfoldable pub transitive_dependents : ObjectiveGraph → String → Result (List String)
transitive_dependents graph node_id =
    if contains graph node_id
    then ok (
        sort_texts
          (walk_from graph.dependents (ids graph.nodes) (push_all [] (graph.dependents node_id))))
    else err (unknown_objective node_id)

unfoldable pub build_graph : List ObjectiveNode → Result ObjectiveGraph
build_graph nodes = do
  index ← index_nodes nodes
  order ← topological_order nodes
  ok (record { nodes = index; dependents = dependents index; order = order })

-- The edges that `_closure` follows from an id.
abbrev pub pruned : List ObjectiveNode → (stop_at : List String) → String → List String
pruned index stop_at current = if has current stop_at then [] else deps_of index current

unfoldable pub closure :
    List ObjectiveNode → (goal_id : String) → (stop_at : List String) → List String
closure index goal_id stop_at = walk_from (pruned index stop_at) (ids index) (goal_id ∷ [])

-- `sum` of a cost over the nodes of some ids; every id is a key where the code calls it.
abbrev pub cost_over : List ObjectiveNode → (ObjectiveNode → ℕ) → List String → ℕ
cost_over index cost [] = 0
cost_over index cost (i ∷ is) =
    let rest = cost_over index cost is in
    elim (find i index) [ none ↦ rest | some node ↦ cost node + rest ]

unfoldable pub critical_path : List ObjectiveNode → (goal_id : String) → Result ResolutionPath
critical_path nodes goal_id = do
  graph ← build_graph nodes
  if contains graph goal_id
      then (let needed = closure graph.nodes goal_id [] in
          let ordered = filter_texts (λ i. has i needed) graph.order in
          ok (record {
            goal_id = goal_id;
            ordered_nodes = ordered;
            tasks = [];
            total_resin = cost_over graph.nodes (λ n. n.resin_cost) ordered;
            total_mora = cost_over graph.nodes (λ n. n.mora_cost) ordered;
            estimated_days = 0;
            blocked_on = [];
          }))
      else err (unknown_objective goal_id)

unfoldable pub unmet_prerequisites :
    List ObjectiveNode → (goal_id : String) → (completed : List String) → Result (List String)
unmet_prerequisites nodes goal_id completed = do
  graph ← build_graph nodes
  if contains graph goal_id
      then (let needed = closure graph.nodes goal_id completed in
          ok (
            filter_texts (λ i. has i needed && not (str_eq i goal_id) && not (has i completed))
              graph.order))
      else err (unknown_objective goal_id)
