-- ===== src/Objectives/Graph.antt =====
-- engines/objectives.py: the dependency graph of a node set. A dictionary by id is the list of its nodes
-- in the order of insertion, and a heap of ids is its sorted list: `heappop` takes the first.
pub mod Index
pub mod Relax
pub mod Order
pub mod Running
pub mod Topological
pub mod Refusal
pub use resin_compute.Objectives.Nodes.{ids, find}
unfoldable pub use resin_compute.Objectives.Nodes.{deps_of}
use resin_compute.Objectives.Cycle.{find_cycle}
pub use resin_compute.Base.Results.{ok, err, ◌>>=◌, ◌>>◌}
use resin_compute.Base.Results.{Outcome}
use Prim.Native.String.{String}
use text.Mathlib.Text.{◌==◌ as str_eq}
use resin_compute.Base.{
  ℕ, zero, suc, ◌+◌, ◌-◌, Bool, true, false, not, ◌&&◌, ◌||◌, Option, none, some, List, [], ◌∷◌,
  ◌++◌, map, length, ◌==◌, if◌then◌else◌,
}
use resin_compute.Base.Texts.{has, insert_text, sort_texts, distinct, filter_texts}
use resin_compute.Types.{ObjectiveNode, ResolutionPath}

-- DuplicateObjectiveError, UnknownDependencyError, UnknownObjectiveError and CyclicObjectiveError, with
-- what they carry.
pub data GraphError : Type 0 where
  duplicate_objective : String → GraphError
  unknown_dependency : (node_id missing_id : String) → GraphError
  unknown_objective : String → GraphError
  cyclic_objective : (cycle : List String) → GraphError

abbrev pub Result {ℓ} : Type ℓ → Type ℓ
Result A = Outcome GraphError A

-- The loop of `_index`, with the dictionary so far.
abbrev pub index_from : List ObjectiveNode → List ObjectiveNode → Result (List ObjectiveNode)
index_from index [] = ok index
index_from index (n ∷ ns) =
    let rest = index_from (index ++ n ∷ []) ns in
    if has n.node_id (ids index) then err (duplicate_objective n.node_id) else rest

unfoldable pub index_nodes : List ObjectiveNode → Result (List ObjectiveNode)
index_nodes nodes = index_from [] nodes

abbrev pub first_missing : List String → List String → Option String
first_missing known [] = none
first_missing known (d ∷ ds) = if has d known then first_missing known ds else some d

-- The loop of `_validate_dependencies` over the sorted ids.
abbrev pub validate_from : List ObjectiveNode → List String → Result (Unit {0})
validate_from index [] = ok tt
validate_from index (i ∷ is) = elim (first_missing (ids index) (deps_of index i)) [
  | none ↦ validate_from index is
  | some d ↦ err (unknown_dependency i d)
]

unfoldable pub validate_dependencies : List ObjectiveNode → Result (Unit {0})
validate_dependencies index = validate_from index (sort_texts (ids index))

-- `_reverse_edges(index)[key]`: the nodes that depend on a key, sorted.
unfoldable pub dependents : List ObjectiveNode → String → List String
dependents index key =
    sort_texts (filter_texts (λ i. has key (distinct (deps_of index i))) (sort_texts (ids index)))

-- The variables of the loop of `topological_order`. A dictionary of counts is a function.
pub record Kahn : Type 0 where
  pub order : List String
  pub ready : List String
  pub indegree : String → ℕ

-- `indegree[child] -= 1`, and the push of a child whose count falls to zero. A count of zero would stay
-- there and push nothing, as a negative one does in the source.
unfoldable pub lower : String → Kahn → Kahn
lower child s = record {
  order = s.order;
  ready = if s.indegree child == 1 then insert_text child s.ready else s.ready;
  indegree = λ n. if str_eq child n then s.indegree n - 1 else s.indegree n;
}

unfoldable pub relax : List String → Kahn → Kahn
relax [] s = s
relax (child ∷ children) s = relax children (lower child s)

-- One round of the loop, for the id at the head of the heap.
unfoldable pub pop : List ObjectiveNode → Kahn → String → List String → Kahn
pop index s x rest =
    relax (dependents index x)
      (record { order = s.order ++ x ∷ []; ready = rest; indegree = s.indegree })

-- The loop, on as many rounds as there are nodes.
unfoldable pub kahn : List ObjectiveNode → (rounds : ℕ) → Kahn → Kahn
kahn index zero s = s
kahn index (suc rounds) s = elim s.ready [
  | [] ↦ s
  | x ∷ rest ↦ kahn index rounds (pop index s x rest)
]

abbrev pub indegree_of : List ObjectiveNode → String → ℕ
indegree_of index i = length (distinct (deps_of index i))

unfoldable pub start : List ObjectiveNode → Kahn
start index = record {
  order = [];
  ready = sort_texts (filter_texts (λ i. indegree_of index i == 0) (ids index));
  indegree = indegree_of index;
}

-- The loop and the check behind it, on a dictionary that was validated.
unfoldable pub order_of : List ObjectiveNode → Result (List String)
order_of index =
    let s = kahn index (length index) (start index) in
    if length s.order == length index then ok s.order else err (cyclic_objective (find_cycle index))

unfoldable pub topological_order : List ObjectiveNode → Result (List String)
topological_order nodes = do index ← index_nodes nodes; validate_dependencies index; order_of index
