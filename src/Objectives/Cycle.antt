-- ===== src/Objectives/Cycle.antt =====
-- `_find_cycle` of engines/objectives.py: the search for the cycle that the error of a cyclic set names.
-- The colours are read off two lists: grey are the ids of the frames on the stack, which are the path
-- too, and black those that are done.
pub mod Found
pub mod Exhausted
use Prim.Native.String.{String}
use text.Mathlib.Text.{◌==◌ as str_eq}
use resin_compute.Base.{
  ℕ, zero, suc, ◌+◌, Bool, true, false, Option, none, some, List, [], ◌∷◌, map, length,
  if◌then◌else◌,
}
use resin_compute.Base.Texts.{has, sort_texts, distinct}
use resin_compute.Types.{ObjectiveNode}
use resin_compute.Objectives.Nodes.{ids, deps_of, edge_count}

-- An id on the path, and its edges that are not tried yet. The last one stands first.
abbrev pub Frame : Type 0
Frame = String × List String

abbrev pub path_of : List Frame → List String
path_of [] = []
path_of ((n, _) ∷ frames) = n ∷ path_of frames

abbrev pub edges_of : List ObjectiveNode → String → List String
edges_of index n = sort_texts (distinct (deps_of index n))

-- `path[path.index(dep):] + (dep,)`, from the end of the path on; no id is on it twice.
abbrev pub trace : (dep : String) → List Frame → (tail : List String) → List String
trace dep [] tail = tail
trace dep ((n, _) ∷ frames) tail =
    let longer = trace dep frames (n ∷ tail) in if str_eq n dep then n ∷ tail else longer

-- The loop over the stack: a cycle, or what is black at its end.
unfoldable pub descend :
    List ObjectiveNode
    → (rounds : ℕ) → (black : List String) → List Frame
    → Option (List String) × List String
descend index zero black frames = (none, black)
descend index (suc rounds) black [] = (none, black)
descend index (suc rounds) black ((n, []) ∷ frames) = descend index rounds (n ∷ black) frames
descend index (suc rounds) black ((n, dep ∷ edges) ∷ frames) = elim (has dep (n ∷ path_of frames)) [
  | true ↦ (some (trace dep ((n, edges) ∷ frames) (dep ∷ [])), black)
  | false ↦ elim (has dep black) [
    | true ↦ descend index rounds black ((n, edges) ∷ frames)
    | false ↦ descend index rounds black ((dep, edges_of index dep) ∷ (n, edges) ∷ frames)
  ]
]

-- One round for each id and one for each edge.
abbrev pub rounds_for : List ObjectiveNode → ℕ
rounds_for index = edge_count (λ n. n ∷ edges_of index n) (ids index)

-- The loop over the roots.
unfoldable pub find_from : List ObjectiveNode → (black roots : List String) → Option (List String)
find_from index black [] = none
find_from index black (root ∷ roots) = elim (has root black) [
  | true ↦ find_from index black roots
  | false ↦
      let (found, black') =
        descend index (rounds_for index) black ((root, edges_of index root) ∷ []) in
      elim found [ some cycle ↦ some cycle | none ↦ find_from index black' roots ]
]

unfoldable pub find_cycle : List ObjectiveNode → List String
find_cycle index = elim (find_from index [] (sort_texts (ids index))) [
  | none ↦ []
  | some cycle ↦ cycle
]
