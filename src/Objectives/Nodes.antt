-- ===== src/Objectives/Nodes.antt =====
-- A node set of engines/objectives.py, as a dictionary by id.
use Prim.Native.String.{String}
use text.Mathlib.Text.{◌==◌ as str_eq}
use resin_compute.Base.{ℕ, ◌+◌, Option, none, some, List, [], ◌∷◌, map, length, if◌then◌else◌}
use resin_compute.Types.{ObjectiveNode}

abbrev pub ids : List ObjectiveNode → List String
ids = map (λ n. n.node_id)

abbrev pub find : String → List ObjectiveNode → Option ObjectiveNode
find key [] = none
find key (n ∷ ns) = if str_eq n.node_id key then some n else find key ns

-- `index[key].depends_on`; no key is missed where it is read.
unfoldable pub deps_of : List ObjectiveNode → String → List String
deps_of index key = elim (find key index) [ none ↦ [] | some node ↦ node.depends_on ]

abbrev pub edge_count : (String → List String) → List String → ℕ
edge_count edges [] = 0
edge_count edges (i ∷ is) = length (edges i) + edge_count edges is
