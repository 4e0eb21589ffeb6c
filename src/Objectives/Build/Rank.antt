-- ===== src/Objectives/Build/Rank.antt =====
-- A wired list of nodes has an order: that of the list itself.
use Prim.Native.String.{String}
use text.Mathlib.Text.{◌==◌ as str_eq}
use text.Mathlib.TextEquality.{eq_iff}
use text.Mathlib.TextPositions.{eq_refl}
use mathlib.Core.Path.{subst}
use resin_compute.Base.{
  ℕ, suc, ◌<◌, ◌≡◌, ◌⊎◌, inl, inr, refl, sym, ap, ◌∙◌, true, false, List, [], ◌∷◌, ◌++◌, arith,
  if◌then◌else◌, Bool-cases,
}
use resin_compute.Base.Texts.{has, clash, text_cases, str_eq_comm, IsDistinct, has-append}
use resin_compute.Types.{ObjectiveNode}
use resin_compute.Objectives.Graph.{ids, find, deps_of, topological_order}
use resin_compute.Objectives.Graph as Graph
use resin_compute.Objectives.Graph.Topological.{IsTopological}
use resin_compute.Objectives.Graph.Refusal.{topological_order_acyclic}
use resin_compute.Objectives.Build.Wired.{IsWired}

-- How far into a list an id stands.
abbrev position : List String → String → ℕ
position [] d = 0
position (x ∷ xs) d = if str_eq d x then 0 else suc (position xs d)

IsWired-apart :
    (before : List String) (nodes : List ObjectiveNode)
    → IsWired before nodes
    → (x : String) → has x before ≡ true
    → has x (ids nodes) ≡ false
IsWired-apart before [] w x h = refl
IsWired-apart before (n ∷ ns) (fresh, served, w) x h = elim (text_cases x n.node_id) [
  | inl same ↦ absurd (clash (has n.node_id before) (subst (λ y. has y before ≡ true) same h) fresh)
  | inr other ↦
      ground (
        arith,
        IsWired-apart (before ++ n.node_id ∷ []) ns w x,
        has-append x before (n.node_id ∷ []),
      )
]

IsWired-IsDistinct :
    (before : List String) (nodes : List ObjectiveNode)
    → IsWired before nodes
    → IsDistinct (ids nodes)
IsWired-IsDistinct before [] w = tt
IsWired-IsDistinct before (n ∷ ns) (fresh, served, w) = (
  IsWired-apart (before ++ n.node_id ∷ []) ns w n.node_id
      (ground (arith, has-append n.node_id before (n.node_id ∷ []), eq_refl n.node_id)),
  IsWired-IsDistinct (before ++ n.node_id ∷ []) ns w,
)

deps_here :
    (n : ObjectiveNode) (ns : List ObjectiveNode) (i : String)
    → str_eq n.node_id i ≡ true
    → deps_of (n ∷ ns) i ≡ n.depends_on
unfolding deps_of
deps_here n ns i e = rw (e, deps_of) refl

deps_later :
    (n : ObjectiveNode) (ns : List ObjectiveNode) (i : String)
    → str_eq n.node_id i ≡ false
    → deps_of (n ∷ ns) i ≡ deps_of ns i
unfolding deps_of
deps_later n ns i e = rw (e, deps_of) refl

-- A dependency stands before all the nodes, or is one of them and stands before its node.
IsWired-position :
    (before : List String) (nodes : List ObjectiveNode)
    → IsWired before nodes
    → (i d : String) → has d (deps_of nodes i) ≡ true
    → (has d before ≡ true)
      ⊎ ((has d (ids nodes) ≡ true) × (position (ids nodes) d < position (ids nodes) i))
unfolding deps_of
IsWired-position before [] w i d k = cc
IsWired-position before (n ∷ ns) (fresh, served, w) i d k = elim (Bool-cases (str_eq n.node_id i)) [
  | inl here ↦ inl (served d (ap (has d) (sym (deps_here n ns i here)) ∙ k))
  | inr other ↦
      elim (IsWired-position (before ++ n.node_id ∷ []) ns w i d
        (ap (has d) (sym (deps_later n ns i other)) ∙ k)) [
          | inr (inside, less) ↦ inr (ground arith, ground (arith, str_eq_comm i n.node_id))
          | inl earlier ↦ elim (text_cases d n.node_id) [
            | inr apart ↦ inl (ground (arith, has-append d before (n.node_id ∷ [])))
            | inl same ↦
                let at_head : str_eq d n.node_id ≡ true = (eq_iff d n.node_id).1 same in
                inr (ground arith, ground (arith, str_eq_comm i n.node_id))
          ]
        ]
]

pub IsWired-IsTopological :
    (nodes : List ObjectiveNode)
    → IsWired [] nodes
    → (order : List String) × (topological_order nodes ≡ Graph.ok order) × IsTopological nodes order
IsWired-IsTopological nodes w =
    topological_order_acyclic nodes (position (ids nodes)) (IsWired-IsDistinct [] nodes w)
      (λ i d h k. elim (IsWired-position [] nodes w i d k) [ inl none ↦ cc | inr there ↦ there ])
