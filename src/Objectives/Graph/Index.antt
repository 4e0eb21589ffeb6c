-- ===== src/Objectives/Graph/Index.antt =====
-- What `_index` and `_validate_dependencies` of engines/objectives.py establish.
use Prim.Native.String.{String}
use mathlib.Core.Path.{subst}
use mathlib.Core.List.{append-nil, append_assoc}
use resin_compute.Base.{
  ◌≡◌, refl, sym, ap, ◌∙◌, true, false, none, List, [], ◌∷◌, ◌++◌, Bool-cases, Option-cases, inl,
  inr, arith,
}
use resin_compute.Base.Texts.{
  has, IsDistinct, text_cases, has-append, sort_texts, has-sort_texts, str_eq_comm,
}
use resin_compute.Types.{ObjectiveNode}
use resin_compute.Objectives.Graph.{
  ok, ids, deps_of, index_from, index_nodes, first_missing, validate_from, validate_dependencies,
}

pub IsDistinct-snoc :
    (xs : List String) (x : String) → IsDistinct xs → has x xs ≡ false → IsDistinct (xs ++ x ∷ [])
IsDistinct-snoc [] x d h = (refl, tt)
IsDistinct-snoc (y ∷ ys) x d h = (
  has-append y ys (x ∷ []) ∙ ground (arith, str_eq_comm y x),
  IsDistinct-snoc ys x d.1 (ground arith),
)

pub ids-append : (xs ys : List ObjectiveNode) → ids (xs ++ ys) ≡ ids xs ++ ids ys
ids-append [] ys = refl
ids-append (x ∷ xs) ys = ap (λ zs. x.node_id ∷ zs) (ids-append xs ys)

index_from_lem :
    (index nodes : List ObjectiveNode) {out : List ObjectiveNode}
    → IsDistinct (ids index)
    → index_from index nodes ≡ ok out
    → (out ≡ index ++ nodes) × IsDistinct (ids out)
index_from_lem index [] {out} d h =
    let e : index ≡ out = cc in (sym e ∙ sym (append-nil index), rw (← e) d)
index_from_lem index (n ∷ ns) {out} d h = elim (Bool-cases (has n.node_id (ids index))) [
  | inl e ↦ cc (rw e at h)
  | inr e ↦
      let d' : IsDistinct (ids (index ++ n ∷ [])) =
        rw (ids-append index (n ∷ [])) (IsDistinct-snoc (ids index) n.node_id d e) in
      let (same, apart) = index_from_lem (index ++ n ∷ []) ns d' (rw e at h) in
      (same ∙ append_assoc index (n ∷ []) ns, apart)
]

-- The dictionary of a node set without a repeated id is the node set.
pub index_nodes_lem :
    (nodes : List ObjectiveNode) {index : List ObjectiveNode}
    → index_nodes nodes ≡ ok index
    → (index ≡ nodes) × IsDistinct (ids index)
unfolding index_nodes
index_nodes_lem nodes h = index_from_lem [] nodes tt h

first_missing-none :
    (known ds : List String) (d : String)
    → first_missing known ds ≡ none
    → has d ds ≡ true
    → has d known ≡ true
first_missing-none known [] d h k = cc
first_missing-none known (x ∷ xs) d h k = elim (Bool-cases (has x known)) [
  | inr e ↦ cc (rw e at h)
  | inl e ↦ elim (text_cases d x) [
    | inl same ↦ subst (λ y. has y known ≡ true) (sym same) e
    | inr other ↦ first_missing-none known xs d (rw e at h) (ground arith)
  ]
]

validate_from_lem :
    (index : List ObjectiveNode) (is : List String)
    → validate_from index is ≡ ok tt
    → (i d : String) → has i is ≡ true
    → has d (deps_of index i) ≡ true
    → has d (ids index) ≡ true
validate_from_lem index [] h i d k m = cc
validate_from_lem index (x ∷ xs) h i d k m =
    elim (Option-cases (first_missing (ids index) (deps_of index x))) [
      | inr (missing, e) ↦ cc (rw (e, validate_from) at h)
      | inl e ↦ elim (text_cases i x) [
        | inl same ↦
            first_missing-none (ids index) (deps_of index x) d e
              (subst (λ y. has d (deps_of index y) ≡ true) same m)
        | inr other ↦ validate_from_lem index xs (rw (e, validate_from) at h) i d (ground arith) m
      ]
    ]

-- Where the validation passes, every dependency of a node is a node.
pub validate_dependencies_lem :
    (index : List ObjectiveNode)
    → validate_dependencies index ≡ ok tt
    → (i d : String) → has i (ids index) ≡ true
    → has d (deps_of index i) ≡ true
    → has d (ids index) ≡ true
unfolding validate_dependencies
validate_dependencies_lem index h i d k =
    validate_from_lem index (sort_texts (ids index)) h i d (has-sort_texts i (ids index) ∙ k)
