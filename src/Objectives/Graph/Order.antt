-- ===== src/Objectives/Graph/Order.antt =====
-- The order of `topological_order` in engines/objectives.py: what its loop keeps.
use Prim.Native.String.{String}
use text.Mathlib.TextPositions.{eq_refl}
use mathlib.Core.Path.{subst}
use mathlib.Core.List.{append-nil, append_assoc}
use resin_compute.Base.{
  ℕ, ◌+◌, ◌≤◌, ◌≡◌, inl, inr, refl, sym, ◌∙◌, Bool, true, false, ◌||◌, List, [], ◌∷◌, ◌++◌, arith,
  length, ◌==◌, if◌then◌else◌,
}
use resin_compute.Base.Texts.{
  has, distinct, IsDistinct, text_cases, str_eq_comm, has-append, filter_texts, has-filter_texts,
  filter_texts-IsDistinct, sort_texts, has-sort_texts, sort_texts-IsDistinct,
}
use resin_compute.Types.{ObjectiveNode}
use resin_compute.Objectives.Graph.{Kahn, ids, deps_of, dependents}

-- How many of some ids are not placed yet.
abbrev pub missing : (placed ds : List String) → ℕ
missing placed [] = 0
missing placed (d ∷ ds) = (if has d placed then 0 else 1) + missing placed ds

pub missing_none :
    (placed ds : List String) (d : String)
    → missing placed ds ≡ 0
    → has d ds ≡ true
    → has d placed ≡ true
missing_none placed [] d h k = cc
missing_none placed (x ∷ xs) d h k = elim (text_cases d x) [
  | inl same ↦ subst (λ y. has y placed ≡ true) (sym same) (ground arith)
  | inr other ↦ missing_none placed xs d (ground arith) (ground arith)
]

pub missing_all :
    (placed ds : List String)
    → ((d : String) → has d ds ≡ true → has d placed ≡ true)
    → missing placed ds ≡ 0
missing_all placed [] h = refl
missing_all placed (x ∷ xs) h =
    ground (arith, h x, eq_refl x, missing_all placed xs (λ d k. h d (ground arith)))

pub missing_some :
    (placed ds : List String) (d : String)
    → has d ds ≡ true
    → has d placed ≡ false
    → 1 ≤ missing placed ds
missing_some placed [] d k h = cc
missing_some placed (x ∷ xs) d k h = elim (text_cases d x) [
  | inl same ↦
      let out : has x placed ≡ false = subst (λ y. has y placed ≡ false) same h in ground arith
  | inr other ↦ ground (arith, missing_some placed xs d)
]

pub missing-snoc :
    (placed ds : List String) (x : String)
    → IsDistinct ds
    → has x placed ≡ false
    → missing (placed ++ x ∷ []) ds + (if has x ds then 1 else 0) ≡ missing placed ds
missing-snoc placed [] x a h = refl
missing-snoc placed (d ∷ ds) x a h = elim (text_cases x d) [
  | inl same ↦
      let first : has x ds ≡ false = subst (λ y. has y ds ≡ false) (sym same) a.0 in
      let rest = missing-snoc placed ds x a.1 h in
      subst
        (λ y.
          missing (placed ++ x ∷ []) (y ∷ ds) + (if has x (y ∷ ds) then 1 else 0)
          ≡ missing placed (y ∷ ds))
        same (ground (arith, has-append x placed (x ∷ []), eq_refl x, first, h, rest))
  | inr other ↦
      ground (arith, has-append d placed (x ∷ []), str_eq_comm x d, missing-snoc placed ds x a.1 h)
]

-- An order read from the left: the dependencies of each id stand before it.
abbrev pub IsOrderedFrom : List ObjectiveNode → (before order : List String) → Type 0
IsOrderedFrom index before [] = Unit
IsOrderedFrom index before (x ∷ xs) =
    ((d : String) → has d (deps_of index x) ≡ true → has d before ≡ true)
    × IsOrderedFrom index (before ++ x ∷ []) xs

pub IsOrderedFrom-snoc :
    (index : List ObjectiveNode) (before order : List String) (x : String)
    → IsOrderedFrom index before order
    → ((d : String) → has d (deps_of index x) ≡ true → has d (before ++ order) ≡ true)
    → IsOrderedFrom index before (order ++ x ∷ [])
IsOrderedFrom-snoc index before [] x a h = (rw (append-nil before) at h, tt)
IsOrderedFrom-snoc index before (y ∷ order) x a h = (
  a.0,
  IsOrderedFrom-snoc index (before ++ y ∷ []) order x a.1
      (λ d k. rw (append_assoc before (y ∷ []) order) (h d k)),
)

pub has-dependents :
    (index : List ObjectiveNode) (x n : String)
    → has n (ids index) ≡ true
    → has n (dependents index x) ≡ has x (distinct (deps_of index n))
unfolding dependents
has-dependents index x n known =
    let listed =
      has-filter_texts n (λ i. has x (distinct (deps_of index i))) (sort_texts (ids index)) in
    ground (
      arith,
      has-sort_texts n
          (filter_texts (λ i. has x (distinct (deps_of index i))) (sort_texts (ids index))),
      has-sort_texts n (ids index),
      listed,
    )

pub dependents-IsDistinct :
    (index : List ObjectiveNode) (x : String)
    → IsDistinct (ids index)
    → IsDistinct (dependents index x)
unfolding dependents
dependents-IsDistinct index x apart =
    sort_texts-IsDistinct
      (filter_texts (λ i. has x (distinct (deps_of index i))) (sort_texts (ids index)))
      (filter_texts-IsDistinct (λ i. has x (distinct (deps_of index i))) (sort_texts (ids index))
        (sort_texts-IsDistinct (ids index) apart))

pub dependents_known :
    (index : List ObjectiveNode) (x n : String)
    → has n (dependents index x) ≡ true
    → has n (ids index) ≡ true
unfolding dependents
dependents_known index x n h =
    let test : String → Bool = λ i. has x (distinct (deps_of index i)) in
    sym (has-sort_texts n (ids index))
    ∙ ((has-filter_texts n test (sort_texts (ids index))).0
        (sym (has-sort_texts n (filter_texts test (sort_texts (ids index)))) ∙ h)).0

-- What the loop keeps: the order is a sound start, each count is the number of dependencies that are
-- not placed, and the heap holds the nodes that are not placed and whose count is zero.
pub record IsRunning (index : List ObjectiveNode) (s : Kahn) : Type 0 where
  pub ordered : IsOrderedFrom index [] s.order
  pub inside : (n : String) → (has n s.ready || has n s.order) ≡ true → has n (ids index) ≡ true
  pub counts :
      (n : String)
      → has n (ids index) ≡ true
      → s.indegree n ≡ missing s.order (distinct (deps_of index n))
  pub waiting :
      (n : String)
      → has n (ids index) ≡ true
      → (has n s.ready || has n s.order) ≡ (s.indegree n == 0)
  pub unplaced : (n : String) → has n s.ready ≡ true → has n s.order ≡ false
  pub ready_apart : IsDistinct s.ready
  pub order_apart : IsDistinct s.order
  pub counted : length s.order + missing s.order (ids index) ≡ length (ids index)
