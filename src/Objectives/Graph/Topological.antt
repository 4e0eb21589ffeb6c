-- ===== src/Objectives/Graph/Topological.antt =====
-- `topological_order` of engines/objectives.py: its order, its errors, and when it answers.
use Prim.Native.String.{String}
use text.Mathlib.TextPositions.{eq_refl}
use mathlib.Core.Path.{subst}
use resin_compute.Base.{
  ℕ, zero, suc, ◌≤◌, ◌≡◌, ◌⊎◌, inl, inr, refl, sym, ap, ◌∙◌, Bool, true, false, not, List, [], ◌∷◌,
  arith, length, ◌==◌, ==_iff, Bool-cases,
}
use resin_compute.Base.Texts.{
  has, clash, distinct, IsDistinct, has-distinct, filter_texts, has-filter_texts,
}
use resin_compute.Types.{ObjectiveNode}
use resin_compute.Objectives.Graph.{
  Kahn, ok, err, GraphError, ids, deps_of, pop, kahn, start, order_of,
}
use resin_compute.Objectives.Graph.Order.{missing, missing_none, IsOrderedFrom, IsRunning}
use resin_compute.Objectives.Graph.Running.{start-IsRunning, pop-IsRunning}

-- What an order of a node set promises: every node once, and its dependencies before it.
pub record IsTopological (nodes : List ObjectiveNode) (order : List String) : Type 0 where
  pub ordered : IsOrderedFrom nodes [] order
  pub once : IsDistinct order
  pub every : (n : String) → has n order ≡ has n (ids nodes)

-- What holds of a node set that has an order.
pub record IsValid (nodes : List ObjectiveNode) : Type 0 where
  pub apart : IsDistinct (ids nodes)
  pub known :
      (i d : String)
      → has i (ids nodes) ≡ true
      → has d (deps_of nodes i) ≡ true
      → has d (ids nodes) ≡ true

-- Some nodes, each of which waits for another of them.
pub record IsStuck (nodes : List ObjectiveNode) (stuck : List String) : Type 0 where
  pub inhabited : 1 ≤ length stuck
  pub nodes_of : (n : String) → has n stuck ≡ true → has n (ids nodes) ≡ true
  pub waits :
      (n : String)
      → has n stuck ≡ true
      → (d : String) × (has d (deps_of nodes n) ≡ true) × (has d stuck ≡ true)

pub text_list_cases :
    (xs : List String) → (xs ≡ []) ⊎ ((x : String) × (rest : List String) × (xs ≡ x ∷ rest))
text_list_cases [] = inl refl
text_list_cases (x ∷ xs) = inr (x, xs, refl)

-- With every node placed, none waits.
all_placed :
    (index : List ObjectiveNode) (s : Kahn)
    → IsRunning index s
    → missing s.order (ids index) ≡ 0
    → s.ready ≡ []
all_placed index s run h = elim (text_list_cases s.ready) [
  | inl e ↦ e
  | inr (x, rest, e) ↦
      let waits : has x s.ready ≡ true = ap (has x) e ∙ ground (arith, eq_refl x) in
      let known : has x (ids index) ≡ true = run.inside x (ground arith) in
      absurd (clash _ (missing_none s.order (ids index) x h known) (run.unplaced x waits))
]

kahn_done :
    (index : List ObjectiveNode) (rounds : ℕ) (s : Kahn)
    → s.ready ≡ []
    → kahn index (suc rounds) s ≡ s
unfolding kahn
kahn_done index rounds s e =
    ap (λ q. elim q as (λ p. Kahn) [ [] ↦ s | x ∷ rest ↦ kahn index rounds (pop index s x rest) ]) e

kahn_next :
    (index : List ObjectiveNode) (rounds : ℕ) (s : Kahn) (x : String) (rest : List String)
    → s.ready ≡ x ∷ rest
    → kahn index (suc rounds) s ≡ kahn index rounds (pop index s x rest)
unfolding kahn
kahn_next index rounds s y ys e =
    ap (λ q. elim q as (λ p. Kahn) [ [] ↦ s | x ∷ rest ↦ kahn index rounds (pop index s x rest) ]) e

kahn_lem :
    (index : List ObjectiveNode) (rounds : ℕ) (s : Kahn)
    → IsDistinct (ids index)
    → IsRunning index s
    → missing s.order (ids index) ≤ rounds
    → IsRunning index (kahn index rounds s) × ((kahn index rounds s).ready ≡ [])
unfolding kahn
kahn_lem index zero s apart run h = (run, all_placed index s run (omega arith))
kahn_lem index (suc rounds) s apart run h = elim (text_list_cases s.ready) [
  | inl e ↦ rw (kahn_done index rounds s e) (run, e)
  | inr (x, rest, e) ↦
      let (run', fewer) = pop-IsRunning index s x rest apart run e in
      rw (kahn_next index rounds s x rest e)
        (kahn_lem index rounds (pop index s x rest) apart run' (omega arith))
]

length-ids : (index : List ObjectiveNode) → length (ids index) ≡ length index
length-ids [] = refl
length-ids (n ∷ index) = ground (arith, length-ids index)

-- The loop ends with an empty heap, on as many rounds as there are nodes.
final :
    (index : List ObjectiveNode)
    → IsDistinct (ids index)
    → IsRunning index (kahn index (length index) (start index))
      × ((kahn index (length index) (start index)).ready ≡ [])
final index apart =
    let begin = start-IsRunning index apart in
    kahn_lem index (length index) (start index) apart begin
      (ground (arith, begin.counted, length-ids index))

pub order_of-IsTopological :
    (index : List ObjectiveNode) {order : List String}
    → IsDistinct (ids index)
    → order_of index ≡ ok order
    → IsTopological index order
unfolding order_of
order_of-IsTopological index {order} apart h =
    let s : Kahn = kahn index (length index) (start index) in
    let (run, empty) = final index apart in
    elim (Bool-cases (length s.order == length index)) [
      | inr e ↦ cc (rw e at h)
      | inl e ↦
          let same : s.order ≡ order = cc (rw e at h) in
          let none_left : missing s.order (ids index) ≡ 0 =
            ground (arith, e, run.counted, length-ids index) in
          subst (IsTopological index) same (record {
            ordered = run.ordered;
            once = run.order_apart;
            every = λ n. ground (arith, run.inside n, missing_none s.order (ids index) n none_left);
          })
    ]

length-filter_texts :
    (placed ds : List String)
    → length (filter_texts (λ n. not (has n placed)) ds) ≡ missing placed ds
length-filter_texts placed [] = refl
length-filter_texts placed (d ∷ ds) = ground (arith, length-filter_texts placed ds)

missing_find :
    (placed ds : List String)
    → 1 ≤ missing placed ds
    → (d : String) × (has d ds ≡ true) × (has d placed ≡ false)
missing_find placed [] h = absurd (omega arith)
missing_find placed (x ∷ ds) h = elim (Bool-cases (has x placed)) [
  | inr e ↦ (x, ground (arith, eq_refl x), e)
  | inl e ↦ let (d, inside, out) = missing_find placed ds (ground arith) in (d, ground arith, out)
]

-- Where nodes are left over, each of them waits for another of them.
pub left_over :
    (index : List ObjectiveNode) {e : GraphError}
    → IsDistinct (ids index)
    → ((i d : String)
        → has i (ids index) ≡ true
        → has d (deps_of index i) ≡ true
        → has d (ids index) ≡ true)
    → order_of index ≡ err e
    → (stuck : List String) × IsStuck index stuck
unfolding order_of
left_over index apart known h =
    let s : Kahn = kahn index (length index) (start index) in
    let (run, empty) = final index apart in
    let out : String → Bool = λ n. not (has n s.order) in
    let stuck : List String = filter_texts out (ids index) in
    elim (Bool-cases (length s.order == length index)) [
      | inl e ↦ cc (rw e at h)
      | inr e ↦ (
        stuck,
        record {
          inhabited = ground (
            arith,
            length-filter_texts s.order (ids index),
            run.counted,
            length-ids index,
            e,
            ==_iff (length s.order) (length index),
          );
          nodes_of = λ n k. ((has-filter_texts n out (ids index)).0 k).0;
          waits = λ n k. waits s run empty n k;
        },
      )
    ]
  where
    waits :
        (s : Kahn)
        → IsRunning index s
        → s.ready ≡ []
        → (n : String) → has n (filter_texts (λ m. not (has m s.order)) (ids index)) ≡ true
        → (d : String) × (has d (deps_of index n) ≡ true)
          × (has d (filter_texts (λ m. not (has m s.order)) (ids index)) ≡ true)
    waits s run empty n k =
        let out : String → Bool = λ m. not (has m s.order) in
        let (inside, unplaced) = (has-filter_texts n out (ids index)).0 k in
        let idle : has n s.ready ≡ false = ap (has n) empty in
        let (d, needed, left) =
          missing_find s.order (distinct (deps_of index n))
            (ground (arith, run.counts n inside, run.waiting n inside)) in
        let needs : has d (deps_of index n) ≡ true =
          sym (has-distinct d (deps_of index n)) ∙ needed in
        (d, needs, (has-filter_texts d out (ids index)).1 (known n d inside needs, ground arith))
