-- ===== src/Objectives/Graph/Running.antt =====
-- The loop of `topological_order` in engines/objectives.py: every round keeps what the loop relies on.
use Prim.Native.String.{String}
use text.Mathlib.Text.{◌==◌ as str_eq}
use text.Mathlib.TextPositions.{eq_refl}
use mathlib.Core.Path.{subst}
use resin_compute.Base.{
  suc, ◌+◌, ◌≤◌, ◌≡◌, ◌↔◌, inl, inr, refl, sym, ap, ◌∙◌, Bool, true, false, ◌||◌, List, [], ◌∷◌,
  ◌++◌, arith, length, ◌==◌, if◌then◌else◌, length-append,
}
use resin_compute.Base.Texts.{
  has, clash, distinct, IsDistinct, text_cases, has-append, has-distinct, distinct-IsDistinct,
  filter_texts, has-filter_texts, filter_texts-IsDistinct, sort_texts, has-sort_texts,
  sort_texts-IsDistinct,
}
use resin_compute.Types.{ObjectiveNode}
use resin_compute.Objectives.Graph.{Kahn, ids, deps_of, dependents, pop, start, indegree_of}
use resin_compute.Objectives.Graph.Index.{IsDistinct-snoc}
use resin_compute.Objectives.Graph.Relax.{Relaxed, relax-Relaxed}
use resin_compute.Objectives.Graph.Order.{
  missing, missing_none, missing_some, missing-snoc, IsOrderedFrom, IsOrderedFrom-snoc,
  has-dependents, dependents-IsDistinct, dependents_known, IsRunning,
}

missing_empty : (ds : List String) → missing [] ds ≡ length ds
missing_empty [] = refl
missing_empty (d ∷ ds) = ground (arith, missing_empty ds)

pub start-IsRunning :
    (index : List ObjectiveNode) → IsDistinct (ids index) → IsRunning index (start index)
unfolding start
start-IsRunning index apart = record {
  ordered = tt;
  inside = λ n h. ((roots n).0 (ground arith)).0;
  counts = λ n k. sym (missing_empty (distinct (deps_of index n)));
  waiting = λ n k. ground (arith, roots n);
  unplaced = λ n h. refl;
  ready_apart =
      sort_texts-IsDistinct (filter_texts root (ids index))
        (filter_texts-IsDistinct root (ids index) apart);
  order_apart = tt;
  counted = ground (arith, missing_empty (ids index));
}
  where
    root : String → Bool
    root i = indegree_of index i == 0

    roots :
        (n : String)
        → (has n (sort_texts (filter_texts (λ i. indegree_of index i == 0) (ids index))) ≡ true)
          ↔ ((has n (ids index) ≡ true) × (indegree_of index n == 0) ≡ true)
    roots n =
        rw (has-sort_texts n (filter_texts root (ids index))) (has-filter_texts n root (ids index))

-- The state of a round before its children are lowered.
abbrev pub taken : Kahn → String → List String → Kahn
taken s x rest = record { order = s.order ++ x ∷ []; ready = rest; indegree = s.indegree }

-- A count that is lowered is that of a node with a dependency to place, so none of them waits.
round :
    (index : List ObjectiveNode) (s : Kahn) (x : String) (rest : List String)
    → IsDistinct (ids index)
    → IsRunning index s
    → s.ready ≡ x ∷ rest
    → has x (ids index) ≡ true
      × has x s.order ≡ false
      × Relaxed (dependents index x) (taken s x rest) (pop index s x rest)
unfolding pop
round index s x rest apart run e = (
  known_x,
  out_x,
  relax-Relaxed (dependents index x) (taken s x rest) (dependents-IsDistinct index x apart)
      ready_apart.1 idle,
)
  where
    ready_apart : IsDistinct (x ∷ rest)
    ready_apart = subst IsDistinct e run.ready_apart

    ready_has : (n : String) → has n s.ready ≡ (str_eq n x || has n rest)
    ready_has n = ap (has n) e

    known_x : has x (ids index) ≡ true
    known_x = run.inside x (ground (arith, ready_has x, eq_refl x))

    out_x : has x s.order ≡ false
    out_x = run.unplaced x (ground (arith, ready_has x, eq_refl x))

    idle : (n : String) → has n (dependents index x) ≡ true → has n rest ≡ false
    idle n child =
        let known = dependents_known index x n child in
        let needs = sym (has-dependents index x n known) ∙ child in
        let due = missing_some s.order (distinct (deps_of index n)) x needs out_x in
        ground (arith, run.counts n known, run.waiting n known, ready_has n, due)

-- Every round keeps the invariant, and places one more node.
pub pop-IsRunning :
    (index : List ObjectiveNode) (s : Kahn) (x : String) (rest : List String)
    → IsDistinct (ids index)
    → IsRunning index s
    → s.ready ≡ x ∷ rest
    → IsRunning index (pop index s x rest)
      × suc (missing (pop index s x rest).order (ids index)) ≡ missing s.order (ids index)
pop-IsRunning index s x rest apart run e = (
  record {
    ordered =
        subst (IsOrderedFrom index []) (sym same)
          (IsOrderedFrom-snoc index [] s.order x run.ordered served);
    inside = λ n h. inside n h;
    counts = λ n k. counts n k;
    waiting = λ n k. waiting n k;
    unplaced = λ n h. unplaced n h;
    ready_apart = step.apart;
    order_apart = subst IsDistinct (sym same) (IsDistinct-snoc s.order x run.order_apart out_x);
    counted = ground (
      arith,
      fewer (ids index) apart,
      known_x,
      run.counted,
      ap length same,
      length-append s.order (x ∷ []),
    );
  },
  ground (arith, fewer (ids index) apart, known_x),
)
  where
    known_x : has x (ids index) ≡ true
    known_x = (round index s x rest apart run e).0

    out_x : has x s.order ≡ false
    out_x = (round index s x rest apart run e).1

    step : Relaxed (dependents index x) (taken s x rest) (pop index s x rest)
    step = (round index s x rest apart run e).2

    same : (pop index s x rest).order ≡ s.order ++ x ∷ []
    same = step.same_order

    ready_has : (n : String) → has n s.ready ≡ (str_eq n x || has n rest)
    ready_has n = ap (has n) e

    order_has : (n : String) → has n (pop index s x rest).order ≡ (has n s.order || str_eq n x)
    order_has n = ap (has n) same ∙ ground (arith, has-append n s.order (x ∷ []))

    fewer :
        (ds : List String)
        → IsDistinct ds
        → missing (pop index s x rest).order ds + (if has x ds then 1 else 0) ≡ missing s.order ds
    fewer ds d =
        ap (λ o. missing o ds + (if has x ds then 1 else 0)) same
        ∙ missing-snoc s.order ds x d out_x

    served : (d : String) → has d (deps_of index x) ≡ true → has d s.order ≡ true
    served d k =
        missing_none s.order (distinct (deps_of index x)) d
          (ground (arith, run.counts x known_x, run.waiting x known_x, ready_has x, eq_refl x))
          (has-distinct d (deps_of index x) ∙ k)

    counts :
        (n : String)
        → has n (ids index) ≡ true
        → (pop index s x rest).indegree n
          ≡ missing (pop index s x rest).order (distinct (deps_of index n))
    counts n k = ground (
      arith,
      step.count n,
      run.counts n k,
      has-dependents index x n k,
      fewer (distinct (deps_of index n)) (distinct-IsDistinct (deps_of index n)),
    )

    due : (n : String) → has n (dependents index x) ≡ true → 1 ≤ s.indegree n
    due n child =
        let k = dependents_known index x n child in
        let some_due =
          missing_some s.order (distinct (deps_of index n)) x
            (sym (has-dependents index x n k) ∙ child) out_x in
        ground (arith, run.counts n k, some_due)

    inside :
        (n : String)
        → (has n (pop index s x rest).ready || has n (pop index s x rest).order) ≡ true
        → has n (ids index) ≡ true
    inside n h =
        ground
          (arith, step.pushed n, order_has n, ready_has n, run.inside n, dependents_known index x n)

    waiting :
        (n : String)
        → has n (ids index) ≡ true
        → (has n (pop index s x rest).ready || has n (pop index s x rest).order)
          ≡ ((pop index s x rest).indegree n == 0)
    waiting n k =
        ground
          (arith, step.pushed n, step.count n, order_has n, ready_has n, run.waiting n k, due n)

    left : has x (pop index s x rest).ready ≡ false
    left =
        let (out_rest, others) = subst IsDistinct e run.ready_apart in
        ground
          (arith, step.pushed x, ready_has x, eq_refl x, run.waiting x known_x, due x, out_rest)

    unplaced :
        (n : String)
        → has n (pop index s x rest).ready ≡ true
        → has n (pop index s x rest).order ≡ false
    unplaced n h = elim (text_cases n x) [
      | inl at_x ↦
          absurd (clash _ (subst (λ m. has m (pop index s x rest).ready ≡ true) at_x h) left)
      | inr other ↦ ground (
        arith,
        step.pushed n,
        order_has n,
        ready_has n,
        run.unplaced n,
        run.waiting n,
        dependents_known index x n,
        due n,
      )
    ]
