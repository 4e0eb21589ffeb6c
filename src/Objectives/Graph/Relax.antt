-- ===== src/Objectives/Graph/Relax.antt =====
-- One round of the loop of `topological_order` in engines/objectives.py.
use Prim.Native.String.{String}
use text.Mathlib.Text.{◌==◌ as str_eq}
use text.Mathlib.TextPositions.{eq_refl}
use mathlib.Core.Path.{subst}
use resin_compute.Base.{
  ◌-◌, ◌≡◌, inl, inr, refl, sym, ◌∙◌, true, false, ◌&&◌, ◌||◌, List, [], ◌∷◌, arith, ◌==◌,
  if◌then◌else◌, Bool-cases,
}
use resin_compute.Base.Texts.{
  has, clash, IsDistinct, text_cases, str_eq_comm, has-insert_text, insert_text-IsDistinct,
}
use resin_compute.Objectives.Graph.{Kahn, lower, relax}

-- What lowering the counts of some ids does to each count and to the heap.
pub record Relaxed (children : List String) (s s' : Kahn) : Type 0 where
  pub same_order : s'.order ≡ s.order
  pub count : (n : String) → s'.indegree n ≡ s.indegree n - (if has n children then 1 else 0)
  pub pushed :
      (n : String) → has n s'.ready ≡ (has n s.ready || (has n children && s.indegree n == 1))
  pub apart : IsDistinct s'.ready

lower_ready :
    (c : String) (s : Kahn) (n : String)
    → has n (lower c s).ready ≡ (has n s.ready || (str_eq n c && s.indegree n == 1))
unfolding lower
lower_ready c s n = elim (text_cases n c) [
  | inl e ↦
      subst (λ m. has m (lower c s).ready ≡ (has m s.ready || (str_eq m c && s.indegree m == 1)))
        (sym e) (ground (arith, eq_refl c, has-insert_text c c s.ready))
  | inr e ↦ ground (arith, has-insert_text n c s.ready)
]

lower_apart :
    (c : String) (s : Kahn)
    → IsDistinct s.ready
    → has c s.ready ≡ false
    → IsDistinct (lower c s).ready
unfolding lower
lower_apart c s d h = elim (Bool-cases (s.indegree c == 1)) [
  | inl e ↦ rw e (insert_text-IsDistinct c s.ready h d)
  | inr e ↦ rw e d
]

-- Each id among the children is lowered once; none of them is waiting already.
pub relax-Relaxed :
    (children : List String) (s : Kahn)
    → IsDistinct children
    → IsDistinct s.ready
    → ((n : String) → has n children ≡ true → has n s.ready ≡ false)
    → Relaxed children s (relax children s)
unfolding relax lower
relax-Relaxed [] s d a h = record {
  same_order = refl;
  count = λ n. omega arith;
  pushed = λ n. ground arith;
  apart = a;
}
relax-Relaxed (c ∷ cs) s d a h =
    let s' : Kahn = lower c s in
    let waits : has c s.ready ≡ false = h c (ground (arith, eq_refl c)) in
    let rest = relax-Relaxed cs s' d.1 (lower_apart c s a waits) (λ n inside. still_out n inside) in
    record {
      same_order = rest.same_order;
      count = λ n. rest.count n ∙ counted n;
      pushed = λ n. rest.pushed n ∙ pushes n;
      apart = rest.apart;
    }
  where
    other : (n : String) → has n cs ≡ true → str_eq n c ≡ false
    other n inside = elim (text_cases n c) [
      | inl e ↦ absurd (clash _ (subst (λ m. has m cs ≡ true) e inside) d.0)
      | inr e ↦ e
    ]

    still_out : (n : String) → has n cs ≡ true → has n (lower c s).ready ≡ false
    still_out n inside = lower_ready c s n ∙ ground (arith, h n, other n inside)

    counted :
        (n : String)
        → (lower c s).indegree n - (if has n cs then 1 else 0)
          ≡ s.indegree n - (if has n (c ∷ cs) then 1 else 0)
    counted n = ground (arith, str_eq_comm c n, other n)

    pushes :
        (n : String)
        → (has n (lower c s).ready || (has n cs && (lower c s).indegree n == 1))
          ≡ (has n s.ready || (has n (c ∷ cs) && s.indegree n == 1))
    pushes n = ground (arith, lower_ready c s n, str_eq_comm c n, other n)
