-- ===== src/Objectives/Cycle/Found.antt =====
-- `_find_cycle` of engines/objectives.py: what is found is a cycle.
use Prim.Native.String.{String}
use text.Mathlib.Text.{◌==◌ as str_eq}
use text.Mathlib.TextEquality.{eq_iff}
use text.Mathlib.TextPositions.{eq_refl}
use mathlib.Core.Path.{subst}
use resin_compute.Base.{
  ℕ, zero, suc, ◌≤◌, ◌≡◌, inl, inr, refl, sym, ◌∙◌, true, List, [], ◌∷◌, arith, Bool-cases, length,
  some, Option-cases,
}
use resin_compute.Base.Texts.{has, str_eq_comm, has-sort_texts, has-distinct, distinct}
use resin_compute.Types.{ObjectiveNode}
use resin_compute.Objectives.Nodes.{deps_of}
use resin_compute.Objectives.Cycle.{Frame, path_of, edges_of, trace, descend, rounds_for, find_from}

-- A way along the dependencies, by the ids after the first.
abbrev pub IsTrail :
    List ObjectiveNode → (from : String) → (rest : List String) → (to : String) → Type 0
IsTrail index from [] to = from ≡ to
IsTrail index from (next ∷ rest) to =
    (has next (deps_of index from) ≡ true) × IsTrail index next rest to

-- A cycle, with its entry repeated at the end.
pub record IsCycle (index : List ObjectiveNode) (cycle : List String) : Type 0 where
  pub entry : String
  pub rest : List String
  pub whole : cycle ≡ entry ∷ rest
  pub longer : 1 ≤ length rest
  pub trail : IsTrail index entry rest entry

pub has-edges_of :
    (index : List ObjectiveNode) (n d : String) → has d (edges_of index n) ≡ has d (deps_of index n)
has-edges_of index n d =
    has-sort_texts d (distinct (deps_of index n)) ∙ has-distinct d (deps_of index n)

-- Each frame was pushed for an edge of the one before it, and what it has to try are its edges.
abbrev pub IsPath : List ObjectiveNode → List Frame → Type 0
IsPath index [] = Unit
IsPath index ((n, edges) ∷ frames) =
    ((d : String) → has d edges ≡ true → has d (deps_of index n) ≡ true)
    × elim frames as (λ fs. Type 0) [ [] ↦ Unit | (m, _) ∷ _ ↦ has n (deps_of index m) ≡ true ]
    × IsPath index frames

trace-IsCycle :
    (index : List ObjectiveNode) (dep n : String) (edges : List String) (frames : List Frame)
    (tail : List String)
    → IsPath index ((n, edges) ∷ frames)
    → 1 ≤ length tail
    → IsTrail index n tail dep
    → has dep (path_of ((n, edges) ∷ frames)) ≡ true
    → IsCycle index (trace dep ((n, edges) ∷ frames) tail)
trace-IsCycle index dep n edges [] tail path long trail h =
    let here : str_eq n dep ≡ true = ground (arith, str_eq_comm n dep) in
    rw here (record {
      entry = n;
      rest = tail;
      whole = refl;
      longer = long;
      trail = subst (IsTrail index n tail) (sym ((eq_iff n dep).0 here)) trail;
    })
trace-IsCycle index dep n edges ((m, others) ∷ frames) tail path long trail h =
    elim (Bool-cases (str_eq n dep)) [
      | inl here ↦ rw here (record {
        entry = n;
        rest = tail;
        whole = refl;
        longer = long;
        trail = subst (IsTrail index n tail) (sym ((eq_iff n dep).0 here)) trail;
      })
      | inr other ↦ rw other (
          trace-IsCycle index dep m others frames (n ∷ tail) path.2 (omega arith) (path.1, trail)
            (ground (arith, str_eq_comm n dep)))
    ]

descend-IsCycle :
    (index : List ObjectiveNode) (rounds : ℕ) (black : List String) (frames : List Frame)
    {cycle : List String}
    → IsPath index frames
    → (descend index rounds black frames).0 ≡ some cycle
    → IsCycle index cycle
unfolding descend
descend-IsCycle index zero black frames path h = cc
descend-IsCycle index (suc rounds) black [] path h = cc
descend-IsCycle index (suc rounds) black ((n, []) ∷ frames) path h =
    descend-IsCycle index rounds (n ∷ black) frames path.2 h
descend-IsCycle index (suc rounds) black ((n, dep ∷ edges) ∷ frames) {cycle} path h =
    let tried : IsPath index ((n, edges) ∷ frames) =
      (λ d k. path.0 d (ground arith), path.1, path.2) in
    let edge : has dep (deps_of index n) ≡ true = path.0 dep (ground (arith, eq_refl dep)) in
    elim (Bool-cases (has dep (n ∷ path_of frames))) [
      | inl grey ↦
          let same : trace dep ((n, edges) ∷ frames) (dep ∷ []) ≡ cycle =
            cc (rw (grey, descend) at h) in
          subst (IsCycle index) same (
            trace-IsCycle index dep n edges frames (dep ∷ []) tried (omega arith) (edge, refl) grey)
      | inr free ↦ elim (Bool-cases (has dep black)) [
        | inl done ↦
            descend-IsCycle index rounds black ((n, edges) ∷ frames) tried
              (rw (free, done, descend) at h)
        | inr white ↦
            descend-IsCycle index rounds black ((dep, edges_of index dep) ∷ (n, edges) ∷ frames)
              (λ d k. sym (has-edges_of index dep d) ∙ k, edge, tried)
              (rw (free, white, descend) at h)
      ]
    ]

pub find_from-IsCycle :
    (index : List ObjectiveNode) (black roots : List String) {cycle : List String}
    → find_from index black roots ≡ some cycle
    → IsCycle index cycle
unfolding find_from
find_from-IsCycle index black [] h = cc
find_from-IsCycle index black (root ∷ roots) {cycle} h = elim (Bool-cases (has root black)) [
  | inl old ↦ find_from-IsCycle index black roots (rw (old, find_from) at h)
  | inr white ↦
      elim (Option-cases
        (descend index (rounds_for index) black ((root, edges_of index root) ∷ [])).0) [
          | inl nothing ↦
              find_from-IsCycle index
                (descend index (rounds_for index) black ((root, edges_of index root) ∷ [])).1 roots
                (rw (white, nothing, find_from) at h)
          | inr (found, e) ↦
              let same : found ≡ cycle = cc (rw (white, e, find_from) at h) in
              subst (IsCycle index) same (
                descend-IsCycle index (rounds_for index) black ((root, edges_of index root) ∷ [])
                  (λ d k. sym (has-edges_of index root d) ∙ k, tt, tt) e)
        ]
]
