-- ===== src/Objectives/Cycle/Exhausted.antt =====
-- `_find_cycle` of engines/objectives.py: a search that ends without a cycle has been everywhere, and so
-- in a set where some nodes wait for each other it ends with one.
use Prim.Native.String.{String}
use text.Mathlib.TextPositions.{eq_refl}
use mathlib.Core.Path.{subst}
use resin_compute.Base.{
  ℕ, zero, suc, ◌+◌, ◌≤◌, ◌≡◌, inl, inr, refl, sym, ◌∙◌, true, ◌||◌, List, [], ◌∷◌, ◌++◌, arith,
  Bool-cases, length, none, Option-cases,
}
use resin_compute.Base.Texts.{has, text_cases, has-append, has-sort_texts, sort_texts}
use resin_compute.Types.{ObjectiveNode}
use resin_compute.Objectives.Nodes.{ids, deps_of, edge_count}
use resin_compute.Objectives.Path.Walk.{work, work_mark}
use resin_compute.Objectives.Graph.Topological.{IsValid, IsStuck}
use resin_compute.Objectives.Cycle.{
  Frame, path_of, edges_of, descend, rounds_for, find_from, find_cycle,
}
use resin_compute.Objectives.Cycle.Found.{IsCycle, IsPath, has-edges_of, find_from-IsCycle}

-- The dependencies of what is black turned black before it.
abbrev pub IsPost : List ObjectiveNode → List String → Type 0
IsPost index [] = Unit
IsPost index (x ∷ xs) =
    ((d : String) → has d (deps_of index x) ≡ true → has d xs ≡ true) × IsPost index xs

-- What a frame has behind it is black, but for the edge that the frame above was pushed for.
abbrev IsTried : List ObjectiveNode → (black above : List String) → List Frame → Type 0
IsTried index black above [] = Unit
IsTried index black above ((n, edges) ∷ frames) =
    ((d : String)
      → has d (deps_of index n) ≡ true
      → (has d edges || has d black || has d above) ≡ true)
    × IsTried index black (n ∷ []) frames

abbrev weight : List Frame → ℕ
weight [] = 0
weight ((_, edges) ∷ frames) = suc (length edges) + weight frames

work_same :
    (edges : String → List String) (seen seen' all : List String)
    → ((x : String) → has x seen ≡ has x seen')
    → work edges seen all ≡ work edges seen' all
work_same edges seen seen' [] h = refl
work_same edges seen seen' (n ∷ all) h = ground (arith, h n, work_same edges seen seen' all h)

work_le :
    (edges : String → List String) (seen all : List String)
    → work edges seen all ≤ edge_count edges all
work_le edges seen [] = omega arith
work_le edges seen (n ∷ all) = ground (arith, work_le edges seen all)

IsTried-weaken :
    (index : List ObjectiveNode) (black black' above above' : List String) (frames : List Frame)
    → ((x : String) → has x black ≡ true → has x black' ≡ true)
    → ((x : String) → has x above ≡ true → (has x black' || has x above') ≡ true)
    → IsTried index black above frames
    → IsTried index black' above' frames
IsTried-weaken index black black' above above' [] more top t = tt
IsTried-weaken index black black' above above' ((n, edges) ∷ frames) more top (t, ts) = (
  λ d h. ground (arith, t d h, more d, top d),
  IsTried-weaken index black black' (n ∷ []) (n ∷ []) frames more (λ x h. ground arith) ts,
)

-- The work that is left fits into the rounds.
abbrev Fits : List ObjectiveNode → (rounds : ℕ) → (black : List String) → List Frame → Type 0
Fits index rounds black frames =
    work (λ n. n ∷ edges_of index n) (path_of frames ++ black) (ids index) + weight frames ≤ rounds

descend-IsPost :
    (index : List ObjectiveNode) (rounds : ℕ) (black : List String) (frames : List Frame)
    → IsValid index
    → IsPost index black
    → IsPath index frames
    → IsTried index black [] frames
    → ((n : String) → has n (path_of frames) ≡ true → has n (ids index) ≡ true)
    → Fits index rounds black frames
    → (descend index rounds black frames).0 ≡ none
    → IsPost index (descend index rounds black frames).1
      × ((n : String)
          → (has n black || has n (path_of frames)) ≡ true
          → has n (descend index rounds black frames).1 ≡ true)
unfolding descend
descend-IsPost index zero black [] v post path tried inside fits h = (post, λ n k. ground arith)
descend-IsPost index zero black ((n, edges) ∷ frames) v post path tried inside fits h =
    absurd (omega arith)
descend-IsPost index (suc rounds) black [] v post path tried inside fits h =
    (post, λ n k. ground arith)
descend-IsPost index (suc rounds) black ((n, []) ∷ frames) v post path (t, ts) inside fits h =
    let moved =
      work_same (λ m. m ∷ edges_of index m) (n ∷ path_of frames ++ black)
        (path_of frames ++ n ∷ black) (ids index)
        (λ x. ground (
          arith,
          has-append x (path_of frames) black,
          has-append x (path_of frames) (n ∷ black),
        )) in
    let (post', kept) =
      descend-IsPost index rounds (n ∷ black) frames v (λ d k. ground (arith, t d k), post) path.2
        (IsTried-weaken index black (n ∷ black) (n ∷ []) [] frames (λ x k. ground arith)
          (λ x k. ground arith) ts)
        (λ m k. inside m (ground arith)) (omega (arith, moved)) h in
    (post', λ m k. kept m (ground arith))
descend-IsPost index (suc rounds) black ((n, dep ∷ edges) ∷ frames) v post path (t, ts) inside fits
      h =
    let edge : has dep (deps_of index n) ≡ true = path.0 dep (ground (arith, eq_refl dep)) in
    let shorter : IsPath index ((n, edges) ∷ frames) =
      (λ d k. path.0 d (ground arith), path.1, path.2) in
    let known : has dep (ids index) ≡ true =
      v.known n dep (inside n (ground (arith, eq_refl n))) edge in
    elim (Bool-cases (has dep (n ∷ path_of frames))) [
      | inl grey ↦ cc (rw (grey, descend) at h)
      | inr free ↦ elim (Bool-cases (has dep black)) [
        | inl done ↦
            rw (free, done, descend)
              (descend-IsPost index rounds black ((n, edges) ∷ frames) v post shorter
                (λ d k. without d (t d k) done, ts) inside (omega arith)
                (rw (free, done, descend) at h))
        | inr white ↦
            let marked =
              work_mark (λ m. m ∷ edges_of index m) (n ∷ path_of frames ++ black) (ids index) dep
                v.apart (ground (arith, has-append dep (path_of frames) black)) in
            let (post', kept) =
              descend-IsPost index rounds black ((dep, edges_of index dep) ∷ (n, edges) ∷ frames) v
                post (λ d k. sym (has-edges_of index dep d) ∙ k, edge, shorter)
                (
                  λ d k. ground (arith, has-edges_of index dep d),
                  (λ d k. ground (arith, t d k), ts),
                )
                (λ m k. pushed known m k) (ground (arith, marked, known))
                (rw (free, white, descend) at h) in
            rw (free, white, descend) (post', λ m k. kept m (ground arith))
      ]
    ]
  where
    pushed :
        has dep (ids index) ≡ true
        → (m : String) → has m (dep ∷ n ∷ path_of frames) ≡ true
        → has m (ids index) ≡ true
    pushed known m k = elim (text_cases m dep) [
      | inl same ↦ subst (λ x. has x (ids index) ≡ true) (sym same) known
      | inr other ↦ inside m (ground arith)
    ]

    without :
        (d : String)
        → (has d (dep ∷ edges) || has d black || has d []) ≡ true
        → has dep black ≡ true
        → (has d edges || has d black || has d []) ≡ true
    without d k done = elim (text_cases d dep) [
      | inl same ↦
          let there : has d black ≡ true = subst (λ x. has x black ≡ true) (sym same) done in
          ground arith
      | inr other ↦ ground arith
    ]

find_from-IsPost :
    (index : List ObjectiveNode) (black roots : List String)
    → IsValid index
    → IsPost index black
    → ((n : String) → has n roots ≡ true → has n (ids index) ≡ true)
    → find_from index black roots ≡ none
    → (done : List String) × IsPost index done
      × ((n : String) → (has n black || has n roots) ≡ true → has n done ≡ true)
unfolding find_from
find_from-IsPost index black [] v post inside h = (black, post, λ n k. ground arith)
find_from-IsPost index black (root ∷ roots) v post inside h = elim (Bool-cases (has root black)) [
  | inl old ↦
      let (done, post', kept) =
        find_from-IsPost index black roots v post (λ n k. inside n (ground arith))
          (rw (old, find_from) at h) in
      (done, post', λ n k. kept n (rest n old k))
  | inr white ↦
      elim (Option-cases
        (descend index (rounds_for index) black ((root, edges_of index root) ∷ [])).0) [
          | inr (cycle, found) ↦ cc (rw (white, found, find_from) at h)
          | inl nothing ↦
              let marked =
                work_mark (λ m. m ∷ edges_of index m) black (ids index) root v.apart white in
              let room = work_le (λ m. m ∷ edges_of index m) black (ids index) in
              let known = inside root (ground (arith, eq_refl root)) in
              let (post1, kept1) =
                descend-IsPost index (rounds_for index) black ((root, edges_of index root) ∷ []) v
                  post (λ d k. sym (has-edges_of index root d) ∙ k, tt, tt)
                  (λ d k. ground (arith, has-edges_of index root d), tt)
                  (λ m k. inside m (ground arith)) (ground (arith, marked, room, known)) nothing in
              let (done, post', kept) =
                find_from-IsPost index
                  (descend index (rounds_for index) black ((root, edges_of index root) ∷ [])).1
                  roots v post1 (λ n k. inside n (ground arith))
                  (rw (white, nothing, find_from) at h) in
              (done, post', λ n k. kept n (ground (arith, kept1 n)))
        ]
]
  where
    rest :
        (n : String)
        → has root black ≡ true
        → (has n black || has n (root ∷ roots)) ≡ true
        → (has n black || has n roots) ≡ true
    rest n old k = elim (text_cases n root) [
      | inl same ↦
          let there : has n black ≡ true = subst (λ x. has x black ≡ true) (sym same) old in
          ground arith
      | inr other ↦ ground arith
    ]

-- Where the dependencies of each node came before it, no nodes wait for each other.
none_stuck :
    (index : List ObjectiveNode) (done stuck : List String)
    → IsPost index done
    → IsStuck index stuck
    → (n : String) → has n done ≡ true
    → has n stuck ≡ true
    → ⊥
none_stuck index [] stuck post is n h k = cc
none_stuck index (x ∷ done) stuck (before, post) is n h k = elim (text_cases n x) [
  | inr other ↦ none_stuck index done stuck post is n (ground arith) k
  | inl same ↦
      let (d, needs, waits) = is.waits n k in
      none_stuck index done stuck post is d
        (before d (subst (λ y. has d (deps_of index y) ≡ true) same needs)) waits
]

-- In a set whose dependencies are nodes and where some nodes wait for each other, the search ends with a
-- cycle.
pub find_cycle-IsCycle :
    (index : List ObjectiveNode) (stuck : List String)
    → IsValid index
    → IsStuck index stuck
    → IsCycle index (find_cycle index)
unfolding find_cycle
find_cycle-IsCycle index stuck v is =
    elim (Option-cases (find_from index [] (sort_texts (ids index)))) [
      | inr (cycle, found) ↦
          rw (found, find_cycle) (find_from-IsCycle index [] (sort_texts (ids index)) found)
      | inl nothing ↦
          let (done, post, kept) =
            find_from-IsPost index [] (sort_texts (ids index)) v tt
              (λ n k. sym (has-sort_texts n (ids index)) ∙ k) nothing in
          let (n, waits) = member stuck is.inhabited in
          absurd (
            none_stuck index done stuck post is n
              (kept n (has-sort_texts n (ids index) ∙ is.nodes_of n waits)) waits)
    ]
  where
    member : (xs : List String) → 1 ≤ length xs → (x : String) × (has x xs ≡ true)
    member [] h = absurd (omega arith)
    member (x ∷ xs) h = (x, ground (arith, eq_refl x))
