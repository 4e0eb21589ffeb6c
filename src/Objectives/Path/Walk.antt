-- ===== src/Objectives/Path/Walk.antt =====
-- The loop over a stack of ids in engines/objectives.py: it ends, with the ids that can be reached.
use Prim.Native.String.{String}
use text.Mathlib.TextPositions.{eq_refl}
use mathlib.Core.Path.{subst}
use resin_compute.Base.{
  ℕ, zero, suc, ◌+◌, ◌≤◌, ◌≡◌, ◌↔◌, ◌⊎◌, inl, inr, refl, sym, true, false, ◌||◌, List, [], ◌∷◌,
  arith, length, if◌then◌else◌, Bool-cases,
}
use resin_compute.Base.Texts.{has, IsDistinct, text_cases, str_eq_comm}
use resin_compute.Objectives.Path.{push_all, walk, edge_count, walk_from}

-- An id is reached from another along the edges.
pub data Reaches (edges : String → List String) : String → String → Type 0 where
  here : {a : String} → Reaches edges a a
  further : {a b c : String} → has b (edges a) ≡ true → Reaches edges b c → Reaches edges a c

pub reaches_trans :
    {edges : String → List String} {a b c : String}
    → Reaches edges a b
    → Reaches edges b c
    → Reaches edges a c
reaches_trans here r = r
reaches_trans (further h q) r = further h (reaches_trans q r)

-- An id is reached from one of some ids.
pub record ReachedFrom (edges : String → List String) (stack : List String) (n : String)
    : Type 0 where
  pub origin : String
  pub listed : has origin stack ≡ true
  pub path : Reaches edges origin n

pub has-push_all :
    (z : String) (stack is : List String) → has z (push_all stack is) ≡ (has z stack || has z is)
has-push_all z stack [] = ground arith
has-push_all z stack (i ∷ is) = ground (arith, has-push_all z (i ∷ stack) is)

length-push_all : (stack is : List String) → length (push_all stack is) ≡ length stack + length is
length-push_all stack [] = omega arith
length-push_all stack (i ∷ is) = omega (arith, length-push_all (i ∷ stack) is)

-- The edges of the ids that are not seen yet.
abbrev pub work : (String → List String) → (seen all : List String) → ℕ
work edges seen [] = 0
work edges seen (n ∷ all) = (if has n seen then 0 else length (edges n)) + work edges seen all

pub work_start :
    (edges : String → List String) (all : List String) → work edges [] all ≡ edge_count edges all
work_start edges [] = refl
work_start edges (n ∷ all) = ground (arith, work_start edges all)

pub work_mark :
    (edges : String → List String) (seen all : List String) (x : String)
    → IsDistinct all
    → has x seen ≡ false
    → work edges (x ∷ seen) all + (if has x all then length (edges x) else 0) ≡ work edges seen all
work_mark edges seen [] x apart new = refl
work_mark edges seen (n ∷ all) x apart new = elim (text_cases x n) [
  | inl same ↦
      let first : has x all ≡ false = subst (λ y. has y all ≡ false) (sym same) apart.0 in
      let rest = work_mark edges seen all x apart.1 new in
      subst
        (λ y.
          work edges (x ∷ seen) (y ∷ all) + (if has x (y ∷ all) then length (edges x) else 0)
          ≡ work edges seen (y ∷ all))
        same (ground (arith, eq_refl x, first, rest))
  | inr other ↦ ground (arith, str_eq_comm x n, work_mark edges seen all x apart.1 new)
]

module _ (edges : String → List String) where
  walk_next :
      (rounds : ℕ) (current : String) (stack seen : List String)
      → has current seen ≡ true
      → walk edges (suc rounds) (current ∷ stack) seen ≡ walk edges rounds stack seen
  unfolding walk
  walk_next rounds current stack seen h = rw (h, walk) refl

  walk_mark :
      (rounds : ℕ) (current : String) (stack seen : List String)
      → has current seen ≡ false
      → walk edges (suc rounds) (current ∷ stack) seen
        ≡ walk edges rounds (push_all stack (edges current)) (current ∷ seen)
  unfolding walk
  walk_mark rounds current stack seen h = rw (h, walk) refl

  -- Whatever the loop ends with was seen at the start or is reached from the stack.
  walk_sound :
      (rounds : ℕ) (stack seen : List String) (n : String)
      → has n (walk edges rounds stack seen) ≡ true
      → (has n seen ≡ true) ⊎ ReachedFrom edges stack n
  unfolding walk
  walk_sound zero stack seen n h = inl h
  walk_sound (suc rounds) [] seen n h = inl h
  walk_sound (suc rounds) (current ∷ stack) seen n h = elim (Bool-cases (has current seen)) [
    | inl old ↦
        elim (walk_sound rounds stack seen n (rw (walk_next rounds current stack seen old) at h)) [
          | inl e ↦ inl e
          | inr r ↦
              inr (record { origin = r.origin; listed = ground (arith, r.listed); path = r.path })
        ]
    | inr new ↦
        elim (walk_sound rounds (push_all stack (edges current)) (current ∷ seen) n
          (rw (walk_mark rounds current stack seen new) at h)) [
            | inr r ↦ inr (pushed r)
            | inl e ↦ elim (text_cases n current) [
              | inl same ↦ inr (record {
                origin = current;
                listed = ground (arith, eq_refl current);
                path = subst (Reaches edges current) (sym same) here;
              })
              | inr other ↦ inl (ground arith)
            ]
          ]
  ]
    where
      pushed :
          ReachedFrom edges (push_all stack (edges current)) n
          → ReachedFrom edges (current ∷ stack) n
      pushed r = elim (Bool-cases (has r.origin stack)) [
        | inl inside ↦ record { origin = r.origin; listed = ground arith; path = r.path }
        | inr out ↦ record {
          origin = current;
          listed = ground (arith, eq_refl current);
          path =
              further (ground (arith, r.listed, has-push_all r.origin stack (edges current)))
                r.path;
        }
      ]

-- The ids of some set have their edges in it.
pub record IsWithin (edges : String → List String) (all : List String) : Type 0 where
  pub apart : IsDistinct all
  pub onward : (a b : String) → has a all ≡ true → has b (edges a) ≡ true → has b all ≡ true

-- What is marked leads on to what is marked or waits on the stack.
abbrev IsClosed : (edges : String → List String) (seen stack : List String) → Type 0
IsClosed edges seen stack =
    (a b : String) → has a seen ≡ true → has b (edges a) ≡ true → (has b seen || has b stack) ≡ true

-- On enough rounds the loop keeps what it has, and ends with a set that leads nowhere else.
walk_complete :
    (edges : String → List String) (all : List String)
    → IsWithin edges all
    → (rounds : ℕ) (stack seen : List String)
    → ((n : String) → has n stack ≡ true → has n all ≡ true)
    → IsClosed edges seen stack
    → length stack + work edges seen all ≤ rounds
    → ((n : String)
        → (has n seen || has n stack) ≡ true
        → has n (walk edges rounds stack seen) ≡ true)
      × IsClosed edges (walk edges rounds stack seen) []
unfolding walk
walk_complete edges all w zero [] seen inside closed room =
    (λ n h. ground arith, λ a b h k. closed a b h k)
walk_complete edges all w zero (x ∷ stack) seen inside closed room = absurd (omega arith)
walk_complete edges all w (suc rounds) [] seen inside closed room =
    (λ n h. ground arith, λ a b h k. closed a b h k)
walk_complete edges all w (suc rounds) (current ∷ stack) seen inside closed room =
    elim (Bool-cases (has current seen)) [
      | inl old ↦
          let (kept, final) =
            walk_complete edges all w rounds stack seen (λ n h. inside n (ground arith))
              (λ a b h k. dropped old b (closed a b h k)) (omega arith) in
          rw (walk_next edges rounds current stack seen old)
            (λ n h. kept n (dropped old n h), final)
      | inr new ↦
          let marked = work_mark edges seen all current w.apart new in
          let known : has current all ≡ true = inside current (ground (arith, eq_refl current)) in
          let (kept, final) =
            walk_complete edges all w rounds (push_all stack (edges current)) (current ∷ seen)
              (λ n h. pushed known n h) (λ a b h k. leads new a b h k)
              (ground (arith, length-push_all stack (edges current), marked, known)) in
          rw (walk_mark edges rounds current stack seen new)
            (λ n h. kept n (ground (arith, has-push_all n stack (edges current))), final)
    ]
  where
    dropped :
        has current seen ≡ true
        → (b : String) → (has b seen || has b (current ∷ stack)) ≡ true
        → (has b seen || has b stack) ≡ true
    dropped old b h = elim (text_cases b current) [
      | inl same ↦ subst (λ y. (has y seen || has y stack) ≡ true) (sym same) (ground arith)
      | inr other ↦ ground arith
    ]

    pushed :
        has current all ≡ true
        → (n : String) → has n (push_all stack (edges current)) ≡ true
        → has n all ≡ true
    pushed known n h =
        ground (arith, has-push_all n stack (edges current), inside n, w.onward current n known)

    leads :
        has current seen ≡ false
        → (a b : String) → has a (current ∷ seen) ≡ true
        → has b (edges a) ≡ true
        → (has b (current ∷ seen) || has b (push_all stack (edges current))) ≡ true
    leads new a b h k = elim (text_cases a current) [
      | inl same ↦
          let edge : has b (edges current) ≡ true = subst (λ y. has b (edges y) ≡ true) same k in
          ground (arith, has-push_all b stack (edges current))
      | inr other ↦
          ground (arith, has-push_all b stack (edges current), closed a b (ground arith) k)
    ]

reach_closed :
    (edges : String → List String) (seen : List String)
    → IsClosed edges seen []
    → {a b : String} → Reaches edges a b
    → has a seen ≡ true
    → has b seen ≡ true
reach_closed edges seen closed here h = h
reach_closed edges seen closed (further {a} {b} edge rest) h =
    reach_closed edges seen closed rest (ground (arith, closed a b h edge))

-- The loop on one round for each id on the stack and each edge: what it ends with is what is reached.
pub walk_from_lem :
    (edges : String → List String) (all stack : List String)
    → IsWithin edges all
    → ((n : String) → has n stack ≡ true → has n all ≡ true)
    → (n : String) → (has n (walk_from edges all stack) ≡ true) ↔ ReachedFrom edges stack n
unfolding walk_from
walk_from_lem edges all stack w inside n =
    let rounds : ℕ = length stack + edge_count edges all in
    let (kept, closed) =
      walk_complete edges all w rounds stack [] inside (λ a b h k. cc)
        (omega (arith, work_start edges all)) in
    (
      λ h. elim (walk_sound edges rounds stack [] n h) [ inl e ↦ cc | inr r ↦ r ],
      λ r.
          reach_closed edges (walk edges rounds stack []) closed r.path
            (kept r.origin (ground (arith, r.listed))),
    )
