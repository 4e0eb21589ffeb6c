-- ===== src/Headless/Jobs/Ordered.antt =====
-- The order of the jobs in headless/jobs.py: every job once, after what it depends on.
use Prim.Native.String.{String}
use text.Mathlib.Text.{◌==◌ as str_eq}
use text.Mathlib.TextEquality.{eq_iff}
use text.Mathlib.TextPositions.{eq_refl}
use mathlib.Core.Path.{subst}
use resin_compute.Base.{
  ℕ, zero, suc, ◌≤◌, ◌≡◌, inl, inr, refl, sym, ap, ◌∙◌, true, false, not, ◌&&◌, ◌||◌, List, [], ◌∷◌,
  ◌++◌, arith, Bool-cases, length, none, some, Option-cases, All,
}
use resin_compute.Base.Texts.{has, text_cases, str_eq_comm, IsDistinct, has-append}
use resin_compute.Headless.Jobs.{JobSpec, names, remove, is_ready, first_ready, emit}

not_ready :
    (known done ds : List String)
    → is_ready known done ds ≡ false
    → (d : String) × (has d ds ≡ true) × (has d known ≡ true) × (has d done ≡ false)
not_ready known done [] h = cc
not_ready known done (d ∷ ds) h = elim (Bool-cases (has d done || not (has d known))) [
  | inr waits ↦ (d, ground (arith, eq_refl d), ground arith, ground arith)
  | inl fine ↦
      let (e, inside, registered, out) = not_ready known done ds (ground arith) in
      (e, ground arith, registered, out)
]

ready_served :
    (known done ds : List String)
    → is_ready known done ds ≡ true
    → (d : String) → has d ds ≡ true
    → has d known ≡ true
    → has d done ≡ true
ready_served known done [] h d k r = cc
ready_served known done (x ∷ ds) h d k r = elim (text_cases d x) [
  | inl same ↦
      let here : has x known ≡ true = subst (λ y. has y known ≡ true) same r in
      subst (λ y. has y done ≡ true) (sym same) (ground arith)
  | inr other ↦ ready_served known done ds (ground arith) d (ground arith) r
]

module _ {Func : Type 0} where
  pub has-remove :
      (x : String) (rs : List (JobSpec Func)) (n : String)
      → IsDistinct (names rs)
      → has n (names (remove x rs)) ≡ (has n (names rs) && not (str_eq n x))
  has-remove x [] n apart = refl
  has-remove x (s ∷ rs) n apart = elim (Bool-cases (str_eq s.name x)) [
    | inr other ↦ rw other (elim (text_cases n s.name) [
      | inr apart_n ↦ ground (arith, has-remove x rs n apart.1)
      | inl same ↦
          let kept : str_eq n x ≡ false = subst (λ y. str_eq y x ≡ false) (sym same) other in
          ground (arith, has-remove x rs n apart.1)
    ])
    | inl here ↦ rw here (
        subst (λ y. has n (names rs) ≡ ((str_eq n s.name || has n (names rs)) && not (str_eq n y)))
          ((eq_iff s.name x).0 here)
          (elim (text_cases n s.name) [
            | inr apart_n ↦ ground arith
            | inl same ↦
                let gone : has n (names rs) ≡ false =
                  subst (λ y. has y (names rs) ≡ false) (sym same) apart.0 in
                let at : str_eq n s.name ≡ true = (eq_iff n s.name).1 same in ground arith
          ]))
  ]

  length-remove :
      (x : String) (rs : List (JobSpec Func))
      → has x (names rs) ≡ true
      → suc (length (remove x rs)) ≡ length rs
  length-remove x [] h = cc
  length-remove x (s ∷ rs) h = ground (arith, str_eq_comm x s.name, length-remove x rs)

  first_ready-some :
      (known done : List String) (rs : List (JobSpec Func)) {head : JobSpec Func}
      → first_ready known done rs ≡ some head
      → (is_ready known done head.depends_on ≡ true) × (has head.name (names rs) ≡ true)
  first_ready-some known done [] h = cc
  first_ready-some known done (s ∷ rs) {head} h =
      elim (Bool-cases (is_ready known done s.depends_on)) [
        | inl ready ↦
            let same : s ≡ head = cc (rw ready at h) in
            subst
              (λ t.
                (is_ready known done t.depends_on ≡ true) × (has t.name (names (s ∷ rs)) ≡ true))
              same (ready, ground (arith, eq_refl s.name))
        | inr waits ↦
            let (ready, inside) = first_ready-some known done rs (rw waits at h) in
            (ready, ground arith)
      ]

  first_ready-none :
      (known done : List String) (rs : List (JobSpec Func))
      → first_ready known done rs ≡ none
      → All (λ s. is_ready known done s.depends_on ≡ false) rs
  first_ready-none known done [] h = tt
  first_ready-none known done (s ∷ rs) h = elim (Bool-cases (is_ready known done s.depends_on)) [
    | inl ready ↦ cc (rw ready at h)
    | inr waits ↦ (waits, first_ready-none known done rs (rw waits at h))
  ]

  pub remove-IsDistinct :
      (x : String) (rs : List (JobSpec Func))
      → IsDistinct (names rs)
      → IsDistinct (names (remove x rs))
  remove-IsDistinct x [] apart = tt
  remove-IsDistinct x (s ∷ rs) apart = elim (Bool-cases (str_eq s.name x)) [
    | inl here ↦ rw here apart.1
    | inr other ↦
        rw other
          (ground (arith, has-remove x rs s.name apart.1, apart.0), remove-IsDistinct x rs apart.1)
  ]

-- Jobs read from the left: the registered dependencies of each stand before it.
abbrev pub IsServed : {Func : Type 0} → (known done : List String) → List (JobSpec Func) → Type 0
IsServed known done [] = Unit
IsServed known done (s ∷ rest) =
    ((d : String) → has d s.depends_on ≡ true → has d known ≡ true → has d done ≡ true)
    × IsServed known (s.name ∷ done) rest

-- A job that waits for a registered one that is not done.
abbrev pub Waits : {Func : Type 0} → (known done : List String) → JobSpec Func → Type 0
Waits known done s =
    (d : String) × (has d s.depends_on ≡ true) × (has d known ≡ true) × (has d done ≡ false)

-- The jobs of a pass: a front in which each has its registered dependencies before it, and behind it
-- those that wait for one that is not in the front.
pub record IsPass {Func : Type 0} (known done : List String) (jobs out : List (JobSpec Func))
    : Type 0 where
  pub front : List (JobSpec Func)
  pub rest : List (JobSpec Func)
  pub whole : out ≡ front ++ rest
  pub served : IsServed known done front
  pub waiting : All (λ s. Waits known (names front ++ done) s) rest
  pub once : IsDistinct (names out)
  pub every : (n : String) → has n (names out) ≡ has n (names jobs)

module _ {Func : Type 0} where
  waiting-All :
      (known done : List String) (rs : List (JobSpec Func))
      → All (λ s. is_ready known done s.depends_on ≡ false) rs
      → All (λ s. Waits known done s) rs
  waiting-All known done [] a = tt
  waiting-All known done (s ∷ rs) a =
      (not_ready known done s.depends_on a.0, waiting-All known done rs a.1)

  waiting_more :
      (known done done' : List String) (rs : List (JobSpec Func))
      → ((d : String) → has d done ≡ has d done')
      → All (λ s. Waits known done s) rs
      → All (λ s. Waits known done' s) rs
  waiting_more known done done' [] e a = tt
  waiting_more known done done' (s ∷ rs) e ((d, needs, registered, out), a) =
      ((d, needs, registered, sym (e d) ∙ out), waiting_more known done done' rs e a)

  pub emit-IsPass :
      (rounds : ℕ) (known done : List String) (remaining : List (JobSpec Func))
      → IsDistinct (names remaining)
      → length remaining ≤ rounds
      → IsPass known done remaining (emit rounds known done remaining)
  unfolding emit
  emit-IsPass zero known done [] apart room = record {
    front = [];
    rest = [];
    whole = refl;
    served = tt;
    waiting = tt;
    once = tt;
    every = λ n. refl;
  }
  emit-IsPass zero known done (s ∷ remaining) apart room = absurd (omega arith)
  emit-IsPass (suc rounds) known done remaining apart room =
      elim (Option-cases (first_ready known done remaining)) [
        | inl stuck ↦
            rw (stuck, emit)
              (record {
                front = [];
                rest = remaining;
                whole = refl;
                served = tt;
                waiting =
                    waiting-All known done remaining (first_ready-none known done remaining stuck);
                once = apart;
                every = λ n. refl;
              })
        | inr (head, found) ↦
            let (ready, inside) = first_ready-some known done remaining found in
            let left = length-remove head.name remaining inside in
            let pass =
              emit-IsPass rounds known (head.name ∷ done) (remove head.name remaining)
                (remove-IsDistinct head.name remaining apart) (omega arith) in
            let gone = has-remove head.name remaining head.name apart in
            rw (found, emit)
              (record {
                front = head ∷ pass.front;
                rest = pass.rest;
                whole = ap (λ l. head ∷ l) pass.whole;
                served =
                    (λ d k r. ready_served known done head.depends_on ready d k r, pass.served);
                waiting =
                    waiting_more known (names pass.front ++ head.name ∷ done)
                      (head.name ∷ names pass.front ++ done) pass.rest
                      (λ d. ground (
                        arith,
                        has-append d (names pass.front) (head.name ∷ done),
                        has-append d (names pass.front) done,
                      ))
                      pass.waiting;
                once = (ground (arith, pass.every head.name, gone, eq_refl head.name), pass.once);
                every = λ n. elim (text_cases n head.name) [
                  | inl same ↦
                      subst
                        (λ y.
                          has y (
                            head.name
                            ∷ names
                                (emit rounds known (head.name ∷ done) (remove head.name remaining)))
                          ≡ has y (names remaining))
                        (sym same) (ground (arith, inside, eq_refl head.name))
                  | inr other ↦ ground (arith, pass.every n, has-remove head.name remaining n apart)
                ];
              })
      ]
