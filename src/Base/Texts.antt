-- ===== src/Base/Texts.antt =====
-- Lists of texts: membership, distinct texts, and Python's order of texts, by their code points.
use Prim.Native.String.{String, compare}
use mathlib.Core.Path.{◌≡◌, refl, sym, ◌∙◌, subst}
use mathlib.Core.Logic.{◌⊎◌, inl, inr, ◌↔◌}
use mathlib.Core.Bool.{Bool, true, false, ◌||◌}
use mathlib.Core.List.{List, [], ◌∷◌, ◌++◌}
use native.Mathlib.Omega.{arith}
use text.Mathlib.Text.{◌==◌ as str_eq, is_le}
use text.Mathlib.TextEquality.{eq_iff}
use text.Mathlib.TextPositions.{eq_refl}
use resin_compute.Base.Tests.{if◌then◌else◌, Bool-cases}

-- `x in xs`
abbrev pub has : String → List String → Bool
has x [] = false
has x (y ∷ ys) = str_eq x y || has x ys

abbrev pub text_leb : String → String → Bool
text_leb s t = is_le (compare s t)

-- `sorted`, by insertion.
abbrev pub insert_text : String → List String → List String
insert_text x [] = x ∷ []
insert_text x (y ∷ ys) = if text_leb x y then x ∷ y ∷ ys else y ∷ insert_text x ys

abbrev pub sort_texts : List String → List String
sort_texts [] = []
sort_texts (x ∷ xs) = insert_text x (sort_texts xs)

-- `set(xs)`, as a list without repetition.
abbrev pub distinct : List String → List String
distinct [] = []
distinct (x ∷ xs) = let rest = distinct xs in if has x rest then rest else x ∷ rest

-- `dict.fromkeys`: the first of each, in order; `seen` holds those before.
abbrev pub dedupe : List String → List String → List String
dedupe seen [] = []
dedupe seen (x ∷ xs) =
    let known = dedupe seen xs in
    let fresh = dedupe (x ∷ seen) xs in if has x seen then known else x ∷ fresh

abbrev pub filter_texts : (String → Bool) → List String → List String
filter_texts test [] = []
filter_texts test (x ∷ xs) = let rest = filter_texts test xs in if test x then x ∷ rest else rest

abbrev pub IsDistinct : List String → Type 0
IsDistinct [] = Unit
IsDistinct (x ∷ xs) = (has x xs ≡ false) × IsDistinct xs

-- To split on whether two texts are the same.
pub text_cases : (s t : String) → (s ≡ t) ⊎ (str_eq s t ≡ false)
text_cases s t = elim (Bool-cases (str_eq s t)) [ inl e ↦ inl ((eq_iff s t).0 e) | inr e ↦ inr e ]

pub str_eq_comm : (s t : String) → str_eq s t ≡ str_eq t s
str_eq_comm s t = ground (arith, eq_iff s t, eq_iff t s)

pub has-append : (x : String) (xs ys : List String) → has x (xs ++ ys) ≡ (has x xs || has x ys)
has-append x [] ys = refl
has-append x (y ∷ xs) ys = ground (arith, has-append x xs ys)

pub has-insert_text : (z x : String) (xs : List String) → has z (insert_text x xs) ≡ has z (x ∷ xs)
has-insert_text z x [] = refl
has-insert_text z x (y ∷ ys) = ground (arith, has-insert_text z x ys)

pub has-sort_texts : (z : String) (xs : List String) → has z (sort_texts xs) ≡ has z xs
has-sort_texts z [] = refl
has-sort_texts z (x ∷ xs) = has-insert_text z x (sort_texts xs) ∙ rw (has-sort_texts z xs)

pub has-distinct : (z : String) (xs : List String) → has z (distinct xs) ≡ has z xs
has-distinct z [] = refl
has-distinct z (x ∷ xs) = elim (text_cases z x) [
  | inl e ↦
      subst (λ w. has w (distinct (x ∷ xs)) ≡ has w (x ∷ xs)) (sym e)
        (ground (arith, has-distinct x xs, eq_refl x))
  | inr e ↦ ground (arith, has-distinct z xs)
]

pub distinct-IsDistinct : (xs : List String) → IsDistinct (distinct xs)
distinct-IsDistinct [] = tt
distinct-IsDistinct (x ∷ xs) = elim (Bool-cases (has x (distinct xs))) [
  | inl e ↦ rw e (distinct-IsDistinct xs)
  | inr e ↦ rw e (e, distinct-IsDistinct xs)
]

pub insert_text-IsDistinct :
    (x : String) (xs : List String)
    → has x xs ≡ false
    → IsDistinct xs
    → IsDistinct (insert_text x xs)
insert_text-IsDistinct x [] h d = (refl, tt)
insert_text-IsDistinct x (y ∷ ys) h d = elim (Bool-cases (text_leb x y)) [
  | inl e ↦ rw e (h, d)
  | inr e ↦ rw e (
    ground (arith, has-insert_text y x ys, str_eq_comm x y),
    insert_text-IsDistinct x ys (ground arith) d.1,
  )
]

pub sort_texts-IsDistinct : (xs : List String) → IsDistinct xs → IsDistinct (sort_texts xs)
sort_texts-IsDistinct [] d = tt
sort_texts-IsDistinct (x ∷ xs) d =
    insert_text-IsDistinct x (sort_texts xs) (has-sort_texts x xs ∙ d.0)
      (sort_texts-IsDistinct xs d.1)

pub has-filter_texts :
    (z : String) (test : String → Bool) (xs : List String)
    → (has z (filter_texts test xs) ≡ true) ↔ ((has z xs ≡ true) × (test z ≡ true))
has-filter_texts z test [] = (λ h. cc, λ h. cc)
has-filter_texts z test (x ∷ xs) = elim (text_cases z x) [
  | inl e ↦
      subst
        (λ w.
          (has w (filter_texts test (x ∷ xs)) ≡ true) ↔ ((has w (x ∷ xs) ≡ true) × (test w ≡ true)))
        (sym e) (ground (arith, has-filter_texts x test xs, eq_refl x))
  | inr e ↦ ground (arith, has-filter_texts z test xs)
]

pub clash : (b : Bool) → b ≡ true → b ≡ false → ⊥
clash b h k = cc

pub filter_texts-IsDistinct :
    (test : String → Bool) (xs : List String) → IsDistinct xs → IsDistinct (filter_texts test xs)
filter_texts-IsDistinct test [] d = tt
filter_texts-IsDistinct test (x ∷ xs) d = elim (Bool-cases (test x)) [
  | inl e ↦ rw e (filtered_out x xs d.0, filter_texts-IsDistinct test xs d.1)
  | inr e ↦ rw e (filter_texts-IsDistinct test xs d.1)
]
  where
    filtered_out :
        (x : String) (xs : List String) → has x xs ≡ false → has x (filter_texts test xs) ≡ false
    filtered_out x xs h = elim (Bool-cases (has x (filter_texts test xs))) [
      | inl e ↦ absurd (clash (has x xs) (((has-filter_texts x test xs).0 e).0) h)
      | inr e ↦ e
    ]
