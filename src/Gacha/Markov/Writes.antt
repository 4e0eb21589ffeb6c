-- ===== src/Gacha/Markov/Writes.antt =====
-- Linear sums over the grid of agents/pity_engine/markov.py, and what writes do to them.
use resin_compute.Base.{
  ℕ, zero, suc, ◌+◌, ◌*◌, ◌≤◌, ◌<◌, ◌≡◌, refl, ap, ◌∙◌, some, List, [], ◌∷◌, ◌++◌, arith, length,
  replicate, get_or, All, drop, if◌then◌else◌, leb,
}
use native.Mathlib.Nat.{add-zero}
use native.Mathlib.Decide.{ℕ_discrete}
use resin_compute.Gacha.Markov.{sum, add_at, apply_writes, gather}

-- The grid weighed by a function of the position, counted from `i`.
abbrev pub weigh : (ℕ → ℕ) → ℕ → List ℕ → ℕ
weigh g i [] = 0
weigh g i (x ∷ xs) = g i * x + weigh g (suc i) xs

-- The writes weighed by their positions.
abbrev pub weigh_writes : (ℕ → ℕ) → List (ℕ × ℕ) → ℕ
weigh_writes g [] = 0
weigh_writes g ((i, v) ∷ ws) = g i * v + weigh_writes g ws

abbrev pub below : ℕ → (ℕ → ℕ) → ℕ
below zero g = 0
below (suc n) g = below n g + g n

-- A write inside the grid succeeds.
add_at_lem :
    (xs : List ℕ) (i v : ℕ)
    → i < length xs
    → (ys : List ℕ) × (add_at xs i v ≡ some ys)
      × (length ys ≡ length xs)
      × ((g : ℕ → ℕ) (b : ℕ) → weigh g b ys ≡ weigh g b xs + g (b + i) * v)
add_at_lem [] i v h = absurd (omega arith)
add_at_lem (x ∷ xs) zero v h = ((x + v) ∷ xs, refl, refl, λ g b. rw (add-zero b) (omega arith))
add_at_lem (x ∷ xs) (suc i) v h =
    let (ys, added, same, weighed) = add_at_lem xs i v (omega arith) in
    (
      x ∷ ys,
      rw added,
      ap suc same,
      λ g b. let e : b + suc i ≡ suc b + i = omega arith in rw e (omega (arith, weighed g (suc b))),
    )

-- Writes inside the grid all succeed, and add their weight.
pub apply_writes_lem :
    (ws : List (ℕ × ℕ)) (nf : List ℕ)
    → All (λ w. w.0 < length nf) ws
    → (f : List ℕ) × (apply_writes nf ws ≡ some f)
      × (length f ≡ length nf)
      × ((g : ℕ → ℕ) → weigh g 0 f ≡ weigh g 0 nf + weigh_writes g ws)
unfolding apply_writes
apply_writes_lem [] nf h = (nf, refl, refl, λ g. omega arith)
apply_writes_lem ((i, v) ∷ ws) nf h =
    let (nf', added, same, weighed) = add_at_lem nf i v h.0 in
    let (f, done, same', weighed') = apply_writes_lem ws nf' (rw same h.1) in
    let e : 0 + i ≡ i = omega arith in
    (
      f,
      rw (added, apply_writes) done,
      same' ∙ same,
      λ g. omega (arith, rw e at (weighed g 0), weighed' g),
    )

pub weigh_writes-append :
    (g : ℕ → ℕ) (xs ys : List (ℕ × ℕ))
    → weigh_writes g (xs ++ ys) ≡ weigh_writes g xs + weigh_writes g ys
weigh_writes-append g [] ys = omega arith
weigh_writes-append g ((i, v) ∷ xs) ys = omega (arith, weigh_writes-append g xs ys)

pub weigh_writes-gather :
    (g : ℕ → ℕ) (n : ℕ) (body : ℕ → List (ℕ × ℕ))
    → weigh_writes g (gather n body) ≡ below n (λ i. weigh_writes g (body i))
unfolding gather
weigh_writes-gather g zero body = refl
weigh_writes-gather g (suc n) body =
    omega (arith, weigh_writes-append g (gather n body) (body n), weigh_writes-gather g n body)

pub All-append {ℓ κ} :
    {A : Type ℓ} (P : A → Type κ) (xs ys : List A) → All P xs → All P ys → All P (xs ++ ys)
All-append P [] ys hx hy = hy
All-append P (x ∷ xs) ys hx hy = (hx.0, All-append P xs ys hx.1 hy)

pub All-gather {ℓ κ} :
    {A : Type ℓ} (P : A → Type κ) (n : ℕ) (body : ℕ → List A)
    → ((i : ℕ) → i < n → All P (body i))
    → All P (gather n body)
unfolding gather
All-gather P zero body h = tt
All-gather P (suc n) body h =
    All-append P (gather n body) (body n) (All-gather P n body (λ i lt. h i (omega arith)))
      (h n (omega arith))

pub below-cong : (n : ℕ) (g h : ℕ → ℕ) → ((i : ℕ) → i < n → g i ≡ h i) → below n g ≡ below n h
below-cong zero g h e = refl
below-cong (suc n) g h e =
    omega (arith, below-cong n g h (λ i lt. e i (omega arith)), e n (omega arith))

pub below-le : (n : ℕ) (g h : ℕ → ℕ) → ((i : ℕ) → i < n → g i ≤ h i) → below n g ≤ below n h
below-le zero g h e = omega arith
below-le (suc n) g h e =
    omega (arith, below-le n g h (λ i lt. e i (omega arith)), e n (omega arith))

pub below-scale : (n k : ℕ) (g : ℕ → ℕ) → below n (λ i. k * g i) ≡ k * below n g
below-scale zero k g = omega arith
below-scale (suc n) k g = omega (arith, below-scale n k g)

pub below-add : (a b : ℕ) (g : ℕ → ℕ) → below (a + b) g ≡ below a g + below b (λ i. g (a + i))
below-add a zero g = rw (add-zero a) (omega arith)
below-add a (suc b) g =
    let e : a + suc b ≡ suc (a + b) = omega arith in rw e (omega (arith, below-add a b g))

-- Rows of the same length, one behind another.
pub below-rows :
    (n m : ℕ) (g : ℕ → ℕ) → below n (λ k. below m (λ i. g (k * m + i))) ≡ below (n * m) g
below-rows zero m g = let e : 0 * m ≡ 0 = omega arith in rw e
below-rows (suc n) m g =
    let e : suc n * m ≡ n * m + m = omega arith in
    rw e (omega (arith, below-rows n m g, below-add (n * m) m g))

below-front : (n : ℕ) (g : ℕ → ℕ) → below (suc n) g ≡ g 0 + below n (λ i. g (suc i))
below-front zero g = omega arith
below-front (suc n) g = omega (arith, below-front n g)

shift : (b i : ℕ) → suc b + i ≡ b + suc i
shift b i = omega arith

pub weigh-below :
    (g : ℕ → ℕ) (b : ℕ) (f : List ℕ)
    → weigh g b f ≡ below (length f) (λ i. g (b + i) * get_or f i 0)
weigh-below g b [] = refl
weigh-below g b (x ∷ f) =
    let first : g (b + 0) * x ≡ g b * x = rw (add-zero b) in
    let moved =
      below-cong (length f) (λ i. g (suc b + i) * get_or f i 0) (λ i. g (b + suc i) * get_or f i 0)
        (λ i lt. ap (λ t. g t * get_or f i 0) (shift b i)) in
    omega (
      arith,
      weigh-below g (suc b) f,
      moved,
      first,
      below-front (length f) (λ i. g (b + i) * get_or (x ∷ f) i 0),
    )

pub below_zero : (n : ℕ) (g : ℕ → ℕ) → below n g ≡ 0 → (i : ℕ) → i < n → g i ≡ 0
below_zero zero g h i lt = absurd (omega arith)
below_zero (suc n) g h i lt = elim (ℕ_discrete i n) [
  | yes e ↦ rw e (omega arith)
  | no ne ↦ below_zero n g (omega arith) i (omega arith)
]

pub weigh-zeros : (g : ℕ → ℕ) (b n : ℕ) → weigh g b (replicate n 0) ≡ 0
weigh-zeros g b zero = refl
weigh-zeros g b (suc n) = omega (arith, weigh-zeros g (suc b) n)

pub weigh-one : (b : ℕ) (f : List ℕ) → weigh (λ _. 1) b f ≡ sum f
weigh-one b [] = refl
weigh-one b (x ∷ f) = omega (arith, weigh-one (suc b) f)

-- The end of the grid as a weight.
abbrev pub from : ℕ → ℕ → ℕ
from m i = if leb m i then 1 else 0

weigh_past : (m b : ℕ) (f : List ℕ) → m ≤ b → weigh (from m) b f ≡ sum f
weigh_past m b [] h = refl
weigh_past m b (x ∷ f) h = ground (arith, weigh_past m (suc b) f)

weigh-drop : (m b n : ℕ) (f : List ℕ) → b + n ≡ m → weigh (from m) b f ≡ sum (drop n f)
weigh-drop m b zero f h = weigh_past m b f (omega arith)
weigh-drop m b (suc n) [] h = refl
weigh-drop m b (suc n) (x ∷ f) h = ground (arith, weigh-drop m (suc b) n f)

pub weigh_from : (m : ℕ) (f : List ℕ) → weigh (from m) 0 f ≡ sum (drop m f)
weigh_from m f = weigh-drop m 0 m f (omega arith)
