-- ===== src/Gacha/Solve/Grid.antt =====
-- The distribution over copies that agents/pity_engine/markov.py reads off a grid.
use resin_compute.Base.{
  ℕ, zero, suc, ◌+◌, ◌*◌, ◌≤◌, ◌<◌, ◌≡◌, refl, sym, ap, ◌∙◌, List, [], ◌∷◌, ◌++◌, arith, length,
  get_or, take, drop, length-append,
}
use resin_compute.Gacha.Markov.{Table, width, size, sum, gather, marginal, absorbed}

pub get_or-snoc :
    (xs : List ℕ) (y i : ℕ) → i < length xs → get_or (xs ++ y ∷ []) i 0 ≡ get_or xs i 0
get_or-snoc [] y i h = absurd (omega arith)
get_or-snoc (x ∷ xs) y zero h = refl
get_or-snoc (x ∷ xs) y (suc i) h = get_or-snoc xs y i (omega arith)

pub get_or-end : (xs : List ℕ) (y : ℕ) → get_or (xs ++ y ∷ []) (length xs) 0 ≡ y
get_or-end [] y = refl
get_or-end (x ∷ xs) y = get_or-end xs y

sum-append : (xs ys : List ℕ) → sum (xs ++ ys) ≡ sum xs + sum ys
sum-append [] ys = omega arith
sum-append (x ∷ xs) ys = omega (arith, sum-append xs ys)

sum-split : (n : ℕ) (xs : List ℕ) → sum xs ≡ sum (take n xs) + sum (drop n xs)
sum-split zero xs = omega arith
sum-split (suc n) [] = omega arith
sum-split (suc n) (x ∷ xs) = omega (arith, sum-split n xs)

pub sum-drop : (n : ℕ) (xs : List ℕ) → sum (drop n xs) ≤ sum xs
sum-drop n xs = omega (arith, sum-split n xs)

drop-nil : (n : ℕ) → drop {A = ℕ} n [] ≡ []
drop-nil zero = refl
drop-nil (suc n) = refl

drop-drop : (n m : ℕ) (xs : List ℕ) → drop m (drop n xs) ≡ drop (n + m) xs
drop-drop zero m xs = ap (λ (k : ℕ). drop k xs) (omega arith)
drop-drop (suc n) m [] = drop-nil m ∙ sym (drop-nil (suc n + m))
drop-drop (suc n) m (x ∷ xs) =
    let e : suc n + m ≡ suc (n + m) = omega arith in rw e (drop-drop n m xs)

take_all : (n : ℕ) (xs : List ℕ) → length xs ≤ n → take n xs ≡ xs
take_all zero [] h = refl
take_all zero (x ∷ xs) h = absurd (omega arith)
take_all (suc n) [] h = refl
take_all (suc n) (x ∷ xs) h = ap (λ ys. x ∷ ys) (take_all n xs (omega arith))

drop_all : (n : ℕ) (xs : List ℕ) → length xs ≤ n → drop n xs ≡ []
drop_all zero [] h = refl
drop_all zero (x ∷ xs) h = absurd (omega arith)
drop_all (suc n) [] h = refl
drop_all (suc n) (x ∷ xs) h = drop_all n xs (omega arith)

length-drop_most : (n m : ℕ) (xs : List ℕ) → length xs ≤ n + m → length (drop n xs) ≤ m
length-drop_most zero m xs h = omega (arith, h)
length-drop_most (suc n) m [] h = omega arith
length-drop_most (suc n) m (x ∷ xs) h = length-drop_most n m xs (omega (arith, h))

-- Lists that a loop gathers one by one.
module _ (body : ℕ → ℕ) where
  length-gather : (n : ℕ) → length (gather n (λ k. body k ∷ [])) ≡ n
  unfolding gather
  length-gather zero = refl
  length-gather (suc n) =
      omega (arith, length-append (gather n (λ k. body k ∷ [])) (body n ∷ []), length-gather n)

  get_or-gather : (n : ℕ) → get_or (gather (suc n) (λ k. body k ∷ [])) n 0 ≡ body n
  unfolding gather
  get_or-gather n = rw (length-gather n) at (get_or-end (gather n (λ k. body k ∷ [])) (body n))

rows-sum :
    (w n : ℕ) (f : List ℕ)
    → sum (gather n (λ k. sum (take w (drop (k * w) f)) ∷ [])) + sum (drop (n * w) f) ≡ sum f
unfolding gather
rows-sum w zero f = let e : 0 * w ≡ 0 = omega arith in rw e (omega arith)
rows-sum w (suc n) f =
    let e : n * w + w ≡ suc n * w = omega arith in
    let past : sum (drop w (drop (n * w) f)) ≡ sum (drop (suc n * w) f) =
      ap sum (drop-drop (n * w) w f ∙ ap (λ (k : ℕ). drop k f) e) in
    omega (
      arith,
      rows-sum w n f,
      sum-split w (drop (n * w) f),
      past,
      sum-append (gather n (λ k. sum (take w (drop (k * w) f)) ∷ []))
          (sum (take w (drop (n * w) f)) ∷ []),
    )

-- What is read off a grid of the right size: a chance for each number of copies, whose sum is the
-- whole mass and the last of which is the mass at the end.
module _ (t : Table) (f : List ℕ) (len : length f ≡ size t) where
  pub sum-marginal : sum (marginal t f) ≡ sum f
  unfolding marginal
  sum-marginal = omega (
    arith,
    rows-sum (width t) (t.copies + 1) f,
    ap sum (drop_all (size t) f (omega (arith, len))),
  )

  pub length-marginal : length (marginal t f) ≡ t.copies + 1
  unfolding marginal
  length-marginal = length-gather _ (t.copies + 1)

  pub get_or-marginal : get_or (marginal t f) t.copies 0 ≡ absorbed t f
  unfolding marginal
  get_or-marginal =
      let e : t.copies + 1 ≡ suc t.copies = omega arith in
      let w = width t in
      rw e (get_or-gather (λ k. sum (take w (drop (k * w) f))) t.copies)
      ∙ ap sum (
          take_all w (drop (t.copies * w) f)
            (length-drop_most (t.copies * w) w f (omega (arith, len))))
