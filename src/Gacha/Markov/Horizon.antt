-- ===== src/Gacha/Markov/Horizon.antt =====
-- The chain of agents/pity_engine/markov.py absorbs its whole mass: every state has a number of pulls by
-- which it is left for good, and a pull lowers it.
use native.Mathlib.Nat.{
  mod-lt, div-lt_iff_lt-mul, mul-le-mul_right, mul-add-div_right, mul-add-mod_self_right,
  mod-eq_of_lt, div-eq_of_lt,
}
use resin_compute.Base.{
  ℕ, zero, suc, ◌+◌, ◌-◌, ◌*◌, ◌/◌, ◌%◌, ◌≤◌, ◌<◌, ◌≡◌, refl, ◌∙◌, arith, if◌then◌else◌, ltb, ◌&&◌,
}
use resin_compute.Gacha.Markov.{Table, width, position}

-- The most pulls that a state can take until the last copy: the pity that is left, and two 5-stars for
-- each further copy, or one if the guarantee is held.
abbrev pub rank : Table → (k c j : ℕ) → ℕ
rank t k c j = (t.hard - c) + (t.copies - k - 1) * (2 * t.hard) + (if ltb j 4 then t.hard else 0)

abbrev pub deadline : Table → ℕ
deadline t = 2 * t.hard * t.copies

abbrev pub copies_at : Table → ℕ → ℕ
copies_at t i = i / width t

abbrev pub rest_at : Table → ℕ → ℕ
rest_at t i = i % width t

decode_copies : (t : Table) (k c j : ℕ) → c < t.hard → j < 8 → copies_at t (position t k c j) ≡ k
decode_copies t k c j ch j8 =
    let x : ℕ = c * 8 + j in
    let small : x < width t = omega arith in
    let e : position t k c j ≡ k * width t + x = omega arith in
    rw e (mul-add-div_right {m = width t} (omega arith) k x ∙ omega (arith, div-eq_of_lt small))

decode_rest :
    (t : Table) (k c j : ℕ) → c < t.hard → j < 8 → rest_at t (position t k c j) ≡ c * 8 + j
decode_rest t k c j ch j8 =
    let x : ℕ = c * 8 + j in
    let small : x < width t = omega arith in
    let e : position t k c j ≡ k * width t + x = omega arith in
    rw e (mul-add-mod_self_right k (width t) x ∙ mod-eq_of_lt small)

-- One at the positions before the last copy whose rank and the pulls taken pass the deadline.
unfoldable pub late : Table → ℕ → ℕ → ℕ
late t s i =
    if ltb (copies_at t i) t.copies
      && ltb (deadline t) (rank t (copies_at t i) (rest_at t i / 8) (rest_at t i % 8) + s)
    then 1
    else 0

pub late-position :
    (t : Table) (s k c j : ℕ)
    → c < t.hard
    → j < 8
    → late t s (position t k c j)
      ≡ (if ltb k t.copies && ltb (deadline t) (rank t k c j + s) then 1 else 0)
unfolding late
late-position t s k c j ch j8 =
    let e : (c * 8 + j) / 8 ≡ c = omega arith in
    let e' : (c * 8 + j) % 8 ≡ j = omega arith in
    rw (decode_copies t k c j ch j8, decode_rest t k c j ch j8) (rw (e, e') refl)

whole_rounds : (n h : ℕ) → 1 ≤ n → 2 * h * n ≡ (n - 1) * (2 * h) + 2 * h
whole_rounds zero h p = absurd (omega arith)
whole_rounds (suc d) h p = let e : suc d - 1 ≡ d = omega arith in rw e (omega arith)

-- The end of the grid is never late.
pub late_end : (t : Table) (s i : ℕ) → i < width t → late t s (t.copies * width t + i) ≡ 0
unfolding late
late_end t s i lt =
    let e : copies_at t (t.copies * width t + i) ≡ t.copies =
      mul-add-div_right {m = width t} (omega arith) t.copies i ∙ omega (arith, div-eq_of_lt lt) in
    rw e (ground arith)

-- A state's successors have a rank that is lower by one at least.
module _ (t : Table) (k c j : ℕ) where
  pub rank_missed : c + 1 < t.hard → rank t k (c + 1) j + 1 ≤ rank t k c j
  rank_missed p = omega arith

  pub rank_won :
      (r : ℕ) → c < t.hard → r < 4 → k + 1 < t.copies → rank t (k + 1) 0 r + 1 ≤ rank t k c j
  rank_won r ch r4 p =
      let e : t.copies - k - 1 ≡ suc (t.copies - (k + 1) - 1) = omega arith in rw e (ground arith)

  pub rank_lost : (r : ℕ) → c < t.hard → 4 ≤ r → j < 4 → rank t k 0 r + 1 ≤ rank t k c j
  rank_lost r ch r4 j4 = ground arith

  pub rank_some : c < t.hard → 1 ≤ rank t k c j
  rank_some ch = omega arith

  pub rank_most : k < t.copies → rank t k c j ≤ deadline t
  rank_most kn =
      let rest : (t.copies - k - 1) * (2 * t.hard) ≤ (t.copies - 1) * (2 * t.hard) =
        mul-le-mul_right (2 * t.hard) (omega arith) in
      ground (arith, rest, whole_rounds t.copies t.hard (omega arith))

-- Before the first pull nothing is late.
pub late_start : (t : Table) (i : ℕ) → late t 0 i ≡ 0
unfolding late
late_start t i = ground (arith, rank_most t (copies_at t i) (rest_at t i / 8) (rest_at t i % 8))

-- When the pulls of the deadline are taken, everything before the end is late.
pub late_all :
    (t : Table) (s i : ℕ) → 1 ≤ t.hard → deadline t ≤ s → i < t.copies * width t → late t s i ≡ 1
unfolding late
late_all t s i some_pity h lt =
    let some_width : 0 < width t = omega arith in
    let before : copies_at t i < t.copies = (div-lt_iff_lt-mul some_width).1 lt in
    let inside : rest_at t i < width t = mod-lt i some_width in
    let some_rank = rank_some t (copies_at t i) (rest_at t i / 8) (rest_at t i % 8) (omega arith) in
    ground arith
