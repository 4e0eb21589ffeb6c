-- ===== src/Gacha/Timeline/Order.antt =====
-- The schedule that agents/pity_engine/timeline.py sorts and checks.
use resin_compute.Base.{
  ℕ, ◌+◌, ◌≤◌, ◌<◌, ◌≡◌, ◌≢◌, refl, sym, ap, ◌∙◌, Bool, true, false, some, List, [], ◌∷◌, arith,
  leb, if◌then◌else◌, All, inl, inr, Bool-cases, eq_of_some,
}
use resin_compute.Gacha.Timeline.{
  BannerWindow, insert, sort, any_closed, any_overlap, sorted_schedule,
}

-- Every window ends before the next one starts.
abbrev pub IsApart : List BannerWindow → Type 0
IsApart [] = Unit
IsApart (w ∷ []) = Unit
IsApart (w ∷ w' ∷ ws) = (w.end < w'.start) × IsApart (w' ∷ ws)

-- How many windows pass a test.
abbrev pub count : (BannerWindow → Bool) → List BannerWindow → ℕ
count test [] = 0
count test (w ∷ ws) = (if test w then 1 else 0) + count test ws

any_overlap-IsApart : (ws : List BannerWindow) → any_overlap ws ≡ false → IsApart ws
any_overlap-IsApart [] h = tt
any_overlap-IsApart (w ∷ []) h = tt
any_overlap-IsApart (w ∷ w' ∷ ws) h = (ground arith, any_overlap-IsApart (w' ∷ ws) (ground arith))

count-insert :
    (test : BannerWindow → Bool) (w : BannerWindow) (ws : List BannerWindow)
    → count test (insert w ws) ≡ count test (w ∷ ws)
count-insert test w [] = refl
count-insert test w (x ∷ xs) = ground (arith, count-insert test w xs)

count-sort :
    (test : BannerWindow → Bool) (ws : List BannerWindow) → count test (sort ws) ≡ count test ws
count-sort test [] = refl
count-sort test (w ∷ ws) = omega (arith, count-insert test w (sort ws), count-sort test ws)

open-insert :
    (as_of : ℕ) (w : BannerWindow) (ws : List BannerWindow)
    → as_of ≤ w.end
    → All (λ v. as_of ≤ v.end) ws
    → All (λ v. as_of ≤ v.end) (insert w ws)
open-insert as_of w [] h hs = (h, tt)
open-insert as_of w (x ∷ xs) h hs = elim (Bool-cases (leb w.start x.start)) [
  | inl e ↦ rw e (h, hs)
  | inr e ↦ rw e (hs.0, open-insert as_of w xs h hs.1)
]

open-sort :
    (as_of : ℕ) (ws : List BannerWindow)
    → any_closed ws as_of ≡ false
    → All (λ v. as_of ≤ v.end) (sort ws)
open-sort as_of [] h = tt
open-sort as_of (w ∷ ws) h =
    open-insert as_of w (sort ws) (ground arith) (open-sort as_of ws (ground arith))

-- A schedule that is accepted has the same windows as the one given, each as often, in an order in
-- which every window ends before the next one starts, and none of them ends before the day asked from.
pub sorted_schedule-IsApart :
    (schedule : List BannerWindow) (as_of : ℕ) {windows : List BannerWindow}
    → sorted_schedule schedule as_of ≡ some windows
    → ((test : BannerWindow → Bool) → count test windows ≡ count test schedule)
      × IsApart windows
      × All (λ w. as_of ≤ w.end) windows
unfolding sorted_schedule
sorted_schedule-IsApart [] as_of h = absurd (cc)
sorted_schedule-IsApart (w ∷ ws) as_of {windows} h = elim (Bool-cases (any_closed (w ∷ ws) as_of)) [
  | inl e ↦ absurd (ground arith)
  | inr e ↦ elim (Bool-cases (any_overlap (sort (w ∷ ws)))) [
    | inl e' ↦ absurd (ground arith)
    | inr e' ↦
        let same : sort (w ∷ ws) ≡ windows = eq_of_some (ground arith) in
        rw (← same) (
          λ test. count-sort test (w ∷ ws),
          any_overlap-IsApart (sort (w ∷ ws)) e',
          open-sort as_of (w ∷ ws) e,
        )
  ]
]

pub sorted_schedule-filled :
    (schedule : List BannerWindow) (as_of : ℕ) {windows : List BannerWindow}
    → sorted_schedule schedule as_of ≡ some windows
    → windows ≢ []
unfolding sorted_schedule
sorted_schedule-filled [] as_of h e = absurd (cc)
sorted_schedule-filled (w ∷ ws) as_of {windows} h e =
    let same : 0 ≡ 1 + count (λ _. true) ws =
      sym (ap (count (λ _. true)) e) ∙ (sorted_schedule-IsApart (w ∷ ws) as_of h).0 (λ _. true) in
    absurd (omega (arith, same))
