-- ===== src/Gacha/Timeline/Answered.antt =====
-- The answer of agents/pity_engine/timeline.py `by_when`.
use resin_compute.Base.{
  ℕ, ◌-◌, ◌≤◌, ◌<◌, ◌≡◌, refl, sym, Bool, true, false, Option, none, some, List, arith, All, inl,
  inr, Option-cases,
}
use resin_compute.Base.Int.{pos, ltb_ℤ, ◌≤ℤ◌}
use resin_compute.Types.{BannerKind, PityState}
use resin_compute.Gacha.Banners.{BannerConfig, hard_pity}
use resin_compute.Gacha.Solve.{answer, value_error, ChainSolution, solve}
use resin_compute.Gacha.Forecast.{Fraction, config_for, pulls_needed_for_confidence}
use resin_compute.Gacha.Forecast.Success.{solve_banner}
use resin_compute.Gacha.Timeline.{
  BannerWindow, Question, Search, Day, ByWhenResult, accrues, start_search, answer_of, question,
  sorted_schedule, by_when,
}
use resin_compute.Gacha.Timeline.Accrual.{
  pass_windows, scan_windows_pass, scan_windows_over, all_accrue,
}
use resin_compute.Gacha.Timeline.Order.{sorted_schedule-IsApart, sorted_schedule-filled}
use resin_compute.Gacha.Timeline.Earliest.{
  IsEligible, IsEarliest, pass_windows-IsEarliest, scanned-best,
}

answer_of_lem :
    (needed : ℕ) (s : Search) {b : Day}
    → s.best ≡ some b
    → (result : ByWhenResult) × (answer_of needed s ≡ answer result)
      × (result.by_date ≡ s.by)
      × (result.pulls_needed ≡ needed)
answer_of_lem needed s {b} h = elim (Option-cases s.by) [
  | inl e ↦ (
    record {
      reachable = false;
      by_date = none;
      best = b;
      pulls_needed = needed;
      pulls_short = needed - b.pulls_available;
      windows = s.outcomes;
    },
    rw (h, e) refl,
    sym e,
    refl,
  )
  | inr (d, e) ↦ (
    record {
      reachable = true;
      by_date = some d;
      best = b;
      pulls_needed = needed;
      pulls_short = 0;
      windows = s.outcomes;
    },
    rw (h, e) refl,
    sym e,
    refl,
  )
]

-- For a schedule that is accepted, of windows that do not end before they start, a wallet and a rate
-- that are not negative, a state below the hard pity of a banner whose table is built, one copy or more,
-- a confidence for which the number of pulls is known, and a rate that accrues a finite number of pulls by
-- the end of every window, `by_when` answers. The day that it names is
-- the earliest of the eligible days of the schedule on which the curve of the chain, read at the pulls on
-- hand and the whole pulls accrued by the day, meets the confidence, and it names none only if no
-- eligible day does.
pub by_when-IsEarliest :
    (state : PityState) (copies : ℕ) (schedule : List BannerWindow) (as_of on_hand : ℕ)
    (rate confidence : Fraction) (banner : BannerKind) (increment : Option ℕ) (carry : Bool)
    {config : BannerConfig} {hard needed : ℕ} {windows : List BannerWindow}
    → config_for banner increment ≡ some config
    → hard_pity config ≡ some hard
    → state.pity_5star < hard
    → 1 ≤ copies
    → pos 0 ≤ℤ rate.numerator
    → sorted_schedule schedule as_of ≡ some windows
    → All (λ w. w.start ≤ w.end) windows
    → All (λ w. accrues rate as_of w.end ≡ true) windows
    → pulls_needed_for_confidence state (pos copies) confidence banner increment carry
      ≡ answer needed
    → (result : ByWhenResult) × (solution : ChainSolution) × (by_when state
          (pos copies)
          schedule
          as_of
          (pos on_hand)
          rate
          confidence
          banner
          increment
          carry
        ≡ answer result)
      × (solve config state (pos copies) (pos 0) carry ≡ answer solution)
      × (let q = question solution confidence on_hand rate as_of in
          IsEarliest q (IsEligible q windows) result.by_date)
      × (result.pulls_needed ≡ needed)
unfolding by_when
by_when-IsEarliest state copies schedule as_of on_hand rate confidence banner increment carry
      {config} {hard} {needed} {windows} built at_hard lt some_copy rate_ok sorted full finite
      known =
    let (solution, done, _) =
      solve_banner state copies 0 banner increment carry built at_hard lt some_copy in
    let q : Question = question solution confidence on_hand rate as_of in
    let (_, apart, unclosed) = sorted_schedule-IsApart schedule as_of sorted in
    let s : Search = pass_windows q windows start_search in
    let (b, best) =
      scanned-best q windows full unclosed (sorted_schedule-filled schedule as_of sorted) in
    let (result, given, by, needs) = answer_of_lem needed s best in
    let passed = scan_windows_pass q windows start_search unclosed full finite in
    let guard : ltb_ℤ (pos on_hand) (pos 0) ≡ false = ground arith in
    let guard' : ltb_ℤ rate.numerator (pos 0) ≡ false = ground arith in
    (
      result,
      solution,
      rw (guard, guard', sorted, known, built, done, passed) given,
      done,
      rw by (pass_windows-IsEarliest q windows start_search full apart refl),
      needs,
    )

-- For a schedule that is accepted, a wallet and a rate that are not negative, a state below the hard
-- pity of a banner whose table is built, one copy or more, and a confidence for which the number of
-- pulls is known, `by_when` raises the ValueError if by the end of some window the rate accrues more
-- than a float can hold.
pub by_when_overflow :
    (state : PityState) (copies : ℕ) (schedule : List BannerWindow) (as_of on_hand : ℕ)
    (rate confidence : Fraction) (banner : BannerKind) (increment : Option ℕ) (carry : Bool)
    {config : BannerConfig} {hard needed : ℕ} {windows : List BannerWindow}
    → config_for banner increment ≡ some config
    → hard_pity config ≡ some hard
    → state.pity_5star < hard
    → 1 ≤ copies
    → pos 0 ≤ℤ rate.numerator
    → sorted_schedule schedule as_of ≡ some windows
    → all_accrue rate as_of windows ≡ false
    → pulls_needed_for_confidence state (pos copies) confidence banner increment carry
      ≡ answer needed
    → by_when state (pos copies) schedule as_of (pos on_hand) rate confidence banner increment carry
      ≡ value_error
unfolding by_when
by_when_overflow state copies schedule as_of on_hand rate confidence banner increment carry
      {windows = windows} built at_hard lt some_copy rate_ok sorted over known =
    let (solution, done, _) =
      solve_banner state copies 0 banner increment carry built at_hard lt some_copy in
    let q : Question = question solution confidence on_hand rate as_of in
    let failed = scan_windows_over q windows start_search over in
    let guard : ltb_ℤ (pos on_hand) (pos 0) ≡ false = ground arith in
    let guard' : ltb_ℤ rate.numerator (pos 0) ≡ false = ground arith in
    rw (guard, guard', sorted, known, built, done, failed) refl
