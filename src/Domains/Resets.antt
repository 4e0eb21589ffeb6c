-- ===== src/Domains/Resets.antt =====
-- The daily and weekly resets of core/domains.py.
use resin_compute.Base.{
  ℕ, ◌+◌, ◌*◌, ◌≤◌, ◌<◌, ◌≡◌, ◌∙◌, sym, ◌-◌, ap, inl, inr, ◌⊎◌, ◌/◌, if◌then◌else◌, ltb, Bool-cases,
  Option, some, arith,
}
use resin_compute.Base.Int.{
  ℤ, pos, negsuc, ◌+ℤ◌, ◌-ℤ◌, ◌≤ℤ◌, ◌<ℤ◌, mod_ℤ, floor_div, pos_part, neg_part, +ℤ_parts, -ℤ_parts,
  int_laws,
}
use resin_compute.Clock.{Moment}
use resin_compute.Domains.{
  as_server_time, weekly_boss_reset, weekly_resets_between, current_game_day, local_time,
  week_length, day_length, hour_length, reset_anchor, advance, resets_after,
}

-- Division with remainder, by the parts of the integers.
floor_day :
    (a : ℤ)
    → (pos_part a + day_length * neg_part (floor_div a day_length)
        ≡ neg_part a + day_length * pos_part (floor_div a day_length) + mod_ℤ a day_length)
      × (mod_ℤ a day_length < day_length)
floor_day a = ground arith

floor_week :
    (a : ℤ)
    → (pos_part a + week_length * neg_part (floor_div a week_length)
        ≡ neg_part a + week_length * pos_part (floor_div a week_length) + mod_ℤ a week_length)
      × (mod_ℤ a week_length < week_length)
floor_week a = ground arith

floor_seven :
    (a : ℤ)
    → (pos_part a + 7 * neg_part (floor_div a 7)
        ≡ neg_part a + 7 * pos_part (floor_div a 7) + mod_ℤ a 7)
      × (mod_ℤ a 7 < 7)
floor_seven a = ground arith

mod_week_unique :
    (a q : ℤ) (x : ℕ)
    → x < week_length
    → pos_part a + week_length * neg_part q ≡ neg_part a + week_length * pos_part q + x
    → mod_ℤ a week_length ≡ x
mod_week_unique a q x h e = omega (arith, floor_week a)

floor_day_unique :
    (a q : ℤ) (x : ℕ)
    → x < day_length
    → pos_part a + day_length * neg_part q ≡ neg_part a + day_length * pos_part q + x
    → floor_div a day_length ≡ q
floor_day_unique a q x h e = omega (int_laws, floor_day a)

-- The anchor before the loop lies less than a day after the clock, and less than a week before it.
reset_anchor_lem :
    (local : ℤ) (hour : ℕ)
    → hour < 24
    → (mod_ℤ (reset_anchor local hour) week_length ≡ hour * hour_length)
      × (reset_anchor local hour <ℤ (local +ℤ pos day_length))
      × (local <ℤ (reset_anchor local hour +ℤ pos week_length))
unfolding reset_anchor
reset_anchor_lem local hour h =
    let base = local -ℤ pos (mod_ℤ local day_length) in
    let anchor = base +ℤ pos (hour * hour_length) in
    let days = floor_div local day_length in
    let same : floor_div anchor day_length ≡ days =
      floor_day_unique anchor days (hour * hour_length) (omega arith)
        (omega (int_laws, floor_day local)) in
    rw same (
      mod_week_unique _ (floor_div (days -ℤ pos 0) 7) (hour * hour_length) (omega arith)
          (omega (int_laws, floor_day local, floor_seven (days -ℤ pos 0))),
      omega (int_laws, floor_day local, floor_seven (days -ℤ pos 0)),
      omega (int_laws, floor_day local, floor_seven (days -ℤ pos 0)),
    )

mod_week_add : (a : ℤ) → mod_ℤ (a +ℤ pos week_length) week_length ≡ mod_ℤ a week_length
mod_week_add a =
    mod_week_unique _ (floor_div a week_length +ℤ pos 1) _ (omega (arith, floor_week a))
      (omega (int_laws, floor_week a))

-- One round of the loop is enough, so the test of `while` fails at the result.
advance_lem :
    (local anchor : ℤ)
    → anchor <ℤ (local +ℤ pos week_length)
    → local <ℤ (anchor +ℤ pos week_length)
    → (local <ℤ advance 2 local anchor)
      × (advance 2 local anchor ≤ℤ (local +ℤ pos week_length))
      × (mod_ℤ (advance 2 local anchor) week_length ≡ mod_ℤ anchor week_length)
unfolding advance
advance_lem local anchor p q = ground (
  arith,
  mod_week_add anchor,
  +ℤ_parts anchor (pos week_length),
  +ℤ_parts local (pos week_length),
)

-- At an hour of the day, the weekly reset is the first instant after the clock that lies on a Monday
-- at that hour: it is later than the clock, by a week at most.
pub weekly_boss_reset_lem :
    (now : Moment) (tz : ℤ) (hour : ℕ)
    → hour < 24
    → (r : ℤ) × (weekly_boss_reset now tz (pos hour) ≡ some r)
      × (as_server_time now tz <ℤ r)
      × (r ≤ℤ (as_server_time now tz +ℤ pos week_length))
      × (mod_ℤ r week_length ≡ hour * hour_length)
unfolding weekly_boss_reset
weekly_boss_reset_lem now tz hour h =
    let local = as_server_time now tz in
    let (on_monday, above, below) = reset_anchor_lem local hour h in
    let (later, close, same) =
      advance_lem local (reset_anchor local hour) (omega (int_laws, above)) below in
    (advance 2 local (reset_anchor local hour), ground arith, later, close, same ∙ on_monday)

-- The first reset after a clock is fixed by what `weekly_boss_reset_lem` says of it.
next_reset_unique :
    (local r s : ℤ)
    → (local <ℤ r) × (r ≤ℤ (local +ℤ pos week_length))
    → (local <ℤ s) × (s ≤ℤ (local +ℤ pos week_length))
    → mod_ℤ r week_length ≡ mod_ℤ s week_length
    → r ≡ s
next_reset_unique local r s p q e = omega (int_laws, floor_week r, floor_week s)

-- The count `n` is the least with `finish < first + n * week`.
resets_after_lem :
    (first finish : ℤ)
    → let n = resets_after first finish in
      (pos_part finish + neg_part first < pos_part first + neg_part finish + week_length * n)
      × ((n ≡ 0)
          ⊎ (pos_part first + neg_part finish + week_length * n
              ≤ pos_part finish + neg_part first + week_length))
unfolding resets_after
resets_after_lem first finish = ground (arith, -ℤ_parts finish first, floor_week (finish -ℤ first))

module _ (start middle end : ℤ) (r s : ℤ) (p : start ≤ℤ middle) (q : middle ≤ℤ end)
    (hr : (start <ℤ r) × (r ≤ℤ (start +ℤ pos week_length)))
    (hs : (middle <ℤ s) × (s ≤ℤ (middle +ℤ pos week_length)))
    (e : mod_ℤ r week_length ≡ mod_ℤ s week_length) where
  shifted-eq : r +ℤ pos (week_length * resets_after r middle) ≡ s
  shifted-eq =
      next_reset_unique middle _ s
        (
          omega (int_laws, resets_after_lem r middle),
          omega (int_laws, hr.1, resets_after_lem r middle),
        )
        hs
        (mod_week_unique _ (floor_div r week_length +ℤ pos (resets_after r middle)) _
            (omega (arith, floor_week r)) (omega (int_laws, floor_week r))
          ∙ e)

  resets_after-tile : resets_after r middle + resets_after s end ≡ resets_after r end
  resets_after-tile = omega (
    int_laws,
    ap pos_part shifted-eq,
    ap neg_part shifted-eq,
    resets_after_lem r middle,
    resets_after_lem s end,
    resets_after_lem r end,
  )

-- At an hour of the day, and for three clocks in order, the resets of two windows that share an end
-- add up to those of the joined window: none is lost and none is counted twice.
pub weekly_resets_between_tile :
    (start middle end : Moment) (tz : ℤ) (hour : ℕ)
    → hour < 24
    → as_server_time start tz ≤ℤ as_server_time middle tz
    → as_server_time middle tz ≤ℤ as_server_time end tz
    → (m n : ℕ) × (weekly_resets_between start middle tz (pos hour) ≡ some m)
      × (weekly_resets_between middle end tz (pos hour) ≡ some n)
      × (weekly_resets_between start end tz (pos hour) ≡ some (m + n))
unfolding weekly_resets_between
weekly_resets_between_tile start middle end tz hour h p q =
    let (r, er, ar, br, cr) = weekly_boss_reset_lem start tz hour h in
    let (s, es, as', bs, cs) = weekly_boss_reset_lem middle tz hour h in
    (
      resets_after r (as_server_time middle tz),
      resets_after s (as_server_time end tz),
      rw (er, weekly_resets_between),
      rw (es, weekly_resets_between),
      rw (er, weekly_resets_between)
          (ap some (sym (resets_after-tile _ _ _ r s p q (ar, br) (as', bs) (cr ∙ sym cs)))),
    )

-- Stepping back a day when the hour of the clock is too early is setting the clock back.
game_day_shift :
    (local : ℤ) (hour : ℕ)
    → hour < 24
    → (if ltb (mod_ℤ local day_length / hour_length) hour
        then floor_div (local -ℤ pos day_length) day_length
        else floor_div local day_length)
      ≡ floor_div (local -ℤ pos (hour * hour_length)) day_length
game_day_shift local hour h = elim (Bool-cases (ltb (mod_ℤ local day_length / hour_length) hour)) [
  | inl early ↦ rw early (
      sym (
        floor_day_unique _ (floor_div (local -ℤ pos day_length) day_length)
          (mod_ℤ local day_length + day_length - hour * hour_length)
          (ground (arith, floor_day local))
          (ground (
            arith,
            floor_day local,
            floor_day (local -ℤ pos day_length),
            -ℤ_parts local (pos day_length),
            -ℤ_parts local (pos (hour * hour_length)),
          ))))
  | inr late ↦ rw late (
      sym (
        floor_day_unique _ (floor_div local day_length)
          (mod_ℤ local day_length - hour * hour_length) (ground (arith, floor_day local))
          (ground (arith, floor_day local, -ℤ_parts local (pos (hour * hour_length))))))
]

-- At an hour of the day, the game day is the calendar day of the clock set back by that hour; at any
-- other hour it is that of hour 4.
pub current_game_day_shift :
    (now : Moment) (tz : Option ℤ) (hour : ℕ)
    → (hour < 24
        → current_game_day now (pos hour) tz
          ≡ floor_div (local_time now tz -ℤ pos (hour * hour_length)) day_length)
      × (24 ≤ hour → current_game_day now (pos hour) tz ≡ current_game_day now (pos 4) tz)
      × (current_game_day now (negsuc hour) tz ≡ current_game_day now (pos 4) tz)
unfolding current_game_day
current_game_day_shift now tz hour = (
  λ h. ground (arith, game_day_shift (local_time now tz) hour h),
  λ h. ground arith,
  ground arith,
)
