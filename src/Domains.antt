-- ===== src/Domains.antt =====
-- core/domains.py: the weekday rotation of the material domains, and the 04:00 resets. A wall clock
-- counts microseconds from the midnight that began 0001-01-01, a Monday; a zone is a fixed offset, as
-- for the game's servers. The ends of the range of `datetime` are not modelled.
pub mod Rotation
pub mod Resets
mod Tests
use resin_compute.Base.{
  ℕ, zero, suc, ◌+◌, ◌-◌, ◌*◌, ◌/◌, ◌%◌, min, Bool, true, false, ◌||◌, ◌&&◌, Option, none, some,
  List, [], ◌∷◌, ltb, leb, ◌==◌, if◌then◌else◌,
}
use resin_compute.Base.Int.{ℤ, pos, pos_part, neg_part, ◌+ℤ◌, ◌-ℤ◌, ltb_ℤ, leb_ℤ, mod_ℤ, floor_div}
use resin_compute.Clock.{Moment, naive, aware, microseconds_per_second}

abbrev pub days_per_week : ℕ
days_per_week = 7

-- Monday is 0 and Sunday is 6.
abbrev pub rotation_slot_weekdays : ℤ → Option (List ℕ)
rotation_slot_weekdays (pos zero) = some (0 ∷ 3 ∷ 6 ∷ [])
rotation_slot_weekdays (pos (suc zero)) = some (1 ∷ 4 ∷ 6 ∷ [])
rotation_slot_weekdays (pos (suc (suc zero))) = some (2 ∷ 5 ∷ 6 ∷ [])
rotation_slot_weekdays _ = none

abbrev pub daily_reset_hour : ℕ
daily_reset_hour = 4

abbrev pub weekly_reset_weekday : ℕ
weekly_reset_weekday = 0

abbrev pub normalize_weekday : ℤ → ℕ
normalize_weekday weekday = mod_ℤ weekday days_per_week

abbrev contains : ℕ → List ℕ → Bool
contains d [] = false
contains d (x ∷ xs) = d == x || contains d xs

pub is_available : ℤ → ℤ → Bool
is_available rotation_slot weekday = elim (rotation_slot_weekdays rotation_slot) [
  | none ↦ false
  | some days ↦ contains (normalize_weekday weekday) days
]

-- The wait from `start` to a weekday: Python's `(day - start) % 7` of two normalized weekdays.
abbrev days_until : ℕ → ℕ → ℕ
days_until start day = (day + days_per_week - start) % days_per_week

abbrev least_wait : ℕ → List ℕ → ℕ
least_wait start [] = 0
least_wait start (day ∷ []) = days_until start day
least_wait start (day ∷ day' ∷ days) = min (days_until start day) (least_wait start (day' ∷ days))

pub next_available_day : ℤ → ℤ → ℕ
next_available_day rotation_slot from_weekday = elim (rotation_slot_weekdays rotation_slot) [
  | none ↦ 0
  | some days ↦ least_wait (normalize_weekday from_weekday) days
]

abbrev pub hour_length : ℕ
hour_length = 3600 * microseconds_per_second

abbrev pub day_length : ℕ
day_length = 24 * hour_length

abbrev pub week_length : ℕ
week_length = days_per_week * day_length

unfoldable pub as_server_time : Moment → ℤ → ℤ
as_server_time (naive wall) tz = wall
as_server_time (aware wall offset) tz = wall -ℤ offset +ℤ tz

abbrev in_day : ℤ → Bool
in_day hour = leb_ℤ (pos 0) hour && leb_ℤ hour (pos 23)

-- `now if tz is None else _as_server_time(now, tz)`, as a wall clock.
abbrev pub local_time : Moment → Option ℤ → ℤ
local_time now (some tz) = as_server_time now tz
local_time (naive wall) none = wall
local_time (aware wall offset) none = wall

-- The result counts days from 0001-01-01.
pub current_game_day : Moment → ℤ → Option ℤ → ℤ
current_game_day now reset_hour tz =
    let hour = if in_day reset_hour then pos_part reset_hour else daily_reset_hour in
    let local = local_time now tz in
    if ltb (mod_ℤ local day_length / hour_length) hour
    then floor_div (local -ℤ pos day_length) day_length
    else floor_div local day_length

-- The `while` loop, with the rounds that it may take as fuel.
unfoldable pub advance : ℕ → ℤ → ℤ → ℤ
advance zero local anchor = anchor
advance (suc fuel) local anchor =
    advance fuel local (if leb_ℤ anchor local then anchor +ℤ pos week_length else anchor)

-- The anchor before the loop: this day at the reset hour, moved back to its Monday.
pub reset_anchor : ℤ → ℕ → ℤ
reset_anchor local hour =
    let anchor = local -ℤ pos (mod_ℤ local day_length) +ℤ pos (hour * hour_length) in
    anchor
    -ℤ pos
        (mod_ℤ (floor_div anchor day_length -ℤ pos weekly_reset_weekday) days_per_week * day_length)

-- `none` is the ValueError of `datetime.replace` at an hour outside 0..23.
pub weekly_boss_reset : Moment → ℤ → ℤ → Option ℤ
unfolding advance
weekly_boss_reset now tz reset_hour =
    let local = as_server_time now tz in
    if in_day reset_hour
    then some (advance 2 local (reset_anchor local (pos_part reset_hour)))
    else none

-- The count once the first reset after the start is known.
pub resets_after : ℤ → ℤ → ℕ
resets_after first finish =
    if ltb_ℤ finish first then 0 else pos_part (floor_div (finish -ℤ first) week_length) + 1

pub weekly_resets_between : Moment → Moment → ℤ → ℤ → Option ℕ
weekly_resets_between start end tz reset_hour = elim (weekly_boss_reset start tz reset_hour) [
  | none ↦ none
  | some first ↦ some (resets_after first (as_server_time end tz))
]
