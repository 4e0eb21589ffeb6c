-- ===== src/Resin.antt =====
-- core/resin.py: the arithmetic of Original Resin. The balance that a caller passes is any Python
-- integer; a result is never negative, so it is a natural number.
pub mod Regen
pub mod Waiting
mod Tests
use resin_compute.Base.{ℕ, ◌+◌, ◌-◌, ◌*◌, ◌/◌, min, Option, none, some, ltb, leb, if◌then◌else◌}
use resin_compute.Base.Int.{ℤ, pos, pos_part, neg_part, ◌-ℤ◌, ltb_ℤ, leb_ℤ}
use resin_compute.Clock.{Moment, as_utc, microseconds_per_second}

abbrev pub original_resin_cap : ℕ
original_resin_cap = 200

abbrev pub resin_regen_minutes : ℕ
resin_regen_minutes = 8

abbrev pub resin_regen_seconds : ℕ
resin_regen_seconds = resin_regen_minutes * 60

abbrev pub daily_resin_regen : ℕ
daily_resin_regen = (24 * 60) / resin_regen_minutes

abbrev pub condensed_resin_cost : ℕ
condensed_resin_cost = 40

abbrev pub fragile_resin_grant : ℕ
fragile_resin_grant = 60

-- One interval of regeneration, in the microseconds that a `timedelta` counts.
abbrev pub regen_interval : ℕ
regen_interval = resin_regen_seconds * microseconds_per_second

abbrev pub daily_resin_budget : ℕ
daily_resin_budget = daily_resin_regen

-- `max(0, int(current))` is `pos_part current`.
pub resin_at : ℤ → Moment → Moment → ℕ
resin_at current last_updated now =
    let balance = pos_part current in
    let elapsed = as_utc now -ℤ as_utc last_updated in
    if leb original_resin_cap balance
    then balance
    else if ltb_ℤ elapsed (pos 0)
    then balance
    else min original_resin_cap (balance + pos_part elapsed / regen_interval)

-- The result is a `timedelta`, in microseconds; `none` is Python's `None`.
pub time_to_reach : ℤ → ℤ → Option ℕ
time_to_reach current target =
    let balance = pos_part current in
    if leb_ℤ target (pos balance)
    then some 0
    else if ltb_ℤ (pos original_resin_cap) target
    then none
    else some ((pos_part target - balance) * resin_regen_minutes * 60 * microseconds_per_second)

abbrev pub resin_available_over : (days current fragile_used condensed : ℤ) → ℕ
resin_available_over days current fragile_used condensed =
    pos_part current
    + pos_part days * daily_resin_regen
    + pos_part fragile_used * fragile_resin_grant
    + pos_part condensed * condensed_resin_cost
