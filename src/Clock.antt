-- ===== src/Clock.antt =====
-- Python's `datetime` values as the core uses them, in whole microseconds, and the helper `_as_utc`
-- of core/resin.py and core/ledger.py. A moment counts the microseconds from a fixed midnight on its
-- own wall clock; an aware one carries the offset of its zone from UTC.
use resin_compute.Base.{ℕ}
use resin_compute.Base.Int.{ℤ, ◌-ℤ◌}

pub data Moment : Type 0 where
  naive : ℤ → Moment
  aware : (wall offset : ℤ) → Moment

unfoldable pub as_utc : Moment → ℤ
as_utc (naive wall) = wall
as_utc (aware wall offset) = wall -ℤ offset

abbrev pub microseconds_per_second : ℕ
microseconds_per_second = 1_000_000
