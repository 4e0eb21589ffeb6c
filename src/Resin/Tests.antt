-- ===== src/Resin/Tests.antt =====
-- Runs of core/resin.py on one account: 190 resin at the start, and 8 minutes to a unit.
use resin_compute.Base.{◌+◌, ◌≤◌, ◌≡◌, refl, arith}
use resin_compute.Base.Int.{pos, ◌-ℤ◌, ◌≤ℤ◌}
use resin_compute.Clock.{Moment, naive, aware, as_utc}
use resin_compute.Resin.{resin_at, time_to_reach}
use resin_compute.Resin.Regen.{resin_at_split}
use resin_compute.Resin.Waiting.{time_to_reach_exact}

abbrev start : Moment
start = naive (pos 0)

-- Three intervals and a half, on the clock of a zone one hour ahead.
abbrev later : Moment
later = aware (pos 5_280_000_000) (pos 3_600_000_000)

abbrev end : Moment
end = naive (pos 3_400_000_000)

three_intervals : resin_at (pos 190) start later ≡ 193
unfolding as_utc ◌-ℤ◌ resin_at
three_intervals = refl

resin_at_split_example :
    (resin_at (pos (resin_at (pos 190) start later)) later end ≤ resin_at (pos 190) start end)
    × (resin_at (pos 190) start end ≤ resin_at (pos (resin_at (pos 190) start later)) later end + 1)
unfolding as_utc ◌-ℤ◌
resin_at_split_example = resin_at_split (pos 190) start later end (omega arith) (omega arith)

time_to_reach_exact_example :
    (pos 193 ≤ℤ pos (resin_at (pos 190) start later)
      → pos 1_440_000_000 ≤ℤ (as_utc later -ℤ as_utc start))
    × (pos 1_440_000_000 ≤ℤ (as_utc later -ℤ as_utc start)
        → pos 193 ≤ℤ pos (resin_at (pos 190) start later))
unfolding as_utc ◌-ℤ◌ time_to_reach
time_to_reach_exact_example =
    time_to_reach_exact (pos 190) (pos 193) 1_440_000_000 start later refl (omega arith)
