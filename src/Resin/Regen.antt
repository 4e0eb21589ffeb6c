-- ===== src/Resin/Regen.antt =====
-- Regeneration by `resin_at` of core/resin.py, as the clock moves.
use resin_compute.Base.{◌+◌, ◌≤◌, arith}
use resin_compute.Base.Int.{ℤ, pos, ◌≤ℤ◌, -ℤ_parts}
use resin_compute.Clock.{Moment, as_utc}
use resin_compute.Resin.{resin_at}

-- Observing twice, with the middle balance stored at the middle instant, loses at most one unit
-- against observing once: the part of an interval that had run when the middle balance was stored.
pub resin_at_split :
    (current : ℤ) (start middle end : Moment)
    → as_utc start ≤ℤ as_utc middle
    → as_utc middle ≤ℤ as_utc end
    → (resin_at (pos (resin_at current start middle)) middle end ≤ resin_at current start end)
      × (resin_at current start end ≤ resin_at (pos (resin_at current start middle)) middle end + 1)
unfolding resin_at
resin_at_split current start middle end h k = ground (
  arith,
  -ℤ_parts (as_utc middle) (as_utc start),
  -ℤ_parts (as_utc end) (as_utc middle),
  -ℤ_parts (as_utc end) (as_utc start),
)
