-- ===== src/Resin/Waiting.antt =====
-- `time_to_reach` of core/resin.py against `resin_at`.
use resin_compute.Base.{ℕ, ◌≡◌, some, arith}
use resin_compute.Base.Int.{ℤ, pos, ◌-ℤ◌, ◌≤ℤ◌, -ℤ_parts}
use resin_compute.Clock.{Moment, as_utc}
use resin_compute.Resin.{resin_at, time_to_reach}

-- Where a wait is reported, it is exact: at every clock that is not before the last update, the balance
-- has reached the target if and only if the wait has elapsed.
pub time_to_reach_exact :
    (current target : ℤ) (wait : ℕ) (last now : Moment)
    → time_to_reach current target ≡ some wait
    → as_utc last ≤ℤ as_utc now
    → (target ≤ℤ pos (resin_at current last now) → pos wait ≤ℤ (as_utc now -ℤ as_utc last))
      × (pos wait ≤ℤ (as_utc now -ℤ as_utc last) → target ≤ℤ pos (resin_at current last now))
unfolding time_to_reach resin_at
time_to_reach_exact current target wait last now h k = (
  λ p. ground (arith, -ℤ_parts (as_utc now) (as_utc last)),
  λ p. ground (arith, -ℤ_parts (as_utc now) (as_utc last)),
)
