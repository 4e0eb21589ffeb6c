-- ===== src/Domains/Rotation.antt =====
-- The weekday rotation of core/domains.py.
use resin_compute.Base.{ℕ, zero, suc, ◌≤◌, ◌<◌, ◌≡◌, true, false, some, List, arith}
use resin_compute.Base.Int.{ℤ, pos, negsuc, ◌+ℤ◌}
use resin_compute.Domains.{is_available, next_available_day, rotation_slot_weekdays}

-- For each of the three slots, the wait is the first day on which the slot is farmable, and it is at
-- most two days.
pub next_available_day_first :
    (slot weekday : ℤ) (days : List ℕ)
    → rotation_slot_weekdays slot ≡ some days
    → (is_available slot (weekday +ℤ pos (next_available_day slot weekday)) ≡ true)
      × ((n : ℕ)
          → n < next_available_day slot weekday
          → is_available slot (weekday +ℤ pos n) ≡ false)
      × (next_available_day slot weekday ≤ 2)
unfolding is_available next_available_day ◌+ℤ◌
next_available_day_first (pos zero) weekday days h =
    (ground arith, λ n lt. ground arith, ground arith)
next_available_day_first (pos (suc zero)) weekday days h =
    (ground arith, λ n lt. ground arith, ground arith)
next_available_day_first (pos (suc (suc zero))) weekday days h =
    (ground arith, λ n lt. ground arith, ground arith)
next_available_day_first (pos (suc (suc (suc n)))) weekday days h = cc
next_available_day_first (negsuc n) weekday days h = cc
