-- ===== src/Domains/Tests.antt =====
-- Runs of core/domains.py: the first slot on a Tuesday, and clocks of the first days of the calendar.
use resin_compute.Base.{ℕ, ◌+◌, ◌*◌, ◌≤◌, ◌<◌, ◌≡◌, refl, true, false, some, [], ◌∷◌, arith}
use resin_compute.Base.Int.{ℤ, pos, negsuc, ◌+ℤ◌, ◌-ℤ◌, ◌≤ℤ◌, ◌<ℤ◌, mod_ℤ, floor_div}
use resin_compute.Clock.{Moment, naive, aware}
use resin_compute.Domains.{
  is_available, next_available_day, hour_length, day_length, week_length, as_server_time,
  local_time, current_game_day, weekly_boss_reset, weekly_resets_between,
}
use resin_compute.Domains.Rotation.{next_available_day_first}
use resin_compute.Domains.Resets.{
  weekly_boss_reset_lem, weekly_resets_between_tile, current_game_day_shift,
}

next_available_day_first_example :
    (is_available (pos 0) (pos 1 +ℤ pos (next_available_day (pos 0) (pos 1))) ≡ true)
    × ((n : ℕ)
        → n < next_available_day (pos 0) (pos 1)
        → is_available (pos 0) (pos 1 +ℤ pos n) ≡ false)
    × (next_available_day (pos 0) (pos 1) ≤ 2)
next_available_day_first_example = next_available_day_first (pos 0) (pos 1) (0 ∷ 3 ∷ 6 ∷ []) refl

-- Three in the morning of the first Tuesday.
abbrev early : Moment
early = naive (pos 97_200_000_000)

abbrev middle : Moment
middle = naive (pos 700_000_000_000)

abbrev end : Moment
end = aware (pos 1_900_000_000_000) (pos 0)

weekly_boss_reset_lem_example :
    (r : ℤ) × (weekly_boss_reset early (pos 0) (pos 4) ≡ some r)
    × (as_server_time early (pos 0) <ℤ r)
    × (r ≤ℤ (as_server_time early (pos 0) +ℤ pos week_length))
    × (mod_ℤ r week_length ≡ 4 * hour_length)
weekly_boss_reset_lem_example = weekly_boss_reset_lem early (pos 0) 4 (omega arith)

weekly_resets_between_tile_example :
    (m n : ℕ) × (weekly_resets_between early middle (pos 0) (pos 4) ≡ some m)
    × (weekly_resets_between middle end (pos 0) (pos 4) ≡ some n)
    × (weekly_resets_between early end (pos 0) (pos 4) ≡ some (m + n))
unfolding as_server_time ◌+ℤ◌ ◌-ℤ◌
weekly_resets_between_tile_example =
    weekly_resets_between_tile early middle end (pos 0) 4 (omega arith) (omega arith) (omega arith)

current_game_day_shift_example :
    (4 < 24
      → current_game_day early (pos 4) (some (pos 0))
        ≡ floor_div (local_time early (some (pos 0)) -ℤ pos (4 * hour_length)) day_length)
    × (24 ≤ 4
        → current_game_day early (pos 4) (some (pos 0))
          ≡ current_game_day early (pos 4) (some (pos 0)))
    × (current_game_day early (negsuc 4) (some (pos 0))
        ≡ current_game_day early (pos 4) (some (pos 0)))
current_game_day_shift_example = current_game_day_shift early (some (pos 0)) 4
