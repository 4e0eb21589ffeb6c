-- ===== src/Gacha/Tests.antt =====
-- Runs of agents/pity_engine on the character table, on a weapon ramp of one step, and on a table of two.
use resin_compute.Base.{
  ℕ, zero, suc, ◌+◌, ◌-◌, ◌*◌, ◌^◌, ◌≤◌, ◌<◌, ◌≡◌, refl, Bool, true, false, some, List, [], ◌∷◌,
  ◌++◌, replicate, arith, length, get_or, max,
}
use resin_compute.Base.Int.{pos}
use resin_compute.Types.{PityState, character_event, weapon_event}
use resin_compute.Gacha.Banners.{
  BannerConfig, build_five_star_table, rows, effective_hard_pity, first_certain,
  weapon_five_star_table, banner_config, character_rate_up, weapon_rate_up, four_star_table_weapon,
  capturing_radiance_long_run_rate, certain, sure, hard_pity,
}
use resin_compute.Gacha.Banners.Tables.{hard_pity_emerges, HardPityAt}
use resin_compute.Gacha.Banners.Radiance.{capturing_radiance_rate, runs}
use resin_compute.Gacha.Markov.{
  Table, run, unit, sum, step, apply_writes, all_writes, gather, cell_writes, split_writes,
  absorbed_writes,
}
use resin_compute.Gacha.Markov.Cells.{IsSound}
use resin_compute.Gacha.Markov.Mass.{step-sum}
use resin_compute.Gacha.Solve.{
  answer, ChainSolution, solve, validate, initial_grid, initial_guarantee_bit,
}
use resin_compute.Gacha.Solve.Total.{IsConfig, IsSolution}
use resin_compute.Gacha.Solve.Absorbed.{IsAbsorbed, solve-IsAbsorbed}
use resin_compute.Gacha.Forecast.Reachable.{pulls_needed_total}
use resin_compute.Gacha.Solve.Kinds.{banner_config-IsConfig}
use resin_compute.Gacha.Expected.{expected_wishes_per_five_star, consolidated_rate}
use resin_compute.Gacha.Expected.Survival.{survivals, expected_wishes_survival}
use resin_compute.Gacha.Solve.{value_error}
use resin_compute.Gacha.Timeline.{wallet, probability, meets, is_finite, Chance}
use resin_compute.Gacha.Timeline.Needed.{meets_iff_needed}
use resin_compute.Base.{◌↔◌}
use resin_compute.Gacha.Timeline.{BannerWindow, sorted_schedule, ByWhenResult, by_when, question}
use resin_compute.Gacha.Timeline.Order.{count, IsApart, sorted_schedule-IsApart}
use resin_compute.Gacha.Timeline.Earliest.{IsEarliest, IsEligible}
use resin_compute.Gacha.Timeline.Answered.{by_when-IsEarliest, by_when_overflow}
use resin_compute.Base.{All}
use resin_compute.Gacha.Forecast.{
  reaches, ForecastResult, Fraction, probability_of_success, pulls_needed_for_confidence,
}
use resin_compute.Gacha.Forecast.Success.{probability_of_success_lem}
use resin_compute.Gacha.Forecast.Confidence.{IsFirst, pulls_needed_for_confidence_lem}

abbrev character_table : List ℕ
character_table =
    0
    ∷ (replicate 73 6
        ++ 66 ∷ 126 ∷ 186 ∷ 246 ∷ 306 ∷ 366 ∷ 426 ∷ 486 ∷ 546 ∷ 606 ∷ 666 ∷ 726 ∷ 786 ∷ 846 ∷ 906
          ∷ 966 ∷ 1000 ∷ [])

hard_pity_emerges_example : (hard : ℕ) × HardPityAt 6 73 60 character_table hard
unfolding build_five_star_table rows
hard_pity_emerges_example = hard_pity_emerges 6 73 60 400 refl

character_hard_pity : effective_hard_pity character_table ≡ some 90
unfolding effective_hard_pity first_certain
character_hard_pity = refl

capturing_radiance_rate_example :
    capturing_radiance_long_run_rate 52_106 3 ≡ some (sure ^ 4, runs sure (sure - 52_106) 4)
capturing_radiance_rate_example = capturing_radiance_rate 52_106 3 (omega arith) (omega arith)

-- A ramp of one step: pity 63 is hard.
abbrev weapon : BannerConfig
weapon = record {
  kind = weapon_event;
  five_star = 0 ∷ (replicate 62 7 ++ 1000 ∷ []);
  four_star = four_star_table_weapon;
  rate_up = weapon_rate_up;
  capturing_radiance = false;
  label = "Weapon Event Wish";
}

weapon_built : banner_config weapon_event 993 ≡ some weapon
unfolding banner_config weapon_five_star_table build_five_star_table rows
weapon_built = refl

weapon_hard : hard_pity weapon ≡ some 63
unfolding effective_hard_pity first_certain
weapon_hard = refl

banner_config-IsConfig_example : (hard : ℕ) × IsConfig weapon hard
banner_config-IsConfig_example = banner_config-IsConfig weapon_event 993 weapon_built

abbrev near : PityState
near = record {
  banner = weapon_event;
  pity_5star = 62;
  pity_4star = 3;
  has_guarantee = false;
  consecutive_5050_losses = 1;
  fate_points = 1;
}

probability_of_success_lem_example :
    (result : ForecastResult) × (probability_of_success near
        (pos 2)
        (pos 40)
        weapon_event
        (some 993)
        true
      ≡ answer result)
    × (length result.distribution ≡ 2 + 1)
    × (sum result.distribution ≡ unit ^ result.read_at)
    × (result.probability ≡ get_or result.distribution 2 0)
    × (result.probability ≤ unit ^ result.read_at)
probability_of_success_lem_example =
    probability_of_success_lem near 2 40 weapon_event (some 993) true weapon_built weapon_hard
      (omega arith) (omega arith)

abbrev nine_tenths : Fraction
nine_tenths = record { numerator = pos 9; denominator = 10 }

pulls_needed_for_confidence_lem_example :
    (solution : ChainSolution) × (solve weapon near (pos 1) (pos 0) true ≡ answer solution)
    × IsFirst nine_tenths solution.absorbed_by_pull
        (pulls_needed_for_confidence near (pos 1) nine_tenths weapon_event (some 993) true)
pulls_needed_for_confidence_lem_example =
    pulls_needed_for_confidence_lem near 1 nine_tenths weapon_event (some 993) true weapon_built
      weapon_hard (omega arith) (omega arith) (omega arith) (omega arith)

-- A hazard of one half, and a hard pity of two.
abbrev small : BannerConfig
small = record {
  kind = character_event;
  five_star = 0 ∷ 500 ∷ 1000 ∷ [];
  four_star = 0 ∷ 1000 ∷ [];
  rate_up = character_rate_up;
  capturing_radiance = true;
  label = "small";
}

small_clipped : (c : ℕ) → c < 2 → get_or (0 ∷ 500 ∷ 1000 ∷ []) (c + 1) 0 ≤ certain
small_clipped zero lt = omega arith
small_clipped (suc zero) lt = omega arith
small_clipped (suc (suc c)) lt = absurd (omega arith)

small_last : (c : ℕ) → c + 1 ≡ 2 → get_or (0 ∷ 500 ∷ 1000 ∷ []) (c + 1) 0 ≡ certain
small_last c e = rw e refl

small_likely : (g : Bool) (r : ℕ) → character_rate_up g r ≤ sure
unfolding character_rate_up
small_likely g r = ground arith

small_kept : (r : ℕ) → character_rate_up true r ≡ sure
unfolding character_rate_up
small_kept r = refl

small-IsConfig : IsConfig small 2
unfolding effective_hard_pity first_certain
small-IsConfig = record {
  hard_pity_eq = refl;
  some_pity = omega arith;
  clipped = small_clipped;
  last = small_last;
  likely = small_likely;
  kept = small_kept;
}

abbrev fresh : PityState
fresh = record {
  banner = character_event;
  pity_5star = 0;
  pity_4star = 0;
  has_guarantee = false;
  consecutive_5050_losses = 0;
  fate_points = 0;
}

solve-IsAbsorbed_example :
    (solution : ChainSolution) × (solve small fresh (pos 1) (pos 3) true ≡ answer solution)
    × IsSolution 1 solution
    × IsAbsorbed (max 3 (2 * 2 * 1)) (2 * 2 * 1) solution
solve-IsAbsorbed_example =
    solve-IsAbsorbed small fresh 1 3 true small-IsConfig (omega arith) (omega arith)

pulls_needed_total_example :
    (n : ℕ) × (pulls_needed_for_confidence near (pos 1) nine_tenths weapon_event (some 993) true
      ≡ answer n)
    × (n ≤ 2 * 63 * 1)
pulls_needed_total_example =
    pulls_needed_total near 1 nine_tenths weapon_event (some 993) true weapon_built weapon_hard
      (omega arith) (omega arith) (omega arith) (omega arith)

abbrev small_chain : Table
small_chain = record {
  hazards = 0 ∷ 500 ∷ 1000 ∷ [];
  rate_up = character_rate_up;
  hard = 2;
  copies = 1;
  carry = true;
}

small_chain-IsSound : IsSound small_chain
small_chain-IsSound = record {
  some_pity = omega arith;
  clipped = small_clipped;
  last = small_last;
  likely = small_likely;
  kept = small_kept;
}

abbrev grid : List ℕ
grid = 1 ∷ replicate 31 0

abbrev next_grid : List ℕ
next_grid =
    replicate 5 0
    ++ 23_947_000 ∷ 0 ∷ 0 ∷ 50_000_000 ∷ (replicate 7 0 ++ 26_053_000 ∷ replicate 15 0)

step_run : step small_chain grid ≡ some next_grid
unfolding step apply_writes all_writes gather cell_writes split_writes absorbed_writes
    character_rate_up
step_run = refl

step-sum_example : sum next_grid ≡ unit * sum grid
step-sum_example = step-sum small_chain grid small_chain-IsSound refl step_run

abbrev early_window : BannerWindow
early_window = record { start = 100; end = 110; label = "first" }

abbrev late_window : BannerWindow
late_window = record { start = 120; end = 140; label = "rerun" }

abbrev both_windows : List BannerWindow
both_windows = early_window ∷ late_window ∷ []

schedule_sorted : sorted_schedule (late_window ∷ early_window ∷ []) 105 ≡ some both_windows
unfolding sorted_schedule
schedule_sorted = refl

sorted_schedule-IsApart_example :
    ((test : BannerWindow → Bool)
      → count test both_windows ≡ count test (late_window ∷ early_window ∷ []))
    × IsApart both_windows
    × All (λ w. 105 ≤ w.end) both_windows
sorted_schedule-IsApart_example =
    sorted_schedule-IsApart (late_window ∷ early_window ∷ []) 105 schedule_sorted

-- One pull in ten days.
abbrev slow : Fraction
slow = record { numerator = pos 1; denominator = 10 }

-- The state before its hard pity holds a fate point: one pull is enough.
one_pull :
    pulls_needed_for_confidence near (pos 1) nine_tenths weapon_event (some 993) true ≡ answer 1
unfolding pulls_needed_for_confidence solve validate effective_hard_pity first_certain initial_grid
    initial_guarantee_bit run step apply_writes all_writes gather cell_writes split_writes
    absorbed_writes weapon_rate_up reaches banner_config weapon_five_star_table
    build_five_star_table rows
one_pull = refl

by_when-IsEarliest_example :
    (result : ByWhenResult) × (solution : ChainSolution) × (by_when near
        (pos 1)
        (late_window ∷ early_window ∷ [])
        105
        (pos 0)
        slow
        nine_tenths
        weapon_event
        (some 993)
        true
      ≡ answer result)
    × (solve weapon near (pos 1) (pos 0) true ≡ answer solution)
    × (let q = question solution nine_tenths 0 slow 105 in
        IsEarliest q (IsEligible q both_windows) result.by_date)
    × (result.pulls_needed ≡ 1)
unfolding is_finite
by_when-IsEarliest_example =
    by_when-IsEarliest near 1 (late_window ∷ early_window ∷ []) 105 0 slow nine_tenths weapon_event
      (some 993) true weapon_built weapon_hard (omega arith) (omega arith) (omega arith)
      schedule_sorted (omega arith, (omega arith, tt)) (refl, (refl, tt)) one_pull

-- A rate that a float holds, of which three days' worth it does not.
abbrev enormous : Fraction
enormous = record { numerator = pos (2 ^ 1023); denominator = 1 }

by_when_overflow_example :
    by_when near
      (pos 1)
      (late_window ∷ early_window ∷ [])
      105
      (pos 0)
      enormous
      nine_tenths
      weapon_event
      (some 993)
      true
    ≡ value_error
unfolding is_finite
by_when_overflow_example =
    by_when_overflow near 1 (late_window ∷ early_window ∷ []) 105 0 enormous nine_tenths
      weapon_event (some 993) true weapon_built weapon_hard (omega arith) (omega arith)
      (omega arith) schedule_sorted refl one_pull

expected_wishes_survival_example :
    let table = 500 ∷ certain ∷ [] in
    (expected_wishes_per_five_star (0 ∷ table) ≡ some (survivals 1 table, certain ^ 2))
    × (consolidated_rate (0 ∷ table) ≡ some (certain ^ 2, survivals 1 table))
expected_wishes_survival_example = expected_wishes_survival 0 (500 ∷ []) (omega arith, tt)

meets_iff_needed_example :
    (solution : ChainSolution) × (solve weapon near (pos 1) (pos 0) true ≡ answer solution)
    × (let q = question solution nine_tenths 0 slow 105 in
        (pulls : ℕ) × (p : Chance) × (wallet q 120 ≡ answer pulls)
        × (probability q 120 ≡ answer p)
        × ((meets q p ≡ true) ↔ (1 ≤ pulls)))
unfolding is_finite
meets_iff_needed_example =
    meets_iff_needed near 1 nine_tenths weapon_event (some 993) true 105 0 slow 120 weapon_built
      weapon_hard (omega arith) (omega arith) (omega arith) (omega arith) refl one_pull
