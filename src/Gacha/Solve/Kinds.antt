-- ===== src/Gacha/Solve/Kinds.antt =====
-- The configurations of agents/pity_engine/banners.py are those that its chain asks for.
use resin_compute.Base.{
  ℕ, ◌+◌, ◌≤◌, ◌≡◌, refl, sym, Bool, true, some, List, arith, Option-cases, inl, inr, eq_of_some,
}
use native.Mathlib.Decide.{ℕ_discrete}
use resin_compute.Types.{BannerKind, character_event, weapon_event, standard, chronicled}
use resin_compute.Gacha.Banners.{
  BannerConfig, banner_config, with_table, build_five_star_table, character_five_star_table,
  weapon_five_star_table, character_rate_up, weapon_rate_up, chronicled_rate_up, standard_rate_up,
  sure,
}
use resin_compute.Gacha.Banners.Tables.{hard_pity_emerges, HardPityAt}
use resin_compute.Gacha.Solve.Total.{IsConfig}

-- A branch rule that never passes one, and is sure with the guarantee.
IsBranch : (Bool → ℕ → ℕ) → Type 0
IsBranch rate_up = ((g : Bool) (r : ℕ) → rate_up g r ≤ sure) × ((r : ℕ) → rate_up true r ≡ sure)

character-IsBranch : IsBranch character_rate_up
unfolding IsBranch character_rate_up
character-IsBranch = (λ g r. ground arith, λ r. refl)

weapon-IsBranch : IsBranch weapon_rate_up
unfolding IsBranch weapon_rate_up
weapon-IsBranch = (λ g r. ground arith, λ r. refl)

chronicled-IsBranch : IsBranch chronicled_rate_up
unfolding IsBranch chronicled_rate_up
chronicled-IsBranch = (λ g r. ground arith, λ r. refl)

standard-IsBranch : IsBranch standard_rate_up
unfolding IsBranch standard_rate_up
standard-IsBranch = (λ g r. omega arith, λ r. refl)

table-IsConfig :
    (base anchor increment : ℕ) (config : BannerConfig) {hard : ℕ}
    → HardPityAt base anchor increment config.five_star hard
    → IsBranch config.rate_up
    → IsConfig config hard
unfolding IsBranch
table-IsConfig base anchor increment config {hard} (e, _, some_pity, top, _, inner) branch =
    record {
      hard_pity_eq = e;
      some_pity = some_pity;
      clipped = λ c lt. elim (ℕ_discrete (c + 1) hard) [
        | yes same ↦ rw same (omega (arith, top))
        | no ne ↦ omega (arith, (inner (c + 1) (omega arith) (omega (arith, ne))).1)
      ];
      last = λ c same. rw same top;
      likely = branch.0;
      kept = branch.1;
    }

-- A configuration with a table that was built for its call.
with_table-IsConfig :
    (base anchor increment : ℕ) (make : List ℕ → BannerConfig) {config : BannerConfig}
    → ((table : List ℕ) → (make table).five_star ≡ table)
    → ((table : List ℕ) → IsBranch (make table).rate_up)
    → with_table (build_five_star_table base anchor increment 400) make ≡ some config
    → (hard : ℕ) × IsConfig config hard
with_table-IsConfig base anchor increment make {config} holds branch h =
    elim (Option-cases (build_five_star_table base anchor increment 400)) [
      | inl missing ↦ absurd (cc)
      | inr (table, built) ↦
          let same = eq_of_some (sym (rw built at h)) in
          let (hard, found) = hard_pity_emerges base anchor increment 400 built in
          rw same (
            hard,
            table-IsConfig base anchor increment (make table) (rw (holds table) found)
                (branch table),
          )
    ]

-- Every banner whose configuration is built has a hard pity, its hazards are clipped there, and the
-- guarantee makes its branch sure.
pub banner_config-IsConfig :
    (kind : BannerKind) (increment : ℕ) {config : BannerConfig}
    → banner_config kind increment ≡ some config
    → (hard : ℕ) × IsConfig config hard
unfolding banner_config character_five_star_table weapon_five_star_table
banner_config-IsConfig character_event increment h =
    with_table-IsConfig 6 73 60 _ (λ table. refl) (λ table. character-IsBranch) h
banner_config-IsConfig weapon_event increment h =
    with_table-IsConfig 7 62 increment _ (λ table. refl) (λ table. weapon-IsBranch) h
banner_config-IsConfig standard increment h =
    with_table-IsConfig 6 73 60 _ (λ table. refl) (λ table. standard-IsBranch) h
banner_config-IsConfig chronicled increment h =
    with_table-IsConfig 6 73 60 _ (λ table. refl) (λ table. chronicled-IsBranch) h
