-- ===== src/Gacha/Banners.antt =====
-- agents/pity_engine/banners.py: hazard tables and branch rules. A hazard counts thousandths and a
-- branch probability counts hundred-thousandths, so an increment is a whole number of thousandths.
pub mod Tables
pub mod Radiance
use Prim.Native.String.{String}
use resin_compute.Base.{
  ℕ, zero, suc, ◌+◌, ◌-◌, ◌*◌, ◌^◌, Bool, true, false, ◌&&◌, Option, none, some, List, [], ◌∷◌,
  ◌++◌, replicate, ltb, leb, if◌then◌else◌,
}
use resin_compute.Types.{BannerKind, character_event, weapon_event, standard, chronicled}

-- A hazard of one.
abbrev pub certain : ℕ
certain = 1000

-- A branch probability of one.
abbrev pub sure : ℕ
sure = 100_000

abbrev pub five_star_base_character : ℕ
five_star_base_character = 6

abbrev pub five_star_anchor_character : ℕ
five_star_anchor_character = 73

abbrev pub five_star_increment_character : ℕ
five_star_increment_character = 60

abbrev pub five_star_base_weapon : ℕ
five_star_base_weapon = 7

abbrev pub five_star_anchor_weapon : ℕ
five_star_anchor_weapon = 62

abbrev pub five_star_increment_weapon_default : ℕ
five_star_increment_weapon_default = 70

abbrev pub max_pity_bound : ℕ
max_pity_bound = 400

abbrev pub four_star_table_character : List ℕ
four_star_table_character = 0 ∷ (replicate 8 51 ++ 561 ∷ 1000 ∷ [])

abbrev pub four_star_table_weapon : List ℕ
four_star_table_weapon = 0 ∷ (replicate 7 60 ++ 660 ∷ 1000 ∷ [])

abbrev pub capturing_radiance_p : ℕ
capturing_radiance_p = 52_106

abbrev pub capturing_radiance_cap : ℕ
capturing_radiance_cap = 3

abbrev pub weapon_featured_single_p : ℕ
weapon_featured_single_p = 37_500

abbrev pub chronicled_designated_p : ℕ
chronicled_designated_p = 50_000

-- The hazard at a pity count before it is clipped.
abbrev pub raw_hazard : (base anchor increment n : ℕ) → ℕ
raw_hazard base anchor increment n = if leb n anchor then base else base + increment * (n - anchor)

-- The rows of the table from pity `n` on, with the rows that may still be added; `none` is the
-- ValueError of a ramp that does not reach one.
unfoldable pub rows : (base anchor increment left n : ℕ) → Option (List ℕ)
rows base anchor increment zero n = none
rows base anchor increment (suc left) n =
    let rest = rows base anchor increment left (n + 1) in
    let raw = raw_hazard base anchor increment n in
    if leb certain raw
    then some (certain ∷ [])
    else elim rest [ none ↦ none | some more ↦ some (raw ∷ more) ]

-- The source's default for the last argument is `max_pity_bound`.
unfoldable pub build_five_star_table : (base anchor increment max_pity : ℕ) → Option (List ℕ)
build_five_star_table base anchor increment max_pity =
    if ltb 0 base && ltb base certain && leb 1 anchor && ltb 0 increment
    then elim (rows base anchor increment max_pity 1) [ none ↦ none | some more ↦ some (0 ∷ more) ]
    else none

-- The first position, from `n` on, whose hazard is one.
unfoldable pub first_certain : ℕ → List ℕ → Option ℕ
first_certain n [] = none
first_certain n (h ∷ hs) =
    let rest = first_certain (n + 1) hs in if leb certain h then some n else rest

-- `none` is the ValueError of a table with no hard pity. Position 0 is not a pity count.
unfoldable pub effective_hard_pity : List ℕ → Option ℕ
effective_hard_pity [] = none
effective_hard_pity (_ ∷ hazards) = first_certain 1 hazards

unfoldable pub character_five_star_table : Option (List ℕ)
character_five_star_table =
    build_five_star_table five_star_base_character five_star_anchor_character
      five_star_increment_character max_pity_bound

unfoldable pub weapon_five_star_table : ℕ → Option (List ℕ)
weapon_five_star_table increment =
    build_five_star_table five_star_base_weapon five_star_anchor_weapon increment max_pity_bound

-- The loop of `capturing_radiance_long_run_rate`: after `losses` rounds both sums count parts of
-- `sure ^ losses`. The probabilities count parts of `scale`.
unfoldable pub radiance_rounds : (scale win_probability cap left losses expected survival : ℕ) → ℕ
radiance_rounds scale p cap zero losses expected survival = expected
radiance_rounds scale p cap (suc left) losses expected survival =
    let win = if leb cap losses then scale else p in
    radiance_rounds scale p cap left (suc losses) (expected * scale + suc losses * survival * win)
      (survival * (scale - win))

-- The rate as a numerator and a denominator; `none` is the ValueError of a probability outside (0, 1].
unfoldable pub capturing_radiance_long_run_rate : (win_probability cap : ℕ) → Option (ℕ × ℕ)
capturing_radiance_long_run_rate p cap =
    if ltb 0 p && leb p sure
    then some (sure ^ suc cap, radiance_rounds sure p cap (suc cap) 0 0 1)
    else none

unfoldable pub character_rate_up : Bool → ℕ → ℕ
character_rate_up guarantee losses =
    if guarantee
    then sure
    else if leb capturing_radiance_cap losses
    then sure
    else capturing_radiance_p

unfoldable pub weapon_rate_up : Bool → ℕ → ℕ
weapon_rate_up fate_point losses = if fate_point then sure else weapon_featured_single_p

unfoldable pub chronicled_rate_up : Bool → ℕ → ℕ
chronicled_rate_up guarantee losses = if guarantee then sure else chronicled_designated_p

unfoldable pub standard_rate_up : Bool → ℕ → ℕ
standard_rate_up guarantee losses = sure

pub record BannerConfig : Type 0 where
  pub kind : BannerKind
  pub five_star : List ℕ
  pub four_star : List ℕ
  pub rate_up : Bool → ℕ → ℕ
  pub capturing_radiance : Bool
  pub label : String

-- The property `hard_pity`, and `four_star_hard_pity` below.
abbrev pub hard_pity : BannerConfig → Option ℕ
hard_pity config = effective_hard_pity config.five_star

abbrev pub four_star_hard_pity : BannerConfig → Option ℕ
four_star_hard_pity config = effective_hard_pity config.four_star

abbrev pub with_table : Option (List ℕ) → (List ℕ → BannerConfig) → Option BannerConfig
with_table none f = none
with_table (some table) f = some (f table)

unfoldable pub banner_config : BannerKind → (weapon_increment : ℕ) → Option BannerConfig
banner_config character_event increment = with_table character_five_star_table (λ table. record {
  kind = character_event;
  five_star = table;
  four_star = four_star_table_character;
  rate_up = character_rate_up;
  capturing_radiance = true;
  label = "Character Event Wish";
})
banner_config weapon_event increment = with_table (weapon_five_star_table increment) (λ table.
    record {
      kind = weapon_event;
      five_star = table;
      four_star = four_star_table_weapon;
      rate_up = weapon_rate_up;
      capturing_radiance = false;
      label = "Weapon Event Wish";
    })
banner_config standard increment = with_table character_five_star_table (λ table. record {
  kind = standard;
  five_star = table;
  four_star = four_star_table_character;
  rate_up = standard_rate_up;
  capturing_radiance = false;
  label = "Wanderlust Invocation";
})
banner_config chronicled increment = with_table character_five_star_table (λ table. record {
  kind = chronicled;
  five_star = table;
  four_star = four_star_table_character;
  rate_up = chronicled_rate_up;
  capturing_radiance = false;
  label = "Chronicled Wish";
})
