-- ===== src/Objectives.antt =====
-- engines/objectives.py: the arithmetic of the ascension gates. `Graph` is the order of a node set, and
-- `Path` what one goal needs; `Build` and `Expand` decompose a build goal.
pub mod Gates
pub mod Nodes
pub mod Graph
pub mod Path
pub mod Cycle
pub mod Build
pub mod Expand
mod Tests
use resin_compute.Base.{
  ℕ, zero, suc, ◌+◌, ◌-◌, ◌*◌, ◌/◌, min, max, Bool, Option, none, some, List, [], ◌∷◌, leb, ltb,
  ◌==◌, if◌then◌else◌,
}
use resin_compute.Base.Int.{ℤ, pos, pos_part, ltb_ℤ, leb_ℤ}
use resin_compute.Base.Results.{Outcome, err, ok}

abbrev pub ascension_level_caps : List ℕ
ascension_level_caps = 20 ∷ 40 ∷ 50 ∷ 60 ∷ 70 ∷ 80 ∷ 90 ∷ []

abbrev pub min_talent_level : ℕ
min_talent_level = 1

-- The ValueErrors of `required_ascension_for_level`, and the IndexError of the second one's message, which
-- reads the last of the caps.
pub data LevelError : Type 0 where
  below_first above_caps index_error : LevelError

-- The loop over the caps, from a phase on; `none` is its end.
unfoldable pub first_phase : (phase level : ℕ) → List ℕ → Option ℕ
first_phase phase level [] = none
first_phase phase level (cap ∷ caps) =
    let rest = first_phase (phase + 1) level caps in if leb level cap then some phase else rest

-- What is raised behind the loop.
abbrev pub past_caps : List ℕ → LevelError
past_caps [] = index_error
past_caps (_ ∷ _) = above_caps

unfoldable pub required_ascension_for_level : (level : ℤ) → List ℕ → Outcome LevelError ℕ
required_ascension_for_level level level_caps =
    if ltb_ℤ level (pos 1)
    then err below_first
    else elim (first_phase 0 (pos_part level) level_caps) [
      | some phase ↦ ok phase
      | none ↦ err (past_caps level_caps)
    ]

-- `-(-steps * max_ascension // span)` is the quotient rounded up.
unfoldable pub min_ascension_for_talent :
    (level : ℤ) → (min_ascension max_ascension max_talent_level : ℕ) → Option ℕ
min_ascension_for_talent level min_ascension max_ascension max_talent_level =
    if ltb_ℤ level (pos min_talent_level)
    then none
    else if ltb_ℤ (pos max_talent_level) level
    then none
    else if pos_part level == min_talent_level
    then some 0
    else let span = max_talent_level - min_talent_level in
      let steps = pos_part level - min_talent_level in
      let gate = (steps * max_ascension + span - 1) / span in
      some (max min_ascension (min max_ascension gate))
