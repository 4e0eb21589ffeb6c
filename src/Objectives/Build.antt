-- ===== src/Objectives/Build.antt =====
-- engines/objectives.py: the builder of nodes and the chain of levels and ascensions. The dictionary
-- `emitted` and the list `order` of the builder grow together, so one list of nodes stands for both.
pub mod Wired
pub mod Chain
pub mod Rank
use Prim.Native.String.{String, ◌++◌ as append}
use text.Mathlib.Text.{◌==◌ as str_eq}
use resin_compute.Base.{
  ℕ, zero, suc, ◌+◌, ◌-◌, min, max, Bool, true, false, not, ◌&&◌, Option, none, some, List, [], ◌∷◌,
  ◌++◌, leb, ltb, ◌==◌, length, get_or, if◌then◌else◌,
}
use resin_compute.Base.Int.{ℤ, pos, pos_part, ltb_ℤ}
use resin_compute.Base.Texts.{has, dedupe}
use resin_compute.Base.Results.{Outcome, ok, err, ◌>>=◌, ◌>>◌, refuse_if}
use resin_compute.Types.{
  ObjectiveNode, ObjectiveKind, MaterialCost, character_ascension, character_level, talent_level,
  weapon_ascension, weapon_level,
}
use resin_compute.Objectives.{
  min_talent_level, required_ascension_for_level, min_ascension_for_talent,
}
use resin_compute.Objectives.Graph.{ids}

pub record NodeCost : Type 0 where
  pub materials : List MaterialCost
  pub mora_cost : ℕ
  pub resin_cost : ℕ
  pub available_weekdays : List ℕ
  pub weekly_capped : Bool
  pub display_name : String

abbrev pub no_cost : NodeCost
no_cost = record {
  materials = [];
  mora_cost = 0;
  resin_cost = 0;
  available_weekdays = [];
  weekly_capped = false;
  display_name = "";
}

-- The node that the builder makes of its arguments.
abbrev pub node_of :
    (String → Option NodeCost)
    → (node_id : String) → ObjectiveKind
    → (subject_id target_value : ℕ) → (depends_on : List String) → (fallback_name : String)
    → ObjectiveNode
node_of costs node_id kind subject_id target_value depends_on fallback_name =
    let cost = elim (costs node_id) as (λ c. NodeCost) [ none ↦ no_cost | some given ↦ given ] in
    record {
      node_id = node_id;
      kind = kind;
      subject_id = subject_id;
      target_value = target_value;
      depends_on = dedupe [] depends_on;
      materials = cost.materials;
      mora_cost = cost.mora_cost;
      resin_cost = cost.resin_cost;
      available_weekdays = cost.available_weekdays;
      weekly_capped = cost.weekly_capped;
      display_name = if str_eq cost.display_name "" then fallback_name else cost.display_name;
    }

-- `_Builder.add`, on the nodes emitted so far; the id that it returns is the one it is given.
unfoldable pub add : List ObjectiveNode → ObjectiveNode → List ObjectiveNode
add emitted node = if has node.node_id (ids emitted) then emitted else emitted ++ node ∷ []

-- What tells the two chains apart, and what they are built from.
pub record ChainOf : Type 0 where
  pub costs : String → Option NodeCost
  pub subject_id : ℕ
  pub level_caps : List ℕ
  pub level_kind : ObjectiveKind
  pub ascension_kind : ObjectiveKind
  pub level_id : ℕ → String
  pub ascension_id : ℕ → String
  pub level_name : ℕ → String
  pub ascension_name : ℕ → String

abbrev pub lookup : ℕ → List (ℕ × String) → Option String
lookup key [] = none
lookup key ((k, v) ∷ rest) = if k == key then some v else lookup key rest

-- The ascension that a phase stands on, as a list of dependencies; the first phase stands on none. Every
-- later one is in the dictionary.
abbrev pub ascension_dep : ℕ → List (ℕ × String) → List String
ascension_dep phase ascensions =
    if leb 1 phase then elim (lookup phase ascensions) [ none ↦ [] | some i ↦ i ∷ [] ] else []

-- `if previous: deps.append(previous)`
abbrev pub if_any : String → List String
if_any previous = if str_eq previous "" then [] else previous ∷ []

-- The variables of the loop over the phases.
pub record ChainState : Type 0 where
  pub emitted : List ObjectiveNode
  pub ascensions : List (ℕ × String)
  pub previous : String

abbrev pub level_node : ChainOf → ChainState → (phase level : ℕ) → ObjectiveNode
level_node c s phase level =
    node_of c.costs (c.level_id level) c.level_kind c.subject_id level
      (ascension_dep phase s.ascensions ++ if_any s.previous) (c.level_name level)

-- The level milestone of a phase, and then the ascension past it.
unfoldable pub add_level : ChainOf → ChainState → (phase level : ℕ) → ChainState
add_level c s phase level = record {
  emitted = add s.emitted (level_node c s phase level);
  ascensions = s.ascensions;
  previous = c.level_id level;
}

unfoldable pub add_ascension : ChainOf → ChainState → (phase : ℕ) → ChainState
add_ascension c s phase = record {
  emitted = add s.emitted (
      node_of c.costs (c.ascension_id (phase + 1)) c.ascension_kind c.subject_id (phase + 1)
        (ascension_dep phase s.ascensions ++ s.previous ∷ []) (c.ascension_name (phase + 1)));
  ascensions = (phase + 1, c.ascension_id (phase + 1)) ∷ s.ascensions;
  previous = s.previous;
}

-- The loop over the phases, with the number that is left.
unfoldable pub add_phases : ChainOf → ChainState → (left phase : ℕ) → ChainState
add_phases c s zero phase = s
add_phases c s (suc left) phase =
    add_phases c (add_ascension c (add_level c s phase (get_or c.level_caps phase 0)) phase) left
      (phase + 1)

-- The cap of the last phase that the loop went through.
abbrev pub last_cap : ChainOf → (phases : ℕ) → ℕ
last_cap c phases = get_or c.level_caps (phases - 1) 0

unfoldable pub build_chain : ChainOf → List ObjectiveNode → (target_level phases : ℕ) → ChainState
build_chain c emitted target_level phases =
    let s = add_phases c (record { emitted = emitted; ascensions = []; previous = "" }) phases 0 in
    let final_level = if leb 1 phases then max target_level (last_cap c phases) else target_level in
    if leb 1 phases && final_level == last_cap c phases then s else add_level c s phases final_level
