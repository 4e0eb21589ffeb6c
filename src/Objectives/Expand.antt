-- ===== src/Objectives/Expand.antt =====
-- engines/objectives.py: the decomposition of a build goal into nodes. Python's text of an integer is an
-- argument, and so are the costs, by id.
pub mod Ordered
use Prim.Native.String.{String, ◌++◌ as append}
use text.Mathlib.Text.{◌==◌ as str_eq}
use resin_compute.Base.{
  ℕ, zero, suc, ◌+◌, ◌-◌, min, max, Bool, true, false, not, ◌&&◌, Option, none, some, List, [], ◌∷◌,
  ◌++◌, leb, ltb, ◌==◌, length, get_or, if◌then◌else◌,
}
use resin_compute.Base.Int.{ℤ, pos, pos_part, ltb_ℤ}
use resin_compute.Base.Texts.{has, dedupe}
use resin_compute.Base.Results.{Outcome, ok, err, ◌>>=◌, ◌>>◌, refuse_if}
use resin_compute.Types.{
  ObjectiveNode, ObjectiveKind, MaterialCost, character_ascension, character_level, talent_level,
  weapon_ascension, weapon_level,
}
use resin_compute.Objectives.{
  LevelError, min_talent_level, required_ascension_for_level, min_ascension_for_talent,
}
use resin_compute.Objectives.Graph.{ids}
use resin_compute.Objectives.Build.{
  NodeCost, ChainOf, ChainState, node_of, add, lookup, if_any, build_chain,
}

-- The ValueErrors, by what they are about.
pub data ExpandError : Type 0 where
  low_target no_level_caps : ExpandError
  bad_level : LevelError → ExpandError
  low_talent : (slot : ℕ) → ExpandError
  no_gate : (level : ℤ) → ExpandError
  unreached_gate : (level gate : ℕ) → ExpandError

abbrev pub Result {ℓ} : Type ℓ → Type ℓ
Result A = Outcome ExpandError A

abbrev pub or_raise {ℓ} : {A : Type ℓ} → ExpandError → Option A → Result A
or_raise e none = err e
or_raise e (some a) = ok a

-- The errors of `required_ascension_for_level`, passed on.
abbrev pub or_level : Outcome LevelError ℕ → Result ℕ
or_level (ok phase) = ok phase
or_level (err e) = err (bad_level e)

-- The arguments of `expand_character_goal`; `str` is Python's text of an integer. The dictionary of
-- talents is a list, and a gate table a function.
pub record Goal : Type 0 where
  pub str : ℕ → String
  pub subject_id : ℕ
  pub target_level : ℤ
  pub talent_targets : List (ℕ × ℤ)
  pub weapon : Option (ℕ × ℤ)
  pub costs : String → Option NodeCost
  pub level_caps : List ℕ
  pub talent_gate : Option (ℤ → Option ℕ)
  pub prefix : String

abbrev pub joined : List String → String
joined [] = ""
joined (s ∷ ss) = append s (joined ss)

unfoldable pub character_ascension_id :
    (str : ℕ → String) → (subject_id phase : ℕ) → (prefix : String) → String
character_ascension_id str subject_id phase prefix =
    joined (prefix ∷ "char:" ∷ str subject_id ∷ ":ascension:" ∷ str phase ∷ [])

unfoldable pub character_level_id :
    (str : ℕ → String) → (subject_id level : ℕ) → (prefix : String) → String
character_level_id str subject_id level prefix =
    joined (prefix ∷ "char:" ∷ str subject_id ∷ ":level:" ∷ str level ∷ [])

unfoldable pub talent_id :
    (str : ℕ → String) → (subject_id slot level : ℕ) → (prefix : String) → String
talent_id str subject_id slot level prefix =
    joined (prefix ∷ "char:" ∷ str subject_id ∷ ":talent:" ∷ str slot ∷ ":" ∷ str level ∷ [])

unfoldable pub weapon_ascension_id :
    (str : ℕ → String) → (subject_id phase : ℕ) → (prefix : String) → String
weapon_ascension_id str subject_id phase prefix =
    joined (prefix ∷ "weapon:" ∷ str subject_id ∷ ":ascension:" ∷ str phase ∷ [])

unfoldable pub weapon_level_id :
    (str : ℕ → String) → (subject_id level : ℕ) → (prefix : String) → String
weapon_level_id str subject_id level prefix =
    joined (prefix ∷ "weapon:" ∷ str subject_id ∷ ":level:" ∷ str level ∷ [])

abbrev pub character_chain : Goal → ChainOf
character_chain goal = record {
  costs = goal.costs;
  subject_id = goal.subject_id;
  level_caps = goal.level_caps;
  level_kind = character_level;
  ascension_kind = character_ascension;
  level_id = λ level. character_level_id goal.str goal.subject_id level goal.prefix;
  ascension_id = λ phase. character_ascension_id goal.str goal.subject_id phase goal.prefix;
  level_name = λ level.
      joined ("character " ∷ goal.str goal.subject_id ∷ " to level " ∷ goal.str level ∷ []);
  ascension_name = λ phase.
      joined ("character " ∷ goal.str goal.subject_id ∷ " ascension phase " ∷ goal.str phase ∷ []);
}

abbrev pub weapon_chain : Goal → (subject_id : ℕ) → ChainOf
weapon_chain goal subject_id = record {
  costs = goal.costs;
  subject_id = subject_id;
  level_caps = goal.level_caps;
  level_kind = weapon_level;
  ascension_kind = weapon_ascension;
  level_id = λ level. weapon_level_id goal.str subject_id level goal.prefix;
  ascension_id = λ phase. weapon_ascension_id goal.str subject_id phase goal.prefix;
  level_name =
      λ level. joined ("weapon " ∷ goal.str subject_id ∷ " to level " ∷ goal.str level ∷ []);
  ascension_name =
      λ phase. joined ("weapon " ∷ goal.str subject_id ∷ " ascension phase " ∷ goal.str phase ∷ []);
}

unfoldable pub gate_for : Goal → ℤ → Result ℕ
gate_for goal level = elim goal.talent_gate [
  | some table ↦ or_raise (no_gate level) (table level)
  | none ↦ or_raise (no_gate level) (min_ascension_for_talent level 1 6 10)
]

abbrev pub check_targets : List (ℕ × ℤ) → Result (Unit {0})
check_targets [] = ok tt
check_targets ((slot, level) ∷ rest) = do
  refuse_if (ltb_ℤ level (pos min_talent_level)) (low_talent slot)
  check_targets rest

abbrev pub deepest : Goal → (phases : ℕ) → List (ℕ × ℤ) → Result ℕ
deepest goal phases [] = ok phases
deepest goal phases ((slot, level) ∷ rest) = do
  gate ← gate_for goal level
  deepest goal (max phases gate) rest

-- `sorted(targets)`, by insertion.
abbrev pub insert_slot : ℕ × ℤ → List (ℕ × ℤ) → List (ℕ × ℤ)
insert_slot t [] = t ∷ []
insert_slot t (u ∷ rest) = if leb t.0 u.0 then t ∷ u ∷ rest else u ∷ insert_slot t rest

abbrev pub sort_slots : List (ℕ × ℤ) → List (ℕ × ℤ)
sort_slots [] = []
sort_slots (t ∷ rest) = insert_slot t (sort_slots rest)

-- The ascension that a talent level hangs off, as a list of dependencies.
abbrev pub gate_dep : (level gate : ℕ) → List (ℕ × String) → Result (List String)
gate_dep level gate ascensions =
    if leb 1 gate
    then elim (lookup gate ascensions) [
      | none ↦ err (unreached_gate level gate)
      | some i ↦ ok (i ∷ [])
    ]
    else ok []

-- The loop over the levels of one slot, with the number that is left.
unfoldable pub add_talents :
    Goal
    → List (ℕ × String)
    → (slot : ℕ) → List ObjectiveNode
    → (previous : String) → (left level : ℕ) → Result (List ObjectiveNode)
add_talents goal ascensions slot emitted previous zero level = ok emitted
add_talents goal ascensions slot emitted previous (suc left) level = do
  wanted ← gate_for goal (pos level)
  deps ← gate_dep level (min wanted (length goal.level_caps - 1)) ascensions
  let node_id = talent_id goal.str goal.subject_id slot level goal.prefix
  let named = joined (
      "character "
      ∷ goal.str goal.subject_id
      ∷ " talent "
      ∷ goal.str slot
      ∷ " to level "
      ∷ goal.str level
      ∷ [])
  add_talents goal ascensions slot
      (add emitted (
        node_of goal.costs node_id talent_level goal.subject_id level (deps ++ if_any previous)
          named))
      node_id left (level + 1)

unfoldable pub add_slots :
    Goal → List (ℕ × String) → List ObjectiveNode → List (ℕ × ℤ) → Result (List ObjectiveNode)
add_slots goal ascensions emitted [] = ok emitted
add_slots goal ascensions emitted ((slot, target) ∷ rest) = do
  grown ←
      add_talents goal ascensions slot emitted "" (pos_part target - min_talent_level)
        (min_talent_level + 1)
  add_slots goal ascensions grown rest

unfoldable pub add_weapon : Goal → List ObjectiveNode → Result (List ObjectiveNode)
add_weapon goal emitted = elim goal.weapon [
  | none ↦ ok emitted
  | some (subject_id, target) ↦
      if ltb_ℤ target (pos 1)
      then ok emitted
      else (or_level (required_ascension_for_level target goal.level_caps) >>= λ phases.
          ok (build_chain (weapon_chain goal subject_id) emitted (pos_part target) phases).emitted)
]

unfoldable pub expand_character_goal : Goal → Result (List ObjectiveNode)
expand_character_goal goal = do
  refuse_if (ltb_ℤ goal.target_level (pos 1)) low_target
  refuse_if (length goal.level_caps == 0) no_level_caps
  check_targets goal.talent_targets
  required ← or_level (required_ascension_for_level goal.target_level goal.level_caps)
  deep ← deepest goal required goal.talent_targets
  let phases = min deep (length goal.level_caps - 1)
  let chain = build_chain (character_chain goal) [] (pos_part goal.target_level) phases
  grown ← add_slots goal chain.ascensions chain.emitted (sort_slots goal.talent_targets)
  add_weapon goal grown
