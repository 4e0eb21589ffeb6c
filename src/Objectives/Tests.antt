-- ===== src/Objectives/Tests.antt =====
-- Runs of engines/objectives.py: the gates with its own caps, and two small node sets.
use Prim.Native.String.{String}
use text.Mathlib.Text.{◌==◌ as str_eq}
use mathlib.Core.Path.{subst}
use resin_compute.Base.{
  ℕ, ◌≤◌, ◌≡◌, refl, some, none, ◌==◌, List, [], ◌∷◌, false, true, ◌<◌, sym, ◌↔◌, inl, inr, arith,
  if◌then◌else◌,
}
use resin_compute.Base.Texts.{has, text_cases, clash}
use resin_compute.Types.{ObjectiveNode, ResolutionPath, talent_level}
use resin_compute.Objectives.Graph.{
  ok, err, ids, cyclic_objective, index_nodes, validate_dependencies, order_of, kahn, start, pop,
  relax, lower, dependents, deps_of, topological_order,
}
use resin_compute.Base.Int.{pos}
use resin_compute.Objectives.{
  ascension_level_caps, first_phase, required_ascension_for_level, min_ascension_for_talent,
}
use resin_compute.Objectives.Graph.Topological.{IsTopological}
use resin_compute.Objectives.Cycle.{find_cycle, find_from, descend}
use resin_compute.Objectives.Graph.Refusal.{
  IsRefusal, topological_order-IsTopological, topological_order-IsRefusal,
  topological_order_acyclic,
}
use resin_compute.Objectives.Build.{build_chain, add_phases, add_level, add_ascension, add}
use resin_compute.Objectives.Expand.{
  Goal, Result, expand_character_goal, add_slots, add_talents, add_weapon, gate_for,
  character_level_id, character_ascension_id, talent_id, weapon_level_id, weapon_ascension_id,
}
use resin_compute.Objectives.Expand.Ordered.{expand_character_goal-IsTopological}
use resin_compute.Objectives.Path.{critical_path, unmet_prerequisites, transitive_dependents}
use resin_compute.Objectives.Path.Built.{view}
use resin_compute.Objectives.Path.Critical.{IsPathTo, critical_path_lem}
use resin_compute.Objectives.Path.Blocking.{
  IsBlocking, DependsOn, unmet_prerequisites_lem, transitive_dependents_lem,
}
use resin_compute.Objectives.Gates.{
  IsRequired, required_ascension_for_level_lem, min_ascension_for_talent_mono,
}

required_ascension_for_level_lem_example :
    IsRequired
      (pos 21)
      ascension_level_caps
      (required_ascension_for_level (pos 21) ascension_level_caps)
required_ascension_for_level_lem_example =
    required_ascension_for_level_lem (pos 21) ascension_level_caps

level_21 : required_ascension_for_level (pos 21) ascension_level_caps ≡ ok 1
unfolding required_ascension_for_level first_phase
level_21 = refl

min_ascension_for_talent_mono_example :
    (g g' : ℕ) × (min_ascension_for_talent (pos 3) 1 6 10 ≡ some g)
    × (min_ascension_for_talent (pos 7) 1 6 10 ≡ some g')
    × (g ≤ g')
    × (1 ≤ g)
    × (g' ≤ 6)
    × (min_ascension_for_talent (pos 1) 1 6 10 ≡ some 0)
    × (min_ascension_for_talent (pos 10) 1 6 10 ≡ some 6)
min_ascension_for_talent_mono_example =
    min_ascension_for_talent_mono 3 7 1 6 10 (omega arith) (omega arith) (omega arith) (omega arith)
      (omega arith)

abbrev goal_node : String → List String → ℕ → ObjectiveNode
goal_node node_id depends_on resin_cost = record {
  node_id = node_id;
  kind = talent_level;
  subject_id = 1;
  target_value = 2;
  depends_on = depends_on;
  materials = [];
  mora_cost = 100;
  resin_cost = resin_cost;
  available_weekdays = [];
  weekly_capped = false;
  display_name = "";
}

-- A talent that needs an ascension, which needs a level; and a weapon apart.
abbrev goals : List ObjectiveNode
goals =
    goal_node "talent" ("ascend" ∷ []) 60
    ∷ goal_node "ascend" ("level" ∷ "level" ∷ []) 40
    ∷ goal_node "level" [] 20
    ∷ goal_node "weapon" [] 80
    ∷ []

abbrev in_order : List String
in_order = "level" ∷ "ascend" ∷ "talent" ∷ "weapon" ∷ []

goals_order : topological_order goals ≡ ok in_order
unfolding topological_order index_nodes validate_dependencies order_of kahn start pop relax lower
    dependents deps_of
goals_order = refl

abbrev cyclic : List ObjectiveNode
cyclic = goal_node "a" ("b" ∷ []) 1 ∷ goal_node "b" ("a" ∷ []) 1 ∷ goal_node "c" [] 1 ∷ []

cyclic_order : topological_order cyclic ≡ err (cyclic_objective ("a" ∷ "b" ∷ "a" ∷ []))
unfolding topological_order index_nodes validate_dependencies order_of kahn start pop relax lower
    dependents deps_of find_cycle find_from descend
cyclic_order = refl

topological_order-IsTopological_example : IsTopological goals in_order
topological_order-IsTopological_example = topological_order-IsTopological goals goals_order

topological_order-IsRefusal_example : IsRefusal cyclic (cyclic_objective ("a" ∷ "b" ∷ "a" ∷ []))
topological_order-IsRefusal_example = topological_order-IsRefusal cyclic cyclic_order

abbrev rank : String → ℕ
rank i = if str_eq i "talent" then 2 else if str_eq i "ascend" then 1 else 0

only : (d e : String) → has d (e ∷ []) ≡ true → d ≡ e
only d e h = elim (text_cases d e) [ inl same ↦ same | inr other ↦ cc ]

rank_falls :
    (i d : String)
    → has i (ids goals) ≡ true
    → has d (deps_of goals i) ≡ true
    → (has d (ids goals) ≡ true) × (rank d < rank i)
unfolding deps_of
rank_falls i d h k = elim (text_cases i "talent") [
  | inl at ↦
      let needs : has d ("ascend" ∷ []) ≡ true = subst (λ j. has d (deps_of goals j) ≡ true) at k in
      subst (λ j. (has d (ids goals) ≡ true) × (rank d < rank j)) (sym at)
        (subst (λ j. (has j (ids goals) ≡ true) × (rank j < 2)) (sym (only d "ascend" needs))
          (refl, omega arith))
  | inr no_talent ↦ elim (text_cases i "ascend") [
    | inl at ↦
        let needs : has d ("level" ∷ "level" ∷ []) ≡ true =
          subst (λ j. has d (deps_of goals j) ≡ true) at k in
        subst (λ j. (has d (ids goals) ≡ true) × (rank d < rank j)) (sym at)
          (subst (λ j. (has j (ids goals) ≡ true) × (rank j < 1))
            (sym (only d "level" (ground arith))) (refl, omega arith))
    | inr no_ascend ↦ elim (text_cases i "level") [
      | inl at ↦ absurd (clash (has d []) (subst (λ j. has d (deps_of goals j) ≡ true) at k) refl)
      | inr no_level ↦ elim (text_cases i "weapon") [
        | inl at ↦ absurd (clash (has d []) (subst (λ j. has d (deps_of goals j) ≡ true) at k) refl)
        | inr no_weapon ↦ absurd (ground arith)
      ]
    ]
  ]
]

topological_order_acyclic_example :
    (order : List String) × (topological_order goals ≡ ok order) × IsTopological goals order
topological_order_acyclic_example =
    topological_order_acyclic goals rank (refl, (refl, (refl, (refl, tt)))) rank_falls

critical_path_lem_example :
    (path : ResolutionPath) × (critical_path goals "talent" ≡ ok path)
    × IsPathTo goals "talent" path
critical_path_lem_example = critical_path_lem goals "talent" goals_order refl

unmet_prerequisites_lem_example :
    (out : List String) × (unmet_prerequisites goals "talent" ("level" ∷ []) ≡ ok out)
    × IsBlocking goals "talent" ("level" ∷ []) out in_order
unmet_prerequisites_lem_example =
    unmet_prerequisites_lem goals "talent" ("level" ∷ []) goals_order refl

transitive_dependents_lem_example :
    (out : List String) × (transitive_dependents (view goals in_order) "level" ≡ ok out)
    × ((n : String) → has n (ids goals) ≡ true → (has n out ≡ true) ↔ DependsOn goals n "level")
transitive_dependents_lem_example = transitive_dependents_lem goals "level" goals_order refl

abbrev digit : ℕ → String
digit n =
    if n == 1
    then "1"
    else if n == 2
    then "2"
    else if n == 20
    then "20"
    else if n == 40
    then "40"
    else "9"

-- A character to level 21, its first talent to level 2 and a weapon to level 20.
abbrev build : Goal
build = record {
  str = digit;
  subject_id = 1;
  target_level = pos 21;
  talent_targets = (1, pos 2) ∷ [];
  weapon = some (2, pos 20);
  costs = λ i. none;
  level_caps = ascension_level_caps;
  talent_gate = none;
  prefix = "";
}

abbrev nodes_of : Result (List ObjectiveNode) → List ObjectiveNode
nodes_of (ok nodes) = nodes
nodes_of (err e) = []

expanded :
    ids (nodes_of (expand_character_goal build))
    ≡ "char:1:level:20" ∷ "char:1:ascension:1" ∷ "char:1:level:9" ∷ "char:1:talent:1:2"
      ∷ "weapon:2:level:20" ∷ []
unfolding expand_character_goal add_slots add_talents add_weapon build_chain add_phases add_level
    add_ascension add gate_for character_level_id character_ascension_id talent_id weapon_level_id
    weapon_ascension_id required_ascension_for_level first_phase min_ascension_for_talent
expanded = refl

build_returns : expand_character_goal build ≡ ok (nodes_of (expand_character_goal build))
unfolding expand_character_goal add_slots add_talents add_weapon build_chain add_phases add_level
    add_ascension add gate_for character_level_id character_ascension_id talent_id weapon_level_id
    weapon_ascension_id required_ascension_for_level first_phase min_ascension_for_talent
build_returns = refl

expand_character_goal-IsTopological_example :
    (order : List String) × (topological_order (nodes_of (expand_character_goal build)) ≡ ok order)
    × IsTopological (nodes_of (expand_character_goal build)) order
expand_character_goal-IsTopological_example =
    expand_character_goal-IsTopological build build_returns
