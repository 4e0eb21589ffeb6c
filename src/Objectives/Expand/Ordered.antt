-- ===== src/Objectives/Expand/Ordered.antt =====
-- `expand_character_goal` of engines/objectives.py: the nodes that it returns have an order.
use Prim.Native.String.{String}
use text.Mathlib.Text.{◌==◌ as str_eq}
use mathlib.Core.Path.{subst}
use resin_compute.Base.{
  ℕ, zero, suc, ◌+◌, ◌-◌, ◌≡◌, inl, inr, refl, sym, ◌∙◌, true, false, List, [], ◌∷◌, ◌++◌, ◌==◌,
  Bool-cases, leb, min, some, Option-cases, length,
}
use resin_compute.Base.Int.{ℤ, pos, pos_part, ltb_ℤ}
use resin_compute.Base.Results.{refuse_if, then_inv, bind_inv, ok, Outcome-cases, ok-injective}
use resin_compute.Base.Texts.{has, clash, text_cases, has-append, dedupe}
use resin_compute.Types.{ObjectiveNode, talent_level}
use resin_compute.Objectives.{min_talent_level, required_ascension_for_level}
use resin_compute.Objectives.Graph.{ids, find, deps_of, topological_order}
use resin_compute.Objectives.Graph as Graph
use resin_compute.Objectives.Graph.Topological.{IsTopological}
use resin_compute.Objectives.Build.{lookup, if_any, add, node_of, build_chain}
use resin_compute.Objectives.Build.Wired.{IsWired, Grown, has-dedupe, add-Grown}
use resin_compute.Objectives.Build.Rank.{IsWired-IsTopological}
use resin_compute.Objectives.Build.Chain.{previous_known, build_chain-IsOpen}
use resin_compute.Objectives.Expand.{
  Goal, gate_for, gate_dep, joined, talent_id, weapon_chain, add_talents, add_slots, add_weapon,
  expand_character_goal, or_level, character_chain, sort_slots, low_target, no_level_caps,
  check_targets, deepest,
}

-- An ascension that a level hangs off is emitted.
gate_dep_known :
    (emitted : List ObjectiveNode) (level gate : ℕ) (ascensions : List (ℕ × String))
    {deps : List String}
    → ((p : ℕ) (i : String) → lookup p ascensions ≡ some i → has i (ids emitted) ≡ true)
    → gate_dep level gate ascensions ≡ ok deps
    → (d : String) → has d deps ≡ true
    → has d (ids emitted) ≡ true
gate_dep_known emitted level gate ascensions {deps} known h d k = elim (Bool-cases (leb 1 gate)) [
  | inr low ↦
      let same : [] ≡ deps = ok-injective (rw low at h) in
      absurd (clash (has d []) (subst (λ ds. has d ds ≡ true) (sym same) k) refl)
  | inl high ↦ elim (Option-cases (lookup gate ascensions)) [
    | inl missing ↦ cc (rw (high, missing) at h)
    | inr (i, found) ↦
        let same : i ∷ [] ≡ deps = ok-injective (rw (high, found) at h) in
        let k' : has d (i ∷ []) ≡ true = subst (λ ds. has d ds ≡ true) (sym same) k in
        elim (text_cases d i) [
          | inl at ↦ subst (λ y. has y (ids emitted) ≡ true) (sym at) (known gate i found)
          | inr other ↦ cc
        ]
  ]
]

add_talents-Grown :
    (goal : Goal) (ascensions : List (ℕ × String)) (slot : ℕ) (emitted : List ObjectiveNode)
    (previous : String) (left level : ℕ) {grown : List ObjectiveNode}
    → IsWired [] emitted
    → ((p : ℕ) (i : String) → lookup p ascensions ≡ some i → has i (ids emitted) ≡ true)
    → (str_eq previous "" ≡ false → has previous (ids emitted) ≡ true)
    → add_talents goal ascensions slot emitted previous left level ≡ ok grown
    → Grown emitted grown
unfolding add_talents
add_talents-Grown goal ascensions slot emitted previous zero level w known started h =
    subst (Grown emitted) (ok-injective h) (record { wired = w; kept = λ i k. k })
add_talents-Grown goal ascensions slot emitted previous (suc left) level w known started h =
    elim (Outcome-cases (gate_for goal (pos level))) [
      | inr (e, failed) ↦ cc (rw failed at h)
      | inl (wanted, passed) ↦
          elim (Outcome-cases
            (gate_dep level (min wanted (length goal.level_caps - 1)) ascensions)) [
              | inr (e, failed) ↦ cc (rw (passed, failed) at h)
              | inl (deps, found) ↦
                  let node_id = talent_id goal.str goal.subject_id slot level goal.prefix in
                  let node =
                    node_of goal.costs node_id talent_level goal.subject_id level
                      (deps ++ if_any previous)
                      (joined (
                        "character "
                        ∷ goal.str goal.subject_id
                        ∷ " talent "
                        ∷ goal.str slot
                        ∷ " to level "
                        ∷ goal.str level
                        ∷ [])) in
                  let (step, there) =
                    add-Grown emitted node w
                      (served (min wanted (length goal.level_caps - 1)) deps found) in
                  let rest =
                    add_talents-Grown goal ascensions slot (add emitted node) node_id left
                      (level + 1) step.wired (λ p i k. step.kept i (known p i k)) (λ k. there)
                      (rw (passed, found) at h) in
                  record { wired = rest.wired; kept = λ i k. rest.kept i (step.kept i k) }
            ]
    ]
  where
    served :
        (gate : ℕ) (deps : List String)
        → gate_dep level gate ascensions ≡ ok deps
        → (d : String) → has d (dedupe [] (deps ++ if_any previous)) ≡ true
        → has d (ids emitted) ≡ true
    served gate deps found d k =
        let split =
          sym (has-append d deps (if_any previous)) ∙ has-dedupe d [] (deps ++ if_any previous) k in
        elim (Bool-cases (has d deps)) [
          | inl asc ↦ gate_dep_known emitted level gate ascensions known found d asc
          | inr out ↦ previous_known emitted previous started d (rw out at split)
        ]

add_slots-Grown :
    (goal : Goal) (ascensions : List (ℕ × String)) (emitted : List ObjectiveNode)
    (slots : List (ℕ × ℤ)) {grown : List ObjectiveNode}
    → IsWired [] emitted
    → ((p : ℕ) (i : String) → lookup p ascensions ≡ some i → has i (ids emitted) ≡ true)
    → add_slots goal ascensions emitted slots ≡ ok grown
    → IsWired [] grown
unfolding add_slots
add_slots-Grown goal ascensions emitted [] w known h = subst (IsWired []) (ok-injective h) w
add_slots-Grown goal ascensions emitted ((slot, target) ∷ rest) w known h =
    elim (Outcome-cases (
      add_talents goal ascensions slot emitted "" (pos_part target - min_talent_level)
        (min_talent_level + 1))) [
          | inr (e, failed) ↦ cc (rw failed at h)
          | inl (mid, passed) ↦
              let step =
                add_talents-Grown goal ascensions slot emitted ""
                  (pos_part target - min_talent_level) (min_talent_level + 1) w known (λ k. cc)
                  passed in
              add_slots-Grown goal ascensions mid rest step.wired
                (λ p i k. step.kept i (known p i k)) (rw passed at h)
        ]

add_weapon-IsWired :
    (goal : Goal) (emitted : List ObjectiveNode) {out : List ObjectiveNode}
    → IsWired [] emitted
    → add_weapon goal emitted ≡ ok out
    → IsWired [] out
unfolding add_weapon
add_weapon-IsWired goal emitted w h = elim (Option-cases goal.weapon) [
  | inl missing ↦ subst (IsWired []) (ok-injective (rw missing at h)) w
  | inr ((subject_id, target), given) ↦ elim (Bool-cases (ltb_ℤ target (pos 1))) [
    | inl low ↦ subst (IsWired []) (ok-injective (rw (given, low) at h)) w
    | inr high ↦
        elim (Outcome-cases (or_level (required_ascension_for_level target goal.level_caps))) [
          | inr (e, failed) ↦ cc (rw (given, high, failed) at h)
          | inl (phases, passed) ↦
              subst (IsWired []) (ok-injective (rw (given, high, passed) at h))
                (build_chain-IsOpen (weapon_chain goal subject_id) emitted (pos_part target) phases
                  w).wired
        ]
  ]
]

-- Whatever is returned is wired.
expand_character_goal-IsWired :
    (goal : Goal) {nodes : List ObjectiveNode}
    → expand_character_goal goal ≡ ok nodes
    → IsWired [] nodes
unfolding expand_character_goal
expand_character_goal-IsWired goal h =
    let (_, h1) = then_inv (refuse_if (ltb_ℤ goal.target_level (pos 1)) low_target) _ h in
    let (_, h2) = then_inv (refuse_if (length goal.level_caps == 0) no_level_caps) _ h1 in
    let (_, h3) = then_inv (check_targets goal.talent_targets) _ h2 in
    let (required, _, h4) =
      bind_inv (or_level (required_ascension_for_level goal.target_level goal.level_caps)) _ h3 in
    let (deep, _, h5) = bind_inv (deepest goal required goal.talent_targets) _ h4 in
    let phases = min deep (length goal.level_caps - 1) in
    let is = build_chain-IsOpen (character_chain goal) [] (pos_part goal.target_level) phases tt in
    let (grown, talents, weapon) =
      bind_inv
        (add_slots goal
          (build_chain (character_chain goal) [] (pos_part goal.target_level) phases).ascensions
          (build_chain (character_chain goal) [] (pos_part goal.target_level) phases).emitted
          (sort_slots goal.talent_targets))
        _ h5 in
    add_weapon-IsWired goal grown
      (add_slots-Grown goal _ _ (sort_slots goal.talent_targets) is.wired is.ascended talents)
      weapon

-- Whatever nodes are returned, `topological_order` answers for them with an order, which holds each once
-- and its dependencies before it.
pub expand_character_goal-IsTopological :
    (goal : Goal) {nodes : List ObjectiveNode}
    → expand_character_goal goal ≡ ok nodes
    → (order : List String) × (topological_order nodes ≡ Graph.ok order) × IsTopological nodes order
expand_character_goal-IsTopological goal {nodes} h =
    IsWired-IsTopological nodes (expand_character_goal-IsWired goal h)
