-- ===== src/Objectives/Build/Chain.antt =====
-- The chain of levels and ascensions of engines/objectives.py: every phase depends on what is emitted.
use Prim.Native.String.{String}
use text.Mathlib.Text.{◌==◌ as str_eq}
use mathlib.Core.Path.{subst}
use resin_compute.Base.{
  ℕ, zero, suc, ◌+◌, ◌≡◌, inl, inr, sym, ◌∙◌, true, false, ◌&&◌, List, [], ◌∷◌, ◌++◌, ◌==◌,
  if◌then◌else◌, Bool-cases, leb, max, get_or, some, Option-cases,
}
use resin_compute.Base.Texts.{has, text_cases, has-append, dedupe}
use resin_compute.Types.{ObjectiveNode}
use resin_compute.Objectives.Graph.{ids}
use resin_compute.Objectives.Build.{
  ChainOf, ChainState, node_of, level_node, lookup, ascension_dep, if_any, add_level, add_ascension,
  add_phases, build_chain, last_cap,
}
use resin_compute.Objectives.Build.Wired.{IsWired, Grown, has-dedupe, add-Grown}

-- What the loop over the phases keeps: the ids that it depends on later are emitted.
pub record IsOpen (s : ChainState) : Type 0 where
  pub wired : IsWired [] s.emitted
  pub ascended :
      (phase : ℕ) (i : String) → lookup phase s.ascensions ≡ some i → has i (ids s.emitted) ≡ true
  pub started : str_eq s.previous "" ≡ false → has s.previous (ids s.emitted) ≡ true

-- The states of a chain grow.
pub record Continues (s s' : ChainState) : Type 0 where
  pub is_open : IsOpen s'
  pub kept : (i : String) → has i (ids s.emitted) ≡ true → has i (ids s'.emitted) ≡ true

only : (d i : String) → has d (i ∷ []) ≡ true → d ≡ i
only d i h = elim (text_cases d i) [ inl same ↦ same | inr other ↦ cc ]

ascension_known :
    (s : ChainState) (phase : ℕ)
    → IsOpen s
    → (d : String) → has d (ascension_dep phase s.ascensions) ≡ true
    → has d (ids s.emitted) ≡ true
ascension_known s phase is d h = elim (Bool-cases (leb 1 phase)) [
  | inr first ↦ cc (rw first at h)
  | inl later ↦ elim (Option-cases (lookup phase s.ascensions)) [
    | inl missing ↦ cc (rw (later, missing) at h)
    | inr (i, found) ↦
        subst (λ y. has y (ids s.emitted) ≡ true) (sym (only d i (rw (later, found) at h)))
          (is.ascended phase i found)
  ]
]

pub previous_known :
    (emitted : List ObjectiveNode) (previous : String)
    → (str_eq previous "" ≡ false → has previous (ids emitted) ≡ true)
    → (d : String) → has d (if_any previous) ≡ true
    → has d (ids emitted) ≡ true
previous_known emitted previous started d h = elim (Bool-cases (str_eq previous "")) [
  | inl empty ↦ cc (rw empty at h)
  | inr any ↦
      subst (λ y. has y (ids emitted) ≡ true) (sym (only d previous (rw any at h))) (started any)
]

add_level-Continues :
    (c : ChainOf) (s : ChainState) (phase level : ℕ)
    → IsOpen s
    → Continues s (add_level c s phase level)
      × (has (add_level c s phase level).previous (ids (add_level c s phase level).emitted) ≡ true)
unfolding add_level
add_level-Continues c s phase level is =
    let (grown, there) =
      add-Grown s.emitted (level_node c s phase level) is.wired (λ d h. deps d h) in
    (
      record {
        is_open = record {
          wired = grown.wired;
          ascended = λ p i h. grown.kept i (is.ascended p i h);
          started = λ h. there;
        };
        kept = grown.kept;
      },
      there,
    )
  where
    deps :
        (d : String)
        → has d (level_node c s phase level).depends_on ≡ true
        → has d (ids s.emitted) ≡ true
    deps d h =
        let h' = has-dedupe d [] (ascension_dep phase s.ascensions ++ if_any s.previous) h in
        let split =
          sym (has-append d (ascension_dep phase s.ascensions) (if_any s.previous)) ∙ h' in
        elim (Bool-cases (has d (ascension_dep phase s.ascensions))) [
          | inl asc ↦ ascension_known s phase is d asc
          | inr out ↦ previous_known s.emitted s.previous is.started d (rw out at split)
        ]

add_ascension-Continues :
    (c : ChainOf) (s : ChainState) (phase : ℕ)
    → IsOpen s
    → has s.previous (ids s.emitted) ≡ true
    → Continues s (add_ascension c s phase)
unfolding add_ascension
add_ascension-Continues c s phase is last =
    let node =
      node_of c.costs (c.ascension_id (phase + 1)) c.ascension_kind c.subject_id (phase + 1)
        (ascension_dep phase s.ascensions ++ s.previous ∷ []) (c.ascension_name (phase + 1)) in
    let (grown, there) = add-Grown s.emitted node is.wired (λ d h. deps d h) in
    record {
      is_open = record {
        wired = grown.wired;
        ascended = λ p i h. ascended grown there p i h;
        started = λ h. grown.kept s.previous last;
      };
      kept = grown.kept;
    }
  where
    ascended :
        {new : List ObjectiveNode}
        → Grown s.emitted new
        → has (c.ascension_id (phase + 1)) (ids new) ≡ true
        → (p : ℕ) (i : String)
        → lookup p ((phase + 1, c.ascension_id (phase + 1)) ∷ s.ascensions) ≡ some i
        → has i (ids new) ≡ true
    ascended {new} grown there p i h = elim (Bool-cases (phase + 1 == p)) [
      | inl at ↦
          let same : c.ascension_id (phase + 1) ≡ i = cc (rw at at h) in
          subst (λ j. has j (ids new) ≡ true) same there
      | inr other ↦ grown.kept i (is.ascended p i (rw other at h))
    ]

    deps :
        (d : String)
        → has d (dedupe [] (ascension_dep phase s.ascensions ++ s.previous ∷ [])) ≡ true
        → has d (ids s.emitted) ≡ true
    deps d h =
        let h' = has-dedupe d [] (ascension_dep phase s.ascensions ++ s.previous ∷ []) h in
        let split = sym (has-append d (ascension_dep phase s.ascensions) (s.previous ∷ [])) ∙ h' in
        elim (Bool-cases (has d (ascension_dep phase s.ascensions))) [
          | inl asc ↦ ascension_known s phase is d asc
          | inr out ↦
              subst (λ y. has y (ids s.emitted) ≡ true) (sym (only d s.previous (rw out at split)))
                last
        ]

add_phases-Continues :
    (c : ChainOf) (s : ChainState) (left phase : ℕ)
    → IsOpen s
    → Continues s (add_phases c s left phase)
unfolding add_phases
add_phases-Continues c s zero phase is = record { is_open = is; kept = λ i h. h }
add_phases-Continues c s (suc left) phase is =
    let (leveled, last) = add_level-Continues c s phase (get_or c.level_caps phase 0) is in
    let ascended =
      add_ascension-Continues c (add_level c s phase (get_or c.level_caps phase 0)) phase
        leveled.is_open last in
    let rest =
      add_phases-Continues c
        (add_ascension c (add_level c s phase (get_or c.level_caps phase 0)) phase) left (phase + 1)
        ascended.is_open in
    record {
      is_open = rest.is_open;
      kept = λ i h. rest.kept i (ascended.kept i (leveled.kept i h));
    }

-- A chain keeps what was emitted before it, and is wired with it.
pub build_chain-IsOpen :
    (c : ChainOf) (emitted : List ObjectiveNode) (target_level phases : ℕ)
    → IsWired [] emitted
    → IsOpen (build_chain c emitted target_level phases)
unfolding build_chain
build_chain-IsOpen c emitted target_level phases w =
    let begin : ChainState = record { emitted = emitted; ascensions = []; previous = "" } in
    let is =
      (add_phases-Continues c begin phases 0
        (record { wired = w; ascended = λ p i h. cc; started = λ h. cc })).is_open in
    let final = if leb 1 phases then max target_level (last_cap c phases) else target_level in
    elim (Bool-cases (leb 1 phases && final == last_cap c phases)) [
      | inl done ↦ rw done is
      | inr more ↦
          rw more ((add_level-Continues c (add_phases c begin phases 0) phases final is).0.is_open)
    ]
