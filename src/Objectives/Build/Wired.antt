-- ===== src/Objectives/Build/Wired.antt =====
-- What the builder of engines/objectives.py keeps: every node has an id of its own and stands after the
-- nodes that it depends on.
use Prim.Native.String.{String}
use text.Mathlib.Text.{◌==◌ as str_eq}
use text.Mathlib.TextPositions.{eq_refl}
use mathlib.Core.Path.{subst}
use mathlib.Core.List.{append-nil, append_assoc}
use resin_compute.Base.{
  ◌≡◌, inl, inr, sym, ap, ◌∙◌, true, false, ◌||◌, List, [], ◌∷◌, ◌++◌, arith, Bool-cases,
}
use resin_compute.Base.Texts.{has, text_cases, has-append, dedupe}
use resin_compute.Types.{ObjectiveNode}
use resin_compute.Objectives.Graph.{ids}
use resin_compute.Objectives.Graph.Index.{ids-append}
use resin_compute.Objectives.Build.{add}

-- Nodes read from the left: an id is new, and the dependencies stand before.
abbrev pub IsWired : (before : List String) → List ObjectiveNode → Type 0
IsWired before [] = Unit
IsWired before (n ∷ ns) =
    (has n.node_id before ≡ false)
    × ((d : String) → has d n.depends_on ≡ true → has d before ≡ true)
    × IsWired (before ++ n.node_id ∷ []) ns

IsWired-snoc :
    (before : List String) (ns : List ObjectiveNode) (n : ObjectiveNode)
    → IsWired before ns
    → has n.node_id (before ++ ids ns) ≡ false
    → ((d : String) → has d n.depends_on ≡ true → has d (before ++ ids ns) ≡ true)
    → IsWired before (ns ++ n ∷ [])
IsWired-snoc before [] n w new deps =
    (rw (append-nil before) at new, rw (append-nil before) at deps, tt)
IsWired-snoc before (m ∷ ns) n (fresh, served, w) new deps =
    let shift = append_assoc before (m.node_id ∷ []) (ids ns) in
    (
      fresh,
      served,
      IsWired-snoc (before ++ m.node_id ∷ []) ns n w (rw shift new) (λ d h. rw shift (deps d h)),
    )

-- What a list of emitted nodes has gained.
pub record Grown (old new : List ObjectiveNode) : Type 0 where
  pub wired : IsWired [] new
  pub kept : (i : String) → has i (ids old) ≡ true → has i (ids new) ≡ true

pub has-dedupe :
    (d : String) (seen xs : List String) → has d (dedupe seen xs) ≡ true → has d xs ≡ true
has-dedupe d seen [] h = h
has-dedupe d seen (x ∷ xs) h = elim (Bool-cases (has x seen)) [
  | inl old ↦ ground (arith, has-dedupe d seen xs (rw old at h))
  | inr fresh ↦ elim (text_cases d x) [
    | inl same ↦ subst (λ y. has y (x ∷ xs) ≡ true) (sym same) (ground (arith, eq_refl x))
    | inr other ↦
        let h' : has d (x ∷ dedupe (x ∷ seen) xs) ≡ true = rw fresh at h in
        ground (arith, has-dedupe d (x ∷ seen) xs)
  ]
]

pub add-Grown :
    (emitted : List ObjectiveNode) (n : ObjectiveNode)
    → IsWired [] emitted
    → ((d : String) → has d n.depends_on ≡ true → has d (ids emitted) ≡ true)
    → Grown emitted (add emitted n) × (has n.node_id (ids (add emitted n)) ≡ true)
unfolding add
add-Grown emitted n w deps = elim (Bool-cases (has n.node_id (ids emitted))) [
  | inl old ↦ rw old (record { wired = w; kept = λ i h. h }, old)
  | inr new ↦
      let split : (i : String)
          → has i (ids (emitted ++ n ∷ [])) ≡ (has i (ids emitted) || str_eq i n.node_id) =
        λ i.
          ap (has i) (ids-append emitted (n ∷ []))
          ∙ (has-append i (ids emitted) (n.node_id ∷ []) ∙ ground arith) in
      rw new (
        record {
          wired = IsWired-snoc [] emitted n w new deps;
          kept = λ i h. split i ∙ ground arith;
        },
        split n.node_id ∙ ground (arith, eq_refl n.node_id),
      )
]
