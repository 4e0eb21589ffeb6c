-- ===== src/Headless/Quarantine/Refined.antt =====
-- What the record of headless/quarantine.py promises: a job is quarantined exactly if it was abandoned
-- twice in a row since it last passed.
use Prim.Native.String.{String}
use text.Mathlib.Text.{◌==◌ as str_eq}
use text.Mathlib.TextEquality.{eq_iff}
use text.Mathlib.TextPositions.{eq_refl}
use mathlib.Core.Path.{subst}
use resin_compute.Base.{
  ◌≡◌, ◌⊎◌, inl, inr, refl, sym, ◌∙◌, Bool, true, false, not, ◌&&◌, ◌||◌, Option, none, some, List,
  [], ◌∷◌, leb, arith, if◌then◌else◌, Bool-cases, Option-cases,
}
use resin_compute.Headless.Quarantine.{Status, is_pass, Entry, Abandonments, counted, apply_result}

-- One outcome of a job.
pub record Event : Type 0 where
  pub job : String
  pub status : Status
  pub abandoned : Bool
  pub now : String

-- The record after some outcomes, of which the newest stands first.
abbrev pub record_after : List Event → Abandonments
record_after [] = λ n. none
record_after (e ∷ es) = (apply_result e.now (record_after es) e.job e.status e.abandoned).0

-- The outcomes of a job since it last passed, as whether it was abandoned in each.
abbrev pub recent : String → List Event → List Bool
recent n [] = []
recent n (e ∷ es) =
    let earlier = recent n es in
    if str_eq e.job n
    then (if e.abandoned then true ∷ earlier else if is_pass e.status then [] else false ∷ earlier)
    else earlier

abbrev pub newest : List Bool → Bool
newest [] = false
newest (b ∷ bs) = b

abbrev pub twice_in_a_row : List Bool → Bool
twice_in_a_row [] = false
twice_in_a_row (b ∷ bs) = (b && newest bs) || twice_in_a_row bs

abbrev pub is_quarantined : Option Entry → Bool
is_quarantined none = false
is_quarantined (some entry) = entry.quarantined

-- What an entry holds of the outcomes of its job.
abbrev Tells : List Bool → Option Entry → Type 0
Tells outcomes none = (twice_in_a_row outcomes ≡ false) × (newest outcomes ≡ false)
Tells outcomes (some entry) =
    (twice_in_a_row outcomes ≡ entry.quarantined)
    × ((entry.quarantined ≡ true) ⊎ ((entry.consecutive ≡ 1) × (newest outcomes ≡ true)))
    × (leb 1 entry.consecutive ≡ true)

counted-Tells :
    (now : String) (outcomes : List Bool) (entry : Option Entry)
    → Tells outcomes entry
    → Tells (true ∷ outcomes) (some (counted now entry))
counted-Tells now outcomes none (calm, fresh) = (ground arith, inr (refl, refl), refl)
counted-Tells now outcomes (some entry) (told, last, once) = elim (Bool-cases entry.quarantined) [
  | inl held ↦ (ground arith, inl (ground arith), ground arith)
  | inr free ↦ elim last [
    | inl held ↦ absurd (ground arith)
    | inr (one, new) ↦ (ground arith, inl (ground arith), ground arith)
  ]
]

-- The outcome of a job that was not abandoned.
settled-Tells :
    (outcomes : List Bool) (status : Status) (entry : Option Entry)
    → Tells outcomes entry
    → Tells (if is_pass status then [] else false ∷ outcomes) (elim entry as (λ e. Option Entry) [
      | none ↦ none
      | some e ↦ if is_pass status || not e.quarantined then none else some e
    ])
settled-Tells outcomes status none (calm, fresh) = elim (Bool-cases (is_pass status)) [
  | inl passed ↦ rw passed (refl, refl)
  | inr failed ↦ rw failed (calm, refl)
]
settled-Tells outcomes status (some entry) (told, last, once) = elim (Bool-cases (is_pass status)) [
  | inl passed ↦ rw passed (refl, refl)
  | inr failed ↦ elim (Bool-cases entry.quarantined) [
    | inl held ↦ rw (failed, held) (told ∙ held, inl refl, once)
    | inr free ↦ rw (failed, free) (told ∙ free, refl)
  ]
]

elsewhere :
    (e : Event) (before : Abandonments) (n : String)
    → str_eq e.job n ≡ false
    → (apply_result e.now before e.job e.status e.abandoned).0 n ≡ before n
unfolding apply_result
elsewhere e before n other = elim (Bool-cases e.abandoned) [
  | inl hung ↦ rw (hung, other) refl
  | inr back ↦ elim (Option-cases (before e.job)) [
    | inl missing ↦ rw (back, missing) refl
    | inr (entry, there) ↦ elim (Bool-cases (is_pass e.status || not entry.quarantined)) [
      | inl gone ↦ rw (back, there, gone, other) refl
      | inr stays ↦ rw (back, there, stays) refl
    ]
  ]
]

-- At its own job an outcome counts or settles the entry.
at_job :
    (e : Event) (before : Abandonments) (outcomes : List Bool)
    → Tells outcomes (before e.job)
    → Tells
        (if e.abandoned then true ∷ outcomes else if is_pass e.status then [] else false ∷ outcomes)
        ((apply_result e.now before e.job e.status e.abandoned).0 e.job)
unfolding apply_result
at_job e before outcomes told = elim (Bool-cases e.abandoned) [
  | inl hung ↦ rw (hung, eq_refl e.job) (counted-Tells e.now outcomes (before e.job) told)
  | inr back ↦
      let settled = settled-Tells outcomes e.status (before e.job) told in
      elim (Option-cases (before e.job)) [
        | inl missing ↦
            rw (back, missing)
              (subst (Tells (if is_pass e.status then [] else false ∷ outcomes)) (sym missing)
                (rw missing at settled))
        | inr (entry, there) ↦ elim (Bool-cases (is_pass e.status || not entry.quarantined)) [
          | inl gone ↦ rw (back, there, gone, eq_refl e.job) (rw (there, gone) at settled)
          | inr stays ↦
              rw (back, there, stays)
                (subst (Tells (if is_pass e.status then [] else false ∷ outcomes)) (sym there)
                  (rw (there, stays) at settled))
        ]
      ]
]

record_after-Tells : (es : List Event) (n : String) → Tells (recent n es) (record_after es n)
record_after-Tells [] n = (refl, refl)
record_after-Tells (e ∷ es) n = elim (Bool-cases (str_eq e.job n)) [
  | inr other ↦ rw (other, elsewhere e (record_after es) n other) (record_after-Tells es n)
  | inl here ↦
      subst (λ m. Tells (recent m (e ∷ es)) (record_after (e ∷ es) m)) ((eq_iff e.job n).0 here)
        (rw (eq_refl e.job)
          (at_job e (record_after es) (recent e.job es) (record_after-Tells es e.job)))
]

Tells-quarantined :
    (outcomes : List Bool) (entry : Option Entry)
    → Tells outcomes entry
    → is_quarantined entry ≡ twice_in_a_row outcomes
Tells-quarantined outcomes none (calm, _) = sym calm
Tells-quarantined outcomes (some entry) (told, _, _) = sym told

-- After any outcomes of any jobs, from an empty record: a job is quarantined exactly if it was abandoned
-- twice in a row, among its own outcomes, since it last passed.
pub apply_result-quarantined :
    (es : List Event) (n : String)
    → is_quarantined (record_after es n) ≡ twice_in_a_row (recent n es)
apply_result-quarantined es n =
    Tells-quarantined (recent n es) (record_after es n) (record_after-Tells es n)
