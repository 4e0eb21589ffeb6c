-- ===== src/Gacha/Banners/Tables.antt =====
-- The hazard tables that agents/pity_engine/banners.py builds.
use resin_compute.Base.{
  ℕ, zero, suc, ◌+◌, ◌-◌, ◌≤◌, ◌<◌, ◌≡◌, ◌∙◌, ap, refl, some, List, [], ◌∷◌, arith, leb, length,
  get_or, Option-cases, ◌⊎◌, inl, inr, Bool-cases,
}
use native.Mathlib.Nat.{add-zero}
use resin_compute.Gacha.Banners.{
  certain, raw_hazard, rows, build_five_star_table, first_certain, effective_hard_pity,
}

-- A ramp: every hazard but the last is the raw one and below one, and the last is one.
abbrev pub IsRamp : (base anchor increment n : ℕ) → List ℕ → Type 0
IsRamp base anchor increment n [] = ⊥
IsRamp base anchor increment n (h ∷ []) =
    (h ≡ certain) × (certain ≤ raw_hazard base anchor increment n)
IsRamp base anchor increment n (h ∷ h' ∷ hs) =
    (h ≡ raw_hazard base anchor increment n)
    × (h < certain)
    × IsRamp base anchor increment (n + 1) (h' ∷ hs)

rows_step :
    (base anchor increment left n : ℕ) (t : List ℕ)
    → rows base anchor increment (suc left) n ≡ some t
    → (certain ≤ raw_hazard base anchor increment n) × (t ≡ certain ∷ [])
      ⊎ (raw_hazard base anchor increment n < certain)
        × ((more : List ℕ) × (rows base anchor increment left (n + 1) ≡ some more)
            × (t ≡ raw_hazard base anchor increment n ∷ more))
unfolding rows
rows_step base anchor increment left n t h =
    elim (Option-cases (rows base anchor increment left (n + 1))) [
      | inl missing ↦ inl (ground arith, ground arith)
      | inr (more, found) ↦ elim (Bool-cases (leb certain (raw_hazard base anchor increment n))) [
        | inl clipped ↦ inl (ground arith, ground arith)
        | inr below ↦ inr (ground arith, (more, found, ground arith))
      ]
    ]

IsRamp-cons :
    (base anchor increment n : ℕ) (more : List ℕ)
    → raw_hazard base anchor increment n < certain
    → IsRamp base anchor increment (n + 1) more
    → IsRamp base anchor increment n (raw_hazard base anchor increment n ∷ more)
IsRamp-cons base anchor increment n [] h r = absurd r
IsRamp-cons base anchor increment n (x ∷ xs) h r = (refl, h, r)

rows-IsRamp :
    (base anchor increment left n : ℕ) (t : List ℕ)
    → rows base anchor increment left n ≡ some t
    → IsRamp base anchor increment n t
unfolding rows
rows-IsRamp base anchor increment zero n t h = cc
rows-IsRamp base anchor increment (suc left) n t h =
    elim (rows_step base anchor increment left n t h) [
      | inl (clipped, e) ↦ rw e (refl, clipped)
      | inr (below, (more, found, e)) ↦ rw e (
          IsRamp-cons base anchor increment n more below
            (rows-IsRamp base anchor increment left (n + 1) more found))
    ]

first_certain_ramp :
    (base anchor increment n : ℕ) (t : List ℕ)
    → IsRamp base anchor increment n t
    → first_certain n t ≡ some (n + length t - 1)
unfolding first_certain
first_certain_ramp base anchor increment n [] h = absurd h
first_certain_ramp base anchor increment n (h ∷ []) r = ground arith
first_certain_ramp base anchor increment n (h ∷ h' ∷ hs) r =
    ground (arith, first_certain_ramp base anchor increment (n + 1) (h' ∷ hs) r.2)

get_ramp :
    (base anchor increment n : ℕ) (t : List ℕ) (i : ℕ)
    → IsRamp base anchor increment n t
    → i + 1 < length t
    → (get_or t i 0 ≡ raw_hazard base anchor increment (n + i)) × (get_or t i 0 < certain)
get_ramp base anchor increment n [] i r h = absurd r
get_ramp base anchor increment n (x ∷ []) i r h = absurd (omega arith)
get_ramp base anchor increment n (x ∷ x' ∷ xs) zero r h = (rw (add-zero n) r.0, omega arith)
get_ramp base anchor increment n (x ∷ x' ∷ xs) (suc i) r h =
    let e : n + suc i ≡ n + 1 + i = omega arith in
    rw e (get_ramp base anchor increment (n + 1) (x' ∷ xs) i r.2 (omega arith))

get_ramp_last :
    (base anchor increment n : ℕ) (t : List ℕ) (i : ℕ)
    → IsRamp base anchor increment n t
    → i + 1 ≡ length t
    → (get_or t i 0 ≡ certain) × (certain ≤ raw_hazard base anchor increment (n + i))
get_ramp_last base anchor increment n [] i r h = absurd r
get_ramp_last base anchor increment n (x ∷ []) zero r h = (r.0, rw (add-zero n) r.1)
get_ramp_last base anchor increment n (x ∷ []) (suc i) r h = absurd (omega arith)
get_ramp_last base anchor increment n (x ∷ x' ∷ xs) zero r h = absurd (omega arith)
get_ramp_last base anchor increment n (x ∷ x' ∷ xs) (suc i) r h =
    let e : n + suc i ≡ n + 1 + i = omega arith in
    rw e (get_ramp_last base anchor increment (n + 1) (x' ∷ xs) i r.2 (omega arith))

build_inv :
    (base anchor increment max_pity : ℕ) {table : List ℕ}
    → build_five_star_table base anchor increment max_pity ≡ some table
    → (more : List ℕ) × (rows base anchor increment max_pity 1 ≡ some more) × (table ≡ 0 ∷ more)
unfolding build_five_star_table
build_inv base anchor increment max_pity {table} h =
    elim (Option-cases (rows base anchor increment max_pity 1)) [
      | inl missing ↦ absurd (ground arith)
      | inr (more, found) ↦ (more, found, ground arith)
    ]

-- What is said of a table and its hard pity.
abbrev pub HardPityAt : (base anchor increment : ℕ) → List ℕ → ℕ → Type 0
HardPityAt base anchor increment table hard =
    (effective_hard_pity table ≡ some hard)
    × (length table ≡ hard + 1)
    × (1 ≤ hard)
    × (get_or table hard 0 ≡ certain)
    × (certain ≤ raw_hazard base anchor increment hard)
    × ((n : ℕ)
        → 1 ≤ n
        → n < hard
        → (get_or table n 0 ≡ raw_hazard base anchor increment n) × (get_or table n 0 < certain))

ramp_hard_pity :
    (base anchor increment : ℕ) (more : List ℕ)
    → IsRamp base anchor increment 1 more
    → HardPityAt base anchor increment (0 ∷ more) (length more)
unfolding effective_hard_pity
ramp_hard_pity base anchor increment [] r = absurd r
ramp_hard_pity base anchor increment (x ∷ xs) r =
    let last = get_ramp_last base anchor increment 1 (x ∷ xs) (length xs) r (omega arith) in
    let e : 1 + length xs ≡ suc (length xs) = omega arith in
    (
      first_certain_ramp base anchor increment 1 (x ∷ xs) r ∙ ap some (omega arith),
      omega arith,
      omega arith,
      last.0,
      rw e at last.1,
      λ n p q. inner n p q,
    )
  where
    inner :
        (n : ℕ)
        → 1 ≤ n
        → n < suc (length xs)
        → (get_or (0 ∷ x ∷ xs) n 0 ≡ raw_hazard base anchor increment n)
          × (get_or (0 ∷ x ∷ xs) n 0 < certain)
    inner zero p q = absurd (omega arith)
    inner (suc n) p q =
        let e : 1 + n ≡ suc n = omega arith in
        rw e at (get_ramp base anchor increment 1 (x ∷ xs) n r (omega arith))

-- A table that is built has its hard pity at its last row, and that is the first pity count whose raw
-- hazard reaches one: the row there holds one, and every row between holds its raw hazard, below one.
pub hard_pity_emerges :
    (base anchor increment max_pity : ℕ) {table : List ℕ}
    → build_five_star_table base anchor increment max_pity ≡ some table
    → (hard : ℕ) × HardPityAt base anchor increment table hard
hard_pity_emerges base anchor increment max_pity h =
    let (more, found, e) = build_inv base anchor increment max_pity h in
    (
      length more,
      rw e (
          ramp_hard_pity base anchor increment more
            (rows-IsRamp base anchor increment max_pity 1 more found)),
    )
