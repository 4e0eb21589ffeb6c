-- ===== src/Objectives/Gates.antt =====
-- What the gates of engines/objectives.py demand.
use resin_compute.Base.{
  ℕ, zero, suc, ◌+◌, ◌-◌, ◌*◌, ◌/◌, ◌≤◌, ◌<◌, ◌≡◌, ◌≢◌, refl, sym, ap, ◌∙◌, false, Option, none,
  some, List, [], ◌∷◌, arith, length, get_or, min, max, leb, ◌⊎◌, inl, inr, Bool-cases, ◌==◌,
}
use native.Mathlib.Nat.{
  add-zero, le-div_iff_mul-le, div-mul-le_self, mul-le-mul_right, div-eq_of_lt-le,
}
use resin_compute.Base.Int.{ℤ, pos, negsuc, ltb_ℤ, ◌≤ℤ◌, ◌<ℤ◌}
use resin_compute.Base.Results.{Outcome, err, ok}
use resin_compute.Objectives.{
  LevelError, below_first, above_caps, index_error, past_caps, first_phase,
  required_ascension_for_level, min_ascension_for_talent,
}

-- The first phase whose cap admits a level, counted from a phase; none if no cap does.
abbrev pub IsLowest : (phase level : ℕ) → List ℕ → Option ℕ → Type 0
IsLowest phase level caps result =
    ((n : ℕ) × (result ≡ some (phase + n))
      × (n < length caps)
      × (level ≤ get_or caps n 0)
      × ((m : ℕ) → m < n → get_or caps m 0 < level))
    ⊎ (result ≡ none) × ((m : ℕ) → m < length caps → get_or caps m 0 < level)

below_head :
    (level cap : ℕ) (caps : List ℕ) (n : ℕ)
    → cap < level
    → ((m : ℕ) → m < n → get_or caps m 0 < level)
    → (m : ℕ) → m < suc n
    → get_or (cap ∷ caps) m 0 < level
below_head level cap caps n e h zero lt = e
below_head level cap caps n e h (suc m) lt = h m (omega arith)

first_phase-IsLowest :
    (phase level : ℕ) (caps : List ℕ) → IsLowest phase level caps (first_phase phase level caps)
unfolding first_phase
first_phase-IsLowest phase level [] = inr (refl, λ m lt. absurd (omega arith))
first_phase-IsLowest phase level (cap ∷ caps) = elim (Bool-cases (leb level cap)) [
  | inl e ↦ rw e (
      inl (
        0,
        ap some (sym (add-zero phase)),
        omega arith,
        ground arith,
        λ m lt. absurd (omega arith),
      ))
  | inr e ↦
      let above : cap < level = ground arith in
      rw e (elim (first_phase-IsLowest (phase + 1) level caps) [
        | inl (n, found, lt, admits, before) ↦ inl (
          suc n,
          found ∙ ap some (omega arith),
          omega arith,
          admits,
          below_head level cap caps n above before,
        )
        | inr (missing, never) ↦ inr (missing, below_head level cap caps (length caps) above never)
      ])
]

-- What is answered for a level: the lowest phase whose cap admits it, or an error if none does.
abbrev pub IsRequired : (level : ℤ) (caps : List ℕ) → Outcome LevelError ℕ → Type 0
IsRequired level caps result =
    ((phase : ℕ) × (result ≡ ok phase)
      × (pos 1 ≤ℤ level)
      × (phase < length caps)
      × (level ≤ℤ pos (get_or caps phase 0))
      × ((m : ℕ) → m < phase → pos (get_or caps m 0) <ℤ level))
    ⊎ (((result ≡ err below_first) × (level <ℤ pos 1))
        ⊎ (((result ≡ err index_error) × (pos 1 ≤ℤ level) × (caps ≡ []))
            ⊎ ((result ≡ err above_caps)
                × (pos 1 ≤ℤ level)
                × (caps ≢ [])
                × ((m : ℕ) → m < length caps → pos (get_or caps m 0) <ℤ level))))

ended :
    (level : ℕ) (caps : List ℕ)
    → 1 ≤ level
    → ((m : ℕ) → m < length caps → get_or caps m 0 < level)
    → IsRequired (pos level) caps (err (past_caps caps))
ended level [] h never = inr (inr (inl (refl, omega arith, refl)))
ended level (cap ∷ caps) h never =
    inr (inr (inr (refl, omega arith, λ e. cc, λ m lt. omega (arith, never m lt))))

-- For every level and every list of caps, one of four: the answer is the lowest phase whose cap admits
-- the level; the level is below one, a ValueError; there are no caps, an IndexError; or there are some
-- and each is below the level, a ValueError.
pub required_ascension_for_level_lem :
    (level : ℤ) (caps : List ℕ) → IsRequired level caps (required_ascension_for_level level caps)
unfolding required_ascension_for_level
required_ascension_for_level_lem (negsuc l) caps = inr (inl (ground arith, omega arith))
required_ascension_for_level_lem (pos l) caps = elim (Bool-cases (ltb_ℤ (pos l) (pos 1))) [
  | inl low ↦ rw low (inr (inl (refl, ground arith)))
  | inr high ↦ elim (first_phase-IsLowest 0 l caps) [
    | inl (n, found, lt, admits, before) ↦
        let found' : first_phase 0 l caps ≡ some n = found ∙ ap some (omega arith) in
        rw (high, found')
          (inl (n, refl, ground arith, lt, omega (arith, admits), λ m k. omega (arith, before m k)))
    | inr (missing, never) ↦ rw (high, missing) (ended l caps (ground arith) never)
  ]
]

-- The gate of a level above the first, as the code computes it.
gate : (level min_ascension max_ascension max_talent_level : ℕ) → ℕ
gate level low high top = max low (min high (((level - 1) * high + (top - 1) - 1) / (top - 1)))

min_ascension_for_talent-gate :
    (level low high top : ℕ)
    → 1 < level
    → level ≤ top
    → min_ascension_for_talent (pos level) low high top ≡ some (gate level low high top)
unfolding min_ascension_for_talent gate
min_ascension_for_talent-gate level low high top p q =
    let guard : ltb_ℤ (pos level) (pos 1) ≡ false = ground arith in
    let guard' : ltb_ℤ (pos top) (pos level) ≡ false = ground arith in
    let guard'' : (level == 1) ≡ false = ground arith in rw (guard, guard', guard'') refl

gate-low : (level low high top : ℕ) → low ≤ gate level low high top
unfolding gate
gate-low level low high top = omega arith

gate-high : (level low high top : ℕ) → low ≤ high → gate level low high top ≤ high
unfolding gate
gate-high level low high top h = omega arith

quotient_mono : (a b s : ℕ) → 0 < s → a ≤ b → a / s ≤ b / s
quotient_mono a b s some_s h = (le-div_iff_mul-le some_s).1 (omega (arith, div-mul-le_self a s))

gate_mono :
    (level level' low high top : ℕ)
    → 1 < top
    → level ≤ level'
    → gate level low high top ≤ gate level' low high top
unfolding gate
gate_mono level level' low high top t h =
    let steps : (level - 1) * high ≤ (level' - 1) * high = mul-le-mul_right high (omega arith) in
    let q =
      quotient_mono ((level - 1) * high + (top - 1) - 1) ((level' - 1) * high + (top - 1) - 1)
        (top - 1) (omega arith) (omega (arith, steps)) in
    omega (arith, q)

gate-top : (low high top : ℕ) → 1 < top → low ≤ high → gate top low high top ≡ high
unfolding gate
gate-top low high top t h =
    let s : ℕ = top - 1 in
    let e : s * high ≡ high * s = omega arith in
    let q : (s * high + s - 1) / s ≡ high = div-eq_of_lt-le s (omega arith) (omega (arith, e)) in
    omega (arith, q)

first_talent : (low high top : ℕ) → 1 < top → min_ascension_for_talent (pos 1) low high top ≡ some 0
unfolding min_ascension_for_talent
first_talent low high top t =
    let guard : ltb_ℤ (pos top) (pos 1) ≡ false = ground arith in rw guard refl

-- For a cap of two or more talent levels and gates in order, every level up to the cap has a gate: the
-- first level needs no ascension, the cap needs the highest one, a level above the first needs the
-- lowest one at least and the highest at most, and a higher level never needs less.
pub min_ascension_for_talent_mono :
    (level level' low high top : ℕ)
    → 1 < top
    → low ≤ high
    → 1 < level
    → level ≤ level'
    → level' ≤ top
    → (g g' : ℕ) × (min_ascension_for_talent (pos level) low high top ≡ some g)
      × (min_ascension_for_talent (pos level') low high top ≡ some g')
      × (g ≤ g')
      × (low ≤ g)
      × (g' ≤ high)
      × (min_ascension_for_talent (pos 1) low high top ≡ some 0)
      × (min_ascension_for_talent (pos top) low high top ≡ some high)
min_ascension_for_talent_mono level level' low high top t order p h q = (
  gate level low high top,
  gate level' low high top,
  min_ascension_for_talent-gate level low high top p (omega arith),
  min_ascension_for_talent-gate level' low high top (omega arith) q,
  gate_mono level level' low high top t h,
  gate-low level low high top,
  gate-high level' low high top order,
  first_talent low high top t,
  min_ascension_for_talent-gate top low high top (omega arith) (omega arith)
      ∙ ap some (gate-top low high top t order),
)
