-- ===== src/Gacha/Solve/Rounds.antt =====
-- What holds of the variables of the loop of agents/pity_engine/markov.py between two pulls.
use resin_compute.Base.{
  ℕ, ◌+◌, ◌*◌, ◌^◌, ◌≤◌, ◌<◌, ◌≡◌, sym, ◌∙◌, Option, none, some, List, [], ◌∷◌, ◌++◌, arith, length,
  get_or, length-append,
}
use native.Mathlib.Decide.{ℕ_discrete}
use resin_compute.Gacha.Markov.{unit, Table, size, sum, marginal, absorbed, Chain}
use resin_compute.Gacha.Solve.Grid.{
  get_or-snoc, get_or-end, sum-marginal, length-marginal, get_or-marginal,
}

-- A curve of chances: entry i counts parts of `unit ^ i`, is no more than the whole, and never falls.
pub record IsCurve (curve : List ℕ) : Type 0 where
  pub chance : (i : ℕ) → i < length curve → get_or curve i 0 ≤ unit ^ i
  pub rising : (i : ℕ) → i + 1 < length curve → unit * get_or curve i 0 ≤ get_or curve (i + 1) 0

-- A distribution over the numbers of copies, read after some pulls: its chances sum to one, and the last
-- is the curve's entry of that pull.
pub record IsDistribution (copies : ℕ) (curve : List ℕ) (distribution : List ℕ) (pulls : ℕ)
    : Type 0 where
  pub read : pulls < length curve
  pub length_eq : length distribution ≡ copies + 1
  pub whole : sum distribution ≡ unit ^ pulls
  pub last : get_or distribution copies 0 ≡ get_or curve pulls 0

abbrev pub IsRead : ℕ → List ℕ → Option (List ℕ × ℕ) → Type 0
IsRead copies curve none = Unit
IsRead copies curve (some (distribution, pulls)) = IsDistribution copies curve distribution pulls

-- The invariant of the loop.
pub record IsChain (t : Table) (s : Chain) : Type 0 where
  pub fits : length s.grid ≡ size t
  pub mass : sum s.grid ≡ unit ^ s.pulls
  pub rounds : length s.curve ≡ s.pulls + 1
  pub newest : get_or s.curve s.pulls 0 ≡ absorbed t s.grid
  pub curve : IsCurve s.curve
  pub distribution : IsRead t.copies s.curve s.distribution

-- A distribution that is read off the grid at the newest entry of the curve.
pub marginal-IsDistribution :
    (t : Table) (f curve : List ℕ) (pulls : ℕ)
    → length f ≡ size t
    → sum f ≡ unit ^ pulls
    → length curve ≡ pulls + 1
    → get_or curve pulls 0 ≡ absorbed t f
    → IsDistribution t.copies curve (marginal t f) pulls
marginal-IsDistribution t f curve pulls fits mass rounds newest = record {
  read = omega (arith, rounds);
  length_eq = length-marginal t f fits;
  whole = sum-marginal t f fits ∙ mass;
  last = get_or-marginal t f fits ∙ sym newest;
}

pub IsCurve-snoc :
    (curve : List ℕ) (a pulls : ℕ)
    → IsCurve curve
    → length curve ≡ pulls + 1
    → a ≤ unit ^ (pulls + 1)
    → unit * get_or curve pulls 0 ≤ a
    → IsCurve (curve ++ a ∷ [])
IsCurve-snoc curve a pulls is rounds bound rise = record {
  chance = λ i lt. elim (ℕ_discrete i (length curve)) [
    | yes e ↦ rw e (last_chance (rw rounds bound))
    | no ne ↦ rw (get_or-snoc curve a i (inside i lt ne)) (is.chance i (inside i lt ne))
  ];
  rising = λ i lt. elim (ℕ_discrete (i + 1) (length curve)) [
    | yes e ↦
        let same : i ≡ pulls = omega (arith, e, rounds) in
        rw (get_or-snoc curve a i (omega (arith, e)), e, get_or-end curve a, same) rise
    | no ne ↦
        rw
          (
            get_or-snoc curve a i (omega (arith, inside (i + 1) lt ne)),
            get_or-snoc curve a (i + 1) (inside (i + 1) lt ne),
          )
          (is.rising i (inside (i + 1) lt ne))
  ];
}
  where
    last_chance :
        a ≤ unit ^ length curve → get_or (curve ++ a ∷ []) (length curve) 0 ≤ unit ^ length curve
    last_chance h = rw (get_or-end curve a) h

    inside : (i : ℕ) → i < length (curve ++ a ∷ []) → (i ≡ length curve → ⊥) → i < length curve
    inside i lt ne = omega (arith, lt, ne, length-append curve (a ∷ []))

pub IsRead-snoc :
    (copies : ℕ) (curve : List ℕ) (a : ℕ) (d : Option (List ℕ × ℕ))
    → IsRead copies curve d
    → IsRead copies (curve ++ a ∷ []) d
IsRead-snoc copies curve a none h = tt
IsRead-snoc copies curve a (some (distribution, pulls)) h = record {
  read = omega (arith, h.read, length-append curve (a ∷ []));
  length_eq = h.length_eq;
  whole = h.whole;
  last = h.last ∙ sym (get_or-snoc curve a pulls h.read);
}
