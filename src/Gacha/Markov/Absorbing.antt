-- ===== src/Gacha/Markov/Absorbing.antt =====
-- The chain of agents/pity_engine/markov.py absorbs its whole mass: no state that is left by its deadline
-- ever holds mass.
use native.Mathlib.Decide.{ℕ_discrete, dec_lt, dec_le}
use resin_compute.Base.{
  ℕ, zero, suc, ◌+◌, ◌-◌, ◌*◌, ◌≤◌, ◌<◌, ◌≡◌, ◌⊎◌, inl, inr, refl, sym, ap, ◌∙◌, true, some, List,
  [], ◌∷◌, arith, length, get_or, eq_of_some, drop,
}
use resin_compute.Gacha.Banners.{certain, sure}
use resin_compute.Gacha.Markov.{
  Table, unit, width, size, cell_writes, position, absorbed_writes, all_writes, step, gather, sum,
  absorbed, missed_at, won_at, lost_at, hazard_at, branch_of, guaranteed, losses_of,
}
use resin_compute.Gacha.Markov.Writes.{
  weigh, weigh_writes, below, weigh_writes-append, weigh_writes-gather, below-cong, weigh-below,
  below_zero, below-add,
}
use resin_compute.Gacha.Markov.Mass.{sum-below, get_or-drop, length-drop}
use resin_compute.Gacha.Markov.Cells.{IsSound, weigh-split_writes}
use resin_compute.Gacha.Markov.Step.{
  step-weigh, missed_at_lem, won_at_lem, lost_at_lem, position_bound,
}
use resin_compute.Gacha.Markov.Horizon.{
  rank, deadline, late, late-position, rank_missed, rank_won, rank_lost, late_end, late_all,
}

pub below_zeros : (n : ℕ) (g : ℕ → ℕ) → ((i : ℕ) → i < n → g i ≡ 0) → below n g ≡ 0
below_zeros zero g h = refl
below_zeros (suc n) g h =
    omega (arith, below_zeros n g (λ i lt. h i (omega arith)), h n (omega arith))

no_product : (a b : ℕ) → (a ≡ 0) ⊎ (b ≡ 0) → a * b ≡ 0
no_product a b (inl e) = rw e (omega arith)
no_product a b (inr e) = rw e (omega arith)

cell_nothing : (t : Table) (g : ℕ → ℕ) (k c j : ℕ) → weigh_writes g (cell_writes t k c j 0) ≡ 0
unfolding cell_writes
cell_nothing t g k c j = weigh-split_writes g 0 (hazard_at t c) (branch_of t j) _ _ _ ∙ omega arith

-- A state that is not late after s pulls has no late successor.
module _ (t : Table) (sound : IsSound t) (s k c j : ℕ) (kn : k < t.copies) (ch : c < t.hard)
    (j8 : j < 8) (timely : rank t k c j + s ≤ deadline t) where
  missed_zero :
      (m : ℕ) → late t (s + 1) (missed_at t k c j) * (m * (certain - hazard_at t c) * sure) ≡ 0
  missed_zero m = elim (ℕ_discrete (c + 1) t.hard) [
    | yes e ↦
        let none_left : certain - hazard_at t c ≡ 0 = omega (arith, sound.last c e) in
        rw none_left (omega arith)
    | no ne ↦
        let at : late t (s + 1) (missed_at t k c j) ≡ 0 =
          rw
            (
              missed_at_lem t sound k c j kn ch j8,
              late-position t (s + 1) k (c + 1) j (omega arith) j8,
            )
            (ground (arith, rank_missed t k c j)) in
        rw at (omega arith)
  ]

  won_zero : (m : ℕ) → late t (s + 1) (won_at t k j) * (m * hazard_at t c * branch_of t j) ≡ 0
  won_zero m =
      let (r, r4, e) = won_at_lem t sound k c j kn ch j8 in
      let at : late t (s + 1) (won_at t k j) ≡ 0 =
        rw (e, late-position t (s + 1) (k + 1) 0 r (omega arith) (omega arith))
          (ground (arith, rank_won t k c j r ch r4)) in
      rw at (omega arith)

  lost_zero :
      (m : ℕ) → late t (s + 1) (lost_at t k j) * (m * hazard_at t c * (sure - branch_of t j)) ≡ 0
  lost_zero m = elim (dec_lt j 4) [
    | yes j4 ↦
        let (r, r4, r8, e) = lost_at_lem t sound k c j kn ch j8 in
        let at : late t (s + 1) (lost_at t k j) ≡ 0 =
          rw (e, late-position t (s + 1) k 0 r (omega arith) r8)
            (ground (arith, rank_lost t k c j r ch r4 j4)) in
        rw at (omega arith)
    | no more ↦
        let held : guaranteed j ≡ true = ground arith in
        let none_left : sure - branch_of t j ≡ 0 =
          rw (branch_of, held) (omega (arith, sound.kept (losses_of j))) in
        rw none_left (omega arith)
  ]

  cell_timely : (m : ℕ) → weigh_writes (late t (s + 1)) (cell_writes t k c j m) ≡ 0
  unfolding cell_writes
  cell_timely m =
      weigh-split_writes (late t (s + 1)) m (hazard_at t c) (branch_of t j) _ _ _
      ∙ omega (arith, missed_zero m, won_zero m, lost_zero m)

-- A late state with mass would break the bound, so no mass is written late.
module _ (t : Table) (sound : IsSound t) (s : ℕ) (f : List ℕ) (fits : length f ≡ size t)
    (on_time : weigh (late t s) 0 f ≡ 0) where
  empty_if_late : (i : ℕ) → i < size t → late t s i * get_or f i 0 ≡ 0
  empty_if_late i lt =
      let each =
        below_zero (length f) (λ i. late t s (0 + i) * get_or f i 0)
          (sym (weigh-below (late t s) 0 f) ∙ on_time) i (rw fits lt) in
      let e : 0 + i ≡ i = omega arith in rw e at each

  cell_zero :
      (k c j : ℕ)
      → k < t.copies
      → c < t.hard
      → j < 8
      → weigh_writes (late t (s + 1)) (cell_writes t k c j (get_or f (position t k c j) 0)) ≡ 0
  cell_zero k c j kn ch j8 = elim (dec_le (rank t k c j + s) (deadline t)) [
    | yes timely ↦ cell_timely t sound s k c j kn ch j8 timely (get_or f (position t k c j) 0)
    | no over ↦
        let at : late t s (position t k c j) ≡ 1 =
          rw (late-position t s k c j ch j8) (ground arith) in
        let none_there : get_or f (position t k c j) 0 ≡ 0 = omega (
          arith,
          rw at at (empty_if_late (position t k c j) (position_bound t k c j (omega arith) ch j8)),
        ) in
        rw none_there (cell_nothing t (late t (s + 1)) k c j)
  ]

  writes_on_time : weigh_writes (late t (s + 1)) (all_writes t f) ≡ 0
  unfolding all_writes absorbed_writes
  writes_on_time =
      let g = late t (s + 1) in
      weigh_writes-append g _ (absorbed_writes t f)
      ∙ omega (
        arith,
        weigh_writes-gather g t.copies (λ k.
              gather t.hard
                (λ c. gather 8 (λ j. cell_writes t k c j (get_or f (position t k c j) 0))))
            ∙ below_zeros t.copies _ (λ k kn.
              weigh_writes-gather g t.hard _
              ∙ below_zeros t.hard _ (λ c ch.
                weigh_writes-gather g 8 _ ∙ below_zeros 8 _ (λ j j8. cell_zero k c j kn ch j8))),
        weigh_writes-gather g (width t)
              (λ i. (t.copies * width t + i, get_or f (t.copies * width t + i) 0 * unit) ∷ [])
            ∙ below_zeros (width t) _ (λ i lt. rw (late_end t (s + 1) i lt) (omega arith)),
      )

  -- One pull leaves no mass on a state that is late after it.
  pub step-late : {f' : List ℕ} → step t f ≡ some f' → weigh (late t (s + 1)) 0 f' ≡ 0
  step-late {f'} h =
      let (f'', done, _, weighed) = step-weigh t f sound in
      let same : f'' ≡ f' = eq_of_some (sym done ∙ h) in
      rw (← same) (weighed (late t (s + 1)) ∙ writes_on_time)

  -- Once the pulls of the deadline are taken, the whole mass is at the end.
  pub absorbed_whole : deadline t ≤ s → absorbed t f ≡ sum f
  absorbed_whole h =
      let end = t.copies * width t in
      let e : size t ≡ end + width t = omega arith in
      let before : below end (λ i. get_or f i 0) ≡ 0 = below_zeros end _ (λ i lt.
        let at = late_all t s i sound.some_pity h lt in
        omega (arith, rw at at (empty_if_late i (omega arith)))) in
      let last : sum (drop end f) ≡ below (width t) (λ i. get_or f (end + i) 0) =
        sum-below (drop end f)
        ∙ rw (length-drop end (width t) f (fits ∙ e))
            (below-cong (width t) _ _ (λ i lt. get_or-drop end i f)) in
      omega (
        arith,
        last,
        sum-below f,
        ap (λ (n : ℕ). below n (λ i. get_or f i 0)) (fits ∙ e),
        before,
        below-add end (width t) (λ i. get_or f i 0),
      )
