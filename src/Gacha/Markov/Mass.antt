-- ===== src/Gacha/Markov/Mass.antt =====
-- No mass is lost by a pull of the chain of agents/pity_engine/markov.py, and none leaves the end.

use resin_compute.Base.{
  ℕ, zero, suc, ◌+◌, ◌*◌, ◌≤◌, ◌≡◌, refl, sym, ap, ◌∙◌, some, eq_of_some, List, [], ◌∷◌, arith,
  length, get_or, drop,
}
use resin_compute.Gacha.Markov.{
  Table, unit, width, size, cell_writes, position, absorbed_writes, all_writes, step, gather, sum,
  absorbed,
}
use resin_compute.Gacha.Markov.Writes.{
  weigh_writes, below, weigh_writes-append, weigh_writes-gather, below-cong, below-scale, below-add,
  below-rows, weigh-below, weigh-one, from, weigh_from,
}
use resin_compute.Gacha.Markov.Cells.{IsSound, cell-mass}
use resin_compute.Gacha.Markov.Step.{step-weigh}

-- The mass at a position, in the parts that count after the pull.
abbrev read : List ℕ → ℕ → ℕ
read f i = get_or f i 0 * unit

below_zeros : (n : ℕ) → below n (λ _. 0) ≡ 0
below_zeros zero = refl
below_zeros (suc n) = omega (arith, below_zeros n)

pub sum-below : (f : List ℕ) → sum f ≡ below (length f) (λ i. get_or f i 0)
sum-below f =
    sym (weigh-one 0 f) ∙ weigh-below (λ _. 1) 0 f ∙ below-cong (length f) _ _ (λ i lt. omega arith)

sum-read : (f : List ℕ) → unit * sum f ≡ below (length f) (read f)
sum-read f =
    ap (λ s. unit * s) (sum-below f)
    ∙ sym (below-scale (length f) unit (λ i. get_or f i 0))
    ∙ below-cong (length f) _ _ (λ i lt. omega arith)

pub get_or-drop : (n i : ℕ) (f : List ℕ) → get_or (drop n f) i 0 ≡ get_or f (n + i) 0
get_or-drop zero i f = ap (λ (m : ℕ). get_or f m 0) (omega arith)
get_or-drop (suc n) i [] = refl
get_or-drop (suc n) i (x ∷ f) =
    let e : suc n + i ≡ suc (n + i) = omega arith in rw e (get_or-drop n i f)

pub length-drop : (n m : ℕ) (f : List ℕ) → length f ≡ n + m → length (drop n f) ≡ m
length-drop zero m f h = omega (arith, h)
length-drop (suc n) m [] h = absurd (omega (arith, h))
length-drop (suc n) m (x ∷ f) h = length-drop n m f (omega (arith, h))

-- The writes before those of the end.
rows : Table → List ℕ → List (ℕ × ℕ)
rows t f =
    gather t.copies (λ k.
      gather t.hard (λ c. gather 8 (λ j. cell_writes t k c j (get_or f (position t k c j) 0))))

module _ (t : Table) (f : List ℕ) (sound : IsSound t) where
  row-mass :
      (k : ℕ)
      → weigh_writes
          (λ _. 1)
          (gather t.hard (λ c. gather 8 (λ j. cell_writes t k c j (get_or f (position t k c j) 0))))
        ≡ below (width t) (λ i. read f (k * width t + i))
  row-mass k =
      weigh_writes-gather (λ _. 1) t.hard _
      ∙ below-cong t.hard _ _ (λ c ch.
        weigh_writes-gather (λ _. 1) 8 _
        ∙ below-cong 8 _ (λ j. read f (k * width t + (c * 8 + j)))
            (λ j j8. cell-mass t k c j _ sound ch ∙ ap (read f) (assoc (k * width t) (c * 8) j)))
      ∙ below-rows t.hard 8 (λ i. read f (k * width t + i))
    where
      assoc : (a b d : ℕ) → a + b + d ≡ a + (b + d)
      assoc a b d = omega arith

  absorbed-mass :
      weigh_writes (λ _. 1) (absorbed_writes t f)
      ≡ below (width t) (λ i. read f (t.copies * width t + i))
  unfolding absorbed_writes
  absorbed-mass =
      weigh_writes-gather (λ _. 1) (width t) _ ∙ below-cong (width t) _ _ (λ i lt. omega arith)

  all-mass : weigh_writes (λ _. 1) (all_writes t f) ≡ below (size t) (read f)
  unfolding all_writes
  all-mass =
      let w = width t in
      let rows : weigh_writes (λ _. 1)
            (gather t.copies (λ k.
              gather t.hard
                (λ c. gather 8 (λ j. cell_writes t k c j (get_or f (position t k c j) 0)))))
          ≡ below (t.copies * w) (read f) =
        weigh_writes-gather (λ _. 1) t.copies _
        ∙ below-cong t.copies _ _ (λ k kn. row-mass k)
        ∙ below-rows t.copies w (read f) in
      let e : (t.copies + 1) * w ≡ t.copies * w + w = omega arith in
      weigh_writes-append (λ _. 1) _ (absorbed_writes t f)
      ∙ rw e (omega (arith, rows, absorbed-mass, below-add (t.copies * w) w (read f)))

  -- For a sound table (its hard pity is one or more, no hazard is above one, the hazard at the hard pity
  -- is one, no 50/50 branch is likelier than one and the guarantee is sure) and a grid of the table's
  -- size, a step that returns keeps the whole mass: in the parts that count after it, there is `unit`
  -- times as much.
  pub step-sum : {f' : List ℕ} → length f ≡ size t → step t f ≡ some f' → sum f' ≡ unit * sum f
  step-sum {f'} len h =
      let (f'', done, _, weighed) = step-weigh t f sound in
      let same : f'' ≡ f' = eq_of_some (sym done ∙ h) in
      rw (← same)
        (sym (weigh-one 0 f'') ∙ weighed (λ _. 1) ∙ all-mass ∙ sym (rw len at (sum-read f)))

  -- The weight of the end that is written again.
  kept-weight :
      below (width t) (λ i. read f (t.copies * width t + i))
      ≤ weigh_writes (from (t.copies * width t)) (all_writes t f)
  unfolding all_writes absorbed_writes rows
  kept-weight =
      let w = width t in
      let end = t.copies * w in
      let kept : weigh_writes (from end) (absorbed_writes t f) ≡ below w (λ i. read f (end + i)) =
        weigh_writes-gather (from end) w _ ∙ below-cong w _ _ (λ i lt. ground arith) in
      omega (arith, kept, weigh_writes-append (from end) (rows t f) (absorbed_writes t f))

  absorbed-read :
      (end : ℕ)
      → length f ≡ end + width t
      → unit * sum (drop end f) ≡ below (width t) (λ i. read f (end + i))
  absorbed-read end len =
      sum-read (drop end f)
      ∙ rw (length-drop end (width t) f len)
          (below-cong (width t) _ _ (λ i lt. ap (λ x. x * unit) (get_or-drop end i f)))

  -- Mass that has reached the last copy stays there.
  pub step-absorbed :
      {f' : List ℕ} → length f ≡ size t → step t f ≡ some f' → unit * absorbed t f ≤ absorbed t f'
  step-absorbed {f'} len h =
      let (f'', done, _, weighed) = step-weigh t f sound in
      let same : f'' ≡ f' = eq_of_some (sym done ∙ h) in
      let end = t.copies * width t in
      rw (← same) (
        omega (
          arith,
          weigh_from end f'',
          weighed (from end),
          kept-weight,
          absorbed-read end (omega (arith, len)),
        ))
