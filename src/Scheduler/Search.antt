-- ===== src/Scheduler/Search.antt =====
-- The probing of one node by engines/scheduler.py `solve`.
use Prim.Native.String.{String}
use resin_compute.Base.{
  ℕ, zero, suc, ◌+◌, ◌*◌, ◌≤◌, ◌<◌, ◌≡◌, ◌≢◌, refl, ◌⊎◌, inl, inr, true, false, none, some,
  Option-cases, arith,
}
use native.Mathlib.Decide.{ℕ_discrete}
use resin_compute.Types.{ObjectiveNode}
use resin_compute.Scheduler.Probe.{
  Setup, State, Verdict, retry, stop, place, verdict, search_day, is_open, weekday_of, in_window,
  lookup,
}

module _ (c : Setup) (decide : ℕ → Verdict) where
  -- One probe: the day is taken, or passed over.
  step_found :
      (left day iterations d : ℕ)
      → (search_day c decide (suc left) day iterations).placed ≡ some d
      → (decide day ≡ place) × (d ≡ day)
        ⊎ (decide day ≡ retry)
          × ((search_day c decide left (day + 1) (iterations + 1)).placed ≡ some d)
  unfolding search_day
  step_found left day iterations d h = ground arith

  step_none :
      (left day iterations : ℕ)
      → (search_day c decide (suc left) day iterations).placed ≡ none
      → (search_day c decide (suc left) day iterations).exhausted ≡ false
      → (decide day ≡ stop)
        ⊎ (decide day ≡ retry)
          × ((search_day c decide left (day + 1) (iterations + 1)).placed ≡ none)
          × ((search_day c decide left (day + 1) (iterations + 1)).exhausted ≡ false)
  unfolding search_day
  step_none left day iterations h k = ground arith

  -- A day that is found is the first that is not passed over, and it is taken.
  pub search_day_found :
      (left day iterations d : ℕ)
      → (search_day c decide left day iterations).placed ≡ some d
      → (day ≤ d)
        × (d < day + left)
        × (decide d ≡ place)
        × ((e : ℕ) → day ≤ e → e < d → decide e ≡ retry)
  unfolding search_day
  search_day_found zero day iterations d h = cc
  search_day_found (suc left) day iterations d h = elim (step_found left day iterations d h) [
    | inl (taken, e) ↦ (omega arith, omega arith, rw e taken, λ x p q. absurd (omega arith))
    | inr (passed, later) ↦
        let (a, b, taken, before) = search_day_found left (day + 1) (iterations + 1) d later in
        (
          omega arith,
          omega arith,
          taken,
          λ x p q. elim (ℕ_discrete day x) [
            | yes same ↦ rw (← same) passed
            | no other ↦ before x (omega arith) q
          ],
        )
  ]

  -- The probes are counted, at most one for each day.
  pub search_day_count :
      (left day iterations : ℕ)
      → (iterations ≤ (search_day c decide left day iterations).iterations)
        × ((search_day c decide left day iterations).iterations ≤ iterations + left)
  unfolding search_day
  search_day_count zero day iterations = omega arith
  search_day_count (suc left) day iterations =
      ground (arith, search_day_count left (day + 1) (iterations + 1))

  -- The ceiling is not met where it is above the count.
  pub search_day_bounded :
      (left day iterations : ℕ)
      → iterations + left ≤ c.ceiling
      → (search_day c decide left day iterations).exhausted ≡ false
  unfolding search_day
  search_day_bounded zero day iterations h = refl
  search_day_bounded (suc left) day iterations h =
      ground (arith, search_day_bounded left (day + 1) (iterations + 1))

-- Where no day is found and the ceiling is not met, no day would have been taken: they were all passed
-- over, or one ended the loop.
pub search_day-none :
    (c : Setup) (decide : ℕ → Verdict)
    → ((d e : ℕ) → decide d ≡ stop → decide e ≢ place)
    → (left day iterations : ℕ) → (search_day c decide left day iterations).placed ≡ none
    → (search_day c decide left day iterations).exhausted ≡ false
    → (e : ℕ) → day ≤ e
    → e < day + left
    → decide e ≢ place
search_day-none c decide ends zero day iterations h k e p q = absurd (omega arith)
search_day-none c decide ends (suc left) day iterations h k e p q =
    elim (step_none c decide left day iterations h k) [
      | inl stopped ↦ ends day e stopped
      | inr (passed, later, more) ↦ elim (ℕ_discrete day e) [
        | yes same ↦ λ taken. cc
        | no other ↦
            search_day-none c decide ends left (day + 1) (iterations + 1) later more e (omega arith)
              (omega arith)
      ]
    ]

module _ (c : Setup) (s : State) (node_id : String) (node : ObjectiveNode) where
  -- What a day must offer to be taken.
  pub verdict_place :
      (day : ℕ)
      → verdict c s node_id node day ≡ place
      → (is_open node.available_weekdays (weekday_of day c.start_weekday) ≡ true)
        × (node.resin_cost + s.spent ≤ c.resin_on_hand + c.resin_per_day * day)
        × (node.weekly_capped ≡ true → in_window day s.weekly_days < c.weekly_slots)
  unfolding verdict
  verdict_place day h = ground arith

  -- A node that is capped is not taken in the week that follows the last time it was.
  pub verdict_place-locked :
      (day previous : ℕ)
      → verdict c s node_id node day ≡ place
      → node.weekly_capped ≡ true
      → lookup node_id s.per_node_days ≡ some previous
      → previous + 7 ≤ day
  unfolding verdict
  verdict_place-locked day previous h capped found = ground arith

  -- A day is passed over, or the loop ended on it, for one of the four gates.
  pub verdict-ne-place :
      (day : ℕ)
      → verdict c s node_id node day ≢ place
      → is_open node.available_weekdays (weekday_of day c.start_weekday) ≡ true
      → node.resin_cost + s.spent ≤ c.resin_on_hand + c.resin_per_day * day
      → node.weekly_capped ≡ true
      → in_window day s.weekly_days < c.weekly_slots
      → (previous : ℕ) × (lookup node_id s.per_node_days ≡ some previous) × (day < previous + 7)
  unfolding verdict
  verdict-ne-place day h opened funded capped slots =
      elim (Option-cases (lookup node_id s.per_node_days)) [
        | inl e ↦ absurd (h (ground arith))
        | inr (previous, e) ↦ (previous, e, ground arith)
      ]

  -- An open day on which the resin suffices is taken for a node that is not capped.
  pub verdict_uncapped :
      (day : ℕ)
      → is_open node.available_weekdays (weekday_of day c.start_weekday) ≡ true
      → node.resin_cost + s.spent ≤ c.resin_on_hand + c.resin_per_day * day
      → node.weekly_capped ≡ false
      → verdict c s node_id node day ≡ place
  unfolding verdict
  verdict_uncapped day opened funded free = ground arith

  -- A day ends the loop only when no resin comes in and what there is falls short.
  verdict_stop :
      (day : ℕ)
      → verdict c s node_id node day ≡ stop
      → (c.resin_per_day ≡ 0)
        × (c.resin_on_hand + c.resin_per_day * day < node.resin_cost + s.spent)
  unfolding verdict
  verdict_stop day h = ground arith

  pub verdict_stop-place :
      (d e : ℕ) → verdict c s node_id node d ≡ stop → verdict c s node_id node e ≢ place
  verdict_stop-place d e h k = grind (arith, verdict_stop d h, verdict_place e k)
