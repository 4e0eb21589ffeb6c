-- ===== src/Scheduler/Bounds.antt =====
-- How far `solve` of engines/scheduler.py gets: what it blocks and why, how long it runs, and the resin
-- bound of `naive_days`.
use Prim.Native.String.{String}
use mathlib.Core.Path.{subst}
use mathlib.Core.List.{append_assoc, map-append}
use resin_compute.Base.{
  ℕ, ◌+◌, ◌-◌, ◌*◌, ◌≤◌, ◌<◌, All, Bool-cases, true, ◌≡◌, ◌≢◌, refl, sym, ap, ◌∙◌, false, some,
  List, [], ◌∷◌, ◌++◌, arith, map, inl, inr, ◌⊎◌, length,
}
use resin_compute.Base.Int.{ℤ, pos_part}
use resin_compute.Base.Results.{ok-injective}
use resin_compute.Types.{ObjectiveNode, ScheduledTask, ResolutionPath}
use resin_compute.Scheduler.Probe.{
  Setup, State, place, verdict, Nodes, is_open, weekday_of, in_window,
}
use resin_compute.Scheduler.Solve.{
  ok, put, probe, place_all, start_state, solve, setup_of, ScheduleOutcome, dedupe, task_of,
  last_day,
}
use resin_compute.Scheduler.Search.{
  search_day-none, search_day_count, search_day_bounded, verdict_stop-place, verdict-ne-place,
  verdict_uncapped, search_day_found,
}
use resin_compute.Scheduler.Spacing.{latest_of-All, in_window-eq-weekly_in}
use resin_compute.Scheduler.Window.{total_cost, weekly_in, All-weaken}
use resin_compute.Scheduler.Invariant.{Inv, start-Inv, put-Inv}
use resin_compute.Scheduler.Placement.{place_all_step, solve_inv}

-- A node can stand on a day behind the tasks of a plan: its domain is open, the resin that is on hand or
-- has come in by then pays for it and all of them, and, if it is capped, its own tasks are all a week or
-- more back and a weekly slot of the last seven days is free.
pub record CanStand (c : Setup) (ts : List ScheduledTask) (node_id : String) (node : ObjectiveNode)
    (day : ℕ) : Type 0 where
  pub open_day : is_open node.available_weekdays (weekday_of day c.start_weekday) ≡ true
  pub funded : node.resin_cost + total_cost ts ≤ c.resin_on_hand + c.resin_per_day * day
  pub spaced :
      node.weekly_capped ≡ true → All (λ t. t.node_id ≡ node_id → t.earliest_day + 7 ≤ day) ts
  pub slotted : node.weekly_capped ≡ true → weekly_in day ts < c.weekly_slots

-- Why a path ends: nothing of it is left, or the first node that is left can stand on no day from the
-- last one of the plan to the horizon.
abbrev pub IsStuck : Setup → List ScheduledTask → (left : List String) → Type 0
IsStuck c ts left =
    (left ≡ [])
    ⊎ ((node_id : String) × (rest : List String) × (node : ObjectiveNode) × (left ≡ node_id ∷ rest)
        × (c.index node_id ≡ some node)
        × ((d : ℕ) → last_day ts ≤ d → d ≤ c.horizon_days → ¬ CanStand c ts node_id node d))

cannot_stand :
    (c : Setup) (s : State) (node_id : String) (node : ObjectiveNode) (d : ℕ)
    → Inv c s
    → s.cursor ≤ d
    → verdict c s node_id node d ≢ place
    → ¬ CanStand c s.tasks node_id node d
cannot_stand c s node_id node d inv later h can =
    let funded : node.resin_cost + s.spent ≤ c.resin_on_hand + c.resin_per_day * d =
      rw inv.spent can.funded in
    elim (Bool-cases node.weekly_capped) [
      | inl capped ↦
          let past =
            All-weaken (λ t. t.earliest_day ≤ s.cursor) (λ t. t.earliest_day ≤ d) s.tasks
              (λ t e. omega arith) inv.past in
          let slots : in_window d s.weekly_days < c.weekly_slots =
            rw (inv.taken, in_window-eq-weekly_in d s.tasks past) (can.slotted capped) in
          let (previous, found, near) =
            verdict-ne-place c s node_id node d h can.open_day funded capped slots in
          let back =
            latest_of-All node_id d s.tasks (can.spaced capped)
              (sym (inv.latest node_id) ∙ found) in
          omega (arith, near, back)
      | inr free ↦ h (verdict_uncapped c s node_id node d can.open_day funded free)
    ]

abbrev pub ids_of : List ScheduledTask → List String
ids_of = map (λ t. t.node_id)

pub place_all_ids :
    (c : Setup) (s : State) (ids : List String) {s' : State}
    → place_all c s ids ≡ ok s'
    → s.blocked ≡ []
    → ids_of s'.tasks ++ s'.blocked ≡ ids_of s.tasks ++ ids
unfolding place_all
place_all_ids c s [] h free =
    subst (λ x. ids_of x.tasks ++ x.blocked ≡ ids_of s.tasks ++ []) (ok-injective h)
      (ap (λ l. ids_of s.tasks ++ l) free)
place_all_ids c s (node_id ∷ rest) {s'} h free =
    let (node, known, next) = place_all_step c s node_id rest h in
    elim next [
      | inl (_, e) ↦ rw (e, free)
      | inr (day, found, more) ↦
          let t = task_of node_id node day in
          place_all_ids c (put s node_id node day (probe c s node_id node).iterations) rest more
            free
          ∙ ap (λ l. l ++ rest) (map-append (λ (x : ScheduledTask). x.node_id) s.tasks (t ∷ []))
          ∙ append_assoc (ids_of s.tasks) (node_id ∷ []) rest
    ]

place_all-IsStuck :
    (c : Setup) (s : State) (ids : List String) {s' : State}
    → place_all c s ids ≡ ok s'
    → Inv c s
    → s.blocked ≡ []
    → s'.exhausted ≡ false
    → IsStuck c s'.tasks s'.blocked
unfolding place_all verdict
place_all-IsStuck c s [] h inv free calm =
    subst (λ x. IsStuck c x.tasks x.blocked) (ok-injective h) (inl free)
place_all-IsStuck c s (node_id ∷ rest) {s'} h inv free calm =
    let (node, known, next) = place_all_step c s node_id rest h in
    elim next [
      | inl (missing, e) ↦
          subst (λ x. IsStuck c x.tasks x.blocked) (sym e)
            (inr (
              node_id,
              rest,
              node,
              ap (λ l. l ++ node_id ∷ rest) free,
              known,
              λ d p q.
                  let later : s.cursor ≤ d = rw inv.last p in
                  cannot_stand c s node_id node d inv later (
                    search_day-none c (verdict c s node_id node)
                      (verdict_stop-place c s node_id node) (c.horizon_days + 1 - s.cursor) s.cursor
                      s.iterations missing (rw e at calm) d later (omega arith)),
            ))
      | inr (day, found, more) ↦
          let (later, before, taken, _) =
            search_day_found c (verdict c s node_id node) (c.horizon_days + 1 - s.cursor) s.cursor
              s.iterations day found in
          place_all-IsStuck c (put s node_id node day (probe c s node_id node).iterations) rest more
            (put-Inv c s node_id node day (probe c s node_id node).iterations inv known later
              (omega arith) taken)
            free calm
    ]

-- Each node costs at most one probe for each day up to the horizon.
place_all_count :
    (c : Setup) (s : State) (ids : List String) {s' : State}
    → place_all c s ids ≡ ok s'
    → s.exhausted ≡ false
    → s.iterations + (c.horizon_days + 1) * length ids ≤ c.ceiling
    → (s'.iterations ≤ s.iterations + (c.horizon_days + 1) * length ids) × (s'.exhausted ≡ false)
unfolding place_all
place_all_count c s [] h fresh room =
    subst (λ x. (x.iterations ≤ s.iterations + (c.horizon_days + 1) * 0) × (x.exhausted ≡ false))
      (ok-injective h) (omega arith, fresh)
place_all_count c s (node_id ∷ rest) {s'} h fresh room =
    let (node, known, next) = place_all_step c s node_id rest h in
    let left = c.horizon_days + 1 - s.cursor in
    let (_, counted) = search_day_count c (verdict c s node_id node) left s.cursor s.iterations in
    elim next [
      | inl (missing, e) ↦ rw e (
        omega arith,
        search_day_bounded c (verdict c s node_id node) left s.cursor s.iterations (omega arith),
      )
      | inr (day, found, more) ↦
          let (few, calm) =
            place_all_count c (put s node_id node day (probe c s node_id node).iterations) rest more
              fresh (omega arith) in
          (omega arith, calm)
    ]

mul_suc : (a b : ℕ) → a * (b + 1) ≡ a * b + a
mul_suc a b = omega arith

-- A plan that `solve` returns, where the horizon and the path are small enough for the ceiling on
-- probes to be theirs and not the fixed one: the search was never cut short, it made at most one probe
-- for each node and day, the tasks are the front of the path in its order, and what is blocked is the
-- rest of the path, of which the first node can stand on no day from the last one of the plan to the
-- horizon: each is closed to it, too early for the resin, or, for a capped node, within a week of a task
-- of its own or without a free weekly slot.
pub solve_complete :
    (path : ResolutionPath) (nodes : Nodes) (per_day weekday on_hand horizon slots : ℤ)
    {out : ScheduleOutcome}
    → (pos_part horizon + 1) * (length path.ordered_nodes + 1) + 7 ≤ 1_000_000
    → solve path nodes per_day weekday on_hand horizon slots ≡ ok out
    → let c =
        setup_of path.ordered_nodes nodes
          (pos_part per_day)
          (pos_part weekday)
          (pos_part on_hand)
          (pos_part horizon)
          (pos_part slots) in
      (left : List String) × (out.exhausted ≡ false)
      × (out.iterations ≤ (pos_part horizon + 1) * length path.ordered_nodes)
      × (ids_of out.tasks ++ left ≡ path.ordered_nodes)
      × (out.blocked_on ≡ dedupe [] left)
      × IsStuck c out.tasks left
solve_complete path nodes per_day weekday on_hand horizon slots small h =
    let c =
      setup_of path.ordered_nodes nodes (pos_part per_day) (pos_part weekday) (pos_part on_hand)
        (pos_part horizon) (pos_part slots) in
    let (s, run, e) = solve_inv path nodes per_day weekday on_hand horizon slots h in
    let (few, calm) =
      place_all_count c start_state path.ordered_nodes run refl
        (omega (arith, mul_suc (pos_part horizon + 1) (length path.ordered_nodes))) in
    (
      s.blocked,
      rw e calm,
      rw e (omega (arith, few)),
      rw e (place_all_ids c start_state path.ordered_nodes run refl),
      rw e,
      rw e (place_all-IsStuck c start_state path.ordered_nodes run (start-Inv c) refl calm),
    )
