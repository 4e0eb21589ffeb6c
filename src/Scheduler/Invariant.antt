-- ===== src/Scheduler/Invariant.antt =====
-- What the loop of engines/scheduler.py over a path keeps when it places a node.
use Prim.Native.String.{String}
use resin_compute.Base.{
  ℕ, ◌+◌, ◌*◌, ◌≤◌, ◌≡◌, refl, sym, ◌∙◌, true, some, List, [], ◌∷◌, ◌++◌, arith, leb, All, inl, inr,
  Option-cases, Bool-cases,
}
use resin_compute.Types.{ObjectiveNode, ScheduledTask}
use resin_compute.Scheduler.Probe.{
  Setup, State, place, verdict, is_open, weekday_of, cadence_of, lookup,
}
use resin_compute.Scheduler.Solve.{task_of, put, start_state, last_day}
use resin_compute.Scheduler.Search.{verdict_place, verdict_place-locked}
use resin_compute.Scheduler.Spacing.{
  IsSpaced, latest_of, IsSpaced-snoc, latest_of-snoc, latest_of-none, latest_of-latest,
  last_day-snoc,
}
use resin_compute.Scheduler.Window.{
  is_weekly, spent_by, total_cost, weekly_in, weekly_days_of, IsSorted, spent_by-snoc,
  total_cost-snoc, spent_by-le, weekly_in-snoc, weekly_days_of-snoc, weekly_in-le-in_window,
  All-snoc, IsSorted-snoc, All-weaken,
}

-- A task stands on a day on which its node's domain is open, inside the horizon, at the node's cost,
-- and it is weekly exactly if the node is capped.
pub record IsGated (c : Setup) (t : ScheduledTask) : Type 0 where
  pub node : ObjectiveNode
  pub known : c.index t.node_id ≡ some node
  pub open_day : is_open node.available_weekdays (weekday_of t.earliest_day c.start_weekday) ≡ true
  pub within : t.earliest_day ≤ c.horizon_days
  pub cost : t.resin_cost ≡ node.resin_cost
  pub capped : is_weekly t ≡ node.weekly_capped

-- What a plan respects.
pub record Respects (c : Setup) (ts : List ScheduledTask) : Type 0 where
  pub gated : All (IsGated c) ts
  pub sorted : IsSorted 0 ts
  pub funded : (d : ℕ) → spent_by d ts ≤ c.resin_on_hand + c.resin_per_day * d
  pub slotted : (d : ℕ) → weekly_in d ts ≤ c.weekly_slots
  pub spaced : IsSpaced ts

-- What the loop over the path keeps.
pub record Inv (c : Setup) (s : State) : Type 0 where
  pub respects : Respects c s.tasks
  pub spent : s.spent ≡ total_cost s.tasks
  pub past : All (λ t. t.earliest_day ≤ s.cursor) s.tasks
  pub taken : s.weekly_days ≡ weekly_days_of s.tasks
  pub latest : (key : String) → lookup key s.per_node_days ≡ latest_of key s.tasks
  pub last : s.cursor ≡ last_day s.tasks

mul_mono : (a b k : ℕ) → a ≤ b → k * a ≤ k * b
mul_mono a b k h = grind arith

task_of-weekly :
    (node_id : String) (node : ObjectiveNode) (day : ℕ)
    → is_weekly (task_of node_id node day) ≡ node.weekly_capped
unfolding cadence_of
task_of-weekly node_id node day = ground arith

module _ (c : Setup) (s : State) (node_id : String) (node : ObjectiveNode) (day iterations : ℕ)
    (inv : Inv c s) (known : c.index node_id ≡ some node) (later : s.cursor ≤ day)
    (within : day ≤ c.horizon_days) (taken : verdict c s node_id node day ≡ place) where
  put-funded :
      (d : ℕ)
      → spent_by d (s.tasks ++ task_of node_id node day ∷ [])
        ≤ c.resin_on_hand + c.resin_per_day * d
  put-funded d = elim (Bool-cases (leb day d)) [
    | inl due ↦ grind (
      arith,
      spent_by-snoc d s.tasks (task_of node_id node day),
      inv.respects.funded d,
      inv.spent,
      spent_by-le d s.tasks,
      mul_mono day d c.resin_per_day,
      (verdict_place c s node_id node day taken).1,
    )
    | inr early ↦
        grind (arith, spent_by-snoc d s.tasks (task_of node_id node day), inv.respects.funded d)
  ]

  put-slotted : (d : ℕ) → weekly_in d (s.tasks ++ task_of node_id node day ∷ []) ≤ c.weekly_slots
  put-slotted d = ground (
    arith,
    weekly_in-snoc d s.tasks (task_of node_id node day),
    inv.respects.slotted d,
    task_of-weekly node_id node day,
    inv.taken,
    weekly_in-le-in_window day d s.tasks,
    (verdict_place c s node_id node day taken).2,
  )

  -- A weekly task of the same node that stands already is a week back.
  behind :
      is_weekly (task_of node_id node day) ≡ true
      → (d : ℕ) → latest_of node_id s.tasks ≡ some d
      → d + 7 ≤ day
  behind capped d found =
      verdict_place-locked c s node_id node day d taken
        (sym (task_of-weekly node_id node day) ∙ capped) (inv.latest node_id ∙ found)

  put-IsSpaced : IsSpaced (s.tasks ++ task_of node_id node day ∷ [])
  put-IsSpaced =
      IsSpaced-snoc s.tasks (task_of node_id node day) inv.respects.spaced
        (elim (Option-cases (latest_of node_id s.tasks)) [
          | inl e ↦
              All-weaken (λ u. ¬ (u.node_id ≡ node_id)) _ s.tasks
                (λ u other _ _ same. absurd (other same)) (latest_of-none node_id s.tasks e)
          | inr (d, e) ↦
              All-weaken (λ u. u.node_id ≡ node_id → u.earliest_day ≤ d) _ s.tasks
                (λ u upto _ capped same. omega (arith, upto same, behind capped d e))
                (latest_of-latest node_id 0 s.tasks inv.respects.sorted e).1
        ])

  put-latest :
      (key : String)
      → lookup key (put s node_id node day iterations).per_node_days
        ≡ latest_of key (put s node_id node day iterations).tasks
  put-latest key =
      ground (arith, latest_of-snoc key s.tasks (task_of node_id node day), inv.latest key)

  put-taken :
      (put s node_id node day iterations).weekly_days
      ≡ weekly_days_of (put s node_id node day iterations).tasks
  put-taken = ground (
    arith,
    weekly_days_of-snoc s.tasks (task_of node_id node day),
    task_of-weekly node_id node day,
    inv.taken,
  )

  pub put-Inv : Inv c (put s node_id node day iterations)
  put-Inv = record {
    respects = record {
      gated = All-snoc (IsGated c) s.tasks _ inv.respects.gated (record {
        node = node;
        known = known;
        open_day = (verdict_place c s node_id node day taken).0;
        within = within;
        cost = refl;
        capped = task_of-weekly node_id node day;
      });
      sorted = IsSorted-snoc 0 s.tasks _ (omega arith) inv.respects.sorted past;
      funded = put-funded;
      slotted = put-slotted;
      spaced = put-IsSpaced;
    };
    spent = omega (arith, inv.spent, total_cost-snoc s.tasks (task_of node_id node day));
    past = All-snoc _ s.tasks _ past (omega arith);
    taken = put-taken;
    latest = put-latest;
    last = omega (arith, inv.last, last_day-snoc s.tasks (task_of node_id node day));
  }
    where
      past : All (λ t. t.earliest_day ≤ day) s.tasks
      past = All-weaken (λ t. t.earliest_day ≤ s.cursor) _ s.tasks (λ t h. omega arith) inv.past

pub start-Inv : (c : Setup) → Inv c start_state
start-Inv c = record {
  respects = record {
    gated = tt;
    sorted = tt;
    funded = λ d. omega arith;
    slotted = λ d. omega arith;
    spaced = tt;
  };
  spent = refl;
  past = tt;
  taken = refl;
  latest = λ key. refl;
  last = refl;
}
