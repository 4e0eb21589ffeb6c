-- ===== src/Objectives/Path/Blocking.antt =====
-- `unmet_prerequisites` and `transitive_dependents` of engines/objectives.py: what blocks a goal, and what
-- a node blocks.
use Prim.Native.String.{String}
use text.Mathlib.Text.{◌==◌ as str_eq}
use resin_compute.Base.{
  ◌≡◌, ◌↔◌, inl, inr, refl, sym, ◌∙◌, Bool, true, false, not, ◌&&◌, List, [], arith, Bool-cases,
}
use resin_compute.Base.Texts.{
  has, IsDistinct, filter_texts, has-filter_texts, filter_texts-IsDistinct, has-distinct,
  has-sort_texts, sort_texts,
}
use resin_compute.Types.{ObjectiveNode}
use resin_compute.Objectives.Graph.{ok, ids, deps_of, dependents, topological_order}
use resin_compute.Objectives.Graph.Order.{has-dependents, dependents_known}
use resin_compute.Objectives.Graph.Refusal.{topological_order-IsTopological}
use resin_compute.Objectives.Path.{
  pruned, closure, unmet_prerequisites, transitive_dependents, walk_from, push_all,
}
use resin_compute.Objectives.Path.Walk.{
  Reaches, reaches_trans, here, further, IsWithin, walk_from_lem, has-push_all,
}
use resin_compute.Objectives.Path.Built.{
  IsValid, view, topological_order-IsValid, build_graph_lem, closure_lem,
}

reaches_among :
    (nodes : List ObjectiveNode) (stop_at : List String)
    → IsValid nodes
    → {a b : String} → Reaches (pruned nodes stop_at) a b
    → has a (ids nodes) ≡ true
    → has b (ids nodes) ≡ true
reaches_among nodes stop_at v here h = h
reaches_among nodes stop_at v (further {a} {b} e r) h = elim (Bool-cases (has a stop_at)) [
  | inl stop ↦ cc (rw stop at e)
  | inr on ↦ reaches_among nodes stop_at v r (v.known a b h (rw on at e))
]

-- A node waits for another: itself, or what a dependency of it waits for if it is not completed.
pub data Awaits (nodes : List ObjectiveNode) (completed : List String)
    : String → String → Type 0 where
  itself : {a : String} → Awaits nodes completed a a
  through :
      {a b c : String}
      → has a completed ≡ false
      → has b (deps_of nodes a) ≡ true
      → Awaits nodes completed b c
      → Awaits nodes completed a c

Reaches-Awaits :
    (nodes : List ObjectiveNode) (completed : List String) {a b : String}
    → Reaches (pruned nodes completed) a b
    → Awaits nodes completed a b
Reaches-Awaits nodes completed here = itself
Reaches-Awaits nodes completed (further {a} {b} e r) = elim (Bool-cases (has a completed)) [
  | inl stop ↦ cc (rw stop at e)
  | inr on ↦ through on (rw on at e) (Reaches-Awaits nodes completed r)
]

Awaits-Reaches :
    (nodes : List ObjectiveNode) (completed : List String) {a b : String}
    → Awaits nodes completed a b
    → Reaches (pruned nodes completed) a b
Awaits-Reaches nodes completed itself = here
Awaits-Reaches nodes completed (through {a} {b} undone e w) =
    further (rw undone e) (Awaits-Reaches nodes completed w)

-- What blocks a goal: each node that it waits for over dependencies of nodes that are not completed, but
-- for itself and the completed ones, once, as a part of an order.
pub record IsBlocking (nodes : List ObjectiveNode) (goal_id : String)
    (completed out order : List String) : Type 0 where
  pub blocks :
      (n : String)
      → (has n out ≡ true) ↔ (
          Awaits nodes completed goal_id n × (str_eq n goal_id ≡ false) × (has n completed ≡ false))
  pub once : IsDistinct out
  pub part : (test : String → Bool) × (out ≡ filter_texts test order)

-- A goal among the nodes of a set that has an order is answered with what blocks it: the nodes that it
-- reaches over dependencies of nodes that are not completed, but for itself and the completed ones, each
-- once, as a part of that order.
pub unmet_prerequisites_lem :
    (nodes : List ObjectiveNode) (goal_id : String) (completed : List String) {order : List String}
    → topological_order nodes ≡ ok order
    → has goal_id (ids nodes) ≡ true
    → (out : List String) × (unmet_prerequisites nodes goal_id completed ≡ ok out)
      × IsBlocking nodes goal_id completed out order
unfolding unmet_prerequisites
unmet_prerequisites_lem nodes goal_id completed {order} h known =
    let v = topological_order-IsValid nodes h in
    let top = topological_order-IsTopological nodes h in
    let needed = closure nodes goal_id completed in
    let test : String → Bool =
      λ i. has i needed && not (str_eq i goal_id) && not (has i completed) in
    let reached : (n : String)
        → (has n needed ≡ true) ↔ Reaches (pruned nodes completed) goal_id n =
      λ n. closure_lem nodes goal_id completed v known n in
    (
      filter_texts test order,
      rw (build_graph_lem nodes h, known) refl,
      record {
        blocks = λ n. (
          λ k.
              let kept = ((has-filter_texts n test order).0 k).1 in
              let r = (reached n).0 (ground arith) in
              (Reaches-Awaits nodes completed r, ground arith, ground arith),
          λ (w, other, undone).
              let r = Awaits-Reaches nodes completed w in
              (has-filter_texts n test order).1 (
                top.every n ∙ reaches_among nodes completed v r known,
                ground (arith, (reached n).1 r),
              ),
        );
        once = filter_texts-IsDistinct test order top.once;
        part = (test, refl);
      },
    )

-- A chain of one dependency or more leads from a node to another.
pub record DependsOn (nodes : List ObjectiveNode) (n target : String) : Type 0 where
  pub dependency : String
  pub direct : has dependency (deps_of nodes n) ≡ true
  pub chain : Reaches (deps_of nodes) dependency target

last_edge :
    (nodes : List ObjectiveNode) {n o x : String}
    → Reaches (deps_of nodes) n o
    → has x (deps_of nodes o) ≡ true
    → DependsOn nodes n x
last_edge nodes {x} here e = record { dependency = x; direct = e; chain = here }
last_edge nodes (further {b} first r) e = record {
  dependency = b;
  direct = first;
  chain = reaches_trans r (further e here);
}

pub edge_back :
    (nodes : List ObjectiveNode) (a b : String)
    → has b (ids nodes) ≡ true
    → has b (dependents nodes a) ≡ has a (deps_of nodes b)
edge_back nodes a b known = has-dependents nodes a b known ∙ has-distinct a (deps_of nodes b)

-- A walk along the reversed edges, read backwards.
backward :
    (nodes : List ObjectiveNode) {o n : String}
    → Reaches (dependents nodes) o n
    → Reaches (deps_of nodes) n o
backward nodes here = here
backward nodes (further {a} {b} e r) =
    reaches_trans (backward nodes r)
      (further (sym (edge_back nodes a b (dependents_known nodes a b e)) ∙ e) here)

forward :
    (nodes : List ObjectiveNode)
    → IsValid nodes
    → {d x : String} → Reaches (deps_of nodes) d x
    → (n : String) → has n (ids nodes) ≡ true
    → has d (deps_of nodes n) ≡ true
    → (o : String) × (has x (deps_of nodes o) ≡ true)
      × (has o (ids nodes) ≡ true)
      × Reaches (dependents nodes) o n
forward nodes v here n known e = (n, e, known, here)
forward nodes v (further {a} {b} first r) n known e =
    let inside = v.known n a known e in
    let (o, last, among, path) = forward nodes v r a inside first in
    (o, last, among, reaches_trans path (further (edge_back nodes a n known ∙ e) here))

dependents-IsWithin :
    (nodes : List ObjectiveNode) → IsValid nodes → IsWithin (dependents nodes) (ids nodes)
dependents-IsWithin nodes v = record {
  apart = v.apart;
  onward = λ a b h k. dependents_known nodes a b k;
}

-- In the view of a set that has an order, a node is answered with just the nodes that depend on it,
-- directly or over others.
pub transitive_dependents_lem :
    (nodes : List ObjectiveNode) (node_id : String) {order : List String}
    → topological_order nodes ≡ ok order
    → has node_id (ids nodes) ≡ true
    → (out : List String) × (transitive_dependents (view nodes order) node_id ≡ ok out)
      × ((n : String) → has n (ids nodes) ≡ true → (has n out ≡ true) ↔ DependsOn nodes n node_id)
unfolding transitive_dependents
transitive_dependents_lem nodes node_id {order} h known =
    let v = topological_order-IsValid nodes h in
    let stack : List String = push_all [] (dependents nodes node_id) in
    let seen = walk_from (dependents nodes) (ids nodes) stack in
    let walked =
      walk_from_lem (dependents nodes) (ids nodes) stack (dependents-IsWithin nodes v) (λ m k.
        dependents_known nodes node_id m
          (sym (has-push_all m [] (dependents nodes node_id)) ∙ k)) in
    (
      sort_texts seen,
      rw known refl,
      λ n among. (
        λ k.
            let r = (walked n).0 (sym (has-sort_texts n seen) ∙ k) in
            let child : has r.origin (dependents nodes node_id) ≡ true =
              sym (has-push_all r.origin [] (dependents nodes node_id)) ∙ r.listed in
            last_edge nodes (backward nodes r.path) (
              sym (edge_back nodes node_id r.origin (dependents_known nodes node_id r.origin child))
              ∙ child),
        λ dep.
            let (o, last, inside, path) = forward nodes v dep.chain n among dep.direct in
            has-sort_texts n seen
            ∙ (walked n).1 (record {
              origin = o;
              listed =
                  has-push_all o [] (dependents nodes node_id)
                  ∙ edge_back nodes node_id o inside
                  ∙ last;
              path = path;
            }),
      ),
    )
