-- ===== src/Tree/Runtime/Stops.antt =====
-- The cancellation of a node, and of all nodes, keeps the invariant.
use agentic_model_gateway.Base.{
  ℕ, ◌≡◌, refl, ap, ◌∙◌, not, Option, none, some, List, [], ◌∷◌, ◌++◌, is_none, contains, discard,
  inl, inr, arith, Bool-cases, Option-cases, contains-discard, ==_refl,
}
use agentic_model_gateway.Tree.Node.{MessageNode, is_runnable, mark_error}
use agentic_model_gateway.Tree.Queue.{Queue, remove, drain}
use agentic_model_gateway.Tree.Queue.Laws.{remove_lem}
use agentic_model_gateway.Tree.Graph.{Graph, get_node}
use agentic_model_gateway.Tree.Runtime.State.{NodeUiTarget, ActiveClaim, Tree, ◌>>=◌}
use agentic_model_gateway.Tree.Runtime.Cancel.{
  cancel_node, cancel_all, cancel_active, cancel_queued, cancel_remaining, active_among,
  request_among, request_all, claim_of, emptied, updated_queue, cancelled_target, cancelled_graph,
}
use agentic_model_gateway.Tree.Runtime.Invariant.{
  AllPending, Inv, AllPending-modify_node, AllPending-discard,
}
use agentic_model_gateway.Tree.Runtime.Claims.{Keeps}

-- A cancelled node leaves the queue, and the others stay pending.
pub cancelled-AllPending :
    (id : ℕ) (node : MessageNode) (g : Graph) (ids : List ℕ)
    → AllPending g ids
    → AllPending (cancelled_graph id node g) (discard id ids)
cancelled-AllPending id node g ids h = elim (Bool-cases (is_runnable node.state)) [
  | inl r ↦ rw r (
      AllPending-modify_node id mark_error g (discard id ids)
        (contains-discard id id ids ∙ rw (==_refl id)) (AllPending-discard g id ids h))
  | inr r ↦ rw r (AllPending-discard g id ids h)
]

pub request_quiet :
    (active : Option ActiveClaim) (ids : List ℕ) → request_among active ids ≡ none → active ≡ none
request_quiet none ids e = refl
request_quiet (some a) ids e = ground arith

cancel_node-Inv :
    (id : ℕ) (node : MessageNode) (t : Tree)
    → Inv t
    → Inv (record {
      graph = cancelled_graph id node t.graph;
      queue = (remove id t.queue).1;
      active = request_among t.active (id ∷ []);
    })
unfolding discard contains
cancel_node-Inv id node t inv =
    let (indexed, _, deque) = remove_lem id t.queue inv.indexed in
    record {
      indexed = indexed;
      idle_empty = λ quiet.
          deque ∙ ap (discard id) (inv.idle_empty (request_quiet t.active (id ∷ []) quiet));
      queued = rw deque (cancelled-AllPending id node t.graph t.queue.deque inv.queued);
      proper = rw deque (ground (arith, contains-discard id 0 t.queue.deque, inv.proper));
    }

-- An answer that is computed last does not change the state.
answer-Keeps :
    {A B C : Type 0} (answer : A → B → C) (first : Option A) (second : Option B) (t : Tree)
    → Inv t
    → Keeps (first >>= λ a. second >>= λ b. some (answer a b, t))
answer-Keeps answer none second t inv = tt
answer-Keeps answer (some a) none t inv = tt
answer-Keeps answer (some a) (some b) t inv = inv

requested-Inv :
    (id : ℕ) (t : Tree) → Inv t → Inv (record t { active = request_among t.active (id ∷ []) })
requested-Inv id t inv = record {
  indexed = inv.indexed;
  idle_empty = λ quiet. inv.idle_empty (request_quiet t.active (id ∷ []) quiet);
  queued = inv.queued;
  proper = inv.proper;
}

pub cancel_node-Keeps : (id : ℕ) (t : Tree) → Inv t → Keeps (cancel_node id t)
unfolding cancel_node
cancel_node-Keeps id t inv = elim (Option-cases (get_node id t.graph)) [
  | inl absent ↦ rw (absent, cancel_node) (requested-Inv id t inv)
  | inr (node, found) ↦
      rw (found, cancel_node)
        (answer-Keeps _ (cancelled_target node (not (is_none (active_among t.active (id ∷ [])))))
          (updated_queue (remove id t.queue).0 _) _ (cancel_node-Inv id node t inv))
]

drained-Inv :
    (g : Graph) (q : Queue) (active : Option ActiveClaim)
    → Inv (record { graph = g; queue = (drain q).1; active = active })
unfolding drain contains
drained-Inv g q active = record {
  indexed = record { distinct = tt; mirrors = λ i. refl };
  idle_empty = λ _. refl;
  queued = tt;
  proper = refl;
}

-- Whatever three steps compute, the tree that they leave has an empty queue.
stopped-Keeps :
    {A B C D : Type 0} (answer : A → B → C → D) (graph : A → B → C → Graph) (q : Queue)
    (active : Option ActiveClaim) (first : Option A) (second : A → Option B)
    (third : A → B → Option C)
    → Keeps (
        first >>= λ a. second a >>= λ b. third a b >>= λ c.
        some (answer a b c, record { graph = graph a b c; queue = (drain q).1; active = active }))
stopped-Keeps answer graph q active none second third = tt
stopped-Keeps answer graph q active (some a) second third = elim (Option-cases (second a)) [
  | inl e ↦ rw e tt
  | inr (b, e) ↦ elim (Option-cases (third a b)) [
    | inl f ↦ rw (e, f) tt
    | inr (c, f) ↦ rw (e, f) (drained-Inv (graph a b c) q active)
  ]
]

pub cancel_all-Keeps : (t : Tree) → Keeps (cancel_all t)
unfolding cancel_all
cancel_all-Keeps t =
    stopped-Keeps {B = (List NodeUiTarget × List ℕ) × Graph} {C = List NodeUiTarget × Graph}
      (λ first second third. record {
        nodes = first.0.0 ++ (second.0.0 ++ third.0);
        active_claim = claim_of t.active;
        queue_update = emptied (drain t.queue).0;
      })
      (λ first second third. third.1) t.queue (request_all t.active)
      (cancel_active t.active t.graph) (λ first. cancel_queued (drain t.queue).0 first.0.1 first.1)
      (λ first second. cancel_remaining second.1.nodes second.0.1 second.1)
