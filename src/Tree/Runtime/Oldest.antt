-- ===== src/Tree/Runtime/Oldest.antt =====
-- Which node runs when a claim is released.
use agentic_model_gateway.Base.{
  ℕ, suc, ◌+◌, ◌≡◌, refl, ap, subst, Bool, true, false, not, Option, none, some, List, [], ◌∷◌,
  is_none, length, contains, inl, inr, arith, Bool-cases, Option-cases, ==_ne,
}
use agentic_model_gateway.Tree.Node.{MessageNode, in_progress, is_pending, update_state}
use agentic_model_gateway.Tree.Queue.{Queue, pop, qsize, items}
use agentic_model_gateway.Tree.Queue.Laws.{IsIndexed, pop_any, pop_any}
use agentic_model_gateway.Tree.Graph.{Graph, get_node, modify_node, get_parent_session_id}
use agentic_model_gateway.Tree.Runtime.State.{
  NodeClaim, Tree, QueueEntry, ui_target, queue_entries, queue_entries_from, claim_node, is_active,
}
use agentic_model_gateway.Tree.Runtime.Admit.{claim_next, serve, serve_node, finish_and_claim_next}
use agentic_model_gateway.Tree.Runtime.Invariant.{pending_at, get_node-modify_node, AllPending, Inv}
use agentic_model_gateway.Tree.Runtime.Claims.{head_proper}

-- The node, if it is there, has a status message.
abbrev pub is_shown : Option MessageNode → Bool
is_shown none = true
is_shown (some node) = not (is_none node.status_message_id)

abbrev pub AllShown : Graph → List ℕ → Type 0
AllShown g [] = Unit
AllShown g (i ∷ ids) = (is_shown (get_node i g) ≡ true) × AllShown g ids

AllShown-modify_node :
    (k : ℕ) (g : Graph) (ids : List ℕ)
    → AllShown g ids
    → AllShown (modify_node k (update_state in_progress none) g) ids
unfolding update_state
AllShown-modify_node k g [] h = tt
AllShown-modify_node k g (i ∷ ids) h = ground (
  arith,
  get_node-modify_node k i (update_state in_progress none) g,
  AllShown-modify_node k g ids h.1,
)

-- No entry of the queue raises.
queue_entries_total :
    (g : Graph) (position : ℕ) (ids : List ℕ)
    → AllShown g ids
    → (entries : List QueueEntry) × (queue_entries_from g position ids ≡ some entries)
unfolding queue_entries_from ui_target
queue_entries_total g position [] h = ([], refl)
queue_entries_total g position (i ∷ ids) h =
    let (same, e) = queue_entries_total g position ids h.1 in
    let (later, f) = queue_entries_total g (position + 1) ids h.1 in
    elim (Option-cases (get_node i g)) [
      | inl absent ↦ (same, rw (absent, queue_entries_from) e)
      | inr (node, found) ↦ elim (Bool-cases (is_pending node.state)) [
        | inl p ↦ elim (Option-cases node.status_message_id) [
          | inl hidden ↦ absurd (cc (h.0))
          | inr (s, shown) ↦ (
            record {
              node = record { scope = node.scope; node_id = node.node_id; status_message_id = s };
              position = position;
            }
                ∷ later,
            rw (found, queue_entries_from) (rw (p, shown, f) refl),
          )
        ]
        | inr p ↦ (same, rw (found, queue_entries_from) (rw p e))
      ]
    ]

-- The claim of a node that has a status message, and the tree with it.
module _ (fresh id s : ℕ) (t : Tree) (node : MessageNode) where
  abbrev claimed_graph : Graph
  claimed_graph = modify_node id (update_state in_progress none) t.graph

  abbrev made_claim : NodeClaim
  made_claim = record {
    identity = t.graph.identity;
    claim_id = fresh;
    node = record { scope = node.scope; node_id = node.node_id; status_message_id = s };
    prompt = node.prompt;
    parent_session_id = get_parent_session_id node.node_id claimed_graph;
  }

  abbrev claimed_tree : Tree
  claimed_tree = record {
    graph = claimed_graph;
    queue = (pop t.queue).1;
    active = some (record { claim = made_claim; cancellation_requested = false });
  }

  claim_next_head :
      (fuel : ℕ) (rest : List ℕ)
      → IsIndexed t.queue
      → contains 0 (id ∷ rest) ≡ false
      → t.queue.deque ≡ id ∷ rest
      → get_node id t.graph ≡ some node
      → is_pending node.state ≡ true
      → node.status_message_id ≡ some s
      → claim_next (suc fuel) fresh (record t { active = none })
        ≡ some (some made_claim, claimed_tree)
  unfolding claim_next serve serve_node claim_node ui_target
  claim_next_head fuel rest indexed proper queue found waiting shown =
      let (_, item, _) = pop_any t.queue (id ∷ rest) indexed queue in
      rw (item, claim_next, serve)
        (rw (==_ne id 0 (λ z. head_proper id rest z proper), found, waiting, shown) refl)

qsize_eq : (q : Queue) (xs : List ℕ) → q.deque ≡ xs → qsize q ≡ length xs
unfolding qsize
qsize_eq q xs e = ap length e

pending_state :
    (id : ℕ) (node : MessageNode) (g : Graph)
    → get_node id g ≡ some node
    → pending_at g id ≡ true
    → is_pending node.state ≡ true
unfolding pending_at
pending_state id node g found p = ground arith

-- The oldest queued node is the next to run: when the active claim of a well-formed tree is released
-- and every queued node has its status message, the head of the queue is claimed under the fresh
-- identifier, becomes IN_PROGRESS and leaves the queue; the others keep their order, and nothing else
-- of the graph changes.
pub finish_claims_oldest :
    (fresh claim_id id : ℕ) (rest : List ℕ) (t : Tree) (node : MessageNode)
    → Inv t
    → is_active t.active claim_id ≡ true
    → t.queue.deque ≡ id ∷ rest
    → get_node id t.graph ≡ some node
    → AllShown t.graph (id ∷ rest)
    → (claim : NodeClaim) × (entries : List QueueEntry) × (t' : Tree) × (finish_and_claim_next fresh
          claim_id t
        ≡ some ((some claim, entries), t'))
      × (claim.claim_id ≡ fresh)
      × (claim.node.node_id ≡ node.node_id)
      × (t'.active ≡ some (record { claim = claim; cancellation_requested = false }))
      × (t'.queue.deque ≡ rest)
      × (t'.graph ≡ modify_node id (update_state in_progress none) t.graph)
unfolding finish_and_claim_next queue_entries items
finish_claims_oldest fresh claim_id id rest t node inv own queue found shown =
    elim (Option-cases node.status_message_id) [
      | inl hidden ↦ absurd (cc (shown.0))
      | inr (s, here) ↦
          let (_, _, deque) = pop_any t.queue (id ∷ rest) inv.indexed queue in
          let pended = subst (AllPending t.graph) queue inv.queued in
          let t' = claimed_tree fresh id s t node in
          let (entries, listed) =
            queue_entries_total t'.graph 1 (pop t.queue).1.deque
              (rw deque (AllShown-modify_node id t.graph rest shown.1)) in
          let taken =
            claim_next_head fresh id s t node (length rest) rest inv.indexed
              (subst (λ d. contains 0 d ≡ false) queue inv.proper) queue found
              (pending_state id node t.graph found pended.0) here in
          (
            made_claim fresh id s t node,
            entries,
            t',
            rw (own, qsize_eq t.queue (id ∷ rest) queue, taken, listed) refl,
            refl,
            refl,
            refl,
            deque,
            refl,
          )
    ]
