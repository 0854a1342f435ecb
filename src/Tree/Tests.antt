-- ===== src/Tree/Tests.antt =====
-- The theorems on the tree and its queue at concrete trees.
use agentic_model_gateway.Base.{
  ℕ, ◌+◌, ◌≡◌, refl, false, Option, none, some, List, [], ◌∷◌, ◌++◌, not, contains, discard,
  if◌then◌else◌, arith,
}
use agentic_model_gateway.Tree.Node.{MessageScope, MessageNode, pending, in_progress, update_state}
use agentic_model_gateway.Tree.Queue.{put, pop, remove, drain, new_queue, empty}
use agentic_model_gateway.Tree.Queue.Laws.{IsIndexed, oldest, younger, queue_refines_list}
use agentic_model_gateway.Tree.Graph.{get_node, modify_node, Reply, remove_nodes, clear_status}
use agentic_model_gateway.Tree.Runtime.State.{
  NodeClaim, ActiveClaim, Tree, QueueEntry, queue_entries,
}
use agentic_model_gateway.Tree.Runtime.Admit.{
  enqueue_or_claim, add_and_enqueue, finish_and_claim_next, claim_next,
}
use agentic_model_gateway.Tree.Runtime.Cancel.{cancel_all, cancel_node, remove_message_subtree}
use agentic_model_gateway.Tree.Runtime.Invariant.{Inv, pending_at}
use agentic_model_gateway.Tree.Runtime.Oldest.{finish_claims_oldest}
use agentic_model_gateway.Tree.Runtime.Calls.{
  Call, admits, replies, removes, apply_all, AllNamed, apply_all-Inv,
}
use agentic_model_gateway.Tree.Runtime.Hidden.{hidden_claim_raises}

abbrev scope : MessageScope
scope = record { platform = 1; chat_id = 2 }

abbrev root : MessageNode
root = record {
  node_id = 10;
  scope = scope;
  prompt = 100;
  status_message_id = some 11;
  state = pending;
  parent_id = none;
  parent_reference_id = none;
  session_id = none;
  children_ids = [];
}

abbrev reply : ℕ → ℕ → Reply
reply id parent = record {
  node_id = id;
  scope = scope;
  prompt = 200;
  status_message_id = id + 1;
  parent_id = parent;
  parent_reference_id = parent;
}

abbrev start : Tree
start = record {
  graph = record {
    identity = record { scope = scope; root_id = 10 };
    nodes = (10, root) ∷ [];
    status_to_node = (11, 10) ∷ [];
  };
  queue = empty;
  active = none;
}

program : Unit {0}
unfolding apply_all remove_message_subtree cancel_all cancel_node pending_at contains modify_node
    put enqueue_or_claim add_and_enqueue remove_nodes clear_status claim_next queue_entries
program = tt

-- The root runs, and two replies wait.
abbrev admissions : List Call
admissions = admits 1 10 ∷ replies 2 (reply 20 10) ∷ replies 3 (reply 30 20) ∷ []

abbrev or_start : Option Tree → Tree
or_start none = start
or_start (some t) = t

abbrev waiting : Tree
unfolding program
waiting = or_start (apply_all admissions start)

waiting_applied : apply_all admissions start ≡ some waiting
unfolding program
waiting_applied = refl

start-Inv : Inv start
unfolding program
start-Inv = record {
  indexed = record { distinct = tt; mirrors = λ i. refl };
  idle_empty = λ e. refl;
  queued = tt;
  proper = refl;
}

admissions_named : AllNamed admissions
admissions_named = (λ e. omega arith, (λ e. omega arith, (λ e. omega arith, tt)))

queue_refines_list_example :
    IsIndexed (new_queue (20 ∷ 20 ∷ []))
    × (IsIndexed (put 4 waiting.queue).1
        × ((put 4 waiting.queue).0 ≡ not (contains 4 waiting.queue.deque))
        × ((put 4 waiting.queue).1.deque ≡ (
            if contains 4 waiting.queue.deque
            then waiting.queue.deque
            else waiting.queue.deque ++ 4 ∷ [])))
    × (IsIndexed (pop waiting.queue).1
        × ((pop waiting.queue).0 ≡ oldest waiting.queue.deque)
        × ((pop waiting.queue).1.deque ≡ younger waiting.queue.deque))
    × (IsIndexed (remove 4 waiting.queue).1
        × ((remove 4 waiting.queue).0 ≡ contains 4 waiting.queue.deque)
        × ((remove 4 waiting.queue).1.deque ≡ discard 4 waiting.queue.deque))
    × (IsIndexed (drain waiting.queue).1
        × ((drain waiting.queue).0 ≡ waiting.queue.deque)
        × ((drain waiting.queue).1.deque ≡ []))
queue_refines_list_example =
    queue_refines_list (20 ∷ 20 ∷ []) 4 waiting.queue
      (apply_all-Inv admissions start waiting admissions_named start-Inv waiting_applied).indexed

-- The replies are removed while they wait.
abbrev with_removal : List Call
with_removal = admissions ++ removes 9 20 ∷ []

abbrev pruned : Tree
unfolding program
pruned = or_start (apply_all with_removal start)

pruned_applied : apply_all with_removal start ≡ some pruned
unfolding program
pruned_applied = refl

pruned_queue : pruned.queue.deque ≡ []
unfolding program
pruned_queue = refl

apply_all-Inv_example : Inv pruned
apply_all-Inv_example =
    apply_all-Inv with_removal start pruned
      (λ e. omega arith, (λ e. omega arith, (λ e. omega arith, (tt, tt)))) start-Inv pruned_applied

abbrev or_root : Option MessageNode → MessageNode
or_root none = root
or_root (some node) = node

abbrev oldest_node : MessageNode
unfolding program
oldest_node = or_root (get_node 20 waiting.graph)

-- The root's claim is released, and the first reply runs.
finish_claims_oldest_example :
    (claim : NodeClaim) × (entries : List QueueEntry) × (t' : Tree) × (finish_and_claim_next 4 1
        waiting
      ≡ some ((some claim, entries), t'))
    × (claim.claim_id ≡ 4)
    × (claim.node.node_id ≡ oldest_node.node_id)
    × (t'.active ≡ some (record { claim = claim; cancellation_requested = false }))
    × (t'.queue.deque ≡ 30 ∷ [])
    × (t'.graph ≡ modify_node 20 (update_state in_progress none) waiting.graph)
unfolding program
finish_claims_oldest_example =
    finish_claims_oldest 4 1 20 (30 ∷ []) waiting oldest_node
      (apply_all-Inv admissions start waiting admissions_named start-Inv waiting_applied) refl refl
      refl (refl, (refl, tt))

-- The status message of the running root is removed, while the root's claim still runs.
abbrev tree_or : {A : Type 0} → Option (A × Tree) → Tree
tree_or none = start
tree_or (some (a, t)) = t

abbrev hidden : Tree
unfolding program
hidden = tree_or (remove_message_subtree 9 11 waiting)

abbrev hidden_node : MessageNode
unfolding program
hidden_node = or_root (get_node 10 hidden.graph)

abbrev no_claim : ActiveClaim
no_claim = record {
  claim = record {
    identity = record { scope = scope; root_id = 10 };
    claim_id = 0;
    node = record { scope = scope; node_id = 0; status_message_id = 0 };
    prompt = 0;
    parent_session_id = none;
  };
  cancellation_requested = false;
}

abbrev or_no_claim : Option ActiveClaim → ActiveClaim
or_no_claim none = no_claim
or_no_claim (some a) = a

abbrev hidden_claim : ActiveClaim
unfolding program
hidden_claim = or_no_claim hidden.active

hidden_claim_raises_example : (cancel_all hidden ≡ none) × (cancel_node 10 hidden ≡ none)
unfolding program
hidden_claim_raises_example =
    hidden_claim_raises hidden hidden_claim hidden_node refl refl refl refl
