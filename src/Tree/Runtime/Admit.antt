-- ===== src/Tree/Runtime/Admit.antt =====
-- messaging/trees/runtime.py: admission to the tree, and the choice of the next claim.
use agentic_model_gateway.Base.{ℕ, zero, suc, Option, none, some, List, ◌==◌, if◌then◌else◌}
use agentic_model_gateway.Tree.Node.{MessageNode, is_pending}
use agentic_model_gateway.Tree.Queue.{put, pop, qsize}
use agentic_model_gateway.Tree.Graph.{Graph, get_node, Reply, add_node}
use agentic_model_gateway.Tree.Runtime.State.{
  NodeClaim, Tree, QueueEntry, ◌>>=◌, queue_entries, claim_node, is_active,
}

pub data AdmissionRejection : Type 0 where
  duplicate parent_removed : AdmissionRejection

pub record QueueDecision : Type 0 where
  pub claim : Option NodeClaim
  pub position : Option ℕ
  pub snapshot : Option Graph
  pub rejection : Option AdmissionRejection

abbrev pub rejected : QueueDecision
rejected = record { claim = none; position = none; snapshot = none; rejection = some duplicate }

-- A node that is pending, while another claim is active or none is.
unfoldable pub admit_pending : ℕ → ℕ → MessageNode → Tree → Option (QueueDecision × Tree)
unfolding claim_node put qsize
admit_pending claim_id id node t = elim t.active [
  | none ↦ do
    (claim, t') ← claim_node claim_id id node t
    some (
      record { claim = some claim; position = none; snapshot = some t'.graph; rejection = none },
      t',
    )
  | some active ↦
      let (changed, queue) = put id t.queue in
      if changed
      then some (
        record {
          claim = none;
          position = some (qsize queue);
          snapshot = some t.graph;
          rejection = none;
        },
        record t { queue = queue },
      )
      else some (rejected, t)
]

unfoldable pub enqueue_or_claim : ℕ → ℕ → Tree → Option (QueueDecision × Tree)
unfolding get_node admit_pending
enqueue_or_claim claim_id id t = elim (get_node id t.graph) [
  | none ↦ some (rejected, t)
  | some node ↦
      if is_pending node.state then admit_pending claim_id id node t else some (rejected, t)
]

unfoldable pub add_and_enqueue : ℕ → Reply → Tree → Option (QueueDecision × Tree)
unfolding add_node enqueue_or_claim
add_and_enqueue claim_id r t = do
  graph ← add_node r t.graph
  enqueue_or_claim claim_id r.node_id (record t { graph = graph })

-- A popped identifier is claimed if its node is pending, and passed over (`again`) if not.
unfoldable pub serve_node :
    ℕ
    → ℕ
    → Option MessageNode
    → Tree
    → Option (Option NodeClaim × Tree)
    → Option (Option NodeClaim × Tree)
unfolding claim_node
serve_node claim_id id none t again = again
serve_node claim_id id (some node) t again =
    if is_pending node.state
    then (do (claim, t') ← claim_node claim_id id node t; some (some claim, t'))
    else again

-- The loop's test is the truth of what `pop` returns: it ends at the end of the queue.
unfoldable pub serve :
    ℕ → Option ℕ → Tree → Option (Option NodeClaim × Tree) → Option (Option NodeClaim × Tree)
unfolding serve_node get_node
serve claim_id none t again = some (none, t)
serve claim_id (some id) t again =
    if id == 0 then some (none, t) else serve_node claim_id id (get_node id t.graph) t again

-- The loop of `finish_and_claim_next`, with the length of the queue as fuel.
unfoldable pub claim_next : ℕ → ℕ → Tree → Option (Option NodeClaim × Tree)
unfolding pop serve
claim_next zero claim_id t = some (none, t)
claim_next (suc fuel) claim_id t =
    let (item, queue) = pop t.queue in
    let popped = record t { queue = queue } in
    let again = claim_next fuel claim_id popped in serve claim_id item popped again

unfoldable pub finish_and_claim_next :
    ℕ → ℕ → Tree → Option ((Option NodeClaim × List QueueEntry) × Tree)
unfolding claim_next queue_entries qsize
finish_and_claim_next fresh claim_id t =
    if is_active t.active claim_id
    then (do
      (next_claim, t') ← claim_next (qsize t.queue) fresh (record t { active = none })
      entries ← queue_entries t'
      some ((next_claim, entries), t'))
    else (do entries ← queue_entries t; some ((none, entries), t))
