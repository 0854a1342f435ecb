-- ===== src/Tree/Runtime/Hidden.antt =====
-- A claim whose node has lost its status message, as the removal of a status message leaves it while
-- the claim still runs.
use agentic_model_gateway.Base.{◌≡◌, refl, true, false, none, some, contains, arith, ==_refl}
use agentic_model_gateway.Tree.Node.{MessageNode, is_error, is_runnable, MessageState}
use agentic_model_gateway.Tree.Graph.{get_node}
use agentic_model_gateway.Tree.Runtime.State.{ActiveClaim, Tree, ui_target}
use agentic_model_gateway.Tree.Runtime.Cancel.{cancel_node, cancel_all, cancel_active}

error_not_runnable : (s : MessageState) → is_error s ≡ true → is_runnable s ≡ false
error_not_runnable s h = ground arith

-- While the active claim's node is in ERROR without a status message, `cancel_all` raises a ValueError,
-- and so does `cancel_node` of that node.
pub hidden_claim_raises :
    (t : Tree) (a : ActiveClaim) (node : MessageNode)
    → t.active ≡ some a
    → get_node a.claim.node.node_id t.graph ≡ some node
    → is_error node.state ≡ true
    → node.status_message_id ≡ none
    → (cancel_all t ≡ none) × (cancel_node a.claim.node.node_id t ≡ none)
unfolding cancel_all cancel_node cancel_active ui_target contains
hidden_claim_raises t a node own found failed hidden = (
  rw (own, cancel_active, found) (rw (failed, error_not_runnable node.state failed, hidden) refl),
  rw (cancel_node, found, own, ==_refl (a.claim.node.node_id))
      (rw (failed, error_not_runnable node.state failed, hidden) refl),
)
