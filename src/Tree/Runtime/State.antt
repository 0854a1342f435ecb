-- ===== src/Tree/Runtime/State.antt =====
-- messaging/trees/runtime.py: the aggregate's state, and the claim of a node.
use agentic_model_gateway.Base.{
  ℕ, ◌+◌, Bool, false, Option, none, some, List, [], ◌∷◌, ◌==◌, if◌then◌else◌,
}
use agentic_model_gateway.Tree.Node.{
  MessageScope, TreeIdentity, MessageNode, in_progress, is_pending, update_state,
}
use agentic_model_gateway.Tree.Queue.{Queue, items}
use agentic_model_gateway.Tree.Graph.{Graph, get_node, modify_node, get_parent_session_id}

pub record NodeUiTarget : Type 0 where
  pub scope : MessageScope
  pub node_id : ℕ
  pub status_message_id : ℕ

pub record NodeClaim : Type 0 where
  pub identity : TreeIdentity
  pub claim_id : ℕ
  pub node : NodeUiTarget
  pub prompt : ℕ
  pub parent_session_id : Option ℕ

pub record ActiveClaim : Type 0 where
  pub claim : NodeClaim
  pub cancellation_requested : Bool

pub record Tree : Type 0 where
  pub graph : Graph
  pub queue : Queue
  pub active : Option ActiveClaim

pub record QueueEntry : Type 0 where
  pub node : NodeUiTarget
  pub position : ℕ

infixl 5 ◌>>=◌
abbrev pub ◌>>=◌ {ℓ κ} : {A : Type ℓ} {B : Type κ} → Option A → (A → Option B) → Option B
none >>= f = none
some a >>= f = f a

unfoldable pub ui_target : MessageNode → Option NodeUiTarget
ui_target node = elim node.status_message_id [
  | none ↦ none
  | some s ↦ some (record { scope = node.scope; node_id = node.node_id; status_message_id = s })
]

-- `_queue_entries`, from a position on.
unfoldable pub queue_entries_from : Graph → ℕ → List ℕ → Option (List QueueEntry)
unfolding get_node ui_target
queue_entries_from g position [] = some []
queue_entries_from g position (id ∷ ids) = elim (get_node id g) [
  | none ↦ queue_entries_from g position ids
  | some node ↦
      let skipped = queue_entries_from g position ids in
      let later = queue_entries_from g (position + 1) ids in
      if is_pending node.state
      then (do
        target ← ui_target node
        rest ← later
        some (record { node = target; position = position } ∷ rest))
      else skipped
]

unfoldable pub queue_entries : Tree → Option (List QueueEntry)
unfolding queue_entries_from items
queue_entries t = queue_entries_from t.graph 1 (items t.queue)

-- `_claim`, of the node object under the identifier.
unfoldable pub claim_node : ℕ → ℕ → MessageNode → Tree → Option (NodeClaim × Tree)
unfolding ui_target update_state modify_node get_parent_session_id
claim_node claim_id id node t = do
  target ← ui_target node
  let graph = modify_node id (update_state in_progress none) t.graph
  let claim : NodeClaim = record {
    identity = t.graph.identity;
    claim_id = claim_id;
    node = target;
    prompt = node.prompt;
    parent_session_id = get_parent_session_id node.node_id graph;
  }
  some (
    claim,
    record t {
      graph = graph;
      active = some (record { claim = claim; cancellation_requested = false });
    },
  )

-- The claim is the active one.
abbrev pub is_active : Option ActiveClaim → ℕ → Bool
is_active none claim_id = false
is_active (some a) claim_id = a.claim.claim_id == claim_id
