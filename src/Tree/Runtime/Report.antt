-- ===== src/Tree/Runtime/Report.antt =====
-- messaging/trees/runtime.py: what a runner reports of its claim, replies, and a restored tree.
use agentic_model_gateway.Base.{
  ℕ, ◌+◌, Bool, true, false, not, ◌&&◌, ◌||◌, Option, none, some, List, [], ◌∷◌, ◌++◌, ◌==◌,
  is_none, if◌then◌else◌,
}
use agentic_model_gateway.Tree.Node.{
  MessageNode, MessageState, in_progress, completed, error, is_pending, is_error, is_runnable,
  update_state, mark_error, MessageReferenceKind,
}
use agentic_model_gateway.Tree.Queue.{qsize, remove, empty}
use agentic_model_gateway.Tree.Graph.{
  Graph, get_node, modify_node, resolve_reference, get_descendants,
}
use agentic_model_gateway.Tree.Runtime.State.{
  NodeUiTarget, ActiveClaim, Tree, QueueEntry, ◌>>=◌, ui_target,
}
use agentic_model_gateway.Tree.Runtime.Cancel.{updated_queue}

-- The claim is the active one, and nobody has asked to cancel it.
abbrev pub is_live : Option ActiveClaim → ℕ → Bool
is_live none claim_id = false
is_live (some a) claim_id = (a.claim.claim_id == claim_id) && not a.cancellation_requested

abbrev pub is_in_progress : MessageState → Bool
is_in_progress in_progress = true
is_in_progress _ = false

abbrev pub may_complete : MessageState → Bool
may_complete in_progress = true
may_complete error = true
may_complete _ = false

abbrev pub is_completed : MessageState → Bool
is_completed completed = true
is_completed _ = false

-- A change of a node that was recorded, with the snapshot, or no change and no snapshot.
abbrev pub recorded : Bool → ℕ → (MessageNode → MessageNode) → Tree → Option Graph × Tree
recorded false id f t = (none, t)
recorded true id f t =
    let graph = modify_node id f t.graph in (some graph, record t { graph = graph })

abbrev pub on_node :
    Option MessageNode
    → ℕ
    → (MessageState → Bool)
    → (MessageNode → MessageNode)
    → Tree
    → Option Graph × Tree
on_node none id accepts f t = (none, t)
on_node (some node) id accepts f t = recorded (accepts node.state) id f t

-- A change of the active claim's node, if its state accepts it.
unfoldable pub on_claim :
    Option ActiveClaim
    → (MessageState → Bool)
    → (MessageNode → MessageNode)
    → Tree
    → Option Graph × Tree
unfolding get_node
on_claim none accepts f t = (none, t)
on_claim (some a) accepts f t =
    on_node (get_node a.claim.node.node_id t.graph) a.claim.node.node_id accepts f t

unfoldable pub record_session : ℕ → ℕ → Tree → Option Graph × Tree
unfolding on_claim
record_session claim_id session_id t =
    if is_live t.active claim_id
    then on_claim t.active is_in_progress (update_state in_progress (some session_id)) t
    else (none, t)

unfoldable pub complete_claim : ℕ → Option ℕ → Tree → Option Graph × Tree
unfolding on_claim
complete_claim claim_id session_id t =
    if is_live t.active claim_id
    then on_claim t.active may_complete (update_state completed session_id) t
    else (none, t)

pub record FailureResult : Type 0 where
  pub affected : List NodeUiTarget
  pub queue_update : Option (List QueueEntry)
  pub snapshot : Option Graph

abbrev pub no_failure : FailureResult
no_failure = record { affected = []; queue_update = none; snapshot = none }

-- The pending nodes among descendants fail, and leave the queue.
unfoldable pub fail_pending : List ℕ → Tree → Option ((List NodeUiTarget × Bool) × Tree)
unfolding get_node ui_target remove
fail_pending [] t = some (([], false), t)
fail_pending (id ∷ ids) t = elim (get_node id t.graph) [
  | none ↦ fail_pending ids t
  | some child ↦
      let skipped = fail_pending ids t in
      let (changed, queue) = remove child.node_id t.queue in
      let later =
        fail_pending ids (record t { queue = queue; graph = modify_node id mark_error t.graph }) in
      if is_pending child.state
      then (do
        target ← ui_target child
        rest ← later
        some ((target ∷ rest.0.0, changed || rest.0.1), rest.1))
      else skipped
]

-- The node itself, unless it has failed already.
unfoldable pub fail_node : ℕ → MessageNode → Tree → Option (List NodeUiTarget × Tree)
unfolding ui_target
fail_node id node t = if is_error node.state then some ([], t) else (do
  target ← ui_target node
  some (target ∷ [], record t { graph = modify_node id mark_error t.graph }))

abbrev tail_of : List ℕ → List ℕ
tail_of [] = []
tail_of (id ∷ ids) = ids

unfoldable pub fail_descendants : ℕ → Bool → ℕ → Tree → Option ((List NodeUiTarget × Bool) × Tree)
unfolding fail_pending get_descendants
fail_descendants fuel false id t = some (([], false), t)
fail_descendants fuel true id t = do
  descendants ← get_descendants fuel id t.graph
  fail_pending (tail_of descendants) t

unfoldable pub fail_active : ℕ → Bool → ℕ → MessageNode → Tree → Option (FailureResult × Tree)
unfolding fail_node fail_descendants
fail_active fuel propagate id node t =
    if is_completed node.state
    then some (record { affected = []; queue_update = none; snapshot = some t.graph }, t)
    else (do
      own ← fail_node id node t
      others ← fail_descendants fuel propagate node.node_id own.1
      queue_update ← updated_queue others.0.1 others.1
      some (
        record {
          affected = own.0 ++ others.0.0;
          queue_update = queue_update;
          snapshot = some others.1.graph;
        },
        others.1,
      ))

-- The outer `none` is a ValueError or that the fuel of the walk over descendants is used up.
unfoldable pub fail_claim : ℕ → ℕ → Bool → Tree → Option (FailureResult × Tree)
unfolding get_node fail_active
fail_claim fuel claim_id propagate t =
    if is_live t.active claim_id
    then elim t.active [
      | none ↦ some (no_failure, t)
      | some a ↦ elim (get_node a.claim.node.node_id t.graph) [
        | none ↦ some (no_failure, t)
        | some node ↦ fail_active fuel propagate a.claim.node.node_id node t
      ]
    ]
    else some (no_failure, t)

pub record ReplyTarget : Type 0 where
  pub node_id : ℕ
  pub reference_id : ℕ
  pub reference_kind : MessageReferenceKind
  pub queue_position : Option ℕ

unfoldable pub resolve_reply : ℕ → Tree → Option ReplyTarget
unfolding resolve_reference qsize
resolve_reply reference t = elim (resolve_reference reference t.graph) [
  | none ↦ none
  | some (node, kind) ↦ some (record {
    node_id = node.node_id;
    reference_id = reference;
    reference_kind = kind;
    queue_position = if is_none t.active then none else some (qsize t.queue + 1);
  })
]

-- `from_snapshot` after the graph is rebuilt: what was runnable is interrupted.
unfoldable pub reconcile : List (ℕ × MessageNode) → Graph → Option (List NodeUiTarget × Graph)
unfolding ui_target
reconcile [] g = some ([], g)
reconcile ((id, node) ∷ nodes) g =
    let skipped = reconcile nodes g in
    let later = reconcile nodes (modify_node id mark_error g) in
    if is_runnable node.state
    then (do target ← ui_target node; rest ← later; some (target ∷ rest.0, rest.1))
    else skipped

unfoldable pub restore : Graph → Option (List NodeUiTarget × Tree)
unfolding reconcile
restore graph = do
  (stale, g) ← reconcile graph.nodes graph
  some (stale, record { graph = g; queue = empty; active = none })
