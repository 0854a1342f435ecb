-- ===== src/Tree/Runtime/Cancel.antt =====
-- messaging/trees/runtime.py: cancellation of a node, of all nodes, and of a reply subtree.
use agentic_model_gateway.Base.{
  ℕ, Bool, true, false, not, ◌&&◌, ◌||◌, Option, none, some, List, [], ◌∷◌, ◌++◌, ◌==◌, is_none,
  if◌then◌else◌, contains, add,
}
use agentic_model_gateway.Tree.Node.{
  MessageNode, is_error, is_runnable, mark_error, MessageReferenceKind, prompt, status,
}
use agentic_model_gateway.Tree.Queue.{remove, drain}
use agentic_model_gateway.Tree.Graph.{
  Graph, get_node, modify_node, resolve_reference, get_reference_descendants, remove_nodes,
  clear_status,
}
use agentic_model_gateway.Tree.Runtime.State.{
  NodeUiTarget, NodeClaim, ActiveClaim, Tree, QueueEntry, ◌>>=◌, ui_target, queue_entries,
}

pub record TreeCancellation : Type 0 where
  pub nodes : List NodeUiTarget
  pub active_claim : Option NodeClaim
  pub queue_update : Option (List QueueEntry)

-- The active claim, if it is for one of the nodes.
abbrev pub active_among : Option ActiveClaim → List ℕ → Option NodeClaim
active_among none ids = none
active_among (some a) ids = if contains a.claim.node.node_id ids then some a.claim else none

abbrev pub request_among : Option ActiveClaim → List ℕ → Option ActiveClaim
request_among none ids = none
request_among (some a) ids =
    if contains a.claim.node.node_id ids
    then some (record a { cancellation_requested = true })
    else some a

-- The coordinates of a node that is cancelled: it was runnable, or failed under the active claim.
abbrev pub cancelled_target : MessageNode → Bool → Option (List NodeUiTarget)
cancelled_target node claimed =
    if is_runnable node.state || (is_error node.state && claimed)
    then (do target ← ui_target node; some (target ∷ []))
    else some []

abbrev pub cancelled_graph : ℕ → MessageNode → Graph → Graph
cancelled_graph id node g = if is_runnable node.state then modify_node id mark_error g else g

abbrev pub updated_queue : Bool → Tree → Option (Option (List QueueEntry))
updated_queue false t = some none
updated_queue true t = do entries ← queue_entries t; some (some entries)

unfoldable pub cancel_node : ℕ → Tree → Option (TreeCancellation × Tree)
unfolding get_node remove contains
cancel_node id t =
    let active_claim = active_among t.active (id ∷ []) in
    let requested = record t { active = request_among t.active (id ∷ []) } in
    elim (get_node id t.graph) [
      | none ↦
          some (record { nodes = []; active_claim = active_claim; queue_update = none }, requested)
      | some node ↦
          let (changed, queue) = remove id t.queue in
          let t' = record requested { queue = queue; graph = cancelled_graph id node t.graph } in
          do
            nodes ← cancelled_target node (not (is_none active_claim))
            queue_update ← updated_queue changed t'
            some (
              record { nodes = nodes; active_claim = active_claim; queue_update = queue_update },
              t',
            )
    ]

-- The queued nodes that `cancel_all` cancels, with the nodes that it has seen.
unfoldable pub cancel_queued :
    List ℕ → List ℕ → Graph → Option ((List NodeUiTarget × List ℕ) × Graph)
unfolding get_node ui_target
cancel_queued [] seen g = some (([], seen), g)
cancel_queued (id ∷ ids) seen g = elim (get_node id g) [
  | none ↦ cancel_queued ids seen g
  | some node ↦
      let skipped = cancel_queued ids seen g in
      let later = cancel_queued ids (add id seen) (modify_node id mark_error g) in
      if is_runnable node.state
      then (do target ← ui_target node; rest ← later; some ((target ∷ rest.0.0, rest.0.1), rest.1))
      else skipped
]

-- The nodes that were neither active nor queued. A node object is looked up as it is by now.
unfoldable pub cancel_remaining :
    List (ℕ × MessageNode) → List ℕ → Graph → Option (List NodeUiTarget × Graph)
unfolding get_node ui_target contains
cancel_remaining [] seen g = some ([], g)
cancel_remaining ((id, old) ∷ nodes) seen g = elim (get_node id g) [
  | none ↦ cancel_remaining nodes seen g
  | some node ↦
      let skipped = cancel_remaining nodes seen g in
      let later = cancel_remaining nodes seen (modify_node id mark_error g) in
      if contains node.node_id seen || not (is_runnable node.state)
      then skipped
      else (do target ← ui_target node; rest ← later; some (target ∷ rest.0, rest.1))
]

-- The active node: its coordinates where it was runnable or has failed, and what was seen.
unfoldable pub cancel_active :
    Option ActiveClaim → Graph → Option ((List NodeUiTarget × List ℕ) × Graph)
unfolding get_node ui_target
cancel_active none g = some (([], []), g)
cancel_active (some a) g = elim (get_node a.claim.node.node_id g) [
  | none ↦ some (([], []), g)
  | some node ↦ do
    nodes ← cancelled_target node true
    some ((nodes, node.node_id ∷ []), cancelled_graph a.claim.node.node_id node g)
]

abbrev pub claim_of : Option ActiveClaim → Option NodeClaim
claim_of none = none
claim_of (some a) = some a.claim

abbrev pub request_all : Option ActiveClaim → Option ActiveClaim
request_all none = none
request_all (some a) = some (record a { cancellation_requested = true })

abbrev pub emptied : List ℕ → Option (List QueueEntry)
emptied [] = none
emptied (id ∷ ids) = some []

unfoldable pub cancel_all : Tree → Option (TreeCancellation × Tree)
unfolding cancel_active cancel_queued cancel_remaining drain
cancel_all t = do
  first ← cancel_active t.active t.graph
  let drained = drain t.queue
  second ← cancel_queued drained.0 first.0.1 first.1
  third ← cancel_remaining second.1.nodes second.0.1 second.1
  some (
    record {
      nodes = first.0.0 ++ (second.0.0 ++ third.0);
      active_claim = claim_of t.active;
      queue_update = emptied drained.0;
    },
    record { graph = third.1; queue = drained.1; active = request_all t.active },
  )

pub record MessageSubtreeRemoval : Type 0 where
  pub cancellation : TreeCancellation
  pub removed_message_ids : List ℕ
  pub removed_entire_tree : Bool

-- The node identifiers among references.
unfoldable pub known_nodes : Graph → List ℕ → List ℕ
unfolding get_node
known_nodes g [] = []
known_nodes g (id ∷ ids) =
    if is_none (get_node id g) then known_nodes g ids else id ∷ known_nodes g ids

abbrev pub claims : Option NodeClaim → ℕ → Bool
claims none id = false
claims (some c) id = c.node.node_id == id

-- The loop over the affected nodes. It cancels one node after the other, and takes each from the queue.
unfoldable pub cancel_affected :
    Option NodeClaim → List ℕ → Tree → Option ((List NodeUiTarget × Bool) × Tree)
unfolding get_node remove
cancel_affected active_claim [] t = some (([], false), t)
cancel_affected active_claim (id ∷ ids) t = elim (get_node id t.graph) [
  | none ↦ cancel_affected active_claim ids t
  | some node ↦
      let (changed, queue) = remove id t.queue in
      let t' = record t { queue = queue; graph = cancelled_graph id node t.graph } in
      let later = cancel_affected active_claim ids t' in
      do
        nodes ← cancelled_target node (claims active_claim id)
        rest ← later
        some ((nodes ++ rest.0.0, changed || rest.0.1), rest.1)
]

abbrev pub with_owner : MessageReferenceKind → ℕ → List ℕ → List ℕ
with_owner prompt owner ids = ids
with_owner status owner ids = add owner ids

abbrev pub cleared : MessageReferenceKind → ℕ → Graph → Graph
cleared prompt owner g = g
cleared status owner g = clear_status owner g

pub nothing_removed : MessageSubtreeRemoval
nothing_removed = record {
  cancellation = record { nodes = []; active_claim = none; queue_update = none };
  removed_message_ids = [];
  removed_entire_tree = false;
}

unfoldable pub remove_resolved :
    List ℕ → MessageNode → MessageReferenceKind → Tree → Option (MessageSubtreeRemoval × Tree)
unfolding known_nodes cancel_affected
remove_resolved references owner kind t =
    let removed = known_nodes t.graph references in
    let affected = with_owner kind owner.node_id removed in
    let active_claim = active_among t.active affected in
    do
      (cancelled, t') ←
          cancel_affected active_claim affected
            (record t { active = request_among t.active affected })
      let remaining : Tree = record t' {
        graph = remove_nodes removed (cleared kind owner.node_id t'.graph);
      }
      queue_update ← updated_queue cancelled.1 remaining
      some (
        record {
          cancellation = record {
            nodes = cancelled.0;
            active_claim = active_claim;
            queue_update = queue_update;
          };
          removed_message_ids = references;
          removed_entire_tree = contains t.graph.identity.root_id removed;
        },
        remaining,
      )

-- The outer `none` is a ValueError or that the fuel of the subtree's walk is used up.
unfoldable pub remove_message_subtree : ℕ → ℕ → Tree → Option (MessageSubtreeRemoval × Tree)
unfolding nothing_removed remove_resolved get_reference_descendants resolve_reference
remove_message_subtree fuel reference t = do
  references ← get_reference_descendants fuel reference t.graph
  elim (resolve_reference reference t.graph) [
    | none ↦ some (nothing_removed, t)
    | some (owner, kind) ↦ elim references [
      | [] ↦ some (nothing_removed, t)
      | id ∷ ids ↦ remove_resolved (id ∷ ids) owner kind t
    ]
  ]
