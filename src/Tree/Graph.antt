-- ===== src/Tree/Graph.antt =====
-- messaging/trees/graph.py: class MessageTreeGraph. A node object is named by its key in the
-- dictionary of nodes, and is changed there.
use agentic_model_gateway.Base.{
  ℕ, zero, suc, Bool, false, not, ◌&&◌, Option, none, some, List, [], ◌∷◌, ◌++◌, ◌==◌, is_none,
  if◌then◌else◌, lookup, insert, erase, discard,
}
use mathlib.Core.List.{reverse}
use agentic_model_gateway.Tree.Node.{
  MessageScope, same_scope, TreeIdentity, MessageNode, pending, MessageReferenceKind, prompt,
  status, clear_node_status,
}

pub record Graph : Type 0 where
  pub identity : TreeIdentity
  pub nodes : List (ℕ × MessageNode)
  pub status_to_node : List (ℕ × ℕ)

abbrev pub same_id : Option ℕ → ℕ → Bool
same_id none id = false
same_id (some s) id = s == id

abbrev index_status : Option ℕ → ℕ → List (ℕ × ℕ)
index_status none id = []
index_status (some s) id = (s, id) ∷ []

-- The constructor; `none` is its ValueError.
unfoldable pub new_graph : MessageNode → Option Graph
new_graph root =
    if same_id root.status_message_id root.node_id
    then none
    else some (record {
      identity = record { scope = root.scope; root_id = root.node_id };
      nodes = (root.node_id, root) ∷ [];
      status_to_node = index_status root.status_message_id root.node_id;
    })

unfoldable pub get_node : ℕ → Graph → Option MessageNode
unfolding lookup
get_node id g = lookup id g.nodes

-- A change of the node object, if there is one.
unfoldable pub modify_node : ℕ → (MessageNode → MessageNode) → Graph → Graph
unfolding lookup insert
modify_node id f g = elim (lookup id g.nodes) [
  | none ↦ g
  | some node ↦ record g { nodes = insert id (f node) g.nodes }
]

unfoldable pub get_parent : ℕ → Graph → Option MessageNode
unfolding get_node
get_parent id g = elim (get_node id g) [
  | none ↦ none
  | some node ↦ elim node.parent_id [
    | none ↦ none
    | some parent ↦ if parent == 0 then none else get_node parent g
  ]
]

unfoldable pub get_parent_session_id : ℕ → Graph → Option ℕ
unfolding get_parent
get_parent_session_id id g = elim (get_parent id g) [
  | none ↦ none
  | some parent ↦ parent.session_id
]

unfoldable pub find_node_by_status_message : ℕ → Graph → Option MessageNode
unfolding get_node
find_node_by_status_message status_id g = elim (lookup status_id g.status_to_node) [
  | none ↦ none
  | some id ↦ if id == 0 then none else get_node id g
]

unfoldable pub resolve_reference : ℕ → Graph → Option (MessageNode × MessageReferenceKind)
unfolding find_node_by_status_message
resolve_reference reference g = elim (get_node reference g) [
  | some node ↦ some (node, prompt)
  | none ↦ elim (find_node_by_status_message reference g) [
    | some node ↦ some (node, status)
    | none ↦ none
  ]
]

abbrev pub has : {A : Type 0} → Option A → Bool
has o = not (is_none o)

-- The reference resolves to the node with the given identifier.
abbrev pub belongs_to : Option (MessageNode × MessageReferenceKind) → ℕ → Bool
belongs_to none id = false
belongs_to (some (node, kind)) id = node.node_id == id

pub record Reply : Type 0 where
  pub node_id : ℕ
  pub scope : MessageScope
  pub prompt : ℕ
  pub status_message_id : ℕ
  pub parent_id : ℕ
  pub parent_reference_id : ℕ

abbrev pub reply_node : Reply → MessageNode
reply_node r = record {
  node_id = r.node_id;
  scope = r.scope;
  prompt = r.prompt;
  status_message_id = some r.status_message_id;
  state = pending;
  parent_id = some r.parent_id;
  parent_reference_id = some r.parent_reference_id;
  session_id = none;
  children_ids = [];
}

-- The checks of `add_node`, each of which raises a ValueError.
unfoldable pub may_add : Reply → Graph → Bool
unfolding resolve_reference
may_add r g =
    same_scope r.scope g.identity.scope
    && (has (lookup r.parent_id g.nodes)
        && (belongs_to (resolve_reference r.parent_reference_id g) r.parent_id
            && (not (has (lookup r.node_id g.nodes))
                && (not (r.status_message_id == r.node_id)
                    && (not (has (lookup r.node_id g.status_to_node))
                        && (not (has (lookup r.status_message_id g.status_to_node))
                            && not (has (lookup r.status_message_id g.nodes))))))))

abbrev pub append_child : ℕ → MessageNode → MessageNode
append_child id parent = record parent { children_ids = parent.children_ids ++ id ∷ [] }

unfoldable pub add_node : Reply → Graph → Option Graph
unfolding may_add modify_node
add_node r g =
    if may_add r g
    then some (
        modify_node r.parent_id (append_child r.node_id) (record g {
          nodes = insert r.node_id (reply_node r) g.nodes;
          status_to_node = insert r.status_message_id r.node_id g.status_to_node;
        }))
    else none

-- The loop of `get_descendants` with its stack, top first, and fuel; `none`: the fuel is used up.
unfoldable pub walk : (ℕ → List ℕ) → ℕ → List ℕ → Option (List ℕ)
walk children fuel [] = some []
walk children zero (id ∷ stack) = none
walk children (suc fuel) (id ∷ stack) = elim (walk children fuel (reverse (children id) ++ stack)) [
  | none ↦ none
  | some rest ↦ some (id ∷ rest)
]

unfoldable pub children_of : Graph → ℕ → List ℕ
unfolding get_node
children_of g id = elim (get_node id g) [ none ↦ [] | some node ↦ node.children_ids ]

unfoldable pub get_descendants : ℕ → ℕ → Graph → Option (List ℕ)
unfolding get_node walk children_of
get_descendants fuel id g =
    if has (get_node id g) then walk (children_of g) fuel (id ∷ []) else some []

-- The literal reply subtree: the children of a reference are the status message of its node and the
-- nodes that reply to it, in the order of the nodes.
abbrev status_child : MessageNode → ℕ → List ℕ
status_child node id = elim node.status_message_id [
  | none ↦ []
  | some s ↦ if node.node_id == id then s ∷ [] else []
]

abbrev reply_child : MessageNode → ℕ → List ℕ
reply_child node id = if same_id node.parent_reference_id id then node.node_id ∷ [] else []

unfoldable pub reference_children : List (ℕ × MessageNode) → ℕ → List ℕ
reference_children [] id = []
reference_children ((key, node) ∷ nodes) id =
    status_child node id ++ (reply_child node id ++ reference_children nodes id)

unfoldable pub get_reference_descendants : ℕ → ℕ → Graph → Option (List ℕ)
unfolding resolve_reference walk reference_children
get_reference_descendants fuel reference g =
    if is_none (resolve_reference reference g)
    then some []
    else walk (reference_children g.nodes) fuel (reference ∷ [])

abbrev pub drop_child : ℕ → MessageNode → MessageNode
drop_child id parent = record parent { children_ids = discard id parent.children_ids }

abbrev pub unlink : Option ℕ → ℕ → Graph → Graph
unlink none id g = g
unlink (some parent) id g = modify_node parent (drop_child id) g

abbrev pub forget_status : Option ℕ → Graph → Graph
forget_status none g = g
forget_status (some s) g = record g { status_to_node = erase s g.status_to_node }

unfoldable pub remove_node : ℕ → Graph → Graph
unfolding get_node modify_node erase discard
remove_node id g = elim (get_node id g) [
  | none ↦ g
  | some node ↦
      let detached = forget_status node.status_message_id (unlink node.parent_id id g) in
      record detached { nodes = erase id detached.nodes }
]

unfoldable pub remove_nodes : List ℕ → Graph → Graph
unfolding remove_node
remove_nodes [] g = g
remove_nodes (id ∷ ids) g = remove_nodes ids (remove_node id g)

unfoldable pub clear_status : ℕ → Graph → Graph
unfolding get_node modify_node clear_node_status
clear_status id g = elim (get_node id g) [
  | none ↦ g
  | some node ↦ elim node.status_message_id [
    | none ↦ g
    | some s ↦ modify_node id clear_node_status (forget_status (some s) g)
  ]
]

keys : {V : Type 0} → List (ℕ × V) → List ℕ
keys [] = []
keys ((k, v) ∷ m) = k ∷ keys m

unfoldable pub all_reference_ids : Graph → List ℕ
unfolding keys
all_reference_ids g = keys g.nodes ++ keys g.status_to_node
