-- ===== src/Tree/Node.antt =====
-- messaging/trees/node.py and identity.py, and class MessageScope of messaging/models.py. Identifiers,
-- prompts and session names are numbers, and zero is the empty string.
use agentic_model_gateway.Base.{
  ℕ, Bool, true, false, not, ◌&&◌, Option, none, some, List, ◌==◌, if◌then◌else◌,
}

pub record MessageScope : Type 0 where
  pub platform : ℕ
  pub chat_id : ℕ

abbrev pub same_scope : MessageScope → MessageScope → Bool
same_scope a b = (a.platform == b.platform) && (a.chat_id == b.chat_id)

pub record TreeIdentity : Type 0 where
  pub scope : MessageScope
  pub root_id : ℕ

pub data MessageState : Type 0 where
  pending in_progress completed error : MessageState

abbrev pub is_pending : MessageState → Bool
is_pending pending = true
is_pending _ = false

abbrev pub is_error : MessageState → Bool
is_error error = true
is_error _ = false

-- `state in (PENDING, IN_PROGRESS)`
abbrev pub is_runnable : MessageState → Bool
is_runnable pending = true
is_runnable in_progress = true
is_runnable _ = false

pub data MessageReferenceKind : Type 0 where
  prompt status : MessageReferenceKind

pub record MessageNode : Type 0 where
  pub node_id : ℕ
  pub scope : MessageScope
  pub prompt : ℕ
  pub status_message_id : Option ℕ
  pub state : MessageState
  pub parent_id : Option ℕ
  pub parent_reference_id : Option ℕ
  pub session_id : Option ℕ
  pub children_ids : List ℕ

-- The truth of an optional string: it is there and not empty.
abbrev pub is_truthy : Option ℕ → Bool
is_truthy none = false
is_truthy (some s) = not (s == 0)

unfoldable pub update_state : MessageState → Option ℕ → MessageNode → MessageNode
update_state state session_id node =
    if is_truthy session_id
    then record node { state = state; session_id = session_id }
    else record node { state = state }

unfoldable pub mark_error : MessageNode → MessageNode
unfolding update_state
mark_error node = update_state error none node

unfoldable pub clear_node_status : MessageNode → MessageNode
unfolding mark_error
clear_node_status node = mark_error (record node { status_message_id = none; session_id = none })
