-- ===== src/Stream/Ledger.antt =====
-- core/anthropic/streaming/ledger.py: the state of class AnthropicStreamLedger, the events that start,
-- fill and stop a block, and the message's own events. An operation appends what it returns or yields to
-- `sent`, the events that went to the client. The last opened block stands first in `open_stack`.
use agentic_model_gateway.Base.{
  ℕ, Bool, true, false, Option, none, some, List, [], ◌∷◌, ◌++◌, ◌==◌, if◌then◌else◌, contains,
  lookup, insert,
}
use agentic_model_gateway.Stream.Text.{Text, is_empty}
use agentic_model_gateway.Stream.Event.{
  BlockType, text, thinking, tool_use, ContentBlock, text_block, thinking_block, tool_use_block,
  redacted_thinking_block, bare_block, type_of, DeltaType, thinking_delta, text_delta,
  input_json_delta, StopReason, Event, message_start, message_delta, message_stop,
  content_block_start, content_block_delta, content_block_stop,
}
use agentic_model_gateway.Stream.Blocks.{
  StreamBlockState, StreamBlockLedger, new_blocks, reserve_index,
}

pub record Ledger : Type 0 where
  pub message_id : ℕ
  pub model : ℕ
  pub input_tokens : ℕ
  pub blocks : StreamBlockLedger
  pub text_parts : List Text
  pub thinking_parts : List Text
  pub open_stack : List ℕ
  pub content_blocks : List (ℕ × StreamBlockState)
  pub message_started : Bool
  pub message_stopped : Bool
  pub stop_reason : Option StopReason
  pub sent : List Event

abbrev pub new_ledger : ℕ → ℕ → ℕ → Ledger
new_ledger message_id model input_tokens = record {
  message_id = message_id;
  model = model;
  input_tokens = input_tokens;
  blocks = new_blocks;
  text_parts = [];
  thinking_parts = [];
  open_stack = [];
  content_blocks = [];
  message_started = false;
  message_stopped = false;
  stop_reason = none;
  sent = [];
}

abbrev pub send : Event → Ledger → Ledger
send e l = record l { sent = l.sent ++ e ∷ [] }

unfoldable pub start_message : Ledger → Ledger
start_message l =
    send (message_start l.message_id l.model l.input_tokens) (record l { message_started = true })

abbrev pub or_else : Option ℕ → ℕ → ℕ
or_else none n = n
or_else (some m) n = m

-- `usage.update(…)`
unfoldable pub update_usage : List (ℕ × ℕ) → List (ℕ × ℕ) → List (ℕ × ℕ)
unfolding insert
update_usage usage [] = usage
update_usage usage ((key, value) ∷ fields) = update_usage (insert key value usage) fields

-- The keys of the usage are numbers: 0 for `input_tokens`, 1 for `output_tokens`. An absent
-- `input_tokens` is the ledger's, and an absent `output_tokens` is 0.
unfoldable pub end_message :
    StopReason → (output input : Option ℕ) → (usage_fields : List (ℕ × ℕ)) → Ledger → Ledger
unfolding update_usage
end_message reason output input usage_fields l =
    let usage = (0, or_else input l.input_tokens) ∷ (1, or_else output 0) ∷ [] in
    send (message_delta reason (update_usage usage usage_fields))
      (record l { stop_reason = some reason })

unfoldable pub stop_message : Ledger → Ledger
stop_message l = send message_stop (record l { message_stopped = true })

-- The optional arguments of `content_block_start`, and their defaults.
pub record Fields : Type 0 where
  pub text_field : Text
  pub thinking_field : Text
  pub id : Text
  pub name : Text
  pub input : ℕ
  pub extra_content : Option ℕ
  pub data_field : Option Text

abbrev pub no_fields : Fields
no_fields = record {
  text_field = [];
  thinking_field = [];
  id = [];
  name = [];
  input = 0;
  extra_content = none;
  data_field = none;
}

abbrev pub content_block : BlockType → Fields → ContentBlock
content_block text f = text_block f.text_field
content_block thinking f = thinking_block f.thinking_field
content_block tool_use f = tool_use_block f.id f.name f.input f.extra_content
content_block BlockType.redacted_thinking f = redacted_thinking_block f.data_field
content_block t f = bare_block t

abbrev pub parts_of : Text → List Text
parts_of s = if is_empty s then [] else s ∷ []

abbrev block_state : ℕ → ContentBlock → StreamBlockState
block_state index block = record {
  index = index;
  block_type = type_of block;
  open_block = true;
  tool_id = [];
  name = [];
  parts = [];
  extra_content = none;
}

-- What a start records besides the block's place: the flags and texts of its type.
unfoldable pub note_start : ℕ → ContentBlock → Ledger → StreamBlockState × Ledger
note_start index (tool_use_block id name input extra) l = (
  record (block_state index (tool_use_block id name input extra)) {
    tool_id = id;
    name = name;
    extra_content = extra;
  },
  l,
)
note_start index (text_block s) l = (
  record (block_state index (text_block s)) { parts = parts_of s },
  record l {
    blocks = record l.blocks { text_index = some index; text_started = true };
    text_parts = l.text_parts ++ parts_of s;
  },
)
note_start index (thinking_block s) l = (
  record (block_state index (thinking_block s)) { parts = parts_of s },
  record l {
    blocks = record l.blocks { thinking_index = some index; thinking_started = true };
    thinking_parts = l.thinking_parts ++ parts_of s;
  },
)
note_start index block l = (block_state index block, l)

unfoldable pub record_block_start : ℕ → ContentBlock → Ledger → Ledger
unfolding note_start reserve_index insert
record_block_start index block l =
    let (state, l') = note_start index block (record l { blocks = reserve_index index l.blocks }) in
    record l' {
      content_blocks = insert index state l'.content_blocks;
      open_stack = index ∷ l'.open_stack;
    }

unfoldable pub start_block : ℕ → BlockType → Fields → Ledger → Ledger
unfolding record_block_start
start_block index t fields l =
    let block = content_block t fields in
    send (content_block_start index block) (record_block_start index block l)

abbrev pub grown : StreamBlockState → Text → StreamBlockState
grown state s = record state { parts = state.parts ++ s ∷ [] }

-- A delta is kept where its type is that of the block.
unfoldable pub note_delta : ℕ → StreamBlockState → BlockType → DeltaType → Text → Ledger → Ledger
unfolding insert
note_delta index state text text_delta s l = record l {
  content_blocks = insert index (grown state s) l.content_blocks;
  text_parts = l.text_parts ++ s ∷ [];
}
note_delta index state thinking thinking_delta s l = record l {
  content_blocks = insert index (grown state s) l.content_blocks;
  thinking_parts = l.thinking_parts ++ s ∷ [];
}
note_delta index state tool_use input_json_delta s l = record l {
  content_blocks = insert index (grown state s) l.content_blocks;
}
note_delta index state _ _ s l = l

unfoldable pub record_block_delta : Option ℕ → DeltaType → Text → Ledger → Ledger
unfolding lookup note_delta
record_block_delta none kind s l = l
record_block_delta (some index) kind s l = elim (lookup index l.content_blocks) [
  | none ↦ l
  | some state ↦ note_delta index state state.block_type kind s l
]

unfoldable pub delta_block : Option ℕ → DeltaType → Text → Ledger → Ledger
unfolding record_block_delta
delta_block index kind s l =
    send (content_block_delta index kind s) (record_block_delta index kind s l)

-- `list.remove` on the stack, whose bottom is the list's front: the lowest entry goes.
unfoldable pub remove_lowest : ℕ → List ℕ → List ℕ
unfolding contains
remove_lowest index [] = []
remove_lowest index (x ∷ stack) =
    if contains index stack
    then x ∷ remove_lowest index stack
    else if x == index
    then stack
    else x ∷ stack

unfoldable pub unstack : Option ℕ → List ℕ → List ℕ
unfolding remove_lowest
unstack none stack = stack
unstack (some index) [] = []
unstack (some index) (top ∷ stack) =
    if top == index then stack else remove_lowest index (top ∷ stack)

abbrev pub points_to : Option ℕ → ℕ → Bool
points_to none index = false
points_to (some i) index = i == index

abbrev pub clear_flags : BlockType → ℕ → StreamBlockLedger → StreamBlockLedger
clear_flags text index b =
    if points_to b.text_index index then record b { text_started = false } else b
clear_flags thinking index b =
    if points_to b.thinking_index index then record b { thinking_started = false } else b
clear_flags _ index b = b

-- `state.open = False` and `_clear_active_content_block`
unfoldable pub close_state : ℕ → StreamBlockState → Ledger → Ledger
unfolding insert
close_state index state l = record l {
  blocks = clear_flags state.block_type state.index l.blocks;
  content_blocks = insert index (record state { open_block = false }) l.content_blocks;
}

unfoldable pub close_at : Option ℕ → Ledger → Ledger
unfolding close_state lookup
close_at none l = l
close_at (some index) l = elim (lookup index l.content_blocks) [
  | none ↦ l
  | some state ↦ close_state index state l
]

unfoldable pub record_block_stop : Option ℕ → Ledger → Ledger
unfolding unstack close_at
record_block_stop index l = close_at index (record l { open_stack = unstack index l.open_stack })

unfoldable pub stop_block : Option ℕ → Ledger → Ledger
unfolding record_block_stop
stop_block index l = send (content_block_stop index) (record_block_stop index l)
