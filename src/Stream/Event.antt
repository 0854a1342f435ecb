-- ===== src/Stream/Event.antt =====
-- The events of an Anthropic stream, as the ledger's emitter builds them and stream_contracts.py reads
-- them. The SSE text of an event is not modelled: an event stands for its type and payload.
use agentic_model_gateway.Base.{ℕ, Bool, true, false, Option, List}
use agentic_model_gateway.Stream.Text.{Text}

pub data BlockType : Type 0 where
  text thinking tool_use redacted_thinking : BlockType
  server_tool_use web_search_tool_result web_fetch_tool_result : BlockType
  other_type : ℕ → BlockType

-- The payload's `content_block`, with the fields that `content_block_start` gives to each type. An
-- `extra_content` or `input` dictionary is a number; `none` is an `extra_content` that is absent or
-- empty.
pub data ContentBlock : Type 0 where
  text_block : Text → ContentBlock
  thinking_block : Text → ContentBlock
  tool_use_block : (id name : Text) (input : ℕ) (extra_content : Option ℕ) → ContentBlock
  redacted_thinking_block : Option Text → ContentBlock
  bare_block : BlockType → ContentBlock

abbrev pub type_of : ContentBlock → BlockType
type_of (text_block s) = text
type_of (thinking_block s) = thinking
type_of (tool_use_block id name input extra) = tool_use
type_of (redacted_thinking_block s) = redacted_thinking
type_of (bare_block t) = t

pub data DeltaType : Type 0 where
  thinking_delta signature_delta text_delta input_json_delta : DeltaType
  other_delta : ℕ → DeltaType

pub data StopReason : Type 0 where
  end_turn max_tokens calls_tool : StopReason
  other_reason : ℕ → StopReason

-- A block starts at an allocated index. A delta or a stop may name the index -1, here `none`.
pub data Event : Type 0 where
  message_start : (message_id model input_tokens : ℕ) → Event
  message_delta : StopReason → (usage : List (ℕ × ℕ)) → Event
  message_stop error : Event
  content_block_start : ℕ → ContentBlock → Event
  content_block_delta : Option ℕ → DeltaType → Text → Event
  content_block_stop : Option ℕ → Event
  other_event : ℕ → Event

abbrev pub is_text : BlockType → Bool
is_text text = true
is_text _ = false

abbrev pub is_thinking : BlockType → Bool
is_thinking thinking = true
is_thinking _ = false

abbrev pub is_tool_use : BlockType → Bool
is_tool_use tool_use = true
is_tool_use _ = false

-- `VISIBLE_NON_TEXT_BLOCK_TYPES`
abbrev pub is_visible_type : BlockType → Bool
is_visible_type tool_use = true
is_visible_type server_tool_use = true
is_visible_type web_search_tool_result = true
is_visible_type web_fetch_tool_result = true
is_visible_type _ = false
