-- ===== src/Stream/Turn.antt =====
-- core/anthropic/streaming/ledger.py: the operations of class AnthropicStreamLedger by which the
-- providers build a turn.
use agentic_model_gateway.Base.{
  ℕ, Bool, true, false, not, ◌||◌, Option, none, some, List, [], ◌∷◌, if◌then◌else◌, lookup, insert,
}
use agentic_model_gateway.Stream.Text.{Text, is_visible, join}
use agentic_model_gateway.Stream.Event.{
  text, thinking, tool_use, is_visible_type, thinking_delta, text_delta, input_json_delta,
  content_block_stop,
}
use agentic_model_gateway.Stream.Blocks.{
  ToolBlockState, new_tool_state, StreamBlockState, allocate_index, put_tool,
}
use agentic_model_gateway.Stream.Ledger.{
  Ledger, no_fields, start_block, delta_block, stop_block, close_at, send,
}

unfoldable pub start_thinking_block : Ledger → Ledger
unfolding start_block
start_thinking_block l =
    let index = l.blocks.next_index in
    start_block index thinking no_fields (record l {
      blocks = record (allocate_index l.blocks) {
        thinking_index = some index;
        thinking_started = true;
      };
    })

unfoldable pub emit_thinking_delta : Text → Ledger → Ledger
unfolding delta_block
emit_thinking_delta s l = delta_block l.blocks.thinking_index thinking_delta s l

unfoldable pub stop_thinking_block : Ledger → Ledger
unfolding stop_block
stop_thinking_block l =
    stop_block l.blocks.thinking_index
      (record l { blocks = record l.blocks { thinking_started = false } })

unfoldable pub start_text_block : Ledger → Ledger
unfolding start_block
start_text_block l =
    let index = l.blocks.next_index in
    start_block index text no_fields (record l {
      blocks = record (allocate_index l.blocks) { text_index = some index; text_started = true };
    })

unfoldable pub emit_text_delta : Text → Ledger → Ledger
unfolding delta_block
emit_text_delta s l = delta_block l.blocks.text_index text_delta s l

unfoldable pub stop_text_block : Ledger → Ledger
unfolding stop_block
stop_text_block l =
    stop_block l.blocks.text_index (record l { blocks = record l.blocks { text_started = false } })

abbrev pub given : Option ℕ → Option ℕ → Option ℕ
given none old = old
given (some extra) old = some extra

-- The state of a tool call whose block starts: the buffers of an earlier state stay.
abbrev pub started_state : Option ToolBlockState → ℕ → Text → Text → Option ℕ → ToolBlockState
started_state none index tool_id name extra = new_tool_state (some index) tool_id name extra true
started_state (some state) index tool_id name extra = record state {
  block_index = some index;
  tool_id = tool_id;
  name = name;
  extra_content = given extra state.extra_content;
  started = true;
}

unfoldable pub start_tool_block : ℕ → Text → Text → Option ℕ → Ledger → Ledger
unfolding start_block lookup insert
start_tool_block tool_index tool_id name extra l =
    let index = l.blocks.next_index in
    let state = started_state (lookup tool_index l.blocks.tool_states) index tool_id name extra in
    start_block index tool_use
      (record no_fields { id = tool_id; name = name; extra_content = extra })
      (record l { blocks = put_tool tool_index state (allocate_index l.blocks) })

-- `none` is the KeyError of a tool call that has no state.
unfoldable pub emit_tool_delta : ℕ → Text → Ledger → Option Ledger
unfolding delta_block lookup
emit_tool_delta tool_index s l = elim (lookup tool_index l.blocks.tool_states) [
  | none ↦ none
  | some state ↦ some (delta_block state.block_index input_json_delta s l)
]

unfoldable pub stop_tool_block : ℕ → Ledger → Option Ledger
unfolding stop_block lookup
stop_tool_block tool_index l = elim (lookup tool_index l.blocks.tool_states) [
  | none ↦ none
  | some state ↦ some (stop_block state.block_index l)
]

unfoldable pub ensure_thinking_block : Ledger → Ledger
unfolding stop_text_block start_thinking_block
ensure_thinking_block l =
    let l' = (if l.blocks.text_started then stop_text_block l else l) in
    if l'.blocks.thinking_started then l' else start_thinking_block l'

unfoldable pub ensure_text_block : Ledger → Ledger
unfolding stop_thinking_block start_text_block
ensure_text_block l =
    let l' = (if l.blocks.thinking_started then stop_thinking_block l else l) in
    if l'.blocks.text_started then l' else start_text_block l'

unfoldable pub close_content_blocks : Ledger → Ledger
unfolding stop_thinking_block stop_text_block
close_content_blocks l =
    let l' = (if l.blocks.thinking_started then stop_thinking_block l else l) in
    if l'.blocks.text_started then stop_text_block l' else l'

abbrev pub accumulated_text : Ledger → Text
accumulated_text l = join l.text_parts

abbrev pub accumulated_reasoning : Ledger → Text
accumulated_reasoning l = join l.thinking_parts

unfoldable pub any_visible : List (ℕ × StreamBlockState) → Bool
any_visible [] = false
any_visible ((index, state) ∷ blocks) = is_visible_type state.block_type || any_visible blocks

unfoldable pub needs_visible_content : Ledger → Bool
unfolding is_visible any_visible join
needs_visible_content l =
    if is_visible (accumulated_text l) then false else not (any_visible l.content_blocks)

-- `EMPTY_TURN_FILLER`
abbrev pub empty_turn_filler : Text
empty_turn_filler = 8230 ∷ []

unfoldable pub ensure_visible_content : Ledger → Ledger
unfolding needs_visible_content ensure_text_block emit_text_delta
ensure_visible_content l =
    if not (needs_visible_content l)
    then l
    else emit_text_delta empty_turn_filler (ensure_text_block l)

-- The loop of `close_all_blocks` over a copy of the tool calls' states.
unfoldable pub stop_tools : List (ℕ × ToolBlockState) → Ledger → Option Ledger
unfolding stop_tool_block
stop_tools [] l = some l
stop_tools ((tool_index, state) ∷ states) l =
    if state.started
    then elim (stop_tool_block tool_index l) [ none ↦ none | some l' ↦ stop_tools states l' ]
    else stop_tools states l

unfoldable pub close_all_blocks : Ledger → Option Ledger
unfolding close_content_blocks stop_tools
close_all_blocks l = let l' = close_content_blocks l in stop_tools l'.blocks.tool_states l'

-- The loop of `close_unclosed_blocks`, a round for each entry of the stack.
unfoldable pub pop_open : List ℕ → Ledger → Ledger
unfolding close_at
pop_open [] l = l
pop_open (index ∷ stack) l = pop_open stack (
    send (content_block_stop (some index))
      (close_at (some index) (record l { open_stack = stack })))

unfoldable pub close_unclosed_blocks : Ledger → Ledger
unfolding pop_open
close_unclosed_blocks l = pop_open l.open_stack l
