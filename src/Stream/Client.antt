-- ===== src/Stream/Client.antt =====
-- core/openai_responses/provider_stream.py: the deltas and items of an upstream response as calls of the
-- ledger, and the heuristic tool calls of providers/openai_chat/tool_calls.py. The item that a tool call
-- belongs to is known by its index.
use agentic_model_gateway.Base.{
  ℕ, Bool, true, false, Option, none, some, List, [], ◌∷◌, if◌then◌else◌, lookup, insert,
}
use agentic_model_gateway.Stream.Text.{Text, is_empty}
use agentic_model_gateway.Stream.Event.{tool_use, redacted_thinking, input_json_delta, StopReason}
use agentic_model_gateway.Stream.Blocks.{
  ToolBlockState, allocate_index, put_tool, set_stream_tool_id, set_tool_extra_content,
  register_tool_name,
}
use agentic_model_gateway.Stream.Ledger.{
  Ledger, no_fields, start_block, delta_block, stop_block, end_message, stop_message,
}
use agentic_model_gateway.Stream.Turn.{
  ensure_text_block, emit_text_delta, ensure_thinking_block, emit_thinking_delta,
  close_content_blocks, start_tool_block, emit_tool_delta, stop_tool_block, ensure_visible_content,
  close_all_blocks,
}
use agentic_model_gateway.Stream.Queries.{final_stop_reason}

pub data Call : Type 0 where
  text_arrives reasoning_arrives : Text → Call
  tool_starts : (tool_index : ℕ) (id name : Text) (extra : Option ℕ) → Call
  arguments_arrive : (tool_index : ℕ) → Text → Call
  tool_ends : (tool_index : ℕ) → Call
  -- An encrypted item of reasoning.
  reasoning_sealed : Text → Call
  -- A tool call that arrives whole.
  tool_arrives : (id name arguments : Text) → Call
  id_arrives name_arrives : (tool_index : ℕ) → Text → Call
  extra_arrives : (tool_index : ℕ) → Option ℕ → Call

unfoldable pub text_delta_events : Text → Ledger → Ledger
unfolding ensure_text_block emit_text_delta
text_delta_events delta l =
    if is_empty delta then l else emit_text_delta delta (ensure_text_block l)

unfoldable pub reasoning_delta_events : Text → Ledger → Ledger
unfolding ensure_thinking_block emit_thinking_delta
reasoning_delta_events delta l =
    if is_empty delta then l else emit_thinking_delta delta (ensure_thinking_block l)

abbrev pub off : ToolBlockState → ToolBlockState
off state = record state { started = false }

abbrev pub switch_off : ℕ → Ledger → Option ToolBlockState → Option Ledger
switch_off tool_index l none = none
switch_off tool_index l (some state) =
    some (record l { blocks = put_tool tool_index (off state) l.blocks })

unfoldable pub after_stop : ℕ → Option Ledger → Option Ledger
unfolding lookup insert
after_stop tool_index none = none
after_stop tool_index (some l) = switch_off tool_index l (lookup tool_index l.blocks.tool_states)

-- `stop_tool_block`, after which the state no longer counts as started.
unfoldable pub end_tool : ℕ → Ledger → Option Ledger
unfolding close_content_blocks stop_tool_block after_stop
end_tool tool_index l = after_stop tool_index (stop_tool_block tool_index (close_content_blocks l))

-- A block that is started and stopped at once, behind the content blocks.
unfoldable pub sealed_block : Text → Ledger → Ledger
unfolding close_content_blocks start_block stop_block
sealed_block encrypted l =
    let l' = close_content_blocks l in
    let index = l'.blocks.next_index in
    stop_block (some index) (
      start_block index redacted_thinking (record no_fields { data_field = some encrypted })
        (record l' { blocks = allocate_index l'.blocks }))

unfoldable pub whole_tool : Text → Text → Text → Ledger → Ledger
unfolding close_content_blocks start_block delta_block stop_block
whole_tool id name arguments l =
    let l' = close_content_blocks l in
    let index = l'.blocks.next_index in
    stop_block (some index) (
      delta_block (some index) input_json_delta arguments (
        start_block index tool_use (record no_fields { id = id; name = name })
          (record l' { blocks = allocate_index l'.blocks })))

-- `none` is a KeyError.
unfoldable pub perform : Call → Ledger → Option Ledger
unfolding text_delta_events reasoning_delta_events start_tool_block emit_tool_delta end_tool
    sealed_block whole_tool set_stream_tool_id set_tool_extra_content register_tool_name
    close_content_blocks
perform (text_arrives delta) l = some (text_delta_events delta l)
perform (reasoning_arrives delta) l = some (reasoning_delta_events delta l)
perform (tool_starts tool_index id name extra) l =
    some (start_tool_block tool_index id name extra (close_content_blocks l))
perform (arguments_arrive tool_index delta) l =
    if is_empty delta
    then some (close_content_blocks l)
    else emit_tool_delta tool_index delta (close_content_blocks l)
perform (tool_ends tool_index) l = end_tool tool_index l
perform (reasoning_sealed encrypted) l = some (sealed_block encrypted l)
perform (tool_arrives id name arguments) l = some (whole_tool id name arguments l)
perform (id_arrives tool_index id) l =
    some (record l { blocks = set_stream_tool_id tool_index id l.blocks })
perform (name_arrives tool_index name) l =
    some (record l { blocks = register_tool_name tool_index name l.blocks })
perform (extra_arrives tool_index extra) l =
    some (record l { blocks = set_tool_extra_content tool_index extra l.blocks })

-- The tool call's block is open: `state.started`.
abbrev pub is_started : Option ToolBlockState → Bool
is_started none = false
is_started (some state) = state.started

-- The callers start a tool call once at a time, and send arguments to a started one only.
unfoldable pub may : Call → Ledger → Bool
unfolding lookup
may (tool_starts tool_index id name extra) l =
    if is_started (lookup tool_index l.blocks.tool_states) then false else true
may (arguments_arrive tool_index delta) l = is_started (lookup tool_index l.blocks.tool_states)
may (tool_ends tool_index) l = is_started (lookup tool_index l.blocks.tool_states)
may _ l = true

-- The ledger after the calls, one after the other.
unfoldable pub play : List Call → Ledger → Option Ledger
unfolding perform
play [] l = some l
play (c ∷ calls) l = elim (perform c l) [ none ↦ none | some l' ↦ play calls l' ]

-- Whether every call is one that the callers make.
unfoldable pub all_may : List Call → Ledger → Bool
unfolding perform may
all_may [] l = true
all_may (c ∷ calls) l =
    if may c l then elim (perform c l) [ none ↦ true | some l' ↦ all_may calls l' ] else false

-- The end of a response, behind its visible content.
unfoldable pub finish_shown :
    StopReason → (output input : Option ℕ) → (usage_fields : List (ℕ × ℕ)) → Ledger → Option Ledger
unfolding close_all_blocks end_message stop_message final_stop_reason
finish_shown reason output input usage_fields l = elim (close_all_blocks l) [
  | none ↦ none
  | some l' ↦
      some (stop_message (end_message (final_stop_reason reason l') output input usage_fields l'))
]

unfoldable pub finish :
    StopReason → (output input : Option ℕ) → (usage_fields : List (ℕ × ℕ)) → Ledger → Option Ledger
unfolding ensure_visible_content finish_shown
finish reason output input usage_fields l =
    finish_shown reason output input usage_fields (ensure_visible_content l)
