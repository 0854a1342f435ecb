-- ===== src/Stream/Queries.antt =====
-- core/anthropic/streaming/ledger.py: the queries of class AnthropicStreamLedger on its tool blocks, the
-- stop reason and the tokens of a turn.
use agentic_model_gateway.Base.{
  ℕ, ◌+◌, ◌*◌, Bool, true, false, not, ◌||◌, Option, none, some, List, [], ◌∷◌, if◌then◌else◌,
  lookup, length,
}
use Prim.Native.Nat.{◌/◌}
use agentic_model_gateway.Stream.Text.{Text, is_empty, join}
use agentic_model_gateway.Stream.Event.{is_tool_use, StopReason, end_turn, calls_tool}
use agentic_model_gateway.Stream.Blocks.{ToolBlockState, StreamBlockState, content}
use agentic_model_gateway.Stream.Ledger.{Ledger}
use agentic_model_gateway.Stream.Turn.{accumulated_text, accumulated_reasoning}

tools_among : List (ℕ × StreamBlockState) → List StreamBlockState
tools_among [] = []
tools_among ((index, state) ∷ blocks) =
    if is_tool_use state.block_type then state ∷ tools_among blocks else tools_among blocks

unfoldable pub tool_blocks : Ledger → List StreamBlockState
unfolding tools_among
tool_blocks l = tools_among l.content_blocks

-- `complete` is `parse_complete_tool_input(…) is not None` for a block's content and name.
all_complete : (Text → Text → Bool) → List StreamBlockState → Bool
unfolding content
all_complete complete [] = true
all_complete complete (block ∷ blocks) =
    if is_empty block.tool_id || is_empty block.name
    then false
    else if not (complete (content block) block.name)
    then false
    else all_complete complete blocks

abbrev some_block : List StreamBlockState → Bool
some_block [] = false
some_block (block ∷ blocks) = true

unfoldable pub can_salvage_tool_use : (Text → Text → Bool) → Ledger → Bool
unfolding tool_blocks all_complete
can_salvage_tool_use complete l =
    if some_block (tool_blocks l) then all_complete complete (tool_blocks l) else false

abbrev tool_block : Option StreamBlockState → Option StreamBlockState
tool_block none = none
tool_block (some block) = if is_tool_use block.block_type then some block else none

abbrev block_of_tool : Option ToolBlockState → Ledger → Option StreamBlockState
block_of_tool none l = none
block_of_tool (some state) l = elim state.block_index [
  | none ↦ none
  | some index ↦ tool_block (lookup index l.content_blocks)
]

unfoldable pub tool_block_for_tool_index : ℕ → Ledger → Option StreamBlockState
unfolding lookup
tool_block_for_tool_index tool_index l = block_of_tool (lookup tool_index l.blocks.tool_states) l

unfoldable pub has_emitted_tool_block : Ledger → Bool
unfolding tool_blocks
has_emitted_tool_block l = some_block (tool_blocks l)

abbrev without_tool : StopReason → StopReason
without_tool calls_tool = end_turn
without_tool fallback = fallback

unfoldable pub final_stop_reason : StopReason → Ledger → StopReason
unfolding has_emitted_tool_block
final_stop_reason fallback l =
    if has_emitted_tool_block l then calls_tool else without_tool fallback

abbrev one_if : Bool → ℕ
one_if true = 1
one_if false = 0

-- The tokens of the tool blocks, 15 added for each.
tool_tokens : (Text → ℕ) → List StreamBlockState → ℕ
unfolding content
tool_tokens count [] = 0
tool_tokens count (block ∷ blocks) =
    count block.name + count (content block) + 15 + tool_tokens count blocks

-- With the encoder, which counts the tokens of a text, or without it.
unfoldable pub estimate_output_tokens : Option (Text → ℕ) → Ledger → ℕ
unfolding tool_blocks tool_tokens join
estimate_output_tokens (some count) l =
    let tools = tool_blocks l in
    let block_count =
      one_if (not (is_empty (accumulated_reasoning l)))
      + one_if (not (is_empty (accumulated_text l)))
      + length tools in
    count (accumulated_text l)
    + count (accumulated_reasoning l)
    + tool_tokens count tools
    + block_count * 4
estimate_output_tokens none l =
    length (accumulated_text l) / 4
    + length (accumulated_reasoning l) / 4
    + length (tool_blocks l) * 50
