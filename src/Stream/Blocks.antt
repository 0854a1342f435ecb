-- ===== src/Stream/Blocks.antt =====
-- core/anthropic/streaming/ledger.py: the states of blocks and tool calls, and class StreamBlockLedger.
use agentic_model_gateway.Base.{
  ℕ, ◌+◌, max, Bool, true, false, not, ◌&&◌, ◌||◌, Option, none, some, List, [], ◌∷◌, ◌++◌,
  if◌then◌else◌, is_none, lookup, insert,
}
use agentic_model_gateway.Stream.Text.{Text, is_empty, same_text, starts_with, join}
use agentic_model_gateway.Stream.Event.{BlockType}

pub record ToolBlockState : Type 0 where
  -- `none` is the index -1.
  pub block_index : Option ℕ
  pub tool_id : Text
  pub name : Text
  pub extra_content : Option ℕ
  pub started : Bool
  pub arg_buffer : Text
  pub args_emitted : Bool
  pub pre_start_args : Text

abbrev pub new_tool_state : Option ℕ → Text → Text → Option ℕ → Bool → ToolBlockState
new_tool_state block_index tool_id name extra_content started = record {
  block_index = block_index;
  tool_id = tool_id;
  name = name;
  extra_content = extra_content;
  started = started;
  arg_buffer = [];
  args_emitted = false;
  pre_start_args = [];
}

pub record StreamBlockState : Type 0 where
  pub index : ℕ
  pub block_type : BlockType
  pub open_block : Bool
  pub tool_id : Text
  pub name : Text
  pub parts : List Text
  pub extra_content : Option ℕ

unfoldable pub content : StreamBlockState → Text
unfolding join
content b = join b.parts

pub record StreamBlockLedger : Type 0 where
  pub next_index : ℕ
  pub thinking_index : Option ℕ
  pub text_index : Option ℕ
  pub thinking_started : Bool
  pub text_started : Bool
  pub tool_states : List (ℕ × ToolBlockState)

abbrev pub new_blocks : StreamBlockLedger
new_blocks = record {
  next_index = 0;
  thinking_index = none;
  text_index = none;
  thinking_started = false;
  text_started = false;
  tool_states = [];
}

-- `allocate_index` answers the old `next_index`.
abbrev pub allocate_index : StreamBlockLedger → StreamBlockLedger
allocate_index b = record b { next_index = b.next_index + 1 }

unfoldable pub reserve_index : ℕ → StreamBlockLedger → StreamBlockLedger
reserve_index index b = record b { next_index = max b.next_index (index + 1) }

abbrev pub put_tool : ℕ → ToolBlockState → StreamBlockLedger → StreamBlockLedger
put_tool index state b = record b { tool_states = insert index state b.tool_states }

abbrev pub ensured :
    ℕ → Option ToolBlockState → StreamBlockLedger → ToolBlockState × StreamBlockLedger
ensured index (some state) b = (state, b)
ensured index none b =
    let state = new_tool_state none [] [] none false in (state, put_tool index state b)

-- The state of a tool call; a new one is put down if there is none.
unfoldable pub ensure_tool_state : ℕ → StreamBlockLedger → ToolBlockState × StreamBlockLedger
unfolding lookup insert
ensure_tool_state index b = ensured index (lookup index b.tool_states) b

-- An absent identifier is the empty text.
unfoldable pub set_stream_tool_id : ℕ → Text → StreamBlockLedger → StreamBlockLedger
unfolding ensure_tool_state
set_stream_tool_id index tool_id b =
    if is_empty tool_id
    then b
    else (let (state, b') = ensure_tool_state index b in
        put_tool index (record state { tool_id = tool_id }) b')

unfoldable pub set_tool_extra_content : ℕ → Option ℕ → StreamBlockLedger → StreamBlockLedger
unfolding ensure_tool_state
set_tool_extra_content index extra_content b =
    if is_none extra_content
    then b
    else (let (state, b') = ensure_tool_state index b in
        put_tool index (record state { extra_content = extra_content }) b')

-- The name after one more fragment of it.
unfoldable pub merged_name : Text → Text → Text
unfolding starts_with
merged_name prev name =
    if is_empty prev || starts_with name prev
    then name
    else if not (starts_with prev name)
    then prev ++ name
    else prev

abbrev pub named_state : Option ToolBlockState → Text → ToolBlockState
named_state none name = new_tool_state none [] name none false
named_state (some state) name = record state { name = merged_name state.name name }

unfoldable pub register_tool_name : ℕ → Text → StreamBlockLedger → StreamBlockLedger
unfolding merged_name lookup
register_tool_name index name b = put_tool index (named_state (lookup index b.tool_states) name) b

-- `json.loads`, `json.dumps` and the one entry that the ledger reads and writes.
pub data Parsed (Object : Type 0) : Type 0 where
  invalid other_value : Parsed Object
  object : Object → Parsed Object

pub record Json : Type 1 where
  pub Object : Type 0
  pub loads : Text → Parsed Object
  pub dumps : Object → Text
  -- `args_json.get("run_in_background") is False`, and the same entry set to `False`.
  pub in_foreground : Object → Bool
  pub set_foreground : Object → Object

module _ (json : Json) where
  open json use {Object, loads, dumps, in_foreground, set_foreground}

  unfoldable pub normalize_task_run_in_background : Object → Object
  normalize_task_run_in_background args =
      if not (in_foreground args) then set_foreground args else args

  -- `if state.name == "Task": …`
  unfoldable pub normalized : Text → Object → Object
  unfolding normalize_task_run_in_background same_text
  normalized name args =
      if same_text name (84 ∷ 97 ∷ 115 ∷ 107 ∷ [])
      then normalize_task_run_in_background args
      else args

  abbrev emitted : ToolBlockState → ToolBlockState
  emitted state = record state { args_emitted = true; arg_buffer = [] }

  -- What a complete buffer becomes: the object once it parses, and the buffer until then.
  unfoldable pub take_args : Parsed Object → ToolBlockState → Option Object × ToolBlockState
  unfolding normalized
  take_args (object args) state = (some (normalized state.name args), emitted state)
  take_args _ state = (none, state)

  unfoldable pub buffer_tool_args : ℕ → Text → StreamBlockLedger → Option Object × StreamBlockLedger
  unfolding take_args lookup
  buffer_tool_args index args b = elim (lookup index b.tool_states) [
    | none ↦ (none, b)
    | some state ↦
        if state.args_emitted
        then (none, b)
        else (let buffer = state.arg_buffer ++ args in
            let (answer, state') =
              take_args (loads buffer) (record state { arg_buffer = buffer }) in
            (answer, put_tool index state' b))
  ]

  -- The text that a flush sends for a buffer: an object printed again, other JSON as it is, and `{}`
  -- for what is no JSON.
  unfoldable pub flushed : Text → Parsed Object → Text → Text
  unfolding normalized
  flushed name (object args) buffer = dumps (normalized name args)
  flushed name other_value buffer = buffer
  flushed name invalid buffer = 123 ∷ 125 ∷ []

  abbrev pub waits_for_flush : ToolBlockState → Bool
  waits_for_flush state = not (is_empty state.arg_buffer) && not state.args_emitted

  flush_states : List (ℕ × ToolBlockState) → List (ℕ × Text) × List (ℕ × ToolBlockState)
  unfolding flushed
  flush_states [] = ([], [])
  flush_states ((index, state) ∷ states) =
      let (results, states') = flush_states states in
      if waits_for_flush state
      then (
        (index, flushed state.name (loads state.arg_buffer) state.arg_buffer) ∷ results,
        (index, emitted state) ∷ states',
      )
      else (results, (index, state) ∷ states')

  unfoldable pub flush_tool_arg_buffers : StreamBlockLedger → List (ℕ × Text) × StreamBlockLedger
  unfolding flush_states
  flush_tool_arg_buffers b =
      let (results, states) = flush_states b.tool_states in
      (results, record b { tool_states = states })
