-- ===== src/Stream/Followed/Tools.antt =====
-- The operations on tool blocks, and the blocks that are started and stopped at once, keep the ledger
-- sound, and none of them raises where a tool call runs.
use agentic_model_gateway.Base.{
  ℕ, ◌+◌, ◌≡◌, refl, sym, ap, subst, ◌∙◌, true, Option, some, max, lookup, arith, Option-cases, inl,
  inr,
}
use agentic_model_gateway.Stream.Text.{Text, has, is_visible}
use agentic_model_gateway.Stream.Event.{BlockType, tool_use, is_tool_use, input_json_delta}
use agentic_model_gateway.Stream.Blocks.{ToolBlockState, allocate_index, reserve_index, put_tool}
use agentic_model_gateway.Stream.Ledger.{
  Ledger, no_fields, delta_block, stop_block, record_block_start, note_start,
}
use agentic_model_gateway.Stream.Turn.{
  start_tool_block, started_state, emit_tool_delta, stop_tool_block,
}
use agentic_model_gateway.Stream.Followed.Blocks.{open_kind}
use agentic_model_gateway.Stream.Followed.Start.{start_block-open_kind, start_block-Followed}
use agentic_model_gateway.Stream.Followed.Running.{not_started, contains-running}
use agentic_model_gateway.Stream.Followed.Accounts.{Accounted, of_type, Accounted-start_tool}
use agentic_model_gateway.Stream.Followed.Opening.{
  Sound, Followed-reblocked, free_next, closed_next,
}
use agentic_model_gateway.Stream.Followed.Turns.{delta_block-Sound}

the_tool : (o : Option BlockType) → of_type is_tool_use o ≡ true → o ≡ some tool_use
the_tool o h = ground arith

-- The block of a tool call that runs is open.
pub running_tool :
    (k : ℕ) (state : ToolBlockState) (l : Ledger)
    → Sound l
    → lookup k l.blocks.tool_states ≡ some state
    → state.started ≡ true
    → (i : ℕ) × (state.block_index ≡ some i) × (open_kind l i ≡ some tool_use)
running_tool k state l s found on = elim (Option-cases state.block_index) [
  | inl nowhere ↦ cc (s.accounted.placed k state found on, ap has nowhere)
  | inr (i, at) ↦ (
    i,
    at,
    the_tool (open_kind l i)
        (s.accounted.tools i ∙ contains-running k i state l.blocks.tool_states found on at),
  )
]

module _ (k : ℕ) (id name : Text) (extra : Option ℕ) (l : Ledger) where
  abbrev tool_state : ToolBlockState
  tool_state = started_state (lookup k l.blocks.tool_states) l.blocks.next_index id name extra

  tool_state-started :
      (tool_state.started ≡ true) × (tool_state.block_index ≡ some l.blocks.next_index)
  tool_state-started = ground arith

  before_tool : Ledger
  before_tool = record l { blocks = put_tool k tool_state (allocate_index l.blocks) }

  start_tool_block-blocks :
      (start_tool_block k id name extra l).blocks ≡ record (put_tool k tool_state l.blocks) {
        next_index = max (l.blocks.next_index + 1) (l.blocks.next_index + 1);
      }
  unfolding start_tool_block note_start reserve_index record_block_start
  start_tool_block-blocks = refl

  pub start_tool_block-Sound :
      Sound l
      → not_started (lookup k l.blocks.tool_states) ≡ true
      → Sound (start_tool_block k id name extra l)
  unfolding start_tool_block open_kind is_visible before_tool
  start_tool_block-Sound s off =
      let fields = record no_fields { id = id; name = name; extra_content = extra } in
      record {
        followed =
            start_block-Followed l.blocks.next_index tool_use fields before_tool
              (Followed-reblocked l before_tool.blocks (omega arith) s.followed)
              (free_next l s.followed) refl refl;
        accounted =
            subst (λ b. Accounted (open_kind (start_tool_block k id name extra l)) b)
              (sym start_tool_block-blocks)
              (Accounted-start_tool s.accounted k l.blocks.next_index
                (max (l.blocks.next_index + 1) (l.blocks.next_index + 1)) tool_state off
                tool_state-started.0 tool_state-started.1 (closed_next l s.followed)
                (λ j. start_block-open_kind l.blocks.next_index j tool_use fields before_tool));
      }

pub emit_tool_delta-Sound :
    (k : ℕ) (state : ToolBlockState) (content : Text) (l : Ledger)
    → Sound l
    → lookup k l.blocks.tool_states ≡ some state
    → state.started ≡ true
    → (l' : Ledger) × (emit_tool_delta k content l ≡ some l') × Sound l'
unfolding emit_tool_delta
emit_tool_delta-Sound k state content l s found on =
    let (i, at, opened) = running_tool k state l s found on in
    (
      delta_block (some i) input_json_delta content l,
      rw (found, emit_tool_delta)
          (ap (λ index. some (delta_block index input_json_delta content l)) at),
      delta_block-Sound i tool_use input_json_delta content l s opened refl,
    )

pub stop_tool_block-at :
    (k i : ℕ) (state : ToolBlockState) (l : Ledger)
    → lookup k l.blocks.tool_states ≡ some state
    → state.block_index ≡ some i
    → stop_tool_block k l ≡ some (stop_block (some i) l)
unfolding stop_tool_block
stop_tool_block-at k i state l found at =
    rw (found, stop_tool_block) (ap (λ index. some (stop_block index l)) at)
