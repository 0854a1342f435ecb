-- ===== src/Stream/Followed/Calls.antt =====
-- Every call that the clients of the ledger make succeeds and keeps the ledger sound.
use agentic_model_gateway.Base.{
  ℕ, ◌≡◌, refl, sym, ap, ◌∙◌, true, false, Option, none, some, List, [], ◌∷◌, if◌then◌else◌, lookup,
  arith, Bool-cases, inl, inr,
}
use agentic_model_gateway.Stream.Text.{Text}
use agentic_model_gateway.Stream.Event.{tool_use}
use agentic_model_gateway.Stream.Blocks.{
  ToolBlockState, StreamBlockLedger, put_tool, set_stream_tool_id, set_tool_extra_content,
  register_tool_name,
}
use agentic_model_gateway.Stream.Ledger.{Ledger, stop_block}
use agentic_model_gateway.Stream.Turn.{
  ensure_text_block, ensure_thinking_block, close_content_blocks, stop_tool_block, start_tool_block,
}
use agentic_model_gateway.Stream.Client.{
  Call, text_arrives, reasoning_arrives, tool_starts, arguments_arrive, tool_ends, reasoning_sealed,
  tool_arrives, id_arrives, name_arrives, extra_arrives, text_delta_events, reasoning_delta_events,
  end_tool, after_stop, switch_off, off, sealed_block, whole_tool, perform, is_started, may, play,
  all_may,
}
use agentic_model_gateway.Stream.Followed.Blocks.{open_kind}
use agentic_model_gateway.Stream.Followed.Stop.{
  stop_block-open_kind, stop_block-blocks, stop_block-Followed,
}
use agentic_model_gateway.Stream.Followed.Running.{not_started}
use agentic_model_gateway.Stream.Followed.Accounts.{Accounted-stop_tool}
use agentic_model_gateway.Stream.Followed.Opening.{Sound, Followed-reblocked}
use agentic_model_gateway.Stream.Followed.Turns.{
  ensure_text_block-Sound, ensure_thinking_block-Sound, emit_text_delta-Sound,
  emit_thinking_delta-Sound, close_content_blocks-Sound,
}
use agentic_model_gateway.Stream.Followed.Tools.{
  running_tool, stop_tool_block-at, start_tool_block-Sound, emit_tool_delta-Sound,
}
use agentic_model_gateway.Stream.Followed.Texts.{
  set_stream_tool_id-Sound, set_tool_extra_content-Sound, register_tool_name-Sound,
}
use agentic_model_gateway.Stream.Followed.AtOnce.{sealed-Sound, whole_tool-Sound}

-- A step that succeeds and leaves a sound ledger.
abbrev pub Succeeds : Option Ledger → Type 0
Succeeds result = (l' : Ledger) × (result ≡ some l') × Sound l'

text_delta_events-Sound : (delta : Text) (l : Ledger) → Sound l → Sound (text_delta_events delta l)
unfolding text_delta_events
text_delta_events-Sound [] l s = s
text_delta_events-Sound (c ∷ delta) l s =
    let (sound, on) = ensure_text_block-Sound l s in
    emit_text_delta-Sound (c ∷ delta) (ensure_text_block l) sound on

reasoning_delta_events-Sound :
    (delta : Text) (l : Ledger) → Sound l → Sound (reasoning_delta_events delta l)
unfolding reasoning_delta_events
reasoning_delta_events-Sound [] l s = s
reasoning_delta_events-Sound (c ∷ delta) l s =
    let (sound, on) = ensure_thinking_block-Sound l s in
    emit_thinking_delta-Sound (c ∷ delta) (ensure_thinking_block l) sound on

-- The tool calls are as before behind `close_content_blocks`.
close_content_blocks-tool_states :
    (l : Ledger) → Sound l → (close_content_blocks l).blocks.tool_states ≡ l.blocks.tool_states
close_content_blocks-tool_states l s =
    ap (λ (b : StreamBlockLedger). b.tool_states) (close_content_blocks-Sound l s).1

started_there :
    (o : Option ToolBlockState)
    → is_started o ≡ true
    → (state : ToolBlockState) × (o ≡ some state) × (state.started ≡ true)
started_there none h = cc
started_there (some state) h = (state, refl, h)

-- The stop of a tool call that runs.
module _ (k i : ℕ) (state : ToolBlockState) (l : Ledger) (s : Sound l)
    (found : lookup k l.blocks.tool_states ≡ some state) (on : state.started ≡ true)
    (at : state.block_index ≡ some i) (opened : open_kind l i ≡ some tool_use) where
  stopped_tool-blocks : (stop_block (some i) l).blocks ≡ l.blocks
  stopped_tool-blocks = stop_block-blocks i tool_use l s.followed opened

  ended : Ledger
  ended = record (stop_block (some i) l) { blocks = put_tool k (off state) l.blocks }

  ended-Sound : Sound ended
  unfolding ended open_kind
  ended-Sound = record {
    followed =
        Followed-reblocked (stop_block (some i) l) (put_tool k (off state) l.blocks)
          (rw stopped_tool-blocks (omega arith))
          (stop_block-Followed i tool_use l s.followed opened);
    accounted =
        Accounted-stop_tool s.accounted k i state (off state) found on at refl
          (stop_block-open_kind i tool_use l s.followed opened);
  }

  after_stop-ended : after_stop k (some (stop_block (some i) l)) ≡ some ended
  unfolding after_stop ended
  after_stop-ended =
      ap (switch_off k (stop_block (some i) l))
        (ap (λ (b : StreamBlockLedger). lookup k b.tool_states) stopped_tool-blocks ∙ found)
      ∙ ap (λ b. some (record (stop_block (some i) l) { blocks = put_tool k (off state) b }))
          stopped_tool-blocks

  end_tool-at : after_stop k (stop_tool_block k l) ≡ some ended
  end_tool-at = ap (after_stop k) (stop_tool_block-at k i state l found at) ∙ after_stop-ended

end_tool-Sound :
    (k : ℕ) (state : ToolBlockState) (l : Ledger)
    → Sound l
    → lookup k l.blocks.tool_states ≡ some state
    → state.started ≡ true
    → Succeeds (end_tool k l)
unfolding end_tool
end_tool-Sound k state l s found on =
    let l' = close_content_blocks l in
    let sound = (close_content_blocks-Sound l s).0 in
    let found' = ap (lookup k) (close_content_blocks-tool_states l s) ∙ found in
    let (i, at, opened) = running_tool k state l' sound found' on in
    (
      ended k i state l' sound found' on at opened,
      end_tool-at k i state l' sound found' on at opened,
      ended-Sound k i state l' sound found' on at opened,
    )

may_start :
    (o : Option ToolBlockState)
    → (if is_started o then false else true) ≡ true
    → not_started o ≡ true
may_start none h = refl
may_start (some state) h = ground arith

pub perform-Sound : (c : Call) (l : Ledger) → Sound l → may c l ≡ true → Succeeds (perform c l)
unfolding perform may
perform-Sound (text_arrives delta) l s h =
    (text_delta_events delta l, refl, text_delta_events-Sound delta l s)
perform-Sound (reasoning_arrives delta) l s h =
    (reasoning_delta_events delta l, refl, reasoning_delta_events-Sound delta l s)
perform-Sound (tool_starts k id name extra) l s h =
    let same = close_content_blocks-tool_states l s in
    (
      start_tool_block k id name extra (close_content_blocks l),
      refl,
      start_tool_block-Sound k id name extra (close_content_blocks l)
          (close_content_blocks-Sound l s).0
          (ap (λ tools. not_started (lookup k tools)) same
            ∙ may_start (lookup k l.blocks.tool_states) h),
    )
perform-Sound (arguments_arrive k []) l s h =
    (close_content_blocks l, refl, (close_content_blocks-Sound l s).0)
perform-Sound (arguments_arrive k (c ∷ delta)) l s h =
    let (state, found, on) = started_there (lookup k l.blocks.tool_states) h in
    emit_tool_delta-Sound k state (c ∷ delta) (close_content_blocks l)
      (close_content_blocks-Sound l s).0
      (ap (lookup k) (close_content_blocks-tool_states l s) ∙ found) on
perform-Sound (tool_ends k) l s h =
    let (state, found, on) = started_there (lookup k l.blocks.tool_states) h in
    end_tool-Sound k state l s found on
perform-Sound (reasoning_sealed encrypted) l s h = (
  sealed_block encrypted l,
  refl,
  unfold sealed_block in
      sealed-Sound (some encrypted) (close_content_blocks l) (close_content_blocks-Sound l s).0,
)
perform-Sound (tool_arrives id name arguments) l s h = (
  whole_tool id name arguments l,
  refl,
  unfold whole_tool in
      whole_tool-Sound id name arguments (close_content_blocks l)
        (close_content_blocks-Sound l s).0,
)
perform-Sound (id_arrives k id) l s h = (
  record l { blocks = set_stream_tool_id k id l.blocks },
  refl,
  set_stream_tool_id-Sound k id l s,
)
perform-Sound (name_arrives k name) l s h = (
  record l { blocks = register_tool_name k name l.blocks },
  refl,
  register_tool_name-Sound k name l s,
)
perform-Sound (extra_arrives k extra) l s h = (
  record l { blocks = set_tool_extra_content k extra l.blocks },
  refl,
  set_tool_extra_content-Sound k extra l s,
)

all_may_step :
    (c : Call) (calls : List Call) (l l' : Ledger)
    → may c l ≡ true
    → perform c l ≡ some l'
    → all_may (c ∷ calls) l ≡ all_may calls l'
unfolding all_may
all_may_step c calls l l' allowed performed = rw (allowed, performed)

all_may_first :
    (c : Call) (calls : List Call) (l : Ledger) → all_may (c ∷ calls) l ≡ true → may c l ≡ true
unfolding all_may
all_may_first c calls l h = elim (Bool-cases (may c l)) [
  | inl allowed ↦ allowed
  | inr never ↦ let impossible = rw never at h in cc
]

play_step :
    (c : Call) (calls : List Call) (l l' : Ledger)
    → perform c l ≡ some l'
    → play (c ∷ calls) l ≡ play calls l'
unfolding play
play_step c calls l l' performed = rw (performed, play)

-- Calls that their callers make never raise, whatever their order, and keep the ledger sound.
pub play-Sound :
    (calls : List Call) (l : Ledger) → Sound l → all_may calls l ≡ true → Succeeds (play calls l)
unfolding play
play-Sound [] l s h = (l, refl, s)
play-Sound (c ∷ calls) l s h =
    let allowed = all_may_first c calls l h in
    let (l', performed, sound) = perform-Sound c l s allowed in
    let (last, played, kept) =
      play-Sound calls l' sound (sym (all_may_step c calls l l' allowed performed) ∙ h) in
    (last, play_step c calls l l' performed ∙ played, kept)
