-- ===== src/Stream/Followed/Ending.antt =====
-- The end of a turn: something is shown, and every block is closed.
use agentic_model_gateway.Base.{
  NoRepeats, ℕ, ◌≡◌, refl, sym, ap, subst, ◌∙◌, true, false, not, ◌&&◌, Option, none, some, [], ◌∷◌,
  if◌then◌else◌, lookup, contains, arith, Bool-cases, Option-cases, inl, inr, ==_refl, All,
}
use agentic_model_gateway.Stream.Text.{Text, has, join, is_visible, is_visible-append}
use agentic_model_gateway.Stream.Event.{
  BlockType, text, tool_use, is_text, is_thinking, is_tool_use, text_delta,
}
use agentic_model_gateway.Stream.Blocks.{ToolBlockState, StreamBlockLedger}
use agentic_model_gateway.Stream.Ledger.{Ledger, delta_block, stop_block, points_to}
use agentic_model_gateway.Stream.Turn.{
  needs_visible_content, ensure_visible_content, ensure_text_block, emit_text_delta,
  empty_turn_filler, stop_tools, close_content_blocks, close_all_blocks, stop_text_block,
  stop_thinking_block,
}
use agentic_model_gateway.Stream.Followed.Blocks.{Followed, open_kind}
use agentic_model_gateway.Stream.Followed.Delta.{delta_block-text_parts}
use agentic_model_gateway.Stream.Followed.Stop.{
  IsSeen, stop_block-IsSeen, stop_block-open_kind, stop_block-blocks, stop_block-Followed,
}
use agentic_model_gateway.Stream.Followed.Running.{Tools, running, IsFound, All-IsFound}
use agentic_model_gateway.Stream.Followed.Accounts.{of_type, is_other}
use agentic_model_gateway.Stream.Followed.Opening.{Sound, the_text}
use agentic_model_gateway.Stream.Followed.Closing.{
  stop_text_block-IsSeen, stop_thinking_block-IsSeen, stop_thinking_block-Sound,
}
use agentic_model_gateway.Stream.Followed.Tools.{stop_tool_block-at}
use agentic_model_gateway.Stream.Followed.Turns.{
  if_both, ensure_text_block-Sound, emit_text_delta-Sound, close_content_blocks-Sound,
}

-- A text delta that is no white space shows.
emit_text_delta-IsSeen :
    (content : Text) (l : Ledger)
    → Sound l
    → l.blocks.text_started ≡ true
    → is_visible content ≡ true
    → IsSeen (emit_text_delta content l)
unfolding emit_text_delta
emit_text_delta-IsSeen content l s on h = elim (Option-cases l.blocks.text_index) [
  | inl nowhere ↦ cc (s.accounted.text_set on, ap has nowhere)
  | inr (i, at) ↦
      let opened = the_text (open_kind l i) (s.accounted.texts i ∙ rw (on, at) (==_refl i)) in
      let says = delta_block-text_parts i text text_delta content l opened refl in
      subst (λ index. IsSeen (delta_block index text_delta content l)) (sym at)
        (ground (arith, ap is_visible says, is_visible-append (join l.text_parts) content))
]

pub ensure_visible_content-Sound :
    (l : Ledger) → Sound l → Sound (ensure_visible_content l) × IsSeen (ensure_visible_content l)
unfolding ensure_visible_content needs_visible_content is_visible
ensure_visible_content-Sound l s =
    if_both (λ k. Sound k × IsSeen k) (not (needs_visible_content l)) l
      (emit_text_delta empty_turn_filler (ensure_text_block l)) (λ shown. (s, ground arith))
      (λ needed.
        let (sound, on) = ensure_text_block-Sound l s in
        (
          emit_text_delta-Sound empty_turn_filler (ensure_text_block l) sound on,
          emit_text_delta-IsSeen empty_turn_filler (ensure_text_block l) sound on refl,
        ))

close_content_blocks-IsSeen : (l : Ledger) → Sound l → IsSeen l → IsSeen (close_content_blocks l)
unfolding close_content_blocks
close_content_blocks-IsSeen l s h =
    let l' = (if l.blocks.thinking_started then stop_thinking_block l else l) in
    let (sound, seen) =
      if_both (λ k. Sound k × IsSeen k) l.blocks.thinking_started (stop_thinking_block l) l
        (λ on. ((stop_thinking_block-Sound l s on).0, stop_thinking_block-IsSeen l s on h))
        (λ off. (s, h)) in
    if_both IsSeen l'.blocks.text_started (stop_text_block l') l'
      (λ on. stop_text_block-IsSeen l' sound on seen) (λ off. seen)

-- Only blocks of the tool calls in a list are open, each of them once.
record OnlyTools (tools : Tools) (l : Ledger) (left : Tools) : Type 0 where
  followed : Followed l
  states : l.blocks.tool_states ≡ tools
  no_texts : (j : ℕ) → of_type is_text (open_kind l j) ≡ false
  no_thinkings : (j : ℕ) → of_type is_thinking (open_kind l j) ≡ false
  no_others : (j : ℕ) → of_type is_other (open_kind l j) ≡ false
  only : (j : ℕ) → of_type is_tool_use (open_kind l j) ≡ contains j (running left)
  once : NoRepeats (running left)
  seen : IsSeen l

-- A ledger without open blocks.
pub record AllClosed (l : Ledger) : Type 0 where
  pub followed : Followed l
  pub closed : (j : ℕ) → open_kind l j ≡ none
  pub seen : IsSeen l

abbrev Placed : Tools → Type 0
Placed tools =
    (k : ℕ) (state : ToolBlockState)
    → lookup k tools ≡ some state
    → state.started ≡ true
    → has state.block_index ≡ true

open_none :
    (o : Option BlockType)
    → of_type is_text o ≡ false
    → of_type is_thinking o ≡ false
    → of_type is_other o ≡ false
    → of_type is_tool_use o ≡ false
    → o ≡ none
open_none o a b c d = ground arith

-- The list has nothing left to stop.
OnlyTools-closed : (tools : Tools) (l : Ledger) → OnlyTools tools l [] → AllClosed l
unfolding running contains
OnlyTools-closed tools l w = record {
  followed = w.followed;
  closed =
      λ j. open_none (open_kind l j) (w.no_texts j) (w.no_thinkings j) (w.no_others j) (w.only j);
  seen = w.seen;
}

module _ (k i : ℕ) (state : ToolBlockState) (left tools : Tools) (l : Ledger)
    (w : OnlyTools tools l ((k, state) ∷ left)) (on : state.started ≡ true)
    (at : state.block_index ≡ some i) where
  left_open : open_kind l i ≡ some tool_use
  unfolding running contains
  left_open = ground (arith, w.only i, ==_refl i)

  split_once : (contains i (running left) ≡ false) × NoRepeats (running left)
  unfolding running
  split_once = let once = w.once in ground arith

  stopped_one : OnlyTools tools (stop_block (some i) l) left
  unfolding running contains
  stopped_one =
      let kinds = stop_block-open_kind i tool_use l w.followed left_open in
      let once : (contains i (running left) ≡ false) × NoRepeats (running left) = split_once in
      record {
        followed = stop_block-Followed i tool_use l w.followed left_open;
        states =
            ap (λ (b : StreamBlockLedger). b.tool_states)
              (stop_block-blocks i tool_use l w.followed left_open)
            ∙ w.states;
        no_texts = λ j. ground (arith, kinds j, w.no_texts j);
        no_thinkings = λ j. ground (arith, kinds j, w.no_thinkings j);
        no_others = λ j. ground (arith, kinds j, w.no_others j);
        only = λ j. ground (arith, kinds j, w.only j, once.0);
        once = once.1;
        seen = stop_block-IsSeen i tool_use l w.followed left_open w.seen;
      }

skipped_one :
    (k : ℕ) (state : ToolBlockState) (left tools : Tools) (l : Ledger)
    → OnlyTools tools l ((k, state) ∷ left)
    → state.started ≡ false
    → OnlyTools tools l left
unfolding running
skipped_one k state left tools l w off =
    let same : running ((k, state) ∷ left) ≡ running left = ground arith in
    record {
      followed = w.followed;
      states = w.states;
      no_texts = w.no_texts;
      no_thinkings = w.no_thinkings;
      no_others = w.no_others;
      only = λ j. w.only j ∙ ap (contains j) same;
      once = subst NoRepeats same w.once;
      seen = w.seen;
    }

stop_tools_off :
    (k : ℕ) (state : ToolBlockState) (left : Tools) (l : Ledger)
    → state.started ≡ false
    → stop_tools ((k, state) ∷ left) l ≡ stop_tools left l
unfolding stop_tools
stop_tools_off k state left l off = ground arith

stop_tools_on :
    (k i : ℕ) (state : ToolBlockState) (left : Tools) (l : Ledger)
    → state.started ≡ true
    → state.block_index ≡ some i
    → lookup k l.blocks.tool_states ≡ some state
    → stop_tools ((k, state) ∷ left) l ≡ stop_tools left (stop_block (some i) l)
unfolding stop_tools
stop_tools_on k i state left l on at found = ground (arith, stop_tool_block-at k i state l found at)

-- The loop over the tool calls stops every block that is open, and never raises.
stop_tools-closed :
    (tools left : Tools) (l : Ledger)
    → Placed tools
    → All (IsFound tools) left
    → OnlyTools tools l left
    → (l' : Ledger) × (stop_tools left l ≡ some l') × AllClosed l'
unfolding stop_tools
stop_tools-closed tools [] l placed found w = (l, refl, OnlyTools-closed tools l w)
stop_tools-closed tools ((k, state) ∷ left) l placed found w = elim (Bool-cases state.started) [
  | inr off ↦
      let (l', rest, closed) =
        stop_tools-closed tools left l placed found.1 (skipped_one k state left tools l w off) in
      (l', stop_tools_off k state left l off ∙ rest, closed)
  | inl on ↦ elim (Option-cases state.block_index) [
    | inl nowhere ↦ cc (placed k state found.0 on, ap has nowhere)
    | inr (i, at) ↦
        let (l', rest, closed) =
          stop_tools-closed tools left (stop_block (some i) l) placed found.1
            (stopped_one k i state left tools l w on at) in
        (l', stop_tools_on k i state left l on at (ap (lookup k) w.states ∙ found.0) ∙ rest, closed)
  ]
]

-- `close_all_blocks` of a turn that shows something closes every block, and never raises.
pub close_all_blocks-AllClosed :
    (l : Ledger)
    → Sound l
    → IsSeen l
    → (l' : Ledger) × (close_all_blocks l ≡ some l') × AllClosed l'
unfolding close_all_blocks
close_all_blocks-AllClosed l s h =
    let l' = close_content_blocks l in
    let (sound, blocks) = close_content_blocks-Sound l s in
    let a = sound.accounted in
    let no_text : l'.blocks.text_started ≡ false =
      ap (λ (b : StreamBlockLedger). b.text_started) blocks in
    let no_thinking : l'.blocks.thinking_started ≡ false =
      ap (λ (b : StreamBlockLedger). b.thinking_started) blocks in
    stop_tools-closed l'.blocks.tool_states l'.blocks.tool_states l' a.placed
      (All-IsFound l'.blocks.tool_states a.keyed)
      (record {
        followed = sound.followed;
        states = refl;
        no_texts = λ j. a.texts j ∙ ap (λ b. b && points_to l'.blocks.text_index j) no_text;
        no_thinkings =
            λ j. a.thinkings j ∙ ap (λ b. b && points_to l'.blocks.thinking_index j) no_thinking;
        no_others = a.no_others;
        only = a.tools;
        once = a.once;
        seen = close_content_blocks-IsSeen l s h;
      })
