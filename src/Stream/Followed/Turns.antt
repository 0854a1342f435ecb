-- ===== src/Stream/Followed/Turns.antt =====
-- The operations by which a turn says and thinks keep the ledger sound.
use agentic_model_gateway.Base.{
  ℕ, ◌≡◌, refl, sym, ap, subst, ◌∙◌, Bool, true, false, some, if◌then◌else◌, arith, ==_refl,
  Option-cases, inl, inr,
}
use agentic_model_gateway.Stream.Text.{Text, has}
use agentic_model_gateway.Stream.Event.{
  DeltaType, BlockType, text, thinking, text_delta, thinking_delta,
}
use agentic_model_gateway.Stream.Blocks.{StreamBlockLedger}
use agentic_model_gateway.Stream.Ledger.{Ledger, delta_block}
use agentic_model_gateway.Stream.Turn.{
  start_text_block, start_thinking_block, stop_text_block, stop_thinking_block, emit_text_delta,
  emit_thinking_delta, ensure_text_block, ensure_thinking_block, close_content_blocks,
}
use agentic_model_gateway.Stream.Contract.{stored, takes_delta}
use agentic_model_gateway.Stream.Followed.Blocks.{open_kind}
use agentic_model_gateway.Stream.Followed.Delta.{
  delta_block-open_kind, delta_block-blocks, delta_block-Followed,
}
use agentic_model_gateway.Stream.Followed.Accounts.{Accounted-moved}
use agentic_model_gateway.Stream.Followed.Opening.{
  Sound, the_text, the_thinking, start_text_block-Sound, start_thinking_block-Sound,
  start_text_block-blocks, start_thinking_block-blocks,
}
use agentic_model_gateway.Stream.Followed.Closing.{stop_text_block-Sound, stop_thinking_block-Sound}

-- What holds in both branches, with the test's answer.
pub if_both :
    (P : Ledger → Type 0) (b : Bool) (x y : Ledger)
    → (b ≡ true → P x)
    → (b ≡ false → P y)
    → P (if b then x else y)
if_both P true x y p q = p refl
if_both P false x y p q = q refl

-- What holds of a ledger whose text block is open, or whose thinking block is.
abbrev SaysText : Ledger → Type 0
SaysText l = Sound l × (l.blocks.text_started ≡ true)

abbrev Thinks : Ledger → Type 0
Thinks l = Sound l × (l.blocks.thinking_started ≡ true)

start_text-if_off :
    (l : Ledger) → Sound l → SaysText (if l.blocks.text_started then l else start_text_block l)
start_text-if_off l s =
    if_both SaysText l.blocks.text_started l (start_text_block l) (λ on. (s, on))
      (λ off. (
        start_text_block-Sound l s off,
        ap (λ (b : StreamBlockLedger). b.text_started) (start_text_block-blocks l),
      ))

start_thinking-if_off :
    (l : Ledger)
    → Sound l
    → Thinks (if l.blocks.thinking_started then l else start_thinking_block l)
start_thinking-if_off l s =
    if_both Thinks l.blocks.thinking_started l (start_thinking_block l) (λ on. (s, on))
      (λ off. (
        start_thinking_block-Sound l s off,
        ap (λ (b : StreamBlockLedger). b.thinking_started) (start_thinking_block-blocks l),
      ))

-- The ledger after a stop that may not be needed, and its flags.
stop_thinking-if_on :
    (l : Ledger)
    → Sound l
    → Sound (if l.blocks.thinking_started then stop_thinking_block l else l)
      × ((if l.blocks.thinking_started then stop_thinking_block l else l).blocks
          ≡ record l.blocks { thinking_started = false })
stop_thinking-if_on l s =
    if_both (λ k. Sound k × (k.blocks ≡ record l.blocks { thinking_started = false }))
      l.blocks.thinking_started (stop_thinking_block l) l (stop_thinking_block-Sound l s)
      (λ off. (s, ground arith))

stop_text-if_on :
    (l : Ledger)
    → Sound l
    → Sound (if l.blocks.text_started then stop_text_block l else l)
      × ((if l.blocks.text_started then stop_text_block l else l).blocks
          ≡ record l.blocks { text_started = false })
stop_text-if_on l s =
    if_both (λ k. Sound k × (k.blocks ≡ record l.blocks { text_started = false }))
      l.blocks.text_started (stop_text_block l) l (stop_text_block-Sound l s)
      (λ off. (s, ground arith))

pub ensure_text_block-Sound : (l : Ledger) → Sound l → SaysText (ensure_text_block l)
unfolding ensure_text_block
ensure_text_block-Sound l s =
    start_text-if_off (if l.blocks.thinking_started then stop_thinking_block l else l)
      (stop_thinking-if_on l s).0

pub ensure_thinking_block-Sound : (l : Ledger) → Sound l → Thinks (ensure_thinking_block l)
unfolding ensure_thinking_block
ensure_thinking_block-Sound l s =
    start_thinking-if_off (if l.blocks.text_started then stop_text_block l else l)
      (stop_text-if_on l s).0

-- A delta of an open block changes no account.
pub delta_block-Sound :
    (i : ℕ) (t : BlockType) (kind : DeltaType) (content : Text) (l : Ledger)
    → Sound l
    → open_kind l i ≡ some t
    → takes_delta (stored t) kind ≡ true
    → Sound (delta_block (some i) kind content l)
unfolding open_kind
delta_block-Sound i t kind content l s opened fits = record {
  followed = delta_block-Followed i t kind content l opened fits s.followed;
  accounted = rw (delta_block-blocks i t kind content l opened fits) (
      Accounted-moved s.accounted l.blocks.next_index
        (delta_block-open_kind i t kind content l opened fits));
}

pub emit_text_delta-Sound :
    (content : Text) (l : Ledger)
    → Sound l
    → l.blocks.text_started ≡ true
    → Sound (emit_text_delta content l)
unfolding emit_text_delta
emit_text_delta-Sound content l s on = elim (Option-cases l.blocks.text_index) [
  | inl nowhere ↦ cc (s.accounted.text_set on, ap has nowhere)
  | inr (i, at) ↦
      let opened = the_text (open_kind l i) (s.accounted.texts i ∙ rw (on, at) (==_refl i)) in
      subst (λ index. Sound (delta_block index text_delta content l)) (sym at)
        (delta_block-Sound i text text_delta content l s opened refl)
]

pub emit_thinking_delta-Sound :
    (content : Text) (l : Ledger)
    → Sound l
    → l.blocks.thinking_started ≡ true
    → Sound (emit_thinking_delta content l)
unfolding emit_thinking_delta
emit_thinking_delta-Sound content l s on = elim (Option-cases l.blocks.thinking_index) [
  | inl nowhere ↦ cc (s.accounted.thinking_set on, ap has nowhere)
  | inr (i, at) ↦
      let opened =
        the_thinking (open_kind l i) (s.accounted.thinkings i ∙ rw (on, at) (==_refl i)) in
      subst (λ index. Sound (delta_block index thinking_delta content l)) (sym at)
        (delta_block-Sound i thinking thinking_delta content l s opened refl)
]

-- Both flags are off afterwards, and the tool calls are as before.
pub close_content_blocks-Sound :
    (l : Ledger)
    → Sound l
    → Sound (close_content_blocks l)
      × ((close_content_blocks l).blocks
          ≡ record l.blocks { thinking_started = false; text_started = false })
unfolding close_content_blocks
close_content_blocks-Sound l s =
    let (sound, blocks) = stop_thinking-if_on l s in
    let l' = (if l.blocks.thinking_started then stop_thinking_block l else l) in
    let (sound', blocks') = stop_text-if_on l' sound in
    (sound', blocks' ∙ ap (λ (b : StreamBlockLedger). record b { text_started = false }) blocks)
