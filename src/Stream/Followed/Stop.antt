-- ===== src/Stream/Followed/Stop.antt =====
-- The stop of an open block keeps the stream within the contract.
use agentic_model_gateway.Base.{
  subst, ◌||◌, ℕ, ◌≡◌, refl, sym, ap, ◌∙◌, true, false, none, some, [], ◌∷◌, ◌++◌, ◌==◌,
  if◌then◌else◌, lookup, insert, erase, lookup-insert, lookup-erase, arith,
}
use mathlib.Core.List.{append-nil}
use agentic_model_gateway.Stream.Text.{join, is_visible}
use agentic_model_gateway.Stream.Turn.{any_visible}
use agentic_model_gateway.Stream.Event.{BlockType, content_block_stop}
use agentic_model_gateway.Stream.Blocks.{StreamBlockState, StreamBlockLedger}
use agentic_model_gateway.Stream.Ledger.{
  Ledger, clear_flags, close_state, close_at, record_block_stop, stop_block, send, unstack,
}
use agentic_model_gateway.Stream.Contract.{text_content, Seen, nothing_seen, see_event, see_stop}
use agentic_model_gateway.Stream.Followed.Blocks.{
  Followed, open_kind, see_all-snoc, text_content-snoc, any_visible-insert_again, lookup-equal,
  has_message_start-snoc, no_items-insert, contains-unstack, NoRepeats-unstack,
}
use agentic_model_gateway.Stream.Followed.Delta.{open_block_at}

clear_flags-next_index :
    (t : BlockType) (i : ℕ) (b : StreamBlockLedger) → (clear_flags t i b).next_index ≡ b.next_index
clear_flags-next_index t i b = ground arith

pub close_at-found :
    (i : ℕ) (state : StreamBlockState) (l : Ledger)
    → lookup i l.content_blocks ≡ some state
    → close_at (some i) l ≡ close_state i state l
unfolding close_at
close_at-found i state l at = rw (at, close_at)

-- The turn has something that the client can show or act on.
abbrev pub IsSeen : Ledger → Type 0
IsSeen l = (is_visible (join l.text_parts) || any_visible l.content_blocks) ≡ true

module _ (i : ℕ) (t : BlockType) (l : Ledger) (f : Followed l)
    (opened : open_kind l i ≡ some t) where
  -- The ledger behind the stop, with the block's state written out.
  abbrev closed : StreamBlockState → Ledger
  closed state = record l {
    open_stack = unstack (some i) l.open_stack;
    blocks = clear_flags t i l.blocks;
    content_blocks = insert i (record state { open_block = false }) l.content_blocks;
    sent = l.sent ++ content_block_stop (some i) ∷ [];
  }

  pub stop_block_lem :
      (state : StreamBlockState) × (lookup i l.content_blocks ≡ some state)
      × (state.open_block ≡ true)
      × (state.block_type ≡ t)
      × (stop_block (some i) l ≡ closed state)
  unfolding stop_block record_block_stop close_state
  stop_block_lem =
      let (state, at, open_there, typed) = open_block_at i t l opened in
      (
        state,
        at,
        open_there,
        typed,
        ap (send (content_block_stop (some i))) (
            close_at-found i state (record l { open_stack = unstack (some i) l.open_stack }) at
            ∙ rw (typed, f.indexed i state at)),
      )

  lookup-closed :
      (state : StreamBlockState) (j : ℕ)
      → lookup j (closed state).content_blocks
        ≡ (if i == j then some (record state { open_block = false }) else lookup j l.content_blocks)
  lookup-closed state j = lookup-insert i j (record state { open_block = false }) l.content_blocks

  closed-open_kind :
      (state : StreamBlockState) (j : ℕ)
      → open_kind (closed state) j ≡ (if i == j then none else open_kind l j)
  unfolding open_kind
  closed-open_kind state j = ground (arith, lookup-closed state j)

  pub stop_block-open_kind :
      (j : ℕ) → open_kind (stop_block (some i) l) j ≡ (if i == j then none else open_kind l j)
  stop_block-open_kind j =
      let (state, _, _, _, e) = stop_block_lem in rw e (closed-open_kind state j)

  pub stop_block-blocks : (stop_block (some i) l).blocks ≡ clear_flags t i l.blocks
  stop_block-blocks = let (state, _, _, _, e) = stop_block_lem in ap (λ (k : Ledger). k.blocks) e

  seen_stop : Seen
  seen_stop = record f.checked { open_blocks = erase i f.checked.open_blocks }

  see_event-stop : see_event false (content_block_stop (some i)) f.checked ≡ some seen_stop
  unfolding see_event see_stop seen_stop
  see_event-stop = rw (f.opened i, opened)

  closed-Followed :
      (state : StreamBlockState) → lookup i l.content_blocks ≡ some state → Followed (closed state)
  unfolding seen_stop
  closed-Followed state at = record {
    checked = seen_stop;
    scanned =
        see_all-snoc false l.sent (content_block_stop (some i)) (some nothing_seen)
        ∙ rw f.scanned see_event-stop;
    opened = λ j.
        lookup-erase i j f.checked.open_blocks
        ∙ ground (arith, f.opened j, closed-open_kind state j);
    seen = λ j.
        ground (arith, f.seen j, lookup-closed state j, lookup-equal i j state l.content_blocks at);
    unused = λ j bound.
        let old = f.unused j (rw (clear_flags-next_index t i l.blocks) at bound) in
        ground (arith, lookup-closed state j, lookup-equal i j state l.content_blocks at);
    stacked = λ j.
        contains-unstack i j l.open_stack f.distinct
        ∙ ground (arith, f.stacked j, closed-open_kind state j);
    distinct = NoRepeats-unstack i l.open_stack f.distinct;
    indexed =
        λ j new e. ground (arith, f.indexed i state at, f.indexed j new, lookup-closed state j);
    begun = has_message_start-snoc l.sent (content_block_stop (some i)) f.begun;
    spoken = λ bare. cc (no_items-insert i (record state { open_block = false }) l.content_blocks);
    told =
        text_content-snoc l.sent (content_block_stop (some i))
        ∙ (append-nil (text_content l.sent) ∙ f.told);
    shown =
        f.shown
        ∙ sym (
            any_visible-insert_again i (record state { open_block = false }) state l.content_blocks
              at refl);
  }

  pub stop_block-Followed : Followed (stop_block (some i) l)
  stop_block-Followed = let (state, at, _, _, e) = stop_block_lem in rw e (closed-Followed state at)

  -- A stop takes nothing away that the client sees.
  pub stop_block-IsSeen : IsSeen l → IsSeen (stop_block (some i) l)
  stop_block-IsSeen h =
      let (state, at, _, _, e) = stop_block_lem in
      subst IsSeen (sym e) (
        subst (λ b. (is_visible (join l.text_parts) || b) ≡ true)
          (sym (
            any_visible-insert_again i (record state { open_block = false }) state l.content_blocks
              at refl))
          h)

  pub stop_block-open_stack : (stop_block (some i) l).open_stack ≡ unstack (some i) l.open_stack
  stop_block-open_stack =
      let (state, _, _, _, e) = stop_block_lem in ap (λ (k : Ledger). k.open_stack) e
