-- ===== src/Stream/Followed/CutOff.antt =====
-- A stream that is cut off leaves no block open.
use agentic_model_gateway.Base.{
  ℕ, ◌≡◌, refl, sym, ap, subst, ◌∙◌, true, false, Option, none, some, List, [], ◌∷◌, contains,
  arith, ==_refl,
}
use agentic_model_gateway.Stream.Text.{has}
use agentic_model_gateway.Stream.Event.{content_block_stop, BlockType}
use agentic_model_gateway.Stream.Ledger.{
  Ledger, stop_block, record_block_stop, unstack, send, close_at,
}
use agentic_model_gateway.Stream.Turn.{close_unclosed_blocks, pop_open}
use agentic_model_gateway.Stream.Client.{Call, play, all_may}
use agentic_model_gateway.Stream.Contract.{Seen, nothing_seen, see_all}
use agentic_model_gateway.Stream.Followed.Blocks.{stored_kind, Followed, open_kind}
use agentic_model_gateway.Stream.Followed.Stop.{stop_block-open_stack, stop_block-Followed}
use agentic_model_gateway.Stream.Followed.Calls.{play-Sound}
use agentic_model_gateway.Stream.Followed.Contracts.{started, started-Sound, no_open_blocks}

nothing_there : (o : Option BlockType) → has o ≡ false → o ≡ none
nothing_there o h = ground arith

something_there : (o : Option BlockType) → has o ≡ true → (t : BlockType) × (o ≡ some t)
something_there none h = cc
something_there (some t) h = (t, refl)

-- A round of the loop is the stop of the block on top.
pop_open_step :
    (i : ℕ) (stack : List ℕ) (l : Ledger)
    → l.open_stack ≡ i ∷ stack
    → (pop_open (i ∷ stack) l ≡ pop_open stack (stop_block (some i) l))
      × (unstack (some i) l.open_stack ≡ stack)
unfolding pop_open stop_block record_block_stop
pop_open_step i stack l e =
    let top : unstack (some i) l.open_stack ≡ stack =
      ap (unstack (some i)) e ∙ (unfold unstack in rw (==_refl i) refl) in
    (
      ap
          (λ rest. pop_open stack (
            send (content_block_stop (some i))
              (close_at (some i) (record l { open_stack = rest }))))
          (sym top),
      top,
    )

-- A stack that is the ledger's is closed from its top.
pop_open-closed :
    (stack : List ℕ) (l : Ledger)
    → Followed l
    → l.open_stack ≡ stack
    → Followed (pop_open stack l) × ((j : ℕ) → open_kind (pop_open stack l) j ≡ none)
pop_open-closed [] l f e =
    unfold pop_open contains in
    (f, λ j. nothing_there (open_kind l j) (sym (f.stacked j) ∙ ap (contains j) e))
pop_open-closed (i ∷ stack) l f e =
    let (t, opened) =
      something_there (open_kind l i)
        (sym (f.stacked i) ∙ (ap (contains i) e ∙ (unfold contains in rw (==_refl i) refl))) in
    let (same, top) = pop_open_step i stack l e in
    let (followed, closed) =
      pop_open-closed stack (stop_block (some i) l) (stop_block-Followed i t l f opened)
        (stop_block-open_stack i t l f opened ∙ top) in
    (subst Followed (sym same) followed, λ j. ap (λ k. open_kind k j) same ∙ closed j)

-- A stream that is cut off: whatever arrived before, `close_unclosed_blocks` leaves no block open, and the
-- contract's check accepts every event so far.
pub cut_off_stream_closed :
    (message_id model tokens : ℕ) (calls : List Call)
    → all_may calls (started message_id model tokens) ≡ true
    → (l : Ledger) × (c : Seen) × (play calls (started message_id model tokens) ≡ some l)
      × (see_all false (close_unclosed_blocks l).sent (some nothing_seen) ≡ some c)
      × (c.open_blocks ≡ [])
unfolding close_unclosed_blocks
cut_off_stream_closed message_id model tokens calls h =
    let (l, played, sound) =
      play-Sound calls (started message_id model tokens) (started-Sound message_id model tokens)
        h in
    let (f, closed) = pop_open-closed l.open_stack l sound.followed refl in
    (
      l,
      f.checked,
      played,
      f.scanned,
      no_open_blocks f.checked.open_blocks (λ i. f.opened i ∙ ap stored_kind (closed i)),
    )
