-- ===== src/Stream/Followed/Start.antt =====
-- A block that starts at an unused index keeps the stream within the contract.
use agentic_model_gateway.Base.{
  ℕ, ◌+◌, ◌≡◌, refl, sym, ap, ◌∙◌, true, false, none, some, List, [], ◌∷◌, ◌++◌, ◌==◌,
  if◌then◌else◌, ◌||◌, max, contains, lookup, insert, lookup-insert, arith,
}
use mathlib.Core.List.{append-nil}
use agentic_model_gateway.Stream.Text.{Text, has, join, is_visible}
use agentic_model_gateway.Stream.Event.{
  BlockType, text, ContentBlock, text_block, type_of, content_block_start, is_visible_type,
}
use agentic_model_gateway.Stream.Blocks.{StreamBlockState, reserve_index}
use agentic_model_gateway.Stream.Ledger.{
  Ledger, Fields, content_block, note_start, start_block, record_block_start, parts_of, send,
}
use agentic_model_gateway.Stream.Turn.{any_visible}
use agentic_model_gateway.Stream.Contract.{
  Seen, stored, is_allowed, storage_of, see_event, see_start, event_text, any_visible_type,
  no_items, nothing_seen,
}
use agentic_model_gateway.Stream.Followed.Blocks.{
  Followed, open_kind, kind_of, stored_kind, see_all-snoc, text_content-snoc, join-snoc,
  any_visible-insert_new, has_message_start-snoc, no_items-insert, no_items-insert,
}

join-parts_of : (parts : List Text) (s : Text) → join (parts ++ parts_of s) ≡ join parts ++ s
join-parts_of parts [] = ap join (append-nil parts) ∙ sym (append-nil (join parts))
join-parts_of parts (c ∷ s) = join-snoc parts (c ∷ s)

type_of-content_block : (t : BlockType) (f : Fields) → type_of (content_block t f) ≡ t
type_of-content_block text f = refl
type_of-content_block t f = refl

-- A text field with something to see would make the block one that takes no deltas.
storage_of-content_block :
    (t : BlockType) (f : Fields)
    → is_visible f.text_field ≡ false
    → storage_of (content_block t f) ≡ stored t
storage_of-content_block text f h = rw h
storage_of-content_block t f h = refl

-- What a start records.
record Noted (index : ℕ) (block : ContentBlock) (l : Ledger) : Type 0 where
  at_index : (note_start index block l).0.index ≡ index
  typed : (note_start index block l).0.block_type ≡ type_of block
  opens : (note_start index block l).0.open_block ≡ true
  kept : (note_start index block l).1.content_blocks ≡ l.content_blocks
  stack : (note_start index block l).1.open_stack ≡ l.open_stack
  next : (note_start index block l).1.blocks.next_index ≡ l.blocks.next_index
  out : (note_start index block l).1.sent ≡ l.sent
  says :
      join (note_start index block l).1.text_parts
      ≡ join l.text_parts ++ event_text (content_block_start index block)

note_start-Noted : (index : ℕ) (block : ContentBlock) (l : Ledger) → Noted index block l
unfolding note_start
note_start-Noted index (text_block s) l = record {
  at_index = refl;
  typed = refl;
  opens = refl;
  kept = refl;
  stack = refl;
  next = refl;
  out = refl;
  says = join-parts_of l.text_parts s;
}
note_start-Noted index block l = record {
  at_index = refl;
  typed = refl;
  opens = refl;
  kept = refl;
  stack = refl;
  next = refl;
  out = refl;
  says = sym (append-nil (join l.text_parts));
}

module _ (n : ℕ) (block : ContentBlock) (l : Ledger) where
  abbrev below : Ledger
  below = record l { blocks = reserve_index n l.blocks }

  abbrev started : StreamBlockState
  started = (note_start n block below).0

  lookup-record_block_start :
      (i : ℕ)
      → lookup i (record_block_start n block l).content_blocks
        ≡ (if n == i then some started else lookup i l.content_blocks)
  unfolding record_block_start reserve_index
  lookup-record_block_start i =
      lookup-insert n i started (note_start n block below).1.content_blocks
      ∙ rw (note_start-Noted n block below).kept

  record_block_start-open_kind :
      (i : ℕ)
      → open_kind (record_block_start n block l) i
        ≡ (if n == i then some (type_of block) else open_kind l i)
  unfolding open_kind
  record_block_start-open_kind i =
      let noted = note_start-Noted n block below in
      rw (lookup-record_block_start i) (ground (arith, noted.typed, noted.opens))

  record_block_start-sent : (record_block_start n block l).sent ≡ l.sent
  unfolding record_block_start
  record_block_start-sent = (note_start-Noted n block below).out

  record_block_start-open_stack : (record_block_start n block l).open_stack ≡ n ∷ l.open_stack
  unfolding record_block_start
  record_block_start-open_stack = ap (λ stack. n ∷ stack) (note_start-Noted n block below).stack

  record_block_start-text_parts :
      join (record_block_start n block l).text_parts
      ≡ join l.text_parts ++ event_text (content_block_start n block)
  unfolding record_block_start
  record_block_start-text_parts = (note_start-Noted n block below).says

  record_block_start-next_index :
      (record_block_start n block l).blocks.next_index ≡ max l.blocks.next_index (n + 1)
  unfolding record_block_start reserve_index
  record_block_start-next_index = (note_start-Noted n block below).next

  record_block_start-no_items : no_items (record_block_start n block l).content_blocks ≡ false
  unfolding record_block_start
  record_block_start-no_items =
      no_items-insert n started (note_start n block below).1.content_blocks

  record_block_start-any_visible :
      lookup n l.content_blocks ≡ none
      → any_visible (record_block_start n block l).content_blocks
        ≡ (is_visible_type (type_of block) || any_visible l.content_blocks)
  unfolding record_block_start
  record_block_start-any_visible h =
      let noted = note_start-Noted n block below in
      any_visible-insert_new n started (note_start n block below).1.content_blocks (rw noted.kept h)
      ∙ rw (noted.kept, noted.typed)

  module _ (f : Followed l) (h : lookup n l.content_blocks ≡ none) where
    seen_start : Seen
    seen_start = record {
      open_blocks = insert n (storage_of block) f.checked.open_blocks;
      seen_blocks = n ∷ f.checked.seen_blocks;
      seen_block_types = type_of block ∷ f.checked.seen_block_types;
    }

    see_event-start :
        is_allowed (type_of block) ≡ true
        → see_event false (content_block_start n block) f.checked ≡ some seen_start
    unfolding see_event see_start seen_start open_kind
    see_event-start allowed =
        let unseen = f.seen n ∙ ap has h in
        let unopened = f.opened n ∙ ap (λ o. stored_kind (kind_of o)) h in
        rw (allowed, unopened, unseen)

    record_block_start-Followed :
        is_allowed (type_of block) ≡ true
        → storage_of block ≡ stored (type_of block)
        → Followed (send (content_block_start n block) (record_block_start n block l))
    unfolding open_kind seen_start contains any_visible_type
    record_block_start-Followed allowed plain = record {
      checked = seen_start;
      scanned =
          see_all-snoc false (record_block_start n block l).sent (content_block_start n block)
            (some nothing_seen)
          ∙ rw (record_block_start-sent, f.scanned) (see_event-start allowed);
      opened = λ i.
          lookup-insert n i (storage_of block) f.checked.open_blocks
          ∙ ground (arith, f.opened i, record_block_start-open_kind i);
      seen = λ i. ground (arith, f.seen i, lookup-record_block_start i);
      unused = λ i bound.
          ground (arith, f.unused i, lookup-record_block_start i, record_block_start-next_index);
      stacked = λ i.
          rw record_block_start-open_stack
            (ground (arith, f.stacked i, record_block_start-open_kind i));
      distinct =
          rw record_block_start-open_stack (f.stacked n ∙ ap (λ o. has (kind_of o)) h, f.distinct);
      indexed = λ i state found. ground (
        arith,
        f.indexed i state,
        lookup-record_block_start i,
        (note_start-Noted n block below).at_index,
      );
      begun =
          has_message_start-snoc (record_block_start n block l).sent (content_block_start n block)
            (rw record_block_start-sent f.begun);
      spoken = λ bare. cc record_block_start-no_items;
      told =
          text_content-snoc (record_block_start n block l).sent (content_block_start n block)
          ∙ rw (record_block_start-sent, f.told) (sym record_block_start-text_parts);
      shown =
          ap (λ b. is_visible_type (type_of block) || b) f.shown
          ∙ sym (record_block_start-any_visible h);
    }

pub start_block-open_kind :
    (n i : ℕ) (t : BlockType) (f : Fields) (l : Ledger)
    → open_kind (start_block n t f l) i ≡ (if n == i then some t else open_kind l i)
unfolding start_block open_kind
start_block-open_kind n i t f l =
    rw (type_of-content_block t f) at (record_block_start-open_kind n (content_block t f) l i)

pub start_block-Followed :
    (n : ℕ) (t : BlockType) (fields : Fields) (l : Ledger)
    → Followed l
    → lookup n l.content_blocks ≡ none
    → is_allowed t ≡ true
    → is_visible fields.text_field ≡ false
    → Followed (start_block n t fields l)
unfolding start_block
start_block-Followed n t fields l f h allowed blank =
    let e = type_of-content_block t fields in
    record_block_start-Followed n (content_block t fields) l f h (rw e allowed)
      (rw e (storage_of-content_block t fields blank))
