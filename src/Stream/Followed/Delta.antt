-- ===== src/Stream/Followed/Delta.antt =====
-- A delta of an open block keeps the stream within the contract.
use agentic_model_gateway.Base.{
  ℕ, ◌≡◌, refl, sym, ap, ◌∙◌, true, false, none, some, List, ◌++◌, ◌==◌, if◌then◌else◌, lookup,
  insert, lookup-insert, arith, Option-cases, inl, inr,
}
use mathlib.Core.List.{append-nil}
use agentic_model_gateway.Stream.Text.{Text, has, join}
use agentic_model_gateway.Stream.Event.{
  BlockType, text, thinking, tool_use, DeltaType, thinking_delta, signature_delta, text_delta,
  input_json_delta, content_block_delta,
}
use agentic_model_gateway.Stream.Blocks.{StreamBlockState}
use agentic_model_gateway.Stream.Ledger.{Ledger, grown, note_delta, record_block_delta, delta_block}
use agentic_model_gateway.Stream.Turn.{any_visible}
use agentic_model_gateway.Stream.Contract.{
  stored, takes_delta, nothing_seen, see_event, see_delta, no_items, event_text,
}
use agentic_model_gateway.Stream.Followed.Blocks.{
  Followed, open_kind, kind_of, stored_kind, see_all-snoc, text_content-snoc, join-snoc,
  any_visible-insert_again, lookup-equal, has_message_start-snoc, lookup-no_items,
}

-- The block that stands behind an open index.
pub open_block_at :
    (i : ℕ) (t : BlockType) (l : Ledger)
    → open_kind l i ≡ some t
    → (state : StreamBlockState) × (lookup i l.content_blocks ≡ some state)
      × (state.open_block ≡ true)
      × (state.block_type ≡ t)
unfolding open_kind
open_block_at i t l h = elim (Option-cases (lookup i l.content_blocks)) [
  | inl e ↦ ground arith
  | inr (state, e) ↦ (state, e, ground arith, ground arith)
]

-- A change of the ledger under which every block stays what and where it is.
record Grows (l after : Ledger) (s : Text) : Type 0 where
  kinds : (j : ℕ) → open_kind after j ≡ open_kind l j
  found : (j : ℕ) → has (lookup j after.content_blocks) ≡ has (lookup j l.content_blocks)
  indexes :
      (j : ℕ) (state : StreamBlockState)
      → lookup j after.content_blocks ≡ some state
      → (old : StreamBlockState) × (lookup j l.content_blocks ≡ some old)
        × (state.index ≡ old.index)
  visible : any_visible after.content_blocks ≡ any_visible l.content_blocks
  blocks : after.blocks ≡ l.blocks
  stack : after.open_stack ≡ l.open_stack
  out : after.sent ≡ l.sent
  says : join after.text_parts ≡ join l.text_parts ++ s

module _ (i : ℕ) (state : StreamBlockState) (s : Text) (l : Ledger)
    (at : lookup i l.content_blocks ≡ some state) where
  grown_blocks : List (ℕ × StreamBlockState)
  grown_blocks = insert i (grown state s) l.content_blocks

  lookup-grown_blocks :
      (j : ℕ)
      → lookup j grown_blocks ≡ (if i == j then some (grown state s) else lookup j l.content_blocks)
  unfolding grown_blocks
  lookup-grown_blocks j = lookup-insert i j (grown state s) l.content_blocks

  kind_of-grown_blocks :
      (j : ℕ) → kind_of (lookup j grown_blocks) ≡ kind_of (lookup j l.content_blocks)
  kind_of-grown_blocks j =
      ground (arith, lookup-grown_blocks j, lookup-equal i j state l.content_blocks at)

  has-grown_blocks : (j : ℕ) → has (lookup j grown_blocks) ≡ has (lookup j l.content_blocks)
  has-grown_blocks j =
      ground (arith, lookup-grown_blocks j, lookup-equal i j state l.content_blocks at)

  index-grown_blocks :
      (j : ℕ) (new : StreamBlockState)
      → lookup j grown_blocks ≡ some new
      → (old : StreamBlockState) × (lookup j l.content_blocks ≡ some old) × (new.index ≡ old.index)
  index-grown_blocks j new e = elim (Option-cases (lookup j l.content_blocks)) [
    | inl none_there ↦
        ground (arith, lookup-grown_blocks j, lookup-equal i j state l.content_blocks at)
    | inr (old, there) ↦ (
      old,
      there,
      ground (arith, lookup-grown_blocks j, lookup-equal i j state l.content_blocks at),
    )
  ]

  note_delta-Grows :
      (t : BlockType) (kind : DeltaType)
      → takes_delta (stored t) kind ≡ true
      → Grows l (note_delta i state t kind s l) (event_text (content_block_delta (some i) kind s))
  unfolding note_delta grown_blocks open_kind
  note_delta-Grows text text_delta h = record {
    kinds = kind_of-grown_blocks;
    found = has-grown_blocks;
    indexes = index-grown_blocks;
    visible = any_visible-insert_again i (grown state s) state l.content_blocks at refl;
    blocks = refl;
    stack = refl;
    out = refl;
    says = join-snoc l.text_parts s;
  }
  note_delta-Grows thinking thinking_delta h = record {
    kinds = kind_of-grown_blocks;
    found = has-grown_blocks;
    indexes = index-grown_blocks;
    visible = any_visible-insert_again i (grown state s) state l.content_blocks at refl;
    blocks = refl;
    stack = refl;
    out = refl;
    says = sym (append-nil (join l.text_parts));
  }
  note_delta-Grows tool_use input_json_delta h = record {
    kinds = kind_of-grown_blocks;
    found = has-grown_blocks;
    indexes = index-grown_blocks;
    visible = any_visible-insert_again i (grown state s) state l.content_blocks at refl;
    blocks = refl;
    stack = refl;
    out = refl;
    says = sym (append-nil (join l.text_parts));
  }
  note_delta-Grows thinking signature_delta h = record {
    kinds = λ j. refl;
    found = λ j. refl;
    indexes = λ j new e. (new, e, refl);
    visible = refl;
    blocks = refl;
    stack = refl;
    out = refl;
    says = sym (append-nil (join l.text_parts));
  }
  note_delta-Grows t kind h = cc

module _ (i : ℕ) (t : BlockType) (kind : DeltaType) (s : Text) (l : Ledger)
    (opened : open_kind l i ≡ some t) (fits : takes_delta (stored t) kind ≡ true) where
  record_block_delta-Grows :
      Grows l
        (record_block_delta (some i) kind s l)
        (event_text (content_block_delta (some i) kind s))
  unfolding record_block_delta
  record_block_delta-Grows =
      let (state, at, _, typed) = open_block_at i t l opened in
      rw (at, record_block_delta)
        (note_delta-Grows i state s l at state.block_type kind (rw typed fits))

  -- There is a block: the one that the delta is for.
  record_block_delta-no_items :
      no_items (record_block_delta (some i) kind s l).content_blocks ≡ false
  record_block_delta-no_items =
      let (state, at, _, _) = open_block_at i t l opened in
      elim (Option-cases (lookup i (record_block_delta (some i) kind s l).content_blocks)) [
        | inl gone ↦ ground (arith, record_block_delta-Grows.found i)
        | inr (new, there) ↦
            lookup-no_items i new (record_block_delta (some i) kind s l).content_blocks there
      ]

  pub delta_block-open_kind : (j : ℕ) → open_kind (delta_block (some i) kind s l) j ≡ open_kind l j
  unfolding delta_block open_kind
  delta_block-open_kind = record_block_delta-Grows.kinds

  pub delta_block-blocks : (delta_block (some i) kind s l).blocks ≡ l.blocks
  unfolding delta_block
  delta_block-blocks = record_block_delta-Grows.blocks

  pub delta_block-text_parts :
      join (delta_block (some i) kind s l).text_parts
      ≡ join l.text_parts ++ event_text (content_block_delta (some i) kind s)
  unfolding delta_block
  delta_block-text_parts = record_block_delta-Grows.says

  see_event-delta :
      (f : Followed l)
      → see_event false (content_block_delta (some i) kind s) f.checked ≡ some f.checked
  unfolding see_event see_delta
  see_event-delta f = rw (f.opened i, opened, fits)

  pub delta_block-Followed : Followed l → Followed (delta_block (some i) kind s l)
  unfolding delta_block open_kind
  delta_block-Followed f =
      let g = record_block_delta-Grows in
      record {
        checked = f.checked;
        scanned =
            see_all-snoc false (record_block_delta (some i) kind s l).sent
              (content_block_delta (some i) kind s) (some nothing_seen)
            ∙ rw (g.out, f.scanned) (see_event-delta f);
        opened = λ j. f.opened j ∙ ap stored_kind (sym (g.kinds j));
        seen = λ j. f.seen j ∙ sym (g.found j);
        unused = λ j bound.
            let old : lookup j l.content_blocks ≡ none = f.unused j (rw g.blocks at bound) in
            ground (arith, g.found j);
        stacked = λ j. rw g.stack (f.stacked j ∙ ap has (sym (g.kinds j)));
        distinct = rw g.stack f.distinct;
        indexed =
            λ j new e. let (old, there, same) = g.indexes j new e in same ∙ f.indexed j old there;
        told =
            text_content-snoc (record_block_delta (some i) kind s l).sent
              (content_block_delta (some i) kind s)
            ∙ rw (g.out, f.told) (sym g.says);
        begun =
            has_message_start-snoc (record_block_delta (some i) kind s l).sent
              (content_block_delta (some i) kind s) (rw g.out f.begun);
        spoken = λ bare. cc record_block_delta-no_items;
        shown = f.shown ∙ sym g.visible;
      }
