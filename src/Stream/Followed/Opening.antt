-- ===== src/Stream/Followed/Opening.antt =====
-- A ledger is sound if it followed the contract so far and accounts for its open blocks. The starts of text
-- and thinking keep it so.
use agentic_model_gateway.Base.{
  ◌+◌, ◌≤◌, ◌≡◌, refl, ap, true, false, Option, none, some, max, lookup, arith,
}
use agentic_model_gateway.Stream.Text.{is_visible}
use agentic_model_gateway.Stream.Event.{BlockType, text, thinking, is_text, is_thinking}
use agentic_model_gateway.Stream.Blocks.{StreamBlockLedger, allocate_index, reserve_index}
use agentic_model_gateway.Stream.Ledger.{Ledger, no_fields, record_block_start, note_start}
use agentic_model_gateway.Stream.Turn.{start_text_block, start_thinking_block}
use agentic_model_gateway.Stream.Followed.Blocks.{Followed, open_kind, kind_of}
use agentic_model_gateway.Stream.Followed.Start.{start_block-open_kind, start_block-Followed}
use agentic_model_gateway.Stream.Followed.Accounts.{
  Accounted, of_type, Accounted-start_text, Accounted-start_thinking,
}

pub record Sound (l : Ledger) : Type 0 where
  pub followed : Followed l
  pub accounted : Accounted (open_kind l) l.blocks

pub Followed-reblocked :
    (l : Ledger) (b : StreamBlockLedger)
    → l.blocks.next_index ≤ b.next_index
    → Followed l
    → Followed (record l { blocks = b })
unfolding open_kind
Followed-reblocked l b bound f = record {
  checked = f.checked;
  scanned = f.scanned;
  opened = f.opened;
  seen = f.seen;
  unused = λ i h. f.unused i (omega arith);
  stacked = f.stacked;
  distinct = f.distinct;
  indexed = f.indexed;
  told = f.told;
  begun = f.begun;
  spoken = f.spoken;
  shown = f.shown;
}

pub the_text : (o : Option BlockType) → of_type is_text o ≡ true → o ≡ some text
the_text o h = ground arith

pub the_thinking : (o : Option BlockType) → of_type is_thinking o ≡ true → o ≡ some thinking
the_thinking o h = ground arith

-- No block stands at the next index.
pub free_next : (l : Ledger) → Followed l → lookup l.blocks.next_index l.content_blocks ≡ none
free_next l f = f.unused l.blocks.next_index (omega arith)

pub closed_next : (l : Ledger) → Followed l → open_kind l l.blocks.next_index ≡ none
unfolding open_kind
closed_next l f = ap kind_of (free_next l f)

pub start_text_block-blocks :
    (l : Ledger)
    → (start_text_block l).blocks ≡ record l.blocks {
      next_index = max (l.blocks.next_index + 1) (l.blocks.next_index + 1);
      text_index = some l.blocks.next_index;
      text_started = true;
    }
unfolding start_text_block note_start reserve_index record_block_start
start_text_block-blocks l = refl

pub start_thinking_block-blocks :
    (l : Ledger)
    → (start_thinking_block l).blocks ≡ record l.blocks {
      next_index = max (l.blocks.next_index + 1) (l.blocks.next_index + 1);
      thinking_index = some l.blocks.next_index;
      thinking_started = true;
    }
unfolding start_thinking_block note_start reserve_index record_block_start
start_thinking_block-blocks l = refl

module _ (l : Ledger) (s : Sound l) where
  pub start_text_block-Sound : l.blocks.text_started ≡ false → Sound (start_text_block l)
  unfolding start_text_block open_kind is_visible
  start_text_block-Sound off =
      let before = record l {
        blocks = record (allocate_index l.blocks) {
          text_index = some l.blocks.next_index;
          text_started = true;
        };
      } in
      record {
        followed =
            start_block-Followed l.blocks.next_index text no_fields before
              (Followed-reblocked l before.blocks (omega arith) s.followed) (free_next l s.followed)
              refl refl;
        accounted = rw (start_text_block-blocks l) (
            Accounted-start_text s.accounted l.blocks.next_index
              (max (l.blocks.next_index + 1) (l.blocks.next_index + 1)) off
              (closed_next l s.followed)
              (λ j. start_block-open_kind l.blocks.next_index j text no_fields before));
      }

  pub start_thinking_block-Sound :
      l.blocks.thinking_started ≡ false → Sound (start_thinking_block l)
  unfolding start_thinking_block open_kind is_visible
  start_thinking_block-Sound off =
      let before = record l {
        blocks = record (allocate_index l.blocks) {
          thinking_index = some l.blocks.next_index;
          thinking_started = true;
        };
      } in
      record {
        followed =
            start_block-Followed l.blocks.next_index thinking no_fields before
              (Followed-reblocked l before.blocks (omega arith) s.followed) (free_next l s.followed)
              refl refl;
        accounted = rw (start_thinking_block-blocks l) (
            Accounted-start_thinking s.accounted l.blocks.next_index
              (max (l.blocks.next_index + 1) (l.blocks.next_index + 1)) off
              (closed_next l s.followed)
              (λ j. start_block-open_kind l.blocks.next_index j thinking no_fields before));
      }
