-- ===== src/Stream/Followed/AtOnce.antt =====
-- A block that is started and stopped at once, at the next index, leaves every account as it was.
use agentic_model_gateway.Base.{
  ℕ, ◌+◌, ◌≡◌, refl, sym, subst, ◌∙◌, Option, some, ◌==◌, max, if◌then◌else◌, arith, ==_refl,
}
use agentic_model_gateway.Stream.Text.{Text, is_visible}
use agentic_model_gateway.Stream.Event.{BlockType, tool_use, redacted_thinking, input_json_delta}
use agentic_model_gateway.Stream.Blocks.{StreamBlockLedger, allocate_index, reserve_index}
use agentic_model_gateway.Stream.Ledger.{
  Ledger, Fields, no_fields, start_block, delta_block, stop_block, record_block_start, note_start,
  clear_flags,
}
use agentic_model_gateway.Stream.Followed.Blocks.{Followed, open_kind}
use agentic_model_gateway.Stream.Followed.Start.{start_block-open_kind, start_block-Followed}
use agentic_model_gateway.Stream.Followed.Stop.{
  stop_block-open_kind, stop_block-blocks, stop_block-Followed,
}
use agentic_model_gateway.Stream.Followed.Delta.{
  delta_block-open_kind, delta_block-blocks, delta_block-Followed,
}
use agentic_model_gateway.Stream.Followed.Accounts.{Accounted, Accounted-moved}
use agentic_model_gateway.Stream.Followed.Opening.{
  Sound, Followed-reblocked, free_next, closed_next,
}

-- The ledger in which a block is started at the next index, and then has got its deltas.
module _ (t : BlockType) (l mid : Ledger) (s : Sound l) (followed : Followed mid)
    (opened : (j : ℕ)
      → open_kind mid j ≡ (if l.blocks.next_index == j then some t else open_kind l j))
    (next : ℕ) (blocks : mid.blocks ≡ record l.blocks { next_index = next })
    (calm : (b : StreamBlockLedger) → clear_flags t l.blocks.next_index b ≡ b) where
  open_mid : open_kind mid l.blocks.next_index ≡ some t
  open_mid = opened l.blocks.next_index ∙ rw (==_refl l.blocks.next_index)

  stopped-kinds : (j : ℕ) → open_kind (stop_block (some l.blocks.next_index) mid) j ≡ open_kind l j
  stopped-kinds j =
      let after = stop_block-open_kind l.blocks.next_index t mid followed open_mid j in
      let free = closed_next l s.followed in ground (arith, after, opened j, free)

  stopped-Sound : Sound (stop_block (some l.blocks.next_index) mid)
  stopped-Sound = record {
    followed = stop_block-Followed l.blocks.next_index t mid followed open_mid;
    accounted =
        subst (λ b. Accounted (open_kind (stop_block (some l.blocks.next_index) mid)) b)
          (sym (
            stop_block-blocks l.blocks.next_index t mid followed open_mid
            ∙ (calm mid.blocks ∙ blocks)))
          (Accounted-moved s.accounted next stopped-kinds);
  }

abbrev allocated : Ledger → Ledger
allocated l = record l { blocks = allocate_index l.blocks }

module _ (encrypted : Option Text) (l : Ledger) (s : Sound l) where
  abbrev sealed : Fields
  sealed = record no_fields { data_field = encrypted }

  pub sealed-Sound : Sound (
      stop_block
        (some l.blocks.next_index)
        (start_block l.blocks.next_index redacted_thinking sealed (allocated l)))
  unfolding is_visible open_kind start_block note_start reserve_index record_block_start
  sealed-Sound =
      stopped-Sound redacted_thinking l
        (start_block l.blocks.next_index redacted_thinking sealed (allocated l)) s
        (start_block-Followed l.blocks.next_index redacted_thinking sealed (allocated l)
          (Followed-reblocked l (allocate_index l.blocks) (omega arith) s.followed)
          (free_next l s.followed) refl refl)
        (λ j. start_block-open_kind l.blocks.next_index j redacted_thinking sealed (allocated l))
        (max (l.blocks.next_index + 1) (l.blocks.next_index + 1)) refl (λ b. refl)

module _ (id name arguments : Text) (l : Ledger) (s : Sound l) where
  abbrev tool_fields : Fields
  tool_fields = record no_fields { id = id; name = name }

  tool_start : Ledger
  tool_start = start_block l.blocks.next_index tool_use tool_fields (allocated l)

  tool_start-Followed : Followed tool_start
  unfolding tool_start is_visible
  tool_start-Followed =
      start_block-Followed l.blocks.next_index tool_use tool_fields (allocated l)
        (Followed-reblocked l (allocate_index l.blocks) (omega arith) s.followed)
        (free_next l s.followed) refl refl

  tool_start-kinds :
      (j : ℕ)
      → open_kind tool_start j ≡ (if l.blocks.next_index == j then some tool_use else open_kind l j)
  unfolding tool_start open_kind
  tool_start-kinds j =
      start_block-open_kind l.blocks.next_index j tool_use tool_fields (allocated l)

  tool_start-opened : open_kind tool_start l.blocks.next_index ≡ some tool_use
  tool_start-opened = tool_start-kinds l.blocks.next_index ∙ rw (==_refl l.blocks.next_index)

  tool_start-blocks :
      tool_start.blocks
      ≡ record l.blocks { next_index = max (l.blocks.next_index + 1) (l.blocks.next_index + 1) }
  unfolding tool_start start_block note_start reserve_index record_block_start
  tool_start-blocks = refl

  pub whole_tool-Sound : Sound (
      stop_block (some l.blocks.next_index) (
        delta_block
          (some l.blocks.next_index)
          input_json_delta
          arguments
          (start_block l.blocks.next_index tool_use tool_fields (allocated l))))
  unfolding tool_start
  whole_tool-Sound =
      let n = l.blocks.next_index in
      stopped-Sound tool_use l (delta_block (some n) input_json_delta arguments tool_start) s
        (delta_block-Followed n tool_use input_json_delta arguments tool_start tool_start-opened
          refl tool_start-Followed)
        (λ j.
          delta_block-open_kind n tool_use input_json_delta arguments tool_start tool_start-opened
            refl j
          ∙ tool_start-kinds j)
        (max (l.blocks.next_index + 1) (l.blocks.next_index + 1))
        (delta_block-blocks n tool_use input_json_delta arguments tool_start tool_start-opened refl
          ∙ tool_start-blocks)
        (λ b. refl)
