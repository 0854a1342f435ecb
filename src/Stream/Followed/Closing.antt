-- ===== src/Stream/Followed/Closing.antt =====
-- The stops of text and thinking keep the ledger sound.
use agentic_model_gateway.Base.{
  ℕ, ◌≡◌, sym, ap, subst, ◌∙◌, true, false, some, arith, ==_refl, Option-cases, inl, inr,
}
use agentic_model_gateway.Stream.Text.{has}
use agentic_model_gateway.Stream.Event.{text, thinking}
use agentic_model_gateway.Stream.Ledger.{Ledger, stop_block}
use agentic_model_gateway.Stream.Turn.{stop_text_block, stop_thinking_block}
use agentic_model_gateway.Stream.Followed.Blocks.{Followed, open_kind}
use agentic_model_gateway.Stream.Followed.Stop.{
  stop_block-open_kind, stop_block-blocks, stop_block-Followed, IsSeen, stop_block-IsSeen,
}
use agentic_model_gateway.Stream.Followed.Accounts.{Accounted-stop_text, Accounted-stop_thinking}
use agentic_model_gateway.Stream.Followed.Opening.{
  Sound, Followed-reblocked, the_text, the_thinking,
}

module _ (l : Ledger) (s : Sound l) where
  -- The stop of a text block that stands at `i`.
  module _ (i : ℕ) (on : l.blocks.text_started ≡ true) (at : l.blocks.text_index ≡ some i) where
    without_text : Ledger
    without_text = record l { blocks = record l.blocks { text_started = false } }

    text_open : open_kind l i ≡ some text
    text_open = the_text (open_kind l i) (s.accounted.texts i ∙ rw (on, at) (==_refl i))

    stop_text_block-at : stop_text_block l ≡ stop_block (some i) without_text
    unfolding stop_text_block without_text
    stop_text_block-at = ap (λ index. stop_block index without_text) at

    without_text-Followed : Followed without_text
    unfolding without_text
    without_text-Followed =
        Followed-reblocked l (record l.blocks { text_started = false }) (omega arith) s.followed

    stopped_text-blocks :
        (stop_block (some i) without_text).blocks ≡ record l.blocks { text_started = false }
    unfolding without_text open_kind
    stopped_text-blocks =
        stop_block-blocks i text without_text without_text-Followed text_open ∙ ground arith

    stopped_text-Sound : Sound (stop_block (some i) without_text)
    unfolding without_text open_kind
    stopped_text-Sound = record {
      followed = stop_block-Followed i text without_text without_text-Followed text_open;
      accounted = rw stopped_text-blocks (
          Accounted-stop_text s.accounted i on at
            (λ j. stop_block-open_kind i text without_text without_text-Followed text_open j));
    }

    stopped_text-IsSeen : IsSeen l → IsSeen (stop_block (some i) without_text)
    unfolding without_text open_kind
    stopped_text-IsSeen h = stop_block-IsSeen i text without_text without_text-Followed text_open h

  pub stop_text_block-Sound :
      l.blocks.text_started ≡ true
      → Sound (stop_text_block l)
        × ((stop_text_block l).blocks ≡ record l.blocks { text_started = false })
  stop_text_block-Sound on = elim (Option-cases l.blocks.text_index) [
    | inl nowhere ↦ cc (s.accounted.text_set on, ap has nowhere)
    | inr (i, at) ↦
        rw (stop_text_block-at i on at) (stopped_text-Sound i on at, stopped_text-blocks i on at)
  ]

  -- The stop of a thinking block that stands at `i`.
  module _ (i : ℕ) (on : l.blocks.thinking_started ≡ true)
      (at : l.blocks.thinking_index ≡ some i) where
    without_thinking : Ledger
    without_thinking = record l { blocks = record l.blocks { thinking_started = false } }

    thinking_open : open_kind l i ≡ some thinking
    thinking_open = the_thinking (open_kind l i) (s.accounted.thinkings i ∙ rw (on, at) (==_refl i))

    stop_thinking_block-at : stop_thinking_block l ≡ stop_block (some i) without_thinking
    unfolding stop_thinking_block without_thinking
    stop_thinking_block-at = ap (λ index. stop_block index without_thinking) at

    without_thinking-Followed : Followed without_thinking
    unfolding without_thinking
    without_thinking-Followed =
        Followed-reblocked l (record l.blocks { thinking_started = false }) (omega arith) s.followed

    stopped_thinking-blocks :
        (stop_block (some i) without_thinking).blocks ≡ record l.blocks { thinking_started = false }
    unfolding without_thinking open_kind
    stopped_thinking-blocks =
        stop_block-blocks i thinking without_thinking without_thinking-Followed thinking_open
        ∙ ground arith

    stopped_thinking-Sound : Sound (stop_block (some i) without_thinking)
    unfolding without_thinking open_kind
    stopped_thinking-Sound = record {
      followed =
          stop_block-Followed i thinking without_thinking without_thinking-Followed thinking_open;
      accounted = rw stopped_thinking-blocks (
          Accounted-stop_thinking s.accounted i on at (λ j.
            stop_block-open_kind i thinking without_thinking without_thinking-Followed thinking_open
              j));
    }

    stopped_thinking-IsSeen : IsSeen l → IsSeen (stop_block (some i) without_thinking)
    unfolding without_thinking open_kind
    stopped_thinking-IsSeen h =
        stop_block-IsSeen i thinking without_thinking without_thinking-Followed thinking_open h

  pub stop_thinking_block-Sound :
      l.blocks.thinking_started ≡ true
      → Sound (stop_thinking_block l)
        × ((stop_thinking_block l).blocks ≡ record l.blocks { thinking_started = false })
  stop_thinking_block-Sound on = elim (Option-cases l.blocks.thinking_index) [
    | inl nowhere ↦ cc (s.accounted.thinking_set on, ap has nowhere)
    | inr (i, at) ↦
        rw (stop_thinking_block-at i on at)
          (stopped_thinking-Sound i on at, stopped_thinking-blocks i on at)
  ]

  pub stop_text_block-IsSeen : l.blocks.text_started ≡ true → IsSeen l → IsSeen (stop_text_block l)
  stop_text_block-IsSeen on h = elim (Option-cases l.blocks.text_index) [
    | inl nowhere ↦ cc (s.accounted.text_set on, ap has nowhere)
    | inr (i, at) ↦ subst IsSeen (sym (stop_text_block-at i on at)) (stopped_text-IsSeen i on at h)
  ]

  pub stop_thinking_block-IsSeen :
      l.blocks.thinking_started ≡ true → IsSeen l → IsSeen (stop_thinking_block l)
  stop_thinking_block-IsSeen on h = elim (Option-cases l.blocks.thinking_index) [
    | inl nowhere ↦ cc (s.accounted.thinking_set on, ap has nowhere)
    | inr (i, at) ↦
        subst IsSeen (sym (stop_thinking_block-at i on at)) (stopped_thinking-IsSeen i on at h)
  ]
