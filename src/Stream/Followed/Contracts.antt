-- ===== src/Stream/Followed/Contracts.antt =====
-- Every stream that the clients of the ledger build meets the contract.
use agentic_model_gateway.Base.{
  ℕ, ◌≡◌, refl, ap, ◌∙◌, true, false, ◌&&◌, ◌||◌, Option, none, some, List, [], ◌∷◌, ◌++◌, lookup,
  contains, arith, Bool-cases, inl, inr, ==_refl,
}
use mathlib.Core.List.{append-nil}
use agentic_model_gateway.Stream.Text.{has, join, is_visible}
use agentic_model_gateway.Stream.Event.{StopReason, Event, message_delta, message_stop}
use agentic_model_gateway.Stream.Blocks.{StreamBlockState}
use agentic_model_gateway.Stream.Ledger.{
  Ledger, new_ledger, start_message, end_message, stop_message, update_usage, or_else,
}
use agentic_model_gateway.Stream.Turn.{any_visible, ensure_visible_content, close_all_blocks}
use agentic_model_gateway.Stream.Queries.{final_stop_reason}
use agentic_model_gateway.Stream.Client.{Call, play, all_may, finish, finish_shown}
use agentic_model_gateway.Stream.Contract.{
  Seen, Storage, nothing_seen, see_event, see_all, text_content, has_message_start, last_event,
  any_visible_type, no_items, is_message_stop, ends_well, meets_contract,
}
use agentic_model_gateway.Stream.Followed.Blocks.{
  stored_kind, any_visible-bare, Followed, open_kind, see_all-snoc, text_content-snoc,
  has_message_start-snoc,
}
use agentic_model_gateway.Stream.Followed.Stop.{IsSeen}
use agentic_model_gateway.Stream.Followed.Running.{running, keys}
use agentic_model_gateway.Stream.Followed.Opening.{Sound}
use agentic_model_gateway.Stream.Followed.Calls.{play-Sound}
use agentic_model_gateway.Stream.Followed.Ending.{
  AllClosed, ensure_visible_content-Sound, close_all_blocks-AllClosed,
}

abbrev pub started : ℕ → ℕ → ℕ → Ledger
started message_id model tokens = start_message (new_ledger message_id model tokens)

pub started-Sound : (message_id model tokens : ℕ) → Sound (started message_id model tokens)
unfolding start_message see_all see_event text_content has_message_start open_kind running keys
    contains join any_visible_type any_visible lookup
started-Sound message_id model tokens = record {
  followed = record {
    checked = nothing_seen;
    scanned = refl;
    opened = λ i. refl;
    seen = λ i. refl;
    unused = λ i h. refl;
    stacked = λ i. refl;
    distinct = tt;
    indexed = λ i state h. cc;
    told = refl;
    begun = refl;
    spoken = λ h. refl;
    shown = refl;
  };
  accounted = record {
    text_set = λ h. cc;
    thinking_set = λ h. cc;
    texts = λ i. refl;
    thinkings = λ i. refl;
    tools = λ i. refl;
    no_others = λ i. refl;
    once = tt;
    placed = λ k state h. cc;
    keyed = tt;
  };
}

pub no_open_blocks : (d : List (ℕ × Storage)) → ((i : ℕ) → lookup i d ≡ none) → d ≡ []
unfolding lookup
no_open_blocks [] h = refl
no_open_blocks ((k, v) ∷ d) h = ground (arith, h k, ==_refl k)

some_seen :
    (blocks : List (ℕ × StreamBlockState)) (seen : List ℕ)
    → ((i : ℕ) → contains i seen ≡ has (lookup i blocks))
    → no_items blocks ≡ false
    → no_items seen ≡ false
unfolding lookup contains
some_seen [] seen h e = cc
some_seen ((k, state) ∷ blocks) [] h e = ground (arith, h k, ==_refl k)
some_seen ((k, state) ∷ blocks) (i ∷ seen) h e = refl

-- A turn that shows something has a block.
some_block : (l : Ledger) → Followed l → IsSeen l → no_items l.content_blocks ≡ false
some_block l f h = elim (Bool-cases (no_items l.content_blocks)) [
  | inr there ↦ there
  | inl bare ↦
      let silent = f.spoken bare in
      let hidden = any_visible-bare l.content_blocks bare in
      let nothing : (is_visible [] || false) ≡ true = rw (silent, hidden) at h in
      unfold is_visible in cc nothing
]

last_event-snoc : (e f : Event) (events : List Event) → last_event e (events ++ f ∷ []) ≡ f
unfolding last_event
last_event-snoc e f [] = refl
last_event-snoc e f (x ∷ events) = last_event-snoc x f events

-- The contract, part by part.
meets_contract_lem :
    (e : Event) (events : List Event)
    → meets_contract false true (e ∷ events) ≡ (
        has_message_start (e ∷ events)
        && ((is_message_stop (last_event e events) || false)
            && ends_well true
                (e ∷ events)
                (last_event e events)
                (see_all false (e ∷ events) (some nothing_seen))))
unfolding meets_contract
meets_contract_lem e events = refl

ends_well_lem :
    (events : List Event) (c : Seen)
    → c.open_blocks ≡ []
    → no_items c.seen_blocks ≡ false
    → (is_visible (text_content events) || any_visible_type c.seen_block_types) ≡ true
    → ends_well true events message_stop (some c) ≡ true
unfolding ends_well
ends_well_lem events c closed seen shown = ground arith

-- The contract for a stream that ends in `message_stop`, by what it needs of the events before.
stopped_stream :
    (events : List Event) (c : Seen)
    → has_message_start events ≡ true
    → see_all false events (some nothing_seen) ≡ some c
    → c.open_blocks ≡ []
    → no_items c.seen_blocks ≡ false
    → (is_visible (text_content events) || any_visible_type c.seen_block_types) ≡ true
    → meets_contract false true (events ++ message_stop ∷ []) ≡ true
stopped_stream [] c begun scanned closed seen shown = unfold has_message_start in cc begun
stopped_stream (e ∷ events) c begun scanned closed seen shown =
    let says =
      text_content-snoc (e ∷ events) message_stop ∙ append-nil (text_content (e ∷ events)) in
    let sees = see_all-snoc false (e ∷ events) message_stop (some nothing_seen) in
    meets_contract_lem e (events ++ message_stop ∷ [])
    ∙ rw
        (
          last_event-snoc e message_stop events,
          has_message_start-snoc (e ∷ events) message_stop begun,
          sees,
          scanned,
        )
        (unfold see_event in
          ends_well_lem ((e ∷ events) ++ message_stop ∷ []) c closed seen (rw says shown))

-- What a closed turn sends at its end.
ended_stream :
    (l : Ledger) (reason : StopReason) (output input : Option ℕ) (fields : List (ℕ × ℕ))
    → AllClosed l
    → meets_contract false true (stop_message (end_message reason output input fields l)).sent
      ≡ true
unfolding stop_message end_message
ended_stream l reason output input fields a =
    let f = a.followed in
    let usage =
      update_usage ((0, or_else input l.input_tokens) ∷ (1, or_else output 0) ∷ []) fields in
    let last = message_delta reason usage in
    stopped_stream (l.sent ++ last ∷ []) f.checked (has_message_start-snoc l.sent last f.begun)
      (unfold see_event in see_all-snoc false l.sent last (some nothing_seen) ∙ rw f.scanned)
      (no_open_blocks f.checked.open_blocks (λ i. f.opened i ∙ ap stored_kind (a.closed i)))
      (some_seen l.content_blocks f.checked.seen_blocks f.seen (some_block l f a.seen))
      (rw (text_content-snoc l.sent last, append-nil (text_content l.sent), f.told, f.shown) a.seen)

finish_closed :
    (reason : StopReason) (output input : Option ℕ) (fields : List (ℕ × ℕ)) (l closed : Ledger)
    → close_all_blocks l ≡ some closed
    → finish_shown reason output input fields l
      ≡ some
          (stop_message (end_message (final_stop_reason reason closed) output input fields closed))
unfolding finish_shown
finish_closed reason output input fields l closed closes = rw (closes, finish_shown)

-- Whatever text, reasoning and tool calls arrive, in any order in which a tool call starts while it does
-- not run, and gets its arguments and its end while it runs: no call raises, the end of the response
-- does not raise either, and the stream that was sent meets the contract, with visible content.
pub stream_meets_contract :
    (message_id model tokens : ℕ) (calls : List Call) (reason : StopReason)
    (output input : Option ℕ) (fields : List (ℕ × ℕ))
    → all_may calls (started message_id model tokens) ≡ true
    → (l l' : Ledger) × (play calls (started message_id model tokens) ≡ some l)
      × (finish reason output input fields l ≡ some l')
      × (meets_contract false true l'.sent ≡ true)
unfolding finish
stream_meets_contract message_id model tokens calls reason output input fields h =
    let (l, played, sound) =
      play-Sound calls (started message_id model tokens) (started-Sound message_id model tokens)
        h in
    let (shown, seen) = ensure_visible_content-Sound l sound in
    let (closed, closes, a) = close_all_blocks-AllClosed (ensure_visible_content l) shown seen in
    (
      l,
      stop_message (end_message (final_stop_reason reason closed) output input fields closed),
      played,
      finish_closed reason output input fields (ensure_visible_content l) closed closes,
      ended_stream closed (final_stop_reason reason closed) output input fields a,
    )
