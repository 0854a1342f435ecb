-- ===== src/Stream/Contract.antt =====
-- core/anthropic/stream_contracts.py: `assert_anthropic_stream_contract` and `text_content`. A failed
-- assertion is `none`, and `false` for the whole check. Every payload has the shape that its event's type
-- gives it, so the assertions on a payload's shape have no case here.
use agentic_model_gateway.Base.{
  ℕ, Bool, true, false, not, ◌&&◌, ◌||◌, Option, none, some, List, [], ◌∷◌, ◌++◌, if◌then◌else◌,
  contains, lookup, insert, erase,
}
use agentic_model_gateway.Stream.Text.{Text, is_visible, has}
use agentic_model_gateway.Stream.Event.{
  BlockType, text, thinking, tool_use, other_type, is_visible_type, ContentBlock, text_block,
  type_of, DeltaType, thinking_delta, signature_delta, text_delta, input_json_delta, Event,
  message_start, message_stop, error, content_block_start, content_block_delta, content_block_stop,
}

-- A block's entry in `open_blocks`.
pub data Storage : Type 0 where
  stored : BlockType → Storage
  text_eager : Storage

pub record Seen : Type 0 where
  pub open_blocks : List (ℕ × Storage)
  pub seen_blocks : List ℕ
  pub seen_block_types : List BlockType

abbrev pub nothing_seen : Seen
nothing_seen = record { open_blocks = []; seen_blocks = []; seen_block_types = [] }

-- `block_type in _ALLOWED_BLOCK_START_TYPES`
abbrev pub is_allowed : BlockType → Bool
is_allowed (other_type n) = false
is_allowed _ = true

abbrev pub storage_of : ContentBlock → Storage
storage_of (text_block s) = if is_visible s then text_eager else stored text
storage_of block = stored (type_of block)

-- The deltas that a stored kind takes; the kinds of `_NO_DELTA_BLOCK_KINDS` take none.
abbrev pub takes_delta : Storage → DeltaType → Bool
takes_delta (stored thinking) thinking_delta = true
takes_delta (stored thinking) signature_delta = true
takes_delta (stored text) text_delta = true
takes_delta (stored tool_use) input_json_delta = true
takes_delta _ _ = false

unfoldable pub see_start : ℕ → ContentBlock → Seen → Option Seen
unfolding lookup contains insert
see_start index block c =
    if is_allowed (type_of block)
      && (not (has (lookup index c.open_blocks)) && not (contains index c.seen_blocks))
    then some (record {
      open_blocks = insert index (storage_of block) c.open_blocks;
      seen_blocks = index ∷ c.seen_blocks;
      seen_block_types = type_of block ∷ c.seen_block_types;
    })
    else none

abbrev pub open_at : Option ℕ → Seen → Option Storage
open_at none c = none
open_at (some index) c = lookup index c.open_blocks

abbrev takes : Option Storage → DeltaType → Bool
takes none kind = false
takes (some storage) kind = takes_delta storage kind

unfoldable pub see_delta : Option ℕ → DeltaType → Seen → Option Seen
unfolding lookup
see_delta index kind c = if takes (open_at index c) kind then some c else none

unfoldable pub see_stop : Option ℕ → Seen → Option Seen
unfolding lookup erase
see_stop none c = none
see_stop (some index) c =
    if has (lookup index c.open_blocks)
    then some (record c { open_blocks = erase index c.open_blocks })
    else none

-- The body of the loop over the events.
unfoldable pub see_event : Bool → Event → Seen → Option Seen
unfolding see_start see_delta see_stop
see_event allow_error error c = if allow_error then some c else none
see_event allow_error (content_block_start index block) c = see_start index block c
see_event allow_error (content_block_delta index kind s) c = see_delta index kind c
see_event allow_error (content_block_stop index) c = see_stop index c
see_event allow_error _ c = some c

unfoldable pub see_all : Bool → List Event → Option Seen → Option Seen
unfolding see_event
see_all allow_error [] c = c
see_all allow_error (e ∷ events) none = none
see_all allow_error (e ∷ events) (some c) = see_all allow_error events (see_event allow_error e c)

-- The text that an event carries, and `text_content`.
abbrev pub event_text : Event → Text
event_text (content_block_start index (text_block s)) = s
event_text (content_block_delta index text_delta s) = s
event_text _ = []

unfoldable pub text_content : List Event → Text
text_content [] = []
text_content (e ∷ events) = event_text e ++ text_content events

abbrev pub is_message_start : Event → Bool
is_message_start (message_start id model tokens) = true
is_message_start _ = false

unfoldable pub has_message_start : List Event → Bool
has_message_start [] = false
has_message_start (e ∷ events) = is_message_start e || has_message_start events

abbrev pub is_message_stop : Event → Bool
is_message_stop message_stop = true
is_message_stop _ = false

abbrev is_error : Event → Bool
is_error error = true
is_error _ = false

unfoldable pub last_event : Event → List Event → Event
last_event e [] = e
last_event e (f ∷ events) = last_event f events

unfoldable pub any_visible_type : List BlockType → Bool
any_visible_type [] = false
any_visible_type (t ∷ types) = is_visible_type t || any_visible_type types

abbrev pub no_items {ℓ} : {A : Type ℓ} → List A → Bool
no_items [] = true
no_items (x ∷ xs) = false

-- The assertions after the loop.
unfoldable pub ends_well : Bool → List Event → Event → Option Seen → Bool
unfolding text_content is_visible any_visible_type
ends_well require_visible events last none = false
ends_well require_visible events last (some c) =
    no_items c.open_blocks
    && (not (no_items c.seen_blocks)
        && (not (require_visible && is_message_stop last)
            || (is_visible (text_content events) || any_visible_type c.seen_block_types)))

-- `allow_error` and `require_visible_content` are the first two arguments.
unfoldable pub meets_contract : Bool → Bool → List Event → Bool
unfolding has_message_start last_event see_all ends_well
meets_contract allow_error require_visible [] = false
meets_contract allow_error require_visible (e ∷ events) =
    let last = last_event e events in
    has_message_start (e ∷ events)
    && ((is_message_stop last || (allow_error && is_error last))
        && ends_well require_visible (e ∷ events) last
            (see_all allow_error (e ∷ events) (some nothing_seen)))
