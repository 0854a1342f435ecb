-- ===== src/Stream/Followed/Blocks.antt =====
-- What the ledger's blocks and the contract's check of the events sent so far have to do with each other,
-- and the lemmas on lists by which the operations keep it.
use agentic_model_gateway.Base.{
  NoRepeats, ℕ, ◌≤◌, ◌≡◌, refl, sym, ap, ◌∙◌, Bool, true, false, not, ◌&&◌, ◌||◌, Option, none,
  some, List, [], ◌∷◌, ◌++◌, ◌==◌, if◌then◌else◌, contains, lookup, insert, arith, Bool-cases, inl,
  inr,
}
use mathlib.Core.List.{append-nil, append_assoc}
use agentic_model_gateway.Stream.Text.{Text, has, join}
use agentic_model_gateway.Stream.Event.{BlockType, is_visible_type, Event}
use agentic_model_gateway.Stream.Blocks.{StreamBlockState}
use agentic_model_gateway.Stream.Ledger.{Ledger, unstack, remove_lowest}
use agentic_model_gateway.Stream.Turn.{any_visible}
use agentic_model_gateway.Stream.Contract.{
  Seen, Storage, stored, nothing_seen, see_event, see_all, event_text, text_content,
  any_visible_type, has_message_start, no_items,
}

abbrev pub kind_of : Option StreamBlockState → Option BlockType
kind_of none = none
kind_of (some state) = if state.open_block then some state.block_type else none

-- The type of the open block at an index.
unfoldable pub open_kind : Ledger → ℕ → Option BlockType
open_kind l i = kind_of (lookup i l.content_blocks)

abbrev pub stored_kind : Option BlockType → Option Storage
stored_kind none = none
stored_kind (some t) = some (stored t)

pub record Followed (l : Ledger) : Type 0 where
  pub checked : Seen
  pub scanned : see_all false l.sent (some nothing_seen) ≡ some checked
  pub opened : (i : ℕ) → lookup i checked.open_blocks ≡ stored_kind (open_kind l i)
  pub seen : (i : ℕ) → contains i checked.seen_blocks ≡ has (lookup i l.content_blocks)
  pub unused : (i : ℕ) → l.blocks.next_index ≤ i → lookup i l.content_blocks ≡ none
  pub stacked : (i : ℕ) → contains i l.open_stack ≡ has (open_kind l i)
  pub distinct : NoRepeats l.open_stack
  pub indexed :
      (i : ℕ) (state : StreamBlockState) → lookup i l.content_blocks ≡ some state → state.index ≡ i
  pub told : text_content l.sent ≡ join l.text_parts
  pub begun : has_message_start l.sent ≡ true
  pub spoken : no_items l.content_blocks ≡ true → join l.text_parts ≡ []
  pub shown : any_visible_type checked.seen_block_types ≡ any_visible l.content_blocks

abbrev pub bind_seen : Option Seen → (Seen → Option Seen) → Option Seen
bind_seen none f = none
bind_seen (some c) f = f c

pub see_all-snoc :
    (allow_error : Bool) (events : List Event) (e : Event) (c : Option Seen)
    → see_all allow_error (events ++ e ∷ []) c
      ≡ bind_seen (see_all allow_error events c) (see_event allow_error e)
unfolding see_all
see_all-snoc a [] e none = refl
see_all-snoc a [] e (some c) = refl
see_all-snoc a (x ∷ events) e none = refl
see_all-snoc a (x ∷ events) e (some c) = see_all-snoc a events e (see_event a x c)

pub text_content-snoc :
    (events : List Event) (e : Event)
    → text_content (events ++ e ∷ []) ≡ text_content events ++ event_text e
unfolding text_content
text_content-snoc [] e = append-nil (event_text e)
text_content-snoc (x ∷ events) e =
    ap (λ rest. event_text x ++ rest) (text_content-snoc events e)
    ∙ sym (append_assoc (event_text x) (text_content events) (event_text e))

pub any_visible-insert_new :
    (i : ℕ) (state : StreamBlockState) (blocks : List (ℕ × StreamBlockState))
    → lookup i blocks ≡ none
    → any_visible (insert i state blocks) ≡ (is_visible_type state.block_type || any_visible blocks)
unfolding any_visible insert lookup
any_visible-insert_new i state [] h = refl
any_visible-insert_new i state ((j, old) ∷ blocks) h =
    ground (arith, any_visible-insert_new i state blocks)

pub any_visible-insert_again :
    (i : ℕ) (state old : StreamBlockState) (blocks : List (ℕ × StreamBlockState))
    → lookup i blocks ≡ some old
    → state.block_type ≡ old.block_type
    → any_visible (insert i state blocks) ≡ any_visible blocks
unfolding any_visible insert lookup
any_visible-insert_again i state old [] h e = cc
any_visible-insert_again i state old ((j, other) ∷ blocks) h e =
    ground (arith, any_visible-insert_again i state old blocks)

pub join-snoc : (parts : List Text) (s : Text) → join (parts ++ s ∷ []) ≡ join parts ++ s
unfolding join
join-snoc [] s = append-nil s
join-snoc (p ∷ parts) s =
    ap (λ rest. p ++ rest) (join-snoc parts s) ∙ sym (append_assoc p (join parts) s)

remove_lowest-absent :
    (i : ℕ) (stack : List ℕ) → contains i stack ≡ false → remove_lowest i stack ≡ stack
unfolding remove_lowest contains
remove_lowest-absent i [] h = refl
remove_lowest-absent i (x ∷ stack) h = ground arith

contains-remove_lowest :
    (i j : ℕ) (stack : List ℕ)
    → NoRepeats stack
    → contains j (remove_lowest i stack) ≡ (not (i == j) && contains j stack)
unfolding remove_lowest contains
contains-remove_lowest i j [] d = ground arith
contains-remove_lowest i j (x ∷ stack) d = elim (Bool-cases (contains i stack)) [
  | inl h ↦ rw h (ground (arith, contains-remove_lowest i j stack d.1))
  | inr h ↦ rw h (ground arith)
]

NoRepeats-remove_lowest :
    (i : ℕ) (stack : List ℕ) → NoRepeats stack → NoRepeats (remove_lowest i stack)
unfolding remove_lowest
NoRepeats-remove_lowest i [] d = tt
NoRepeats-remove_lowest i (x ∷ stack) d =
    ground (arith, NoRepeats-remove_lowest i stack d.1, contains-remove_lowest i x stack d.1)

pub contains-unstack :
    (i j : ℕ) (stack : List ℕ)
    → NoRepeats stack
    → contains j (unstack (some i) stack) ≡ (not (i == j) && contains j stack)
unfolding unstack contains
contains-unstack i j [] d = ground arith
contains-unstack i j (x ∷ stack) d = ground (arith, contains-remove_lowest i j (x ∷ stack) d)

pub NoRepeats-unstack :
    (i : ℕ) (stack : List ℕ) → NoRepeats stack → NoRepeats (unstack (some i) stack)
unfolding unstack
NoRepeats-unstack i [] d = tt
NoRepeats-unstack i (x ∷ stack) d = ground (arith, NoRepeats-remove_lowest i (x ∷ stack) d)

pub lookup-equal :
    (i j : ℕ) (state : StreamBlockState) (blocks : List (ℕ × StreamBlockState))
    → lookup i blocks ≡ some state
    → (i == j) ≡ true
    → lookup j blocks ≡ some state
lookup-equal i j state blocks at e = let same : i ≡ j = ground arith in rw same at at

pub has_message_start-snoc :
    (events : List Event) (e : Event)
    → has_message_start events ≡ true
    → has_message_start (events ++ e ∷ []) ≡ true
unfolding has_message_start
has_message_start-snoc [] e h = cc
has_message_start-snoc (x ∷ events) e h = ground (arith, has_message_start-snoc events e)

pub no_items-insert :
    (i : ℕ) (state : StreamBlockState) (blocks : List (ℕ × StreamBlockState))
    → no_items (insert i state blocks) ≡ false
unfolding insert
no_items-insert i state [] = refl
no_items-insert i state ((j, old) ∷ blocks) = ground arith

pub lookup-no_items :
    (i : ℕ) (state : StreamBlockState) (blocks : List (ℕ × StreamBlockState))
    → lookup i blocks ≡ some state
    → no_items blocks ≡ false
unfolding lookup
lookup-no_items i state [] h = cc
lookup-no_items i state (b ∷ blocks) h = refl

pub any_visible-bare :
    (blocks : List (ℕ × StreamBlockState)) → no_items blocks ≡ true → any_visible blocks ≡ false
unfolding any_visible
any_visible-bare [] h = refl
any_visible-bare (b ∷ blocks) h = cc
