-- ===== src/Think/Parser.antt =====
-- core/anthropic/thinking.py: class ThinkTagParser. A round of the loop of `feed` is `parse_once`.
use agentic_model_gateway.Base.{
  zero, suc, ℕ, ◌+◌, ◌-◌, Bool, true, false, ◌&&◌, ◌||◌, Option, none, some, List, [], ◌∷◌, ◌++◌,
  length, ltb, ◌==◌, if◌then◌else◌,
}
use agentic_model_gateway.Stream.Slices.{drop, take}
use agentic_model_gateway.Stream.Text.{Text, is_empty, starts_with}
use agentic_model_gateway.Think.Find.{find, rfind_bracket}

pub data ContentType : Type 0 where
  text thinking : ContentType

pub record ContentChunk : Type 0 where
  pub type : ContentType
  pub content : Text

-- `<think>` and `</think>`
abbrev pub open_tag : Text
open_tag = 60 ∷ 116 ∷ 104 ∷ 105 ∷ 110 ∷ 107 ∷ 62 ∷ []

abbrev pub close_tag : Text
close_tag = 60 ∷ 47 ∷ 116 ∷ 104 ∷ 105 ∷ 110 ∷ 107 ∷ 62 ∷ []

pub record Parser : Type 0 where
  pub buffer : Text
  pub in_think_tag : Bool

abbrev pub new_parser : Parser
new_parser = record { buffer = []; in_think_tag = false }

abbrev pub chunk : ContentType → Text → Option ContentChunk
chunk type [] = none
chunk type (c ∷ s) = some (record { type = type; content = c ∷ s })

-- The text before `i` is given out, and the buffer goes on `size` behind it.
unfoldable pub cut :
    ContentType → (i size : ℕ) → (in_think_tag : Bool) → Parser → Option ContentChunk × Parser
unfolding take drop
cut type i size inside p = (
  chunk type (take i p.buffer),
  record { buffer = drop (i + size) p.buffer; in_think_tag = inside },
)

unfoldable pub emit_all : ContentType → Parser → Option ContentChunk × Parser
emit_all type p = (chunk type p.buffer, record p { buffer = [] })

abbrev pub begins_tag : Text → Text → Bool
begins_tag potential_tag tag =
    ltb (length potential_tag) (length tag) && starts_with tag potential_tag

-- At the last bracket, which may begin a tag.
unfoldable pub outside_bracket : Option ℕ → Parser → Option ContentChunk × Parser
unfolding cut emit_all
outside_bracket none p = emit_all text p
outside_bracket (some last_bracket) p =
    if begins_tag (drop last_bracket p.buffer) open_tag
      || begins_tag (drop last_bracket p.buffer) close_tag
    then cut text last_bracket 0 p.in_think_tag p
    else emit_all text p

unfoldable pub outside_open : Option ℕ → Parser → Option ContentChunk × Parser
unfolding cut rfind_bracket outside_bracket
outside_open none p = outside_bracket (rfind_bracket p.buffer) p
outside_open (some think_start) p = cut text think_start 7 true p

abbrev pub comes_before : ℕ → Option ℕ → Bool
comes_before orphan_close none = true
comes_before orphan_close (some think_start) = ltb orphan_close think_start

unfoldable pub outside_tags :
    (think_start orphan_close : Option ℕ) → Parser → Option ContentChunk × Parser
unfolding cut outside_open
outside_tags think_start none p = outside_open think_start p
outside_tags think_start (some orphan_close) p =
    if comes_before orphan_close think_start
    then cut text orphan_close 8 p.in_think_tag p
    else outside_open think_start p

unfoldable pub parse_outside_think : Parser → Option ContentChunk × Parser
unfolding find outside_tags
parse_outside_think p = outside_tags (find open_tag p.buffer) (find close_tag p.buffer) p

unfoldable pub inside_bracket : Option ℕ → Parser → Option ContentChunk × Parser
unfolding cut emit_all
inside_bracket none p = emit_all thinking p
inside_bracket (some last_bracket) p =
    if ltb (length p.buffer - last_bracket) 8 && starts_with close_tag (drop last_bracket p.buffer)
    then cut thinking last_bracket 0 p.in_think_tag p
    else emit_all thinking p

unfoldable pub inside_close : Option ℕ → Parser → Option ContentChunk × Parser
unfolding cut rfind_bracket inside_bracket
inside_close none p = inside_bracket (rfind_bracket p.buffer) p
inside_close (some think_end) p = cut thinking think_end 8 false p

unfoldable pub parse_inside_think : Parser → Option ContentChunk × Parser
unfolding find inside_close
parse_inside_think p = inside_close (find close_tag p.buffer) p

unfoldable pub parse_once : Parser → Option ContentChunk × Parser
unfolding parse_outside_think parse_inside_think
parse_once p = if p.in_think_tag then parse_inside_think p else parse_outside_think p

abbrev pub yielded :
    ContentChunk → Option (List ContentChunk × Parser) → Option (List ContentChunk × Parser)
yielded chunk none = none
yielded chunk (some (chunks, p)) = some (chunk ∷ chunks, p)

-- A round that gives nothing out and leaves the buffer as long as it was ends the loop.
abbrev pub next_round :
    Option ContentChunk × Parser
    → (same_length : Bool) → Option (List ContentChunk × Parser)
    → Option (List ContentChunk × Parser)
next_round (some chunk, p) same_length rest = yielded chunk rest
next_round (none, p) true rest = some ([], p)
next_round (none, p) false rest = rest

-- The loop of `feed`, with `none` where the fuel is used up.
unfoldable pub feed_loop : ℕ → Parser → Option (List ContentChunk × Parser)
unfolding parse_once
feed_loop zero p = none
feed_loop (suc fuel) p =
    let round = parse_once p in
    let rest = feed_loop fuel round.1 in
    if is_empty p.buffer
    then some ([], p)
    else next_round round (length round.1.buffer == length p.buffer) rest

-- A round more than the buffer has characters is enough.
unfoldable pub feed : Text → Parser → Option (List ContentChunk × Parser)
unfolding feed_loop
feed content p =
    let p' = record p { buffer = p.buffer ++ content } in feed_loop (1 + length p'.buffer) p'

unfoldable pub flush : Parser → Option ContentChunk × Parser
flush p = (chunk (if p.in_think_tag then thinking else text) p.buffer, record p { buffer = [] })

-- A stream: its contents fed one after another to a new parser.
unfoldable pub feed_all : List Text → Parser → Option (List ContentChunk × Parser)
unfolding feed
feed_all [] p = some ([], p)
feed_all (content ∷ contents) p = elim (feed content p) [
  | none ↦ none
  | some (chunks, p') ↦ elim (feed_all contents p') [
    | none ↦ none
    | some (more, p'') ↦ some (chunks ++ more, p'')
  ]
]

abbrev pub chunk_list : Option ContentChunk → List ContentChunk
chunk_list none = []
chunk_list (some chunk) = chunk ∷ []

unfoldable pub parse_stream : List Text → Option (List ContentChunk)
unfolding feed_all flush
parse_stream contents = elim (feed_all contents new_parser) [
  | none ↦ none
  | some (chunks, p) ↦ some (chunks ++ chunk_list (flush p).0)
]
