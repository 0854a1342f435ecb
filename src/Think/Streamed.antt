-- ===== src/Think/Streamed.antt =====
-- The parser's loop, a stream of contents, and what they are split into together.
use agentic_model_gateway.Base.{
  either, ℕ, zero, suc, ◌+◌, ◌<◌, ◌≡◌, refl, sym, ap, subst, ◌∙◌, Bool, true, false, Option, none,
  some, List, [], ◌∷◌, ◌++◌, length, ◌==◌, arith, Bool-cases, inl, inr,
}
use mathlib.Core.List.{append-nil, append_assoc}
use agentic_model_gateway.Stream.Text.{Text, is_empty, join}
use agentic_model_gateway.Think.Parser.{
  text, thinking, ContentChunk, Parser, new_parser, chunk_list, parse_once, yielded, next_round,
  feed_loop, feed, flush, feed_all, parse_stream,
}
use agentic_model_gateway.Think.Reference.{kind, split, labelled, spread}
use agentic_model_gateway.Think.Rounds.{ClearFor, Round, at_text, split-clear, spread-chunk}
use agentic_model_gateway.Think.Rounds.Outside.{outside-Round}
use agentic_model_gateway.Think.Rounds.Inside.{inside-Round}

parse_once-Round : (p : Parser) → 0 < length p.buffer → Round p.in_think_tag p.buffer (parse_once p)
unfolding parse_once
parse_once-Round p filled = by_place p.in_think_tag p.buffer filled
  where
    by_place :
        (inside : Bool) (s : Text) → 0 < length s → Round inside s (parse_once (at_text inside s))
    by_place true s h = inside-Round s h
    by_place false s h = outside-Round s h

spread-append : (xs ys : List ContentChunk) → spread (xs ++ ys) ≡ spread xs ++ spread ys
unfolding spread
spread-append [] ys = refl
spread-append (x ∷ xs) ys =
    ap (λ r. labelled x.type x.content ++ r) (spread-append xs ys)
    ∙ sym (append_assoc (labelled x.type x.content) (spread xs) (spread ys))

-- A result that gives out what the buffer is split into, whatever follows, and leaves at most a part
-- of a tag.
pub record Fed (p : Parser) (result : Option (List ContentChunk × Parser)) : Type 0 where
  pub chunks : List ContentChunk
  pub after : Parser
  pub returned : result ≡ some (chunks, after)
  pub sound :
      (t : Text)
      → spread chunks ++ split after.in_think_tag 0 (after.buffer ++ t)
        ≡ split p.in_think_tag 0 (p.buffer ++ t)
  pub settled : ClearFor after.in_think_tag after.buffer []
  pub small : length after.buffer < 8

empty-Fed : (p : Parser) → is_empty p.buffer ≡ true → Fed p (some ([], p))
unfolding spread
empty-Fed p e = record {
  chunks = [];
  after = p;
  returned = refl;
  sound = λ t. refl;
  settled = empty-ClearFor p.in_think_tag p.buffer e;
  small = empty-small p.buffer e;
}
  where
    empty-small : (s : Text) → is_empty s ≡ true → length s < 8
    empty-small [] h = omega arith
    empty-small (c ∷ s) h = absurd (ground (arith, h))

    empty-ClearFor : (inside : Bool) (s : Text) → is_empty s ≡ true → ClearFor inside s []
    empty-ClearFor true [] h = tt
    empty-ClearFor false [] h = (tt, tt)
    empty-ClearFor inside (c ∷ s) h = absurd (ground (arith, h))

next_round-Fed :
    (p : Parser) (out : Option ContentChunk × Parser) (rest : Option (List ContentChunk × Parser))
    → 0 < length p.buffer
    → Round p.in_think_tag p.buffer out
    → (length out.1.buffer < length p.buffer → Fed out.1 rest)
    → Fed p (next_round out (length out.1.buffer == length p.buffer) rest)
unfolding spread
next_round-Fed p (some given, q) rest filled r go =
    let fed = go (r.gives given refl) in
    record {
      chunks = given ∷ fed.chunks;
      after = fed.after;
      returned = ap (yielded given) fed.returned;
      sound = λ t.
          append_assoc (labelled given.type given.content) (spread fed.chunks) _
          ∙ ap (λ u. labelled given.type given.content ++ u) (fed.sound t)
          ∙ ap (λ u. u ++ split q.in_think_tag 0 (q.buffer ++ t))
              (sym (append-nil (labelled given.type given.content)))
          ∙ r.sound t;
      settled = fed.settled;
      small = fed.small;
    }
next_round-Fed p (none, q) rest filled r go =
    elim (Bool-cases (length q.buffer == length p.buffer)) [
      | inl same ↦ rw same (
          let (stays, clear, held) = r.stalls refl (ground (arith, same)) filled in
          record {
            chunks = [];
            after = q;
            returned = refl;
            sound = r.sound;
            settled = subst (λ i. ClearFor i q.buffer []) (sym stays) clear;
            small = held;
          })
      | inr other ↦ rw other (
          let fed = go (ground (arith, other, r.shorter)) in
          record {
            chunks = fed.chunks;
            after = fed.after;
            returned = fed.returned;
            sound = λ t. fed.sound t ∙ r.sound t;
            settled = fed.settled;
            small = fed.small;
          })
    ]

not_empty : (s : Text) → is_empty s ≡ false → 0 < length s
not_empty [] e = ground (arith, e)
not_empty (c ∷ s) e = omega arith

feed_loop-Fed : (fuel : ℕ) (p : Parser) → length p.buffer < fuel → Fed p (feed_loop fuel p)
unfolding feed_loop
feed_loop-Fed zero p enough = absurd (omega (arith, enough))
feed_loop-Fed (suc fuel) p enough = either (Fed p) (is_empty p.buffer) (empty-Fed p) (λ e.
    let filled = not_empty p.buffer e in
    let r = parse_once-Round p filled in
    next_round-Fed p (parse_once p) (feed_loop fuel (parse_once p).1) filled r
      (λ less. feed_loop-Fed fuel (parse_once p).1 (omega (arith, less, enough))))

abbrev extended : Parser → Text → Parser
extended p content = record p { buffer = p.buffer ++ content }

feed-Fed : (content : Text) (p : Parser) → Fed (extended p content) (feed content p)
unfolding feed
feed-Fed content p =
    feed_loop-Fed (1 + length (p.buffer ++ content)) (extended p content) (omega arith)

feed_all-cons :
    (content : Text) (contents : List Text) (p q q' : Parser) (xs ys : List ContentChunk)
    → feed content p ≡ some (xs, q)
    → feed_all contents q ≡ some (ys, q')
    → feed_all (content ∷ contents) p ≡ some (xs ++ ys, q')
unfolding feed_all
feed_all-cons content contents p q q' xs ys e f = ground (arith, e, f)

feed_all-Fed :
    (contents : List Text) (p : Parser)
    → ClearFor p.in_think_tag p.buffer []
    → length p.buffer < 8
    → Fed (extended p (join contents)) (feed_all contents p)
unfolding feed_all join spread
feed_all-Fed [] p settled small = record {
  chunks = [];
  after = p;
  returned = refl;
  sound = λ t. ap (λ s. split p.in_think_tag 0 (s ++ t)) (sym (append-nil p.buffer));
  settled = settled;
  small = small;
}
feed_all-Fed (content ∷ contents) p settled small =
    let first = feed-Fed content p in
    let rest = feed_all-Fed contents first.after first.settled first.small in
    record {
      chunks = first.chunks ++ rest.chunks;
      after = rest.after;
      returned = feed_all-cons content contents p _ _ _ _ first.returned rest.returned;
      sound = λ t.
          ap (λ u. u ++ split rest.after.in_think_tag 0 (rest.after.buffer ++ t))
            (spread-append first.chunks rest.chunks)
          ∙ append_assoc (spread first.chunks) (spread rest.chunks) _
          ∙ ap (λ u. spread first.chunks ++ u)
              (rest.sound t
                ∙ ap (λ s. split first.after.in_think_tag 0 s)
                    (append_assoc first.after.buffer (join contents) t))
          ∙ first.sound (join contents ++ t)
          ∙ ap (λ s. split p.in_think_tag 0 s)
              (sym (append_assoc (p.buffer ++ content) (join contents) t)
                ∙ ap (λ s. s ++ t) (append_assoc p.buffer content (join contents)));
      settled = rest.settled;
      small = rest.small;
    }

flushed :
    (p : Parser)
    → ClearFor p.in_think_tag p.buffer []
    → spread (chunk_list (flush p).0) ≡ split p.in_think_tag 0 (p.buffer ++ [])
unfolding flush split
flushed p settled =
    by_place p.in_think_tag p.buffer
    ∙ sym (
        split-clear p.in_think_tag p.buffer [] settled
        ∙ append-nil (labelled (kind p.in_think_tag) p.buffer))
  where
    by_place :
        (inside : Bool) (s : Text)
        → spread (chunk_list (flush (at_text inside s)).0) ≡ labelled (kind inside) s
    by_place true s = spread-chunk thinking s
    by_place false s = spread-chunk text s

parse_stream-returned :
    (contents : List Text) (p : Parser) (xs : List ContentChunk)
    → feed_all contents new_parser ≡ some (xs, p)
    → parse_stream contents ≡ some (xs ++ chunk_list (flush p).0)
unfolding parse_stream
parse_stream-returned contents p xs e = ground (arith, e)

-- Whatever contents are fed to a new parser, in whatever pieces, every feed returns, and the chunks
-- together with the flushed rest are the whole text split at once: each character once, in its order,
-- with the type it has there, and without the tags.
pub stream_split_as_whole :
    (contents : List Text)
    → (chunks : List ContentChunk) × (parse_stream contents ≡ some chunks)
      × (spread chunks ≡ split false 0 (join contents))
stream_split_as_whole contents =
    let fed = feed_all-Fed contents new_parser (tt, tt) (omega arith) in
    (
      fed.chunks ++ chunk_list (flush fed.after).0,
      parse_stream-returned contents _ _ fed.returned,
      spread-append fed.chunks (chunk_list (flush fed.after).0)
          ∙ ap (λ u. spread fed.chunks ++ u) (flushed fed.after fed.settled)
          ∙ fed.sound []
          ∙ ap (λ s. split false 0 s) (append-nil (join contents)),
    )

-- Whatever contents are fed to a new parser, every feed returns, and leaves fewer characters in the
-- buffer than a closing tag has.
pub held_back-lt-8 :
    (contents : List Text)
    → (chunks : List ContentChunk) × (p : Parser) × (feed_all contents new_parser
        ≡ some (chunks, p))
      × (length p.buffer < 8)
held_back-lt-8 contents =
    let fed = feed_all-Fed contents new_parser (tt, tt) (omega arith) in
    (fed.chunks, fed.after, fed.returned, fed.small)
