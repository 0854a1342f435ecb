-- ===== src/Think/Rounds.antt =====
-- A round of the parser gives out what the whole text is split into, whatever follows the buffer.
pub mod Outside
pub mod Inside
use agentic_model_gateway.Base.{
  either, ℕ, zero, suc, ◌+◌, ◌-◌, ◌≤◌, ◌<◌, ◌≡◌, refl, sym, ap, subst, ◌∙◌, Bool, true, false, not,
  ◌&&◌, ◌||◌, Option, none, some, List, [], ◌∷◌, ◌++◌, length, ltb, ◌==◌, if◌then◌else◌, arith,
  contains, Bool-cases, Option-cases, inl, inr,
}
use mathlib.Core.List.{append-nil, append_assoc}
use agentic_model_gateway.Stream.Slices.{
  drop, drop-drop, length-drop, length-take, starts_with-drop, take, take-drop,
}
use agentic_model_gateway.Stream.Text.{Text, strip_prefix, starts_with, has}
use agentic_model_gateway.Think.Find.{find, rfind_bracket}
use agentic_model_gateway.Think.Parser.{
  ContentType, text, thinking, ContentChunk, open_tag, close_tag, Parser, begins_tag, chunk,
  chunk_list, cut, emit_all, outside_bracket, outside_open, outside_tags, parse_outside_think,
  inside_bracket, inside_close, parse_inside_think, parse_once, comes_before,
}
use agentic_model_gateway.Think.Reference.{
  mark, opens, closes, plain, kind, split, labelled, spread,
}
use agentic_model_gateway.Think.Clear.{
  bracket, Clear, Free, find-Free, not_found-Free, find-starts_with, IsLastBracket,
  no-rfind_bracket, rfind_bracket-IsLastBracket, not_found-Clear, Free-Clear, plain-Clear,
  last-Clear,
}

-- No tag that counts inside, or outside, begins in the text.
abbrev pub ClearFor : Bool → Text → Text → Type 0
ClearFor true s t = Clear close_tag s t
ClearFor false s t = Clear open_tag s t × Clear close_tag s t

mark-plain :
    (inside : Bool) (c : ℕ) (s t : Text)
    → ClearFor inside (c ∷ s) t
    → mark inside (c ∷ s ++ t) ≡ plain
unfolding mark
mark-plain true c s t h = ground (arith, h.0)
mark-plain false c s t h = ground (arith, h.0.0, h.1.0)

ClearFor-rest :
    (inside : Bool) (c : ℕ) (s t : Text) → ClearFor inside (c ∷ s) t → ClearFor inside s t
ClearFor-rest true c s t h = h.1
ClearFor-rest false c s t h = (h.0.1, h.1.1)

pub split-clear :
    (inside : Bool) (s t : Text)
    → ClearFor inside s t
    → split inside 0 (s ++ t) ≡ labelled (kind inside) s ++ split inside 0 t
unfolding split labelled
split-clear inside [] t h = refl
split-clear inside (c ∷ s) t h =
    rw (mark-plain inside c s t h, split)
      (ap (λ r. (kind inside, c) ∷ r) (split-clear inside s t (ClearFor-rest inside c s t h)))

pub split-open :
    (u t : Text)
    → starts_with u open_tag ≡ true
    → split false 0 (u ++ t) ≡ split true 0 (drop 7 u ++ t)
unfolding split mark starts_with strip_prefix
split-open u t h = ap (λ s. split false 0 (s ++ t)) (starts_with-drop u open_tag h)

pub split-close :
    (inside : Bool) (u t : Text)
    → starts_with u close_tag ≡ true
    → split inside 0 (u ++ t) ≡ split false 0 (drop 8 u ++ t)
unfolding split mark starts_with strip_prefix
split-close true u t h = ap (λ s. split true 0 (s ++ t)) (starts_with-drop u close_tag h)
split-close false u t h = ap (λ s. split false 0 (s ++ t)) (starts_with-drop u close_tag h)

labelled-append :
    (type : ContentType) (s u : Text) → labelled type (s ++ u) ≡ labelled type s ++ labelled type u
unfolding labelled
labelled-append type [] u = refl
labelled-append type (c ∷ s) u = ap (λ r. (type, c) ∷ r) (labelled-append type s u)

-- What a round gives out and leaves is what it found; it gets the buffer shorter, or else has found
-- nothing there but a part of a tag.
pub record Round (inside : Bool) (s : Text) (out : Option ContentChunk × Parser) : Type 0 where
  pub sound :
      (t : Text)
      → spread (chunk_list out.0) ++ split out.1.in_think_tag 0 (out.1.buffer ++ t)
        ≡ split inside 0 (s ++ t)
  pub shorter : length out.1.buffer ≤ length s
  pub gives : (chunk : ContentChunk) → out.0 ≡ some chunk → length out.1.buffer < length s
  pub stalls :
      out.0 ≡ none
      → length out.1.buffer ≡ length s
      → 0 < length s
      → (out.1.in_think_tag ≡ inside) × ClearFor inside out.1.buffer [] × (length out.1.buffer < 8)

pub spread-chunk :
    (type : ContentType) (s : Text) → spread (chunk_list (chunk type s)) ≡ labelled type s
unfolding spread labelled
spread-chunk type [] = refl
spread-chunk type (c ∷ s) = append-nil (labelled type (c ∷ s))

abbrev pub at_text : Bool → Text → Parser
at_text inside s = record { buffer = s; in_think_tag = inside }

chunk-some :
    (type : ContentType) (s : Text) (given : ContentChunk)
    → chunk type s ≡ some given
    → 0 < length s
chunk-some type [] given e = ground (arith, e)
chunk-some type (c ∷ s) given e = omega arith

chunk-none : (type : ContentType) (s : Text) → chunk type s ≡ none → length s ≡ 0
chunk-none type [] e = refl
chunk-none type (c ∷ s) e = ground (arith, e)

cut_nowhere :
    (inside : Bool) (s : Text) (i size : ℕ)
    → chunk (kind inside) (take i s) ≡ none
    → length (drop (i + size) s) ≡ length s
    → 0 < length s
    → (i ≡ 0) × (size ≡ 0)
cut_nowhere inside s i size e same filled =
    let empty = chunk-none (kind inside) (take i s) e in
    (
      omega (arith, length-take i s, empty, filled),
      omega (arith, length-drop (i + size) s, same, filled),
    )

pub cut-Round :
    (inside : Bool) (s : Text) (i size : ℕ) (after : Bool)
    → ((t : Text) → ClearFor inside (take i s) (drop i s ++ t))
    → ((t : Text) → split inside 0 (drop i s ++ t) ≡ split after 0 (drop (i + size) s ++ t))
    → (size ≡ 0 → (after ≡ inside) × ClearFor inside s [] × (length (drop i s) < 8))
    → Round inside s (cut (kind inside) i size after (at_text inside s))
unfolding cut
cut-Round inside s i size after clear goes_on rest = record {
  sound = λ t.
      ap (λ r. r ++ split after 0 (drop (i + size) s ++ t)) (spread-chunk (kind inside) (take i s))
      ∙ ap (λ r. labelled (kind inside) (take i s) ++ r) (sym (goes_on t))
      ∙ sym (split-clear inside (take i s) (drop i s ++ t) (clear t))
      ∙ ap (λ u. split inside 0 u)
          (sym (append_assoc (take i s) (drop i s) t) ∙ ap (λ u. u ++ t) (take-drop i s));
  shorter = omega (arith, length-drop (i + size) s);
  gives = λ given e.
      let some_text = chunk-some (kind inside) (take i s) given e in
      omega (arith, length-drop (i + size) s, length-take i s, some_text);
  stalls = λ e same filled.
      let (at_front, nothing) = cut_nowhere inside s i size e same filled in
      let (stays, clear_text, small) = rest nothing in
      let whole : 0 ≡ i + size = omega (arith, at_front, nothing) in
      (
        stays,
        subst (λ n. ClearFor inside (drop n s) []) whole clear_text,
        omega (arith, length-drop i s, length-drop (i + size) s, small),
      );
}

pub emit_all-Round :
    (inside : Bool) (s : Text)
    → ((t : Text) → split inside 0 (s ++ t) ≡ labelled (kind inside) s ++ split inside 0 t)
    → 0 < length s
    → Round inside s (emit_all (kind inside) (at_text inside s))
unfolding emit_all
emit_all-Round inside s passes filled = record {
  sound = λ t. ap (λ r. r ++ split inside 0 t) (spread-chunk (kind inside) s) ∙ sym (passes t);
  shorter = omega arith;
  gives = λ given e. filled;
  stalls = λ e same h. absurd (omega (arith, chunk-none (kind inside) s e, filled));
}

-- A text given out in two parts, cut at its last bracket.
pub split_at_last :
    (inside : Bool) (s : Text) (i : ℕ) (t : Text)
    → ClearFor inside (take i s) (drop i s ++ t)
    → ClearFor inside (drop i s) t
    → split inside 0 (s ++ t) ≡ labelled (kind inside) s ++ split inside 0 t
split_at_last inside s i t before behind =
    ap (λ u. split inside 0 u)
      (ap (λ u. u ++ t) (sym (take-drop i s)) ∙ append_assoc (take i s) (drop i s) t)
    ∙ split-clear inside (take i s) (drop i s ++ t) before
    ∙ ap (λ r. labelled (kind inside) (take i s) ++ r) (split-clear inside (drop i s) t behind)
    ∙ sym (
        append_assoc (labelled (kind inside) (take i s)) (labelled (kind inside) (drop i s))
          (split inside 0 t))
    ∙ ap (λ r. r ++ split inside 0 t)
        (sym (labelled-append (kind inside) (take i s) (drop i s))
          ∙ ap (λ u. labelled (kind inside) u) (take-drop i s))
