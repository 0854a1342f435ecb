-- ===== src/NativeTools/Blocks.antt =====
-- What the framer makes of texts behind the marker of a tool block.
use agentic_model_gateway.Base.{
  ℕ, ◌+◌, ◌-◌, ◌≡◌, refl, sym, ap, subst, ◌∙◌, Bool, true, false, not, Option, none, some, List, [],
  ◌∷◌, ◌++◌, length, ltb, ◌==◌, either, arith,
}
use mathlib.Core.List.{append-nil, append_assoc}
use agentic_model_gateway.Stream.Slices.{drop, take, take-drop, without_last}
use agentic_model_gateway.Stream.Text.{Text, is_visible, join}
use agentic_model_gateway.Think.Find.{find}
use agentic_model_gateway.NativeTools.Framer.{
  Raising, ok, raised, and_then, Framer, FramingMode, tool_block_mode, after_tool_block,
  tool_block_end, partial_marker_suffix_length, append_tool_fragment, validate_trailing_text,
  feed_block_at, feed_tool_block, close_block, max_native_tool_block_chars,
}
use agentic_model_gateway.NativeTools.Scan.{
  Scanned, Ended, not_found-Scanned, found-Ended, marker_at, take-whole, drop-whole,
}

-- What holds of a value that is returned.
abbrev pub Ok : {A : Type 0} → (A → Type 0) → Raising A → Type 0
Ok P (ok a) = P a
Ok P (raised error) = Unit

pub and_then-Ok :
    {A B : Type 0} (P : A → Type 0) (Q : B → Type 0) (r : Raising A) (f : A → Raising B)
    → Ok P r
    → ((a : A) → P a → Ok Q (f a))
    → Ok Q (and_then r f)
and_then-Ok P Q (ok a) f h k = k a h
and_then-Ok P Q (raised error) f h k = tt

join-append : (parts : List Text) (s : Text) → join (parts ++ s ∷ []) ≡ join parts ++ s
unfolding join
join-append [] s = append-nil s
join-append (part ∷ parts) s =
    ap (λ r. part ++ r) (join-append parts s) ∙ sym (append_assoc part (join parts) s)

abbrev Appended : Text → Framer → Framer → Type 0
Appended fragment f g =
    (join g.tool_parts ≡ join f.tool_parts ++ fragment)
    × (g.mode ≡ f.mode)
    × (g.tool_block ≡ f.tool_block)

append_tool_fragment_lem :
    (fragment : Text) (f : Framer) → Ok (Appended fragment f) (append_tool_fragment fragment f)
unfolding append_tool_fragment
append_tool_fragment_lem [] f = (sym (append-nil _), refl, refl)
append_tool_fragment_lem (c ∷ s) f =
    either (Ok (Appended (c ∷ s) f))
      (ltb max_native_tool_block_chars (f.tool_length + length (c ∷ s))) (λ _. tt)
      (λ _. (join-append f.tool_parts (c ∷ s), refl, refl))

-- The text behind the marker of a block, in the modes that follow it.
abbrev pub InBlock : FramingMode → Text → Framer → Type 0
InBlock tool_block_mode y f =
    (y ≡ join f.tool_parts ++ f.tool_tail)
    × Scanned tool_block_end (join f.tool_parts) f.tool_tail
    × (f.tool_block ≡ none)
InBlock after_tool_block y f =
    (block : Text) × (rest : Text) × (y ≡ block ++ (tool_block_end ++ rest))
    × Ended tool_block_end block
    × (is_visible rest ≡ false)
    × (f.tool_block ≡ some block)
InBlock mode y f = ◌≡◌ {A = Bool} true false

abbrev pub FollowsBlock : Text → Framer → Type 0
FollowsBlock y f = InBlock f.mode y f

block_ends :
    (candidate y : Text) (i : ℕ) (f : Framer)
    → y ≡ join f.tool_parts ++ (tool_block_end ++ drop (i + length tool_block_end) candidate)
    → Ended tool_block_end (join f.tool_parts)
    → Ok
        (FollowsBlock y)
        (validate_trailing_text (drop (i + length tool_block_end) candidate) (close_block f))
unfolding validate_trailing_text close_block
block_ends candidate y i f e ended =
    either (Ok (FollowsBlock y)) (is_visible (drop (i + length tool_block_end) candidate)) (λ _. tt)
      (λ blank.
        (join f.tool_parts, drop (i + length tool_block_end) candidate, e, ended, blank, refl))

module _ (y text : Text) (f : Framer) (inside : f.mode ≡ tool_block_mode)
    (follows : InBlock tool_block_mode y f) where
  abbrev candidate : Text
  candidate = f.tool_tail ++ text

  abbrev kept : ℕ
  kept = length candidate - partial_marker_suffix_length candidate tool_block_end

  -- The text so far, with the candidate split at `i`.
  split_block :
      (i : ℕ) (g : Framer)
      → Appended (take i candidate) f g
      → y ++ text ≡ join g.tool_parts ++ drop i candidate
  split_block i g appended =
      ap (λ r. r ++ text) follows.0
      ∙ append_assoc (join f.tool_parts) f.tool_tail text
      ∙ ap (λ r. join f.tool_parts ++ r) (sym (take-drop i candidate))
      ∙ sym (append_assoc (join f.tool_parts) (take i candidate) (drop i candidate))
      ∙ ap (λ r. r ++ drop i candidate) (sym appended.0)

  goes_on :
      (g : Framer)
      → find tool_block_end candidate ≡ none
      → Appended (take kept candidate) f g
      → FollowsBlock (y ++ text) (record g { tool_tail = drop kept candidate })
  goes_on g e appended =
      subst (λ mode. InBlock mode (y ++ text) (record g { tool_tail = drop kept candidate }))
        (sym (appended.1 ∙ inside))
        (
          split_block kept g appended,
          subst (λ done. Scanned tool_block_end done (drop kept candidate)) (sym appended.0)
              (not_found-Scanned tool_block_end (join f.tool_parts) f.tool_tail text follows.1 e),
          appended.2 ∙ follows.2,
        )

  goes_on_whole :
      (g : Framer)
      → find tool_block_end candidate ≡ none
      → partial_marker_suffix_length candidate tool_block_end == 0 ≡ true
      → Appended candidate f g
      → FollowsBlock (y ++ text) (record g { tool_tail = [] })
  goes_on_whole g e whole appended =
      let held : ℕ = partial_marker_suffix_length candidate tool_block_end in
      subst (λ tail. FollowsBlock (y ++ text) (record g { tool_tail = tail }))
        (drop-whole candidate held whole)
        (goes_on g e (subst (λ s. Appended s f g) (sym (take-whole candidate held whole)) appended))

  ends :
      (i : ℕ) (g : Framer)
      → find tool_block_end candidate ≡ some i
      → Appended (take i candidate) f g
      → Ok
          (FollowsBlock (y ++ text))
          (validate_trailing_text (drop (i + length tool_block_end) candidate) (close_block g))
  ends i g e appended =
      let (ended, whole) =
        found-Ended tool_block_end (join f.tool_parts) f.tool_tail text follows.1 i e in
      block_ends candidate (y ++ text) i g
        (split_block i g appended
          ∙ ap (λ r. join g.tool_parts ++ r)
              (marker_at tool_block_end (join f.tool_parts) f.tool_tail text follows.1 i e))
        (subst (Ended tool_block_end) (sym appended.0) ended)

  feed_block_at_lem :
      (found : Option ℕ)
      → find tool_block_end candidate ≡ found
      → Ok (FollowsBlock (y ++ text)) (feed_block_at found candidate f)
  unfolding feed_block_at without_last
  feed_block_at_lem none e =
      either (Ok (FollowsBlock (y ++ text)))
        (not (partial_marker_suffix_length candidate tool_block_end == 0))
        (λ _.
          and_then-Ok (Appended (take kept candidate) f) (FollowsBlock (y ++ text)) _ _
            (append_tool_fragment_lem (take kept candidate) f) (λ g appended. goes_on g e appended))
        (λ whole.
          and_then-Ok (Appended candidate f) (FollowsBlock (y ++ text)) _ _
            (append_tool_fragment_lem candidate f)
            (λ g appended. goes_on_whole g e (ground (arith, whole)) appended))
  feed_block_at_lem (some i) e =
      and_then-Ok (Appended (take i candidate) f) (FollowsBlock (y ++ text)) _ _
        (append_tool_fragment_lem (take i candidate) f) (λ g appended. ends i g e appended)

  pub feed_tool_block_lem : Ok (FollowsBlock (y ++ text)) (feed_tool_block text f)
  unfolding feed_tool_block
  feed_tool_block_lem = feed_block_at_lem (find tool_block_end candidate) refl
