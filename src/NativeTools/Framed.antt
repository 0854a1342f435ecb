-- ===== src/NativeTools/Framed.antt =====
-- What the framer makes of texts, against a search in the whole text.
use agentic_model_gateway.Base.{
  ℕ, ◌+◌, ◌-◌, ◌≡◌, refl, sym, ap, subst, ◌∙◌, true, false, not, Option, none, some, List, [], ◌∷◌,
  ◌++◌, length, ◌==◌, either, arith,
}
use mathlib.Core.List.{append-nil, append_assoc}
use agentic_model_gateway.Stream.Slices.{drop, take, take-drop, without_last}
use agentic_model_gateway.Stream.Text.{Text, is_visible, is_visible-append, join}
use agentic_model_gateway.Think.Find.{find}
use agentic_model_gateway.NativeTools.Framer.{
  Framer, FramingMode, text_mode, tool_block_mode, after_tool_block, finished, namespace,
  tool_block_start, tool_block_end, partial_marker_suffix_length, validate_trailing_text,
  feed_tool_block, feed_text_at, protected_namespace_index, is_misplaced, feed_text, feed_in, feed,
  enter_block, is_finished,
}
use agentic_model_gateway.NativeTools.Scan.{
  Scanned, Ended, not_found-Scanned, found-Ended, marker_at, take-whole, drop-whole,
}
use agentic_model_gateway.NativeTools.Blocks.{
  Ok, and_then-Ok, InBlock, FollowsBlock, feed_tool_block_lem,
}

-- The text `x` so far and what is given out of it.
abbrev pub IsFramed : FramingMode → (x visible : Text) → Framer → Type 0
IsFramed text_mode x visible f =
    (x ≡ visible ++ f.text_tail)
    × Scanned tool_block_start visible f.text_tail
    × (f.tool_parts ≡ [])
    × (f.tool_tail ≡ [])
    × (f.tool_block ≡ none)
IsFramed mode x visible f =
    (y : Text) × (x ≡ visible ++ (tool_block_start ++ y))
    × Ended tool_block_start visible
    × InBlock mode y f

abbrev pub Framed : (x visible : Text) → Text × Framer → Type 0
Framed x visible (w, g) = IsFramed g.mode x (visible ++ w) g

behind_marker :
    (mode : FramingMode) (x visible y : Text) (g : Framer)
    → x ≡ visible ++ (tool_block_start ++ y)
    → Ended tool_block_start visible
    → InBlock mode y g
    → IsFramed mode x visible g
behind_marker text_mode x visible y g e ended follows = absurd (ground (arith, follows))
behind_marker tool_block_mode x visible y g e ended follows = (y, e, ended, follows)
behind_marker after_tool_block x visible y g e ended follows = (y, e, ended, follows)
behind_marker finished x visible y g e ended follows = (y, e, ended, follows)

block_start :
    (parts : List Text) (tail : Text)
    → parts ≡ []
    → tail ≡ []
    → ([] ≡ join parts ++ tail) × Scanned tool_block_end (join parts) tail
unfolding join find
block_start [] [] e h = (refl, (λ t. tt, refl))
block_start [] (c ∷ tail) e h = absurd (ground (arith, h))
block_start (part ∷ parts) tail e h = absurd (ground (arith, e))

module _ (x visible text : Text) (f : Framer) (in_text : f.mode ≡ text_mode)
    (framed : IsFramed text_mode x visible f) where
  abbrev candidate : Text
  candidate = f.text_tail ++ text

  enters : (y : Text) → Ok (FollowsBlock y) (feed_tool_block y (enter_block f))
  enters y =
      let (e, scanned) = block_start f.tool_parts f.tool_tail framed.2 framed.3 in
      feed_tool_block_lem [] y (enter_block f) refl (e, scanned, framed.4)

  split_text : (i : ℕ) → x ++ text ≡ (visible ++ take i candidate) ++ drop i candidate
  split_text i =
      ap (λ r. r ++ text) framed.0
      ∙ append_assoc visible f.text_tail text
      ∙ ap (λ r. visible ++ r) (sym (take-drop i candidate))
      ∙ sym (append_assoc visible (take i candidate) (drop i candidate))

  abbrev held : ℕ
  held = partial_marker_suffix_length candidate tool_block_start

  stays :
      find tool_block_start candidate ≡ none
      → Framed (x ++ text) visible (
        take (length candidate - held) candidate,
        record f { text_tail = drop (length candidate - held) candidate },
      )
  stays e =
      let kept : ℕ = length candidate - held in
      subst
        (λ mode.
          IsFramed mode (x ++ text) (visible ++ take kept candidate)
            (record f { text_tail = drop kept candidate }))
        (sym in_text)
        (
          split_text kept,
          not_found-Scanned tool_block_start visible f.text_tail text framed.1 e,
          framed.2,
          framed.3,
          framed.4,
        )

  stays_whole :
      held == 0 ≡ true
      → find tool_block_start candidate ≡ none
      → Framed (x ++ text) visible (candidate, record f { text_tail = [] })
  stays_whole whole e =
      subst (λ s. Framed (x ++ text) visible (s, record f { text_tail = [] }))
        (take-whole candidate held whole)
        (subst
          (λ tail.
            Framed (x ++ text) visible
              (take (length candidate - held) candidate, record f { text_tail = tail }))
          (drop-whole candidate held whole) (stays e))

  feed_text_at_lem :
      (found : Option ℕ)
      → find tool_block_start candidate ≡ found
      → Ok
          (Framed (x ++ text) visible)
          (feed_text_at found (partial_marker_suffix_length candidate tool_block_start) candidate f)
  unfolding feed_text_at without_last
  feed_text_at_lem none e =
      either (Ok (Framed (x ++ text) visible))
        (not (partial_marker_suffix_length candidate tool_block_start == 0)) (λ _. stays e)
        (λ whole. stays_whole (ground (arith, whole)) e)
  feed_text_at_lem (some i) e =
      and_then-Ok (FollowsBlock (drop (i + length tool_block_start) candidate))
        (Framed (x ++ text) visible) _ _ (enters _)
        (λ g follows.
          behind_marker g.mode (x ++ text) (visible ++ take i candidate)
            (drop (i + length tool_block_start) candidate) g
            (split_text i
              ∙ ap (λ r. (visible ++ take i candidate) ++ r)
                  (marker_at tool_block_start visible f.text_tail text framed.1 i e))
            (found-Ended tool_block_start visible f.text_tail text framed.1 i e).0 follows)

  feed_text_lem : Ok (Framed (x ++ text) visible) (feed_text candidate f)
  unfolding feed_text
  feed_text_lem =
      either (Ok (Framed (x ++ text) visible))
        (is_misplaced (find namespace candidate) (
          protected_namespace_index (find tool_block_start candidate)
            (partial_marker_suffix_length candidate tool_block_start) (length candidate)))
        (λ _. tt) (λ _. feed_text_at_lem (find tool_block_start candidate) refl)

grown :
    (x before marker y text : Text)
    → x ≡ before ++ (marker ++ y)
    → x ++ text ≡ before ++ (marker ++ (y ++ text))
grown x before marker y text e =
    ap (λ r. r ++ text) e
    ∙ append_assoc before (marker ++ y) text
    ∙ ap (λ r. before ++ r) (append_assoc marker y text)

pub silent :
    (x visible : Text) (g : Framer) → IsFramed g.mode x visible g → Framed x visible ([], g)
silent x visible g = subst (λ v. IsFramed g.mode x v g) (sym (append-nil visible))

trailing :
    (y text : Text) (f : Framer)
    → InBlock after_tool_block y f
    → is_visible text ≡ false
    → InBlock after_tool_block (y ++ text) f
trailing y text f (block, rest, e, ended, blank, closed) more = (
  block,
  rest ++ text,
  grown y block tool_block_end rest text e,
  ended,
  is_visible-append rest text ∙ ground (arith, blank, more),
  closed,
)

module _ (x visible : Text) (f : Framer) where
  feed_in_lem :
      (mode : FramingMode) (text : Text)
      → f.mode ≡ mode
      → IsFramed mode x visible f
      → Ok (Framed (x ++ text) visible) (feed_in mode text f)
  unfolding feed_in validate_trailing_text
  feed_in_lem text_mode text e framed = feed_text_lem x visible text f e framed
  feed_in_lem tool_block_mode text e (y, whole, ended, follows) =
      and_then-Ok (FollowsBlock (y ++ text)) (Framed (x ++ text) visible) _ _
        (feed_tool_block_lem y text f e follows)
        (λ g next. silent (x ++ text) visible g (
          behind_marker g.mode (x ++ text) visible (y ++ text) g
            (grown x visible tool_block_start y text whole) ended next))
  feed_in_lem after_tool_block text e (y, whole, ended, follows) =
      and_then-Ok (λ g. IsFramed g.mode (x ++ text) visible g) (Framed (x ++ text) visible) _ _
        (either (Ok (λ g. IsFramed g.mode (x ++ text) visible g)) (is_visible text) (λ _. tt)
          (λ blank.
            subst (λ mode. IsFramed mode (x ++ text) visible f) (sym e)
              (
                y ++ text,
                grown x visible tool_block_start y text whole,
                ended,
                trailing y text f follows blank,
              )))
        (silent (x ++ text) visible)
  feed_in_lem finished text e framed = tt

  pub feed_lem :
      (text : Text) → IsFramed f.mode x visible f → Ok (Framed (x ++ text) visible) (feed text f)
  unfolding feed
  feed_lem [] framed =
      either (Ok (Framed (x ++ []) visible)) (is_finished f.mode) (λ _. tt)
        (λ _.
          subst (λ u. Framed u visible ([], f)) (sym (append-nil x)) (silent x visible f framed))
  feed_lem (c ∷ s) framed =
      either (Ok (Framed (x ++ c ∷ s) visible)) (is_finished f.mode) (λ _. tt)
        (λ _. feed_in_lem f.mode (c ∷ s) refl framed)
