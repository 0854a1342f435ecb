-- ===== src/NativeTools/Whole.antt =====
-- The framer's result against one search in the whole text.
use agentic_model_gateway.Base.{
  ℕ, zero, suc, ◌+◌, ◌≡◌, refl, sym, ap, subst, ◌∙◌, true, not, Option, none, some, List, [], ◌∷◌,
  ◌++◌, length, either, is_none, arith,
}
use mathlib.Core.List.{append-nil, append_assoc}
use agentic_model_gateway.Stream.Slices.{drop, drop-append, drop-drop, take, take-append}
use agentic_model_gateway.Stream.Text.{Text, join, starts_with, strip_prefix}
use agentic_model_gateway.Think.Clear.{Clear}
use agentic_model_gateway.Think.Find.{find, later}
use agentic_model_gateway.NativeTools.Framer.{
  Raising, ok, and_then, Framer, FramingMode, text_mode, tool_block_mode, after_tool_block,
  finished, new_framer, namespace, tool_block_start, tool_block_end, finish, finish_in, finish_text,
  feed_all, frame,
}
use agentic_model_gateway.NativeTools.Scan.{Scanned, Ended, find-Clear, shift}
use agentic_model_gateway.NativeTools.Blocks.{Ok, and_then-Ok}
use agentic_model_gateway.NativeTools.Framed.{IsFramed, Framed, feed_lem, silent}

-- The whole text, split at the first marker and at the first end of its block.
unfoldable pub block_of : Option ℕ → (visible y : Text) → Option (Text × Option Text)
unfolding take
block_of none visible y = none
block_of (some j) visible y = some (visible, some (take j y))

unfoldable pub split_at : Option ℕ → Text → Option (Text × Option Text)
unfolding block_of find take drop
split_at none x = some (x, none)
split_at (some i) x =
    let y = drop (i + length tool_block_start) x in block_of (find tool_block_end y) (take i x) y

unfoldable pub split_whole : Text → Option (Text × Option Text)
unfolding split_at find
split_whole x = split_at (find tool_block_start x) x

feed_all_lem :
    (texts : List Text) (x visible : Text) (f : Framer)
    → IsFramed f.mode x visible f
    → Ok (Framed (x ++ join texts) visible) (feed_all texts f)
unfolding feed_all join
feed_all_lem [] x visible f framed =
    subst (λ u. Framed u visible ([], f)) (sym (append-nil x)) (silent x visible f framed)
feed_all_lem (text ∷ texts) x visible f framed =
    and_then-Ok (Framed (x ++ text) visible) (Framed (x ++ (text ++ join texts)) visible) _ _
      (feed_lem x visible f text framed)
      (λ (w, g) next.
        and_then-Ok (Framed ((x ++ text) ++ join texts) (visible ++ w))
          (Framed (x ++ (text ++ join texts)) visible) _ _
          (feed_all_lem texts (x ++ text) (visible ++ w) g next)
          (λ (v, h) last.
            subst (λ u. IsFramed h.mode u (visible ++ (w ++ v)) h)
              (append_assoc x text (join texts))
              (subst (λ u. IsFramed h.mode ((x ++ text) ++ join texts) u h)
                (append_assoc visible w v) last)))

shift-some : (n i : ℕ) → shift n (some i) ≡ some (n + i)
shift-some zero i = ground arith
shift-some (suc n) i = ground (arith, shift-some n i)

shift-none : (n : ℕ) → shift n none ≡ none
shift-none zero = refl
shift-none (suc n) = ap later (shift-none n)

find_start : (y : Text) → find tool_block_start (tool_block_start ++ y) ≡ some 0
unfolding find starts_with strip_prefix
find_start y = refl

find_end : (y : Text) → find tool_block_end (tool_block_end ++ y) ≡ some 0
unfolding find starts_with strip_prefix
find_end y = refl

pub found_first :
    (tag before rest : Text)
    → Clear tag before (tag ++ rest)
    → find tag (tag ++ rest) ≡ some 0
    → find tag (before ++ (tag ++ rest)) ≡ some (length before)
found_first tag before rest clear here =
    find-Clear tag before (tag ++ rest) clear
    ∙ ap (shift (length before)) here
    ∙ shift-some (length before) 0
    ∙ ground arith

pub behind_tag :
    (before tag rest : Text) → drop (length before + length tag) (before ++ (tag ++ rest)) ≡ rest
behind_tag before tag rest =
    drop-drop (length before) (length tag) (before ++ (tag ++ rest))
    ∙ ap (drop (length tag)) (drop-append before (tag ++ rest))
    ∙ drop-append tag rest

-- A text without a marker.
unmarked :
    (x visible tail : Text)
    → x ≡ visible ++ tail
    → Scanned tool_block_start visible tail
    → split_whole x ≡ some (visible ++ tail, none)
unfolding split_whole split_at
unmarked x visible tail e scanned =
    ap split_whole e
    ∙ ap (λ found. split_at found (visible ++ tail))
        (find-Clear tool_block_start visible tail
            (subst (Clear tool_block_start visible) (append-nil tail) (scanned.0 []))
          ∙ ap (shift (length visible)) scanned.1
          ∙ shift-none (length visible))

-- A text with a marker, and the end of its block.
marked :
    (x visible block rest : Text)
    → x ≡ visible ++ (tool_block_start ++ (block ++ (tool_block_end ++ rest)))
    → Ended tool_block_start visible
    → Ended tool_block_end block
    → split_whole x ≡ some (visible, some block)
unfolding split_whole split_at block_of
marked x visible block rest e started ended =
    let inner : Text = block ++ (tool_block_end ++ rest) in
    let whole : Text = visible ++ (tool_block_start ++ inner) in
    ap split_whole e
    ∙ ap (λ found. split_at found whole)
        (found_first tool_block_start visible inner (started inner) (find_start inner))
    ∙ ap (λ y. block_of (find tool_block_end y) (take (length visible) whole) y)
        (behind_tag visible tool_block_start inner)
    ∙ ap (λ v. block_of (find tool_block_end inner) v inner)
        (take-append visible (tool_block_start ++ inner))
    ∙ ap (λ found. block_of found visible inner)
        (found_first tool_block_end block rest (ended rest) (find_end rest))
    ∙ ap (λ b. some (visible, some b)) (take-append block (tool_block_end ++ rest))

abbrev SplitAs : Text → Text × Option Text → Type 0
SplitAs x result = split_whole x ≡ some result

abbrev ends_with_block : Text → Text × Framer → Raising (Text × Option Text)
ends_with_block visible (more, g) = ok (visible ++ more, g.tool_block)

finished_whole :
    (mode : FramingMode) (x visible : Text) (f : Framer)
    → IsFramed mode x visible f
    → Ok (SplitAs x) (and_then (finish_in mode true f) (ends_with_block visible))
unfolding finish_in finish_text
finished_whole text_mode x visible f framed =
    either (λ r. Ok (SplitAs x) (and_then r (ends_with_block visible)))
      (not (is_none (find namespace f.text_tail))) (λ _. tt)
      (λ _.
        unmarked x visible f.text_tail framed.0 framed.1
        ∙ ap (λ block. some (visible ++ f.text_tail, block)) (sym framed.4))
finished_whole tool_block_mode x visible f framed = tt
finished_whole after_tool_block x visible f
      (y, whole, started, (block, rest, e, ended, _, closed)) =
    marked x visible block rest (whole ∙ ap (λ r. visible ++ (tool_block_start ++ r)) e) started
      ended
    ∙ ap (λ v. some (v, some block)) (sym (append-nil visible))
    ∙ ap (λ b. some (visible ++ [], b)) (sym closed)
finished_whole finished x visible f (y, whole, ended, never) = absurd (ground (arith, never))

new-IsFramed : IsFramed text_mode [] [] new_framer
unfolding find
new-IsFramed = (refl, (λ t. tt, refl), refl, refl, refl)

framed_Ok : (texts : List Text) → Ok (SplitAs (join texts)) (frame true texts)
unfolding frame finish
framed_Ok texts =
    and_then-Ok (Framed (join texts) []) (SplitAs (join texts)) _ _
      (feed_all_lem texts [] [] new_framer new-IsFramed)
      (λ (visible, f) framed. finished_whole f.mode (join texts) visible f framed)

-- However an output field is cut into texts, and where its end requires a complete call: if the framer
-- raises nothing, its visible text and its tool block are what stands before the first start marker of
-- the whole text, and from there to the first end marker; a text without a start marker is visible as a
-- whole.
pub framed_as_whole :
    (texts : List Text) (result : Text × Option Text)
    → frame true texts ≡ ok result
    → split_whole (join texts) ≡ some result
framed_as_whole texts result e = subst (Ok (SplitAs (join texts))) e (framed_Ok texts)
