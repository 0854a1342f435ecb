-- ===== src/Think/Rounds/Outside.antt =====
-- A round outside a tag.
use agentic_model_gateway.Base.{
  either, ℕ, ◌<◌, ◌≡◌, refl, sym, ap, ◌∙◌, true, false, ◌||◌, Option, none, some, ◌++◌, length, ltb,
  arith, contains,
}
use agentic_model_gateway.Stream.Slices.{drop, drop-drop, take}
use agentic_model_gateway.Stream.Text.{Text}
use agentic_model_gateway.Think.Find.{find, rfind_bracket}
use agentic_model_gateway.Think.Parser.{
  text, open_tag, close_tag, begins_tag, cut, outside_bracket, outside_open, outside_tags,
  parse_outside_think,
}
use agentic_model_gateway.Think.Reference.{split}
use agentic_model_gateway.Think.Clear.{
  bracket, Free, find-Free, not_found-Free, find-starts_with, no-rfind_bracket,
  rfind_bracket-IsLastBracket, Free-Clear, not_found-Clear, plain-Clear, last-Clear, tag-bracket,
  IsLastBracket-drop, not_found-drop,
}
use agentic_model_gateway.Think.Rounds.{
  ClearFor, Round, at_text, cut-Round, emit_all-Round, split-clear, split-open, split-close,
  split_at_last,
}

module _ (s : Text) (filled : 0 < length s) where
  before_tags :
      (i : ℕ)
      → contains bracket (drop i s) ≡ true
      → Free open_tag i s
      → Free close_tag i s
      → (t : Text) → ClearFor false (take i s) (drop i s ++ t)
  unfolding contains
  before_tags i k o c t = (Free-Clear _ refl i s t k o, Free-Clear _ refl i s t k c)

  orphan-Round :
      (i : ℕ)
      → find close_tag s ≡ some i
      → Free open_tag i s
      → Round false s (cut text i 8 false (at_text false s))
  orphan-Round i found o =
      let here = find-starts_with close_tag s i found in
      cut-Round false s i 8 false
        (before_tags i (tag-bracket _ (drop i s) here) o
          (find-Free close_tag s i i found (omega arith)))
        (λ t.
          split-close false (drop i s) t here
          ∙ ap (λ u. split false 0 (u ++ t)) (sym (drop-drop i 8 s)))
        (λ e. absurd (omega (arith, e)))

  open-Round :
      (i : ℕ)
      → find open_tag s ≡ some i
      → Free close_tag i s
      → Round false s (cut text i 7 true (at_text false s))
  open-Round i found c =
      let here = find-starts_with open_tag s i found in
      cut-Round false s i 7 true
        (before_tags i (tag-bracket _ (drop i s) here)
          (find-Free open_tag s i i found (omega arith)) c)
        (λ t.
          split-open (drop i s) t here ∙ ap (λ u. split true 0 (u ++ t)) (sym (drop-drop i 7 s)))
        (λ e. absurd (omega (arith, e)))

  bracket-Round :
      (last : Option ℕ)
      → rfind_bracket s ≡ last
      → find open_tag s ≡ none
      → find close_tag s ≡ none
      → Round false s (outside_bracket last (at_text false s))
  unfolding outside_bracket contains
  bracket-Round none found o c =
      let bare = no-rfind_bracket s found in
      emit_all-Round false s
        (λ t. split-clear false s t (plain-Clear _ refl s t bare, plain-Clear _ refl s t bare))
        filled
  bracket-Round (some i) found o c =
      let last = rfind_bracket-IsLastBracket s i found in
      let (stands, at_last) = IsLastBracket-drop i s last in
      let before =
        before_tags i stands (not_found-Free open_tag s i o) (not_found-Free close_tag s i c) in
      either (Round false s) (begins_tag (drop i s) open_tag || begins_tag (drop i s) close_tag)
        (λ e.
          cut-Round false s i 0 false before
            (λ t. ap (λ u. split false 0 (u ++ t)) (sym (drop-drop i 0 s)))
            (λ z. (
              refl,
              (not_found-Clear open_tag s o, not_found-Clear close_tag s c),
              ground (arith, e),
            )))
        (λ e.
          emit_all-Round false s
            (λ t. split_at_last false s i t (before t) (
              last-Clear _ refl (drop i s) t at_last (not_found-drop open_tag s i o stands)
                  (ground arith),
              last-Clear _ refl (drop i s) t at_last (not_found-drop close_tag s i c stands)
                  (ground arith),
            ))
            filled)

  no_orphan-Round :
      (think_start : Option ℕ)
      → find open_tag s ≡ think_start
      → find close_tag s ≡ none
      → Round false s (outside_open think_start (at_text false s))
  unfolding outside_open
  no_orphan-Round none o c = bracket-Round (rfind_bracket s) refl o c
  no_orphan-Round (some i) o c = open-Round i o (not_found-Free close_tag s i c)

  tags-Round :
      (think_start orphan_close : Option ℕ)
      → find open_tag s ≡ think_start
      → find close_tag s ≡ orphan_close
      → Round false s (outside_tags think_start orphan_close (at_text false s))
  unfolding outside_tags outside_open
  tags-Round think_start none o c = no_orphan-Round think_start o c
  tags-Round none (some j) o c = orphan-Round j c (not_found-Free open_tag s j o)
  tags-Round (some i) (some j) o c =
      either (Round false s) (ltb j i)
        (λ e. orphan-Round j c (find-Free open_tag s i j o (ground (arith, e))))
        (λ e. open-Round i o (find-Free close_tag s j i c (ground (arith, e))))

  pub outside-Round : Round false s (parse_outside_think (at_text false s))
  unfolding parse_outside_think
  outside-Round = tags-Round (find open_tag s) (find close_tag s) refl refl
