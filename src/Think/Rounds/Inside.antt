-- ===== src/Think/Rounds/Inside.antt =====
-- A round inside a tag.
use agentic_model_gateway.Base.{
  either, ℕ, ◌-◌, ◌<◌, ◌≡◌, refl, sym, ap, ◌∙◌, true, false, ◌&&◌, Option, none, some, ◌++◌, length,
  ltb, arith, contains,
}
use agentic_model_gateway.Stream.Slices.{drop, drop-drop, length-drop, take}
use agentic_model_gateway.Stream.Text.{Text, starts_with}
use agentic_model_gateway.Think.Find.{find, rfind_bracket}
use agentic_model_gateway.Think.Parser.{
  thinking, close_tag, cut, inside_bracket, inside_close, parse_inside_think,
}
use agentic_model_gateway.Think.Reference.{split}
use agentic_model_gateway.Think.Clear.{
  bracket, Free, find-Free, not_found-Free, find-starts_with, no-rfind_bracket,
  rfind_bracket-IsLastBracket, Free-Clear, not_found-Clear, plain-Clear, last-Clear, tag-bracket,
  IsLastBracket-drop, not_found-drop,
}
use agentic_model_gateway.Think.Rounds.{
  ClearFor, Round, at_text, cut-Round, emit_all-Round, split-clear, split-close, split_at_last,
}

module _ (s : Text) (filled : 0 < length s) where
  before_tag :
      (i : ℕ)
      → contains bracket (drop i s) ≡ true
      → Free close_tag i s
      → (t : Text) → ClearFor true (take i s) (drop i s ++ t)
  unfolding contains
  before_tag i k c t = Free-Clear _ refl i s t k c

  close-Round :
      (i : ℕ) → find close_tag s ≡ some i → Round true s (cut thinking i 8 false (at_text true s))
  unfolding contains
  close-Round i found =
      let here = find-starts_with close_tag s i found in
      cut-Round true s i 8 false
        (before_tag i (tag-bracket _ (drop i s) here)
          (find-Free close_tag s i i found (omega arith)))
        (λ t.
          split-close true (drop i s) t here
          ∙ ap (λ u. split false 0 (u ++ t)) (sym (drop-drop i 8 s)))
        (λ e. absurd (omega (arith, e)))

  bracket-Round :
      (last : Option ℕ)
      → rfind_bracket s ≡ last
      → find close_tag s ≡ none
      → Round true s (inside_bracket last (at_text true s))
  unfolding inside_bracket contains
  bracket-Round none found c =
      let bare = no-rfind_bracket s found in
      emit_all-Round true s (λ t. split-clear true s t (plain-Clear _ refl s t bare)) filled
  bracket-Round (some i) found c =
      let last = rfind_bracket-IsLastBracket s i found in
      let (stands, at_last) = IsLastBracket-drop i s last in
      let before = before_tag i stands (not_found-Free close_tag s i c) in
      either (Round true s) (ltb (length s - i) 8 && starts_with close_tag (drop i s))
        (λ e.
          cut-Round true s i 0 true before
            (λ t. ap (λ u. split true 0 (u ++ t)) (sym (drop-drop i 0 s)))
            (λ z. (refl, not_found-Clear close_tag s c, ground (arith, e, length-drop i s))))
        (λ e.
          emit_all-Round true s
            (λ t. split_at_last true s i t (before t) (
              last-Clear _ refl (drop i s) t at_last (not_found-drop close_tag s i c stands)
                (rw (length-drop i s) e)))
            filled)

  close_or_bracket-Round :
      (think_end : Option ℕ)
      → find close_tag s ≡ think_end
      → Round true s (inside_close think_end (at_text true s))
  unfolding inside_close
  close_or_bracket-Round none c = bracket-Round (rfind_bracket s) refl c
  close_or_bracket-Round (some i) c = close-Round i c

  pub inside-Round : Round true s (parse_inside_think (at_text true s))
  unfolding parse_inside_think
  inside-Round = close_or_bracket-Round (find close_tag s) refl
