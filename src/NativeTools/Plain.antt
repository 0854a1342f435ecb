-- ===== src/NativeTools/Plain.antt =====
-- Texts without the namespace, which the framer passes on.
use agentic_model_gateway.Base.{
  ℕ, ◌-◌, ◌≡◌, refl, sym, ap, subst, ◌∙◌, Bool, true, false, not, Option, none, List, [], ◌∷◌, ◌++◌,
  length, ◌==◌, if◌then◌else◌, either, is_none, arith,
}
use mathlib.Core.List.{append-nil, append_assoc}
use agentic_model_gateway.Stream.Slices.{drop-append, take-drop, without_last}
use agentic_model_gateway.Stream.Text.{Text, is_empty, join, starts_with, strip_prefix}
use agentic_model_gateway.Think.Find.{find}
use agentic_model_gateway.NativeTools.Framer.{
  Raising, ok, raised, and_then, Framer, FramingMode, text_mode, new_framer, namespace,
  tool_block_start, partial_marker_suffix_length, feed_text_at, protected_namespace_index,
  is_misplaced, feed_text, feed_in, feed, finish, finish_in, finish_text, feed_all, frame,
  is_finished, already_finished, finished, incomplete_marker, malformed_markup,
}
use agentic_model_gateway.NativeTools.Scan.{not_found-drop}

abbrev IsPlain : Text → Type 0
IsPlain s = find namespace s ≡ none

starts_with-front : (s t tag : Text) → starts_with (s ++ t) tag ≡ false → starts_with s tag ≡ false
unfolding starts_with strip_prefix
starts_with-front s t [] h = ground arith
starts_with-front [] t (r ∷ tag) h = refl
starts_with-front (c ∷ s) t (r ∷ tag) h = ground (arith, h, starts_with-front s t tag)

find-front : (tag s t : Text) → find tag (s ++ t) ≡ none → find tag s ≡ none
unfolding find
find-front tag [] t h = refl
find-front tag (c ∷ s) t h = ground (arith, h, find-front tag s t, starts_with-front (c ∷ s) t tag)

rest-IsPlain : (s t : Text) → IsPlain (s ++ t) → IsPlain t
rest-IsPlain s t h =
    subst IsPlain (drop-append s t) (not_found-drop namespace (s ++ t) (length s) h)

starts_with-longer :
    (s tag more : Text) → starts_with s tag ≡ false → starts_with s (tag ++ more) ≡ false
unfolding starts_with strip_prefix
starts_with-longer s [] more h = ground arith
starts_with-longer [] (r ∷ tag) more h = refl
starts_with-longer (c ∷ s) (r ∷ tag) more h = ground (arith, h, starts_with-longer s tag more)

unstarted : (tag s more : Text) → find tag s ≡ none → find (tag ++ more) s ≡ none
unfolding find
unstarted tag [] more h = refl
unstarted tag (c ∷ s) more h =
    ground (arith, h, unstarted tag s more, starts_with-longer (c ∷ s) tag more)

-- A value is returned, and has the property.
abbrev Succeeds : {A : Type 0} → (A → Type 0) → Raising A → Type 0
Succeeds P (ok a) = P a
Succeeds P (raised error) = ◌≡◌ {A = Bool} true false

and_then-Succeeds :
    {A B : Type 0} (P : A → Type 0) (Q : B → Type 0) (r : Raising A) (f : A → Raising B)
    → Succeeds P r
    → ((a : A) → P a → Succeeds Q (f a))
    → Succeeds Q (and_then r f)
and_then-Succeeds P Q (ok a) f h k = k a h
and_then-Succeeds P Q (raised error) f h k = absurd (ground (arith, h))

returned : {A : Type 0} (a : A) (r : Raising A) → Succeeds (λ b. b ≡ a) r → r ≡ ok a
returned a (ok b) h = ap ok h
returned a (raised error) h = absurd (ground (arith, h))

-- The framer is outside of a block, and gives out and holds back the text `s` together.
abbrev Passes : Text → Text × Framer → Type 0
Passes s (v, g) = (v ++ g.text_tail ≡ s) × (g.mode ≡ text_mode) × (g.tool_block ≡ none)

module _ (f : Framer) (in_text : f.mode ≡ text_mode) (open_block : f.tool_block ≡ none) where
  feed_text_plain : (s : Text) → IsPlain s → Succeeds (Passes s) (feed_text s f)
  unfolding feed_text feed_text_at without_last
  feed_text_plain s h =
      let name : Text = 60 ∷ 116 ∷ 111 ∷ 111 ∷ 108 ∷ 95 ∷ 99 ∷ 97 ∷ 108 ∷ 108 ∷ 62 ∷ [] in
      let held : ℕ = partial_marker_suffix_length s tool_block_start in
      subst
        (λ index. Succeeds (Passes s) (
          if is_misplaced index
            (protected_namespace_index (find tool_block_start s) held (length s))
          then raised malformed_markup
          else feed_text_at (find tool_block_start s) held s f))
        (sym h)
        (subst (λ found. Succeeds (Passes s) (feed_text_at found held s f))
          (sym (unstarted namespace s name h))
          (either (Succeeds (Passes s)) (not (held == 0))
            (λ _. (take-drop (length s - held) s, in_text, open_block))
            (λ _. (append-nil s, in_text, open_block))))

  feed_plain :
      (text : Text)
      → IsPlain (f.text_tail ++ text)
      → Succeeds (Passes (f.text_tail ++ text)) (feed text f)
  unfolding feed feed_in
  feed_plain text h =
      subst
        (λ mode. Succeeds (Passes (f.text_tail ++ text)) (
          if is_finished mode
          then raised already_finished
          else if is_empty text
          then ok ([], f)
          else feed_in mode text f))
        (sym in_text) (outside text h)
    where
      outside :
          (text : Text)
          → IsPlain (f.text_tail ++ text)
          → Succeeds
              (Passes (f.text_tail ++ text))
              (if is_empty text then ok ([], f) else feed_in text_mode text f)
      outside [] h = (sym (append-nil f.text_tail), in_text, open_block)
      outside (c ∷ s) h = feed_text_plain (f.text_tail ++ c ∷ s) h

feed_all_plain :
    (texts : List Text) (f : Framer)
    → f.mode ≡ text_mode
    → f.tool_block ≡ none
    → IsPlain (f.text_tail ++ join texts)
    → Succeeds (Passes (f.text_tail ++ join texts)) (feed_all texts f)
unfolding feed_all join
feed_all_plain [] f in_text open_block h = (sym (append-nil f.text_tail), in_text, open_block)
feed_all_plain (text ∷ texts) f in_text open_block h =
    let first : Text = f.text_tail ++ text in
    let whole : Text = f.text_tail ++ (text ++ join texts) in
    let split : first ++ join texts ≡ whole = append_assoc f.text_tail text (join texts) in
    let plain : IsPlain (first ++ join texts) = subst IsPlain (sym split) h in
    and_then-Succeeds (Passes first) (Passes whole) _ _
      (feed_plain f in_text open_block text (find-front namespace first (join texts) plain))
      (λ (v, g) (given, mode, block).
        let behind : v ++ (g.text_tail ++ join texts) ≡ whole =
          sym (append_assoc v g.text_tail (join texts)) ∙ ap (λ s. s ++ join texts) given ∙ split in
        and_then-Succeeds (Passes (g.text_tail ++ join texts)) (Passes whole) _ _
          (feed_all_plain texts g mode block
            (rest-IsPlain v (g.text_tail ++ join texts) (subst IsPlain (sym behind) h)))
          (λ (w, last) (rest, at_end, never).
            (append_assoc v w last.text_tail ∙ ap (λ s. v ++ s) rest ∙ behind, at_end, never)))

abbrev Gives : Text → Text × Option Text → Type 0
Gives s result = result ≡ (s, none)

abbrev with_last : Text → Text × Framer → Raising (Text × Option Text)
with_last v (more, last) = ok (v ++ more, last.tool_block)

finish_plain :
    (require_complete : Bool) (mode : FramingMode) (v : Text) (g : Framer)
    → mode ≡ text_mode
    → IsPlain g.text_tail
    → g.tool_block ≡ none
    → Succeeds
        (Gives (v ++ g.text_tail))
        (and_then (finish_in mode require_complete g) (with_last v))
unfolding finish_in finish_text
finish_plain require_complete mode v g e h block =
    subst
      (λ m.
        Succeeds (Gives (v ++ g.text_tail))
          (and_then (finish_in m require_complete g) (with_last v)))
      (sym e)
      (subst
        (λ found. Succeeds (Gives (v ++ g.text_tail)) (
          and_then
            (if not (is_none found)
              then (if require_complete
                  then raised incomplete_marker
                  else ok ([], record g { text_tail = []; mode = finished }))
              else ok (g.text_tail, record g { text_tail = []; mode = finished }))
            (with_last v)))
        (sym h) (ap (λ b. (v ++ g.text_tail, b)) block))

-- A text that does not hold the namespace is passed on unchanged, however it is cut: nothing is raised,
-- whether or not a call must be complete, and there is no tool block.
pub plain_text_unchanged :
    (require_complete : Bool) (texts : List Text)
    → find namespace (join texts) ≡ none
    → frame require_complete texts ≡ ok (join texts, none)
unfolding frame finish
plain_text_unchanged require_complete texts h =
    returned (join texts, none) _
      (and_then-Succeeds (Passes (join texts)) (Gives (join texts)) _ _
        (feed_all_plain texts new_framer refl refl h)
        (λ (v, g) (given, mode, block).
          subst
            (λ s. Succeeds (Gives s) (and_then (finish_in g.mode require_complete g) (with_last v)))
            given
            (finish_plain require_complete g.mode v g mode
              (rest-IsPlain v g.text_tail (subst IsPlain (sym given) h)) block)))
