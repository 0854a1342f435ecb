-- ===== src/Think/Clear.antt =====
-- Texts in which no tag begins, whatever follows them.
use agentic_model_gateway.Base.{
  ℕ, zero, suc, ◌≤◌, ◌≡◌, refl, sym, ap, subst, ◌∙◌, Bool, true, false, none, some, [], ◌∷◌, ◌++◌,
  arith, contains,
}
use mathlib.Core.List.{append-nil, append_assoc}
use agentic_model_gateway.Stream.Slices.{drop, take, take-drop}
use agentic_model_gateway.Stream.Text.{Text, strip_prefix, starts_with}
use agentic_model_gateway.Think.Find.{find, rfind_bracket}
use agentic_model_gateway.Think.Parser.{begins_tag}

abbrev pub bracket : ℕ
bracket = 60

-- No tag begins at any of the characters of `s`, when `t` follows.
abbrev pub Clear : Text → Text → Text → Type 0
Clear tag [] t = Unit
Clear tag (c ∷ s) t = (starts_with (c ∷ s ++ t) tag ≡ false) × Clear tag s t

-- The tag is not found at the first `i` characters of the text itself.
abbrev pub Free : Text → ℕ → Text → Type 0
Free tag zero s = Unit
Free tag (suc i) [] = Unit
Free tag (suc i) (c ∷ s) = (starts_with (c ∷ s) tag ≡ false) × Free tag i s

module _ (tag : Text) where
  found_later :
      (c : ℕ) (s : Text) (i : ℕ)
      → find tag (c ∷ s) ≡ some (suc i)
      → (starts_with (c ∷ s) tag ≡ false) × (find tag s ≡ some i)
  unfolding find
  found_later c s i e = (ground arith, ground arith)

  found_nowhere :
      (c : ℕ) (s : Text)
      → find tag (c ∷ s) ≡ none
      → (starts_with (c ∷ s) tag ≡ false) × (find tag s ≡ none)
  unfolding find
  found_nowhere c s e = (ground arith, ground arith)

  pub find-Free : (s : Text) (i j : ℕ) → find tag s ≡ some i → j ≤ i → Free tag j s
  unfolding find
  find-Free s i zero e le = tt
  find-Free [] i (suc j) e le = tt
  find-Free (c ∷ s) zero (suc j) e le = ground arith
  find-Free (c ∷ s) (suc i) (suc j) e le =
      let (here, rest) = found_later c s i e in (here, find-Free s i j rest (omega (arith, le)))

  pub not_found-Free : (s : Text) (j : ℕ) → find tag s ≡ none → Free tag j s
  unfolding find
  not_found-Free s zero e = tt
  not_found-Free [] (suc j) e = tt
  not_found-Free (c ∷ s) (suc j) e =
      let (here, rest) = found_nowhere c s e in (here, not_found-Free s j rest)

  pub find-starts_with :
      (s : Text) (i : ℕ) → find tag s ≡ some i → starts_with (drop i s) tag ≡ true
  unfolding find drop
  find-starts_with [] i e = ground arith
  find-starts_with (c ∷ s) zero e = ground arith
  find-starts_with (c ∷ s) (suc i) e = find-starts_with s i (found_later c s i e).1

-- A tag that has no bracket behind its first character cannot run past a later bracket.
pub starts_with-append :
    (s t rest : Text)
    → contains bracket rest ≡ false
    → contains bracket s ≡ true
    → starts_with (s ++ t) rest ≡ starts_with s rest
unfolding starts_with strip_prefix contains
starts_with-append s t [] h k = refl
starts_with-append [] t (r ∷ rest) h k = ground arith
starts_with-append (c ∷ s) t (r ∷ rest) h k = ground (arith, starts_with-append s t rest)

-- A text that a tag begins in only with what follows is a part of the tag.
pub partial-begins_tag :
    (s t tag : Text)
    → starts_with s tag ≡ false
    → begins_tag s tag ≡ false
    → starts_with (s ++ t) tag ≡ false
unfolding starts_with strip_prefix
partial-begins_tag [] t [] h k = ground arith
partial-begins_tag [] t (r ∷ tag) h k = ground arith
partial-begins_tag (c ∷ s) t [] h k = ground arith
partial-begins_tag (c ∷ s) t (r ∷ tag) h k = ground (arith, partial-begins_tag s t tag)

-- The positions of brackets in a text.
abbrev pub IsLastBracket : ℕ → Text → Type 0
IsLastBracket i [] = ◌≡◌ {A = Bool} true false
IsLastBracket zero (c ∷ s) = (c ≡ bracket) × (contains bracket s ≡ false)
IsLastBracket (suc i) (c ∷ s) = IsLastBracket i s

pub no-rfind_bracket : (s : Text) → rfind_bracket s ≡ none → contains bracket s ≡ false
unfolding rfind_bracket contains
no-rfind_bracket [] e = refl
no-rfind_bracket (c ∷ s) e = ground (arith, no-rfind_bracket s)

rfind_later :
    (c : ℕ) (s : Text) (i : ℕ) → rfind_bracket (c ∷ s) ≡ some (suc i) → rfind_bracket s ≡ some i
unfolding rfind_bracket
rfind_later c s i e = ground arith

rfind_here :
    (c : ℕ) (s : Text) → rfind_bracket (c ∷ s) ≡ some 0 → (c ≡ bracket) × (rfind_bracket s ≡ none)
unfolding rfind_bracket
rfind_here c s e = (ground arith, ground arith)

pub rfind_bracket-IsLastBracket : (s : Text) (i : ℕ) → rfind_bracket s ≡ some i → IsLastBracket i s
unfolding rfind_bracket
rfind_bracket-IsLastBracket [] i e = ground arith
rfind_bracket-IsLastBracket (c ∷ s) zero e =
    let (here, rest) = rfind_here c s e in (here, no-rfind_bracket s rest)
rfind_bracket-IsLastBracket (c ∷ s) (suc i) e =
    rfind_bracket-IsLastBracket s i (rfind_later c s i e)

contains-drop : (i : ℕ) (s : Text) → contains bracket (drop i s) ≡ true → contains bracket s ≡ true
unfolding drop contains
contains-drop zero s k = k
contains-drop (suc i) [] k = k
contains-drop (suc i) (c ∷ s) k = ground (arith, contains-drop i s k)

module _ (rest : Text) (single : contains bracket rest ≡ false) where
  before_bracket :
      (c : ℕ) (s t : Text)
      → contains bracket s ≡ true
      → starts_with (c ∷ s) (bracket ∷ rest) ≡ false
      → starts_with (c ∷ s ++ t) (bracket ∷ rest) ≡ false
  unfolding starts_with strip_prefix
  before_bracket c s t k h = ground (arith, starts_with-append s t rest single k)

  -- Where a bracket stands at `i`, a tag that is not found before `i` does not begin before it.
  pub Free-Clear :
      (i : ℕ) (s t : Text)
      → contains bracket (drop i s) ≡ true
      → Free (bracket ∷ rest) i s
      → Clear (bracket ∷ rest) (take i s) (drop i s ++ t)
  unfolding take drop starts_with strip_prefix
  Free-Clear zero s t k h = tt
  Free-Clear (suc i) [] t k h = tt
  Free-Clear (suc i) (c ∷ s) t k h = (
    subst (λ u. starts_with (c ∷ u) (bracket ∷ rest) ≡ false)
        (ap (λ u. u ++ t) (sym (take-drop i s)) ∙ append_assoc (take i s) (drop i s) t)
        (before_bracket c s t (contains-drop i s k) h.0),
    Free-Clear i s t k h.1,
  )

  -- In a text without a bracket no tag begins.
  pub plain-Clear : (s t : Text) → contains bracket s ≡ false → Clear (bracket ∷ rest) s t
  unfolding starts_with strip_prefix contains
  plain-Clear [] t k = tt
  plain-Clear (c ∷ s) t k = (ground arith, plain-Clear s t (ground arith))

  -- The text at its last bracket, where no tag begins even in part.
  pub last-Clear :
      (s t : Text)
      → IsLastBracket 0 s
      → starts_with s (bracket ∷ rest) ≡ false
      → begins_tag s (bracket ∷ rest) ≡ false
      → Clear (bracket ∷ rest) s t
  last-Clear [] t k h p = tt
  last-Clear (c ∷ s) t k h p =
      (partial-begins_tag (c ∷ s) t (bracket ∷ rest) h p, plain-Clear s t k.1)

pub tag-bracket :
    (rest s : Text) → starts_with s (bracket ∷ rest) ≡ true → contains bracket s ≡ true
unfolding starts_with strip_prefix contains
tag-bracket rest [] h = ground arith
tag-bracket rest (c ∷ s) h = ground arith

pub IsLastBracket-drop :
    (i : ℕ) (s : Text)
    → IsLastBracket i s
    → (contains bracket (drop i s) ≡ true) × IsLastBracket 0 (drop i s)
unfolding drop contains
IsLastBracket-drop zero [] h = ground (arith, h)
IsLastBracket-drop zero (c ∷ s) h = (ground (arith, h.0), h)
IsLastBracket-drop (suc i) [] h = ground (arith, h)
IsLastBracket-drop (suc i) (c ∷ s) h = IsLastBracket-drop i s h

-- A tag that is nowhere in a text is not behind any of its characters.
pub not_found-drop :
    (tag : Text) (s : Text) (i : ℕ)
    → find tag s ≡ none
    → contains bracket (drop i s) ≡ true
    → starts_with (drop i s) tag ≡ false
unfolding drop contains
not_found-drop tag [] zero e k = ground (arith, k)
not_found-drop tag [] (suc i) e k = ground (arith, k)
not_found-drop tag (c ∷ s) zero e k = (found_nowhere tag c s e).0
not_found-drop tag (c ∷ s) (suc i) e k = not_found-drop tag s i (found_nowhere tag c s e).1 k

pub not_found-Clear : (tag : Text) (s : Text) → find tag s ≡ none → Clear tag s []
not_found-Clear tag [] e = tt
not_found-Clear tag (c ∷ s) e =
    let (here, rest) = found_nowhere tag c s e in
    (rw (append-nil s) here, not_found-Clear tag s rest)
