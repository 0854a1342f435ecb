-- ===== src/NativeTools/Scan.antt =====
-- The search for a marker in a text that arrives in pieces: what is given out, and the longest suffix
-- that is held back.
use agentic_model_gateway.Base.{
  ℕ, zero, suc, ◌+◌, ◌-◌, ◌≤◌, ◌<◌, ◌≡◌, refl, sym, ap, subst, ◌∙◌, min, true, false, Option, none,
  some, [], ◌∷◌, ◌++◌, length, ltb, ◌==◌, arith, length-append, Bool-cases, inl, inr,
}
use mathlib.Core.List.{append-nil, append_assoc}
use agentic_model_gateway.Stream.Slices.{
  drop, drop-append, drop-drop, take, take-append, take-drop, length-drop, starts_with-drop,
}
use agentic_model_gateway.Stream.Text.{Text, starts_with, strip_prefix}
use agentic_model_gateway.Think.Find.{find, later}
use agentic_model_gateway.Think.Parser.{begins_tag}
use agentic_model_gateway.Think.Clear.{Clear, partial-begins_tag, find-starts_with}
use agentic_model_gateway.NativeTools.Framer.{partial_from, partial_marker_suffix_length}

partial_longest :
    (s marker : Text) (n k : ℕ)
    → partial_from s marker n < k
    → k ≤ n
    → starts_with marker (drop (length s - k) s) ≡ false
unfolding partial_from
partial_longest s marker zero k h le = absurd (omega (arith, h, le))
partial_longest s marker (suc n) k h le =
    elim (Bool-cases (starts_with marker (drop (length s - suc n) s))) [
      | inl here ↦ absurd (ground (arith, h, le, here))
      | inr elsewhere ↦ elim (Bool-cases (k == suc n)) [
        | inl same ↦
            let e : k ≡ suc n = ground (arith, same) in
            subst (λ i. starts_with marker (drop (length s - i) s) ≡ false) (sym e) elsewhere
        | inr other ↦
            partial_longest s marker n k (ground (arith, h, elsewhere)) (ground (arith, le, other))
      ]
    ]

partial_from-le : (s marker : Text) (n : ℕ) → partial_from s marker n ≤ n
unfolding partial_from
partial_from-le s marker zero = omega arith
partial_from-le s marker (suc n) = ground (arith, partial_from-le s marker n)

pub held-le : (s marker : Text) → partial_marker_suffix_length s marker ≤ length s
unfolding partial_marker_suffix_length
held-le s marker = omega (arith, partial_from-le s marker (min (length s) (length marker - 1)))

not_found_at :
    (tag s : Text) (i : ℕ) → find tag s ≡ none → i < length s → starts_with (drop i s) tag ≡ false
unfolding find drop
not_found_at tag [] i e le = absurd (omega (arith, le))
not_found_at tag (c ∷ s) zero e le = ground arith
not_found_at tag (c ∷ s) (suc i) e le = not_found_at tag s i (ground arith) (omega (arith, le))

not_found_before :
    (tag s : Text) (i k : ℕ) → find tag s ≡ some i → k < i → starts_with (drop k s) tag ≡ false
unfolding find drop
not_found_before tag [] i k e le = ground arith
not_found_before tag (c ∷ s) zero k e le = absurd (omega (arith, le))
not_found_before tag (c ∷ s) (suc i) zero e le = ground arith
not_found_before tag (c ∷ s) (suc i) (suc k) e le =
    not_found_before tag s i k (ground arith) (omega (arith, le))

find-lt : (tag s : Text) (i : ℕ) → find tag s ≡ some i → i < length s
unfolding find
find-lt tag [] i e = ground arith
find-lt tag (c ∷ s) zero e = omega arith
find-lt tag (c ∷ s) (suc i) e = omega (arith, find-lt tag s i (ground arith))

pub not_found-drop : (tag s : Text) (i : ℕ) → find tag s ≡ none → find tag (drop i s) ≡ none
unfolding find drop
not_found-drop tag s zero e = e
not_found-drop tag [] (suc i) e = refl
not_found-drop tag (c ∷ s) (suc i) e = not_found-drop tag s i (ground arith)

Clear-take :
    (tag s t : Text) (i : ℕ)
    → ((k : ℕ) → k < i → k < length s → starts_with (drop k s ++ t) tag ≡ false)
    → Clear tag (take i s) (drop i s ++ t)
unfolding take drop
Clear-take tag s t zero h = tt
Clear-take tag [] t (suc i) h = tt
Clear-take tag (c ∷ s) t (suc i) h = (
  subst (λ u. starts_with (c ∷ u) tag ≡ false)
      (ap (λ u. u ++ t) (sym (take-drop i s)) ∙ append_assoc (take i s) (drop i s) t)
      (h 0 (omega arith) (omega arith)),
  Clear-take tag s t i (λ k le lt. h (suc k) (omega (arith, le)) (omega (arith, lt))),
)

pub Clear-append : (tag v w t : Text) → Clear tag v (w ++ t) → Clear tag w t → Clear tag (v ++ w) t
Clear-append tag [] w t h k = k
Clear-append tag (c ∷ v) w t h k = (
  subst (λ u. starts_with (c ∷ u) tag ≡ false) (sym (append_assoc v w t)) h.0,
  Clear-append tag v w t h.1 k,
)

abbrev pub shift : ℕ → Option ℕ → Option ℕ
shift zero found = found
shift (suc n) found = later (shift n found)

pub find-Clear :
    (tag v t : Text) → Clear tag v t → find tag (v ++ t) ≡ shift (length v) (find tag t)
unfolding find
find-Clear tag [] t h = refl
find-Clear tag (c ∷ v) t h = ground (arith, h.0, find-Clear tag v t h.1)

begins_tag_short :
    (s tag : Text) → (length s < length tag → starts_with tag s ≡ false) → begins_tag s tag ≡ false
begins_tag_short s tag h = elim (Bool-cases (ltb (length s) (length tag))) [
  | inl shorter ↦ ground (arith, shorter, h (ground arith))
  | inr longer ↦ ground (arith, longer)
]

held-begins_tag :
    (s marker : Text) (i : ℕ)
    → i < length s - partial_marker_suffix_length s marker
    → begins_tag (drop i s) marker ≡ false
unfolding partial_marker_suffix_length
held-begins_tag s marker i lt = begins_tag_short (drop i s) marker (λ shorter.
    subst (λ k. starts_with marker (drop k s) ≡ false) (omega (arith, lt))
      (partial_longest s marker (min (length s) (length marker - 1)) (length s - i)
        (omega (arith, lt)) (omega (arith, shorter, length-drop i s))))

-- What has been given out, and what is held back, of a text without the marker so far.
abbrev pub Scanned : (tag done tail : Text) → Type 0
Scanned tag done tail = ((t : Text) → Clear tag done (tail ++ t)) × (find tag tail ≡ none)

-- What stands before the marker, whatever follows it.
abbrev pub Ended : (tag done : Text) → Type 0
Ended tag done = (t : Text) → Clear tag done (tag ++ t)

-- A text that is as long as the tag decides whether it begins with it.
starts_with_long :
    (w tag a b : Text)
    → length tag ≤ length w
    → starts_with (w ++ a) tag ≡ false
    → starts_with (w ++ b) tag ≡ false
unfolding starts_with strip_prefix
starts_with_long w [] a b le h = ground arith
starts_with_long [] (r ∷ tag) a b le h = absurd (omega (arith, le))
starts_with_long (c ∷ w) (r ∷ tag) a b le h =
    ground (arith, h, starts_with_long w tag a b (omega (arith, le)))

Clear-Ended : (tag done a : Text) → Clear tag done (tag ++ a) → Ended tag done
Clear-Ended tag [] a h t = tt
Clear-Ended tag (c ∷ s) a h t = (
  subst (λ u. starts_with u tag ≡ false) (append_assoc (c ∷ s) tag t)
      (starts_with_long (c ∷ s ++ tag) tag a t (omega (arith, length-append s tag))
        (subst (λ u. starts_with u tag ≡ false) (sym (append_assoc (c ∷ s) tag a)) h.0)),
  Clear-Ended tag s a h.1 t,
)

module _ (tag done tail text : Text) (scanned : Scanned tag done tail) where
  candidate-Clear : (t : Text) → Clear tag done ((tail ++ text) ++ t)
  candidate-Clear t =
      subst (Clear tag done) (sym (append_assoc tail text t)) (scanned.0 (text ++ t))

  split-Clear :
      (i : ℕ) (t : Text)
      → Clear tag (take i (tail ++ text)) (drop i (tail ++ text) ++ t)
      → Clear tag (done ++ take i (tail ++ text)) (drop i (tail ++ text) ++ t)
  split-Clear i t h =
      Clear-append tag done (take i (tail ++ text)) _
        (subst (Clear tag done)
          (ap (λ u. u ++ t) (sym (take-drop i (tail ++ text)))
            ∙ append_assoc (take i (tail ++ text)) (drop i (tail ++ text)) t)
          (candidate-Clear t))
        h

  pub not_found-Scanned :
      find tag (tail ++ text) ≡ none
      → let kept : ℕ = length (tail ++ text) - partial_marker_suffix_length (tail ++ text) tag in
        Scanned tag (done ++ take kept (tail ++ text)) (drop kept (tail ++ text))
  not_found-Scanned e =
      let candidate : Text = tail ++ text in
      let kept : ℕ = length candidate - partial_marker_suffix_length candidate tag in
      (
        λ t. split-Clear kept t (
            Clear-take tag candidate t kept (λ k lt within.
              partial-begins_tag (drop k candidate) t tag (not_found_at tag candidate k e within)
                (held-begins_tag candidate tag k lt))),
        not_found-drop tag candidate kept e,
      )

  pub marker_at :
      (i : ℕ)
      → find tag (tail ++ text) ≡ some i
      → drop i (tail ++ text) ≡ tag ++ drop (i + length tag) (tail ++ text)
  marker_at i e =
      starts_with-drop (drop i (tail ++ text)) tag (find-starts_with tag (tail ++ text) i e)
      ∙ ap (λ r. tag ++ r) (sym (drop-drop i (length tag) (tail ++ text)))

  pub found-Ended :
      (i : ℕ)
      → find tag (tail ++ text) ≡ some i
      → Ended tag (done ++ take i (tail ++ text))
        × (tail ++ text ≡ take i (tail ++ text) ++ (tag ++ drop (i + length tag) (tail ++ text)))
  found-Ended i e =
      let candidate : Text = tail ++ text in
      let behind : Text = drop (i + length tag) candidate in
      let fits : i + length tag ≤ length candidate = omega (
        arith,
        find-lt tag candidate i e,
        length-drop i candidate,
        ap length (marker_at i e),
        length-append tag behind,
      ) in
      (
        Clear-Ended tag (done ++ take i candidate) behind (
            subst (Clear tag (done ++ take i candidate)) (append-nil _ ∙ marker_at i e) (
              split-Clear i [] (
                Clear-take tag candidate [] i (λ k lt within.
                  partial-begins_tag (drop k candidate) [] tag
                    (not_found_before tag candidate i k e lt)
                    (begins_tag_short (drop k candidate) tag (λ shorter.
                      absurd (omega (arith, shorter, length-drop k candidate, lt, fits)))))))),
        sym (take-drop i candidate) ∙ ap (λ r. take i candidate ++ r) (marker_at i e),
      )

-- Where nothing is held back, everything is given out.
pub take-whole : (s : Text) (held : ℕ) → held == 0 ≡ true → take (length s - held) s ≡ s
take-whole s held e =
    ap (λ n. take n s) (ground (arith, e))
    ∙ ap (take (length s)) (sym (append-nil s))
    ∙ take-append s []

pub drop-whole : (s : Text) (held : ℕ) → held == 0 ≡ true → drop (length s - held) s ≡ []
drop-whole s held e =
    ap (λ n. drop n s) (ground (arith, e))
    ∙ ap (drop (length s)) (sym (append-nil s))
    ∙ drop-append s []
