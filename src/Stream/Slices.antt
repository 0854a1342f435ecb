-- ===== src/Stream/Slices.antt =====
-- Slices of texts, and their suffixes, as the string operations of the stream code take them.
use agentic_model_gateway.Base.{
  ℕ, zero, suc, ◌+◌, ◌-◌, ◌≡◌, refl, sym, ap, ◌∙◌, min, Bool, true, [], ◌∷◌, ◌++◌, length, arith,
}
use agentic_model_gateway.Stream.Text.{Text, same_text, strip_prefix, starts_with}

-- `s[:i]` and `s[i:]`
unfoldable pub take : ℕ → Text → Text
take zero s = []
take (suc i) [] = []
take (suc i) (c ∷ s) = c ∷ take i s

unfoldable pub drop : ℕ → Text → Text
drop zero s = s
drop (suc i) [] = []
drop (suc i) (c ∷ s) = drop i s

-- `s.endswith(suffix)` and `s[: -len(suffix)]`
unfoldable pub ends_with : Text → Text → Bool
unfolding drop same_text
ends_with s suffix = same_text (drop (length s - length suffix) s) suffix

unfoldable pub without_last : ℕ → Text → Text
unfolding take
without_last n s = take (length s - n) s

pub take-drop : (i : ℕ) (s : Text) → take i s ++ drop i s ≡ s
unfolding take drop
take-drop zero s = refl
take-drop (suc i) [] = refl
take-drop (suc i) (c ∷ s) = ap (λ r. c ∷ r) (take-drop i s)

drop-nil : (i : ℕ) → drop i [] ≡ []
unfolding drop
drop-nil zero = refl
drop-nil (suc i) = refl

pub drop-drop : (i j : ℕ) (s : Text) → drop (i + j) s ≡ drop j (drop i s)
unfolding drop
drop-drop zero j s = ap (λ n. drop n s) (omega arith)
drop-drop (suc i) j [] = drop-nil (suc i + j) ∙ sym (drop-nil j)
drop-drop (suc i) j (c ∷ s) =
    let shifted : suc i + j ≡ suc (i + j) = omega arith in
    ap (λ n. drop n (c ∷ s)) shifted ∙ drop-drop i j s

pub length-drop : (i : ℕ) (s : Text) → length (drop i s) ≡ length s - i
unfolding drop
length-drop zero s = omega arith
length-drop (suc i) [] = omega arith
length-drop (suc i) (c ∷ s) = ground (arith, length-drop i s)

pub length-take : (i : ℕ) (s : Text) → length (take i s) ≡ min i (length s)
unfolding take
length-take zero s = omega arith
length-take (suc i) [] = omega arith
length-take (suc i) (c ∷ s) = ground (arith, length-take i s)

pub starts_with-drop : (u tag : Text) → starts_with u tag ≡ true → u ≡ tag ++ drop (length tag) u
unfolding starts_with strip_prefix drop
starts_with-drop u [] h = refl
starts_with-drop [] (r ∷ tag) h = ground arith
starts_with-drop (c ∷ u) (r ∷ tag) h = ground (arith, starts_with-drop u tag)

pub drop-append : (s t : Text) → drop (length s) (s ++ t) ≡ t
unfolding drop
drop-append [] t = refl
drop-append (c ∷ s) t = drop-append s t

pub take-append : (s t : Text) → take (length s) (s ++ t) ≡ s
unfolding take
take-append [] t = refl
take-append (c ∷ s) t = ap (λ r. c ∷ r) (take-append s t)
