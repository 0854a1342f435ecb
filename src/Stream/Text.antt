-- ===== src/Stream/Text.antt =====
-- Texts as lists of code points, with the string operations that the stream code uses.
use agentic_model_gateway.Base.{
  ℕ, ◌≡◌, refl, Bool, true, false, not, ◌&&◌, ◌||◌, Option, none, some, List, [], ◌∷◌, ◌++◌, leb,
  ◌==◌, if◌then◌else◌, arith,
}

abbrev pub Text : Type 0
Text = List ℕ

abbrev pub is_empty : Text → Bool
is_empty [] = true
is_empty (c ∷ s) = false

-- `==` on strings.
unfoldable pub same_text : Text → Text → Bool
same_text [] [] = true
same_text (c ∷ s) (d ∷ t) = c == d && same_text s t
same_text _ _ = false

-- `s.startswith(prefix)`, and the rest behind the prefix if it does.
unfoldable pub strip_prefix : Text → Text → Option Text
strip_prefix [] s = some s
strip_prefix (c ∷ prefix) [] = none
strip_prefix (c ∷ prefix) (d ∷ s) = if c == d then strip_prefix prefix s else none

abbrev pub has {ℓ} : {A : Type ℓ} → Option A → Bool
has none = false
has (some a) = true

unfoldable pub starts_with : Text → Text → Bool
unfolding strip_prefix
starts_with s prefix = has (strip_prefix prefix s)

-- `"".join(parts)`
unfoldable pub join : List Text → Text
join [] = []
join (s ∷ parts) = s ++ join parts

-- `str.isspace` of one code point.
unfoldable pub is_space : ℕ → Bool
is_space c =
    leb 9 c && leb c 13
    || (leb 28 c && leb c 32
        || (c == 133
            || (c == 160
                || (c == 5760
                    || (leb 8192 c && leb c 8202
                        || (c == 8232
                            || (c == 8233 || (c == 8239 || (c == 8287 || c == 12288)))))))))

-- The truth of `s.strip()`: a character that is no white space.
unfoldable pub is_visible : Text → Bool
unfolding is_space
is_visible [] = false
is_visible (c ∷ s) = not (is_space c) || is_visible s

pub is_visible-append : (s t : Text) → is_visible (s ++ t) ≡ (is_visible s || is_visible t)
unfolding is_visible
is_visible-append [] t = refl
is_visible-append (c ∷ s) t = ground (arith, is_visible-append s t)
