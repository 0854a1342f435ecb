-- ===== src/Think/Reference.antt =====
-- A whole text split at its thinking tags, a character at a time, and the characters of a parser's chunks.
use agentic_model_gateway.Base.{ℕ, zero, suc, Bool, true, false, List, [], ◌∷◌, ◌++◌, if◌then◌else◌}
use agentic_model_gateway.Stream.Text.{Text, starts_with}
use agentic_model_gateway.Think.Parser.{
  ContentType, text, thinking, ContentChunk, open_tag, close_tag,
}

-- What begins at the front of a text: a tag that counts there, or a character.
pub data Mark : Type 0 where
  opens closes plain : Mark

unfoldable pub mark : Bool → Text → Mark
unfolding starts_with
mark true s = if starts_with s close_tag then closes else plain
mark false s =
    if starts_with s open_tag then opens else if starts_with s close_tag then closes else plain

abbrev pub kind : Bool → ContentType
kind true = thinking
kind false = text

-- Inside or outside a tag; `skipped` characters still belong to the last tag.
unfoldable pub split : Bool → (skipped : ℕ) → Text → List (ContentType × ℕ)
unfolding mark
split inside skipped [] = []
split inside (suc skipped) (c ∷ s) = split inside skipped s
split inside zero (c ∷ s) = elim (mark inside (c ∷ s)) [
  | opens ↦ split true 6 s
  | closes ↦ split false 7 s
  | plain ↦ (kind inside, c) ∷ split inside 0 s
]

unfoldable pub labelled : ContentType → Text → List (ContentType × ℕ)
labelled type [] = []
labelled type (c ∷ s) = (type, c) ∷ labelled type s

unfoldable pub spread : List ContentChunk → List (ContentType × ℕ)
unfolding labelled
spread [] = []
spread (chunk ∷ chunks) = labelled chunk.type chunk.content ++ spread chunks
