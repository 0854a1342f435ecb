-- ===== src/Think/Find.antt =====
-- core/anthropic/thinking.py: the searches of the parser in its buffer.
use agentic_model_gateway.Base.{ℕ, ◌+◌, Bool, Option, none, some, [], ◌∷◌, ◌==◌, if◌then◌else◌}
use agentic_model_gateway.Stream.Text.{Text, starts_with}

abbrev pub later : Option ℕ → Option ℕ
later none = none
later (some i) = some (1 + i)

-- `s.find(tag)` for a tag that is not empty.
unfoldable pub find : Text → Text → Option ℕ
unfolding starts_with
find tag [] = none
find tag (c ∷ s) = if starts_with (c ∷ s) tag then some 0 else later (find tag s)

abbrev pub last_of : Option ℕ → Bool → Option ℕ
last_of none here = if here then some 0 else none
last_of (some i) here = some (1 + i)

-- `s.rfind("<")`
unfoldable pub rfind_bracket : Text → Option ℕ
rfind_bracket [] = none
rfind_bracket (c ∷ s) = last_of (rfind_bracket s) (c == 60)
