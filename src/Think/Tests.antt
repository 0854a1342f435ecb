-- ===== src/Think/Tests.antt =====
-- The parser's theorems at a stream whose tags are cut in two.
use agentic_model_gateway.Base.{◌<◌, ◌≡◌, refl, some, List, [], ◌∷◌, length}
use agentic_model_gateway.Stream.Text.{Text, join}
use agentic_model_gateway.Think.Parser.{
  text, thinking, ContentChunk, Parser, new_parser, parse_stream, feed_all,
}
use agentic_model_gateway.Think.Reference.{split, spread}
use agentic_model_gateway.Think.Streamed.{stream_split_as_whole, held_back-lt-8}

-- `a<thi`, `nk>b</`, `think>c<`
abbrev contents : List Text
contents =
    (97 ∷ 60 ∷ 116 ∷ 104 ∷ 105 ∷ [])
    ∷ (110 ∷ 107 ∷ 62 ∷ 98 ∷ 60 ∷ 47 ∷ [])
    ∷ (116 ∷ 104 ∷ 105 ∷ 110 ∷ 107 ∷ 62 ∷ 99 ∷ 60 ∷ [])
    ∷ []

expected_chunks :
    parse_stream contents
    ≡ some (
        record { type = text; content = 97 ∷ [] }
        ∷ record { type = thinking; content = 98 ∷ [] }
        ∷ record { type = text; content = 99 ∷ [] }
        ∷ record { type = text; content = 60 ∷ [] }
        ∷ [])
unfolding parse_stream
expected_chunks = refl

stream_split_as_whole_example :
    (chunks : List ContentChunk) × (parse_stream contents ≡ some chunks)
    × (spread chunks ≡ (text, 97) ∷ (thinking, 98) ∷ (text, 99) ∷ (text, 60) ∷ [])
unfolding split join
stream_split_as_whole_example = stream_split_as_whole contents

held_back-lt-8_example :
    (chunks : List ContentChunk) × (p : Parser) × (feed_all contents new_parser ≡ some (chunks, p))
    × (length p.buffer < 8)
held_back-lt-8_example = held_back-lt-8 contents
