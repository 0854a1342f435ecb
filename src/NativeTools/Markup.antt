-- ===== src/NativeTools/Markup.antt =====
-- providers/nvidia_nim/native_tool_stream.py: _parse_element, with the loop over an element's content.
-- A cursor is the text from it on. The fuel bounds how deep the calls nest; the next round of the loop is
-- a call.
use agentic_model_gateway.Base.{
  ℕ, zero, suc, ◌+◌, Bool, true, false, not, ◌&&◌, ◌||◌, Option, none, some, [], ◌∷◌, ◌++◌, length,
  ltb,
}
use agentic_model_gateway.Stream.Text.{Text, is_empty, is_space, starts_with}
use agentic_model_gateway.Stream.Slices.{drop, take}
use agentic_model_gateway.Think.Find.{find}
use agentic_model_gateway.NativeTools.Framer.{namespace}

-- `_ELEMENT_START` and `_ELEMENT_END_START`
abbrev pub element_start : Text
element_start = namespace ++ 60 ∷ []

abbrev pub element_end_start : Text
element_end_start = namespace ++ 60 ∷ 47 ∷ []

abbrev pub max_native_argument_depth : ℕ
max_native_argument_depth = 64

mutual
  pub data Element : Type 0 where
    element : (name text : Text) → Elements → Element

  pub data Elements : Type 0 where
    no_elements : Elements
    child : Element → Elements → Elements

pub data MarkupError : Type 0 where
  nested_too_deep malformed_arguments incomplete_tag invalid_name : MarkupError
  incomplete_argument mismatched_tags out_of_fuel : MarkupError

pub data Parsed (A : Type 0) : Type 0 where
  parsed : A → Parsed A
  failed : MarkupError → Parsed A

abbrev pub bind : {A B : Type 0} → Parsed A → (A → Parsed B) → Parsed B
bind (parsed a) f = f a
bind (failed error) f = failed error

unfoldable pub has_space : Text → Bool
unfolding is_space
has_space [] = false
has_space (c ∷ s) = is_space c || has_space s

-- A name that `strip` changes has a space.
unfoldable pub is_invalid_name : Text → Bool
unfolding has_space
is_invalid_name name = is_empty name || has_space name

unfoldable pub close_tag : Text → Text
close_tag name = element_end_start ++ (name ++ 62 ∷ [])

unfoldable pub opens_element : Text → Bool
unfolding starts_with
opens_element s = starts_with s element_start && not (starts_with s element_end_start)

abbrev pub with_name : Text → Text × Elements × Text → Parsed (Element × Text)
with_name name (text, children, rest) = parsed (element name text children, rest)

abbrev pub with_child : Text → Element → Text × Elements × Text → Parsed (Text × Elements × Text)
with_child before first (text, children, rest) = parsed (before ++ text, child first children, rest)

unfoldable pub parse_named :
    (content : Text → Text → Parsed (Text × Elements × Text))
    → (name behind : Text) → Parsed (Element × Text)
unfolding is_invalid_name
parse_named content name behind = elim (is_invalid_name name) [
  | true ↦ failed invalid_name
  | false ↦ bind (content name behind) (with_name name)
]

-- The opening tag, whose name is at the front of `s`; `content` reads on.
unfoldable pub parse_tag :
    (content : Text → Text → Parsed (Text × Elements × Text))
    → Option ℕ
    → Text
    → Parsed (Element × Text)
unfolding parse_named take drop
parse_tag content none s = failed incomplete_tag
parse_tag content (some tag_end) s = parse_named content (take tag_end s) (drop (tag_end + 1) s)

unfoldable pub parse_open :
    (content : Text → Text → Parsed (Text × Elements × Text))
    → (depth : ℕ) → Text
    → Parsed (Element × Text)
unfolding opens_element parse_tag find drop
parse_open content depth s = elim (ltb max_native_argument_depth depth) [
  | true ↦ failed nested_too_deep
  | false ↦ elim (opens_element s) [
    | false ↦ failed malformed_arguments
    | true ↦
        let behind = drop (length element_start) s in
        parse_tag content (find (62 ∷ []) behind) behind
  ]
]

-- A marker, behind the text `before`: `nested` reads a child, and `content` goes on.
unfoldable pub parse_at :
    (nested : Text → Parsed (Element × Text))
    → (content : Text → Parsed (Text × Elements × Text)) → (name before marked : Text)
    → Parsed (Text × Elements × Text)
unfolding close_tag opens_element starts_with drop
parse_at nested content name before marked = elim (starts_with marked (close_tag name)) [
  | true ↦ parsed (before, no_elements, drop (length (close_tag name)) marked)
  | false ↦ elim (opens_element marked) [
    | false ↦ failed mismatched_tags
    | true ↦ bind (nested marked) (λ (first, rest). bind (content rest) (with_child before first))
  ]
]

-- A round of the loop, at the next marker.
unfoldable pub parse_marker :
    (nested : Text → Parsed (Element × Text))
    → (content : Text → Parsed (Text × Elements × Text)) → (name : Text) → Option ℕ
    → Text
    → Parsed (Text × Elements × Text)
unfolding parse_at take drop
parse_marker nested content name none s = failed incomplete_argument
parse_marker nested content name (some marker) s =
    parse_at nested content name (take marker s) (drop marker s)

unfoldable mutual
  unfolding parse_open parse_marker find

  pub parse_element : ℕ → Text → (depth : ℕ) → Parsed (Element × Text)
  parse_element zero s depth = failed out_of_fuel
  parse_element (suc fuel) s depth =
      parse_open (λ name behind. parse_content fuel name depth behind) depth s

  pub parse_content : ℕ → (name : Text) → (depth : ℕ) → Text → Parsed (Text × Elements × Text)
  parse_content zero name depth s = failed out_of_fuel
  parse_content (suc fuel) name depth s =
      parse_marker (λ behind. parse_element fuel behind (depth + 1))
        (λ behind. parse_content fuel name depth behind) name (find namespace s) s

-- An element at the front of a text, outside of any other.
unfoldable pub read_element : Text → Parsed (Element × Text)
unfolding parse_element
read_element s = parse_element (length s + 1) s 1
