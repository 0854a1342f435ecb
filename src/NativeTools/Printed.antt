-- ===== src/NativeTools/Printed.antt =====
-- The markup of an element, and what _parse_element reads off it.
use agentic_model_gateway.Base.{
  ℕ, ◌+◌, ◌≤◌, ◌≡◌, refl, ap, subst, ◌∙◌, Bool, true, false, some, [], ◌∷◌, ◌++◌, length, ltb, ◌==◌,
  arith, contains,
}
use agentic_model_gateway.Stream.Text.{Text, starts_with, strip_prefix}
use agentic_model_gateway.Stream.Slices.{drop, drop-append, take-append}
use agentic_model_gateway.Think.Find.{find}
use agentic_model_gateway.NativeTools.Framer.{namespace}
use agentic_model_gateway.NativeTools.Scan.{Ended, found-Ended}
use agentic_model_gateway.NativeTools.Whole.{behind_tag, found_first}
use agentic_model_gateway.NativeTools.Markup.{
  element_start, Element, element, Elements, no_elements, child, Parsed, parsed, failed, bind,
  has_space, is_invalid_name, close_tag, opens_element, with_name, with_child, parse_named,
  parse_tag, parse_open, parse_at, parse_marker, nested_too_deep, malformed_arguments, invalid_name,
  mismatched_tags,
}

-- An element with its text in place: texts between its children, and one in front of its end.
mutual
  pub data Node : Type 0 where
    node : (name : Text) → Content → Node

  pub data Content : Type 0 where
    closing : Text → Content
    nested : Text → Node → Content → Content

unfoldable mutual
  unfolding close_tag

  pub print_node : Node → Text
  print_node (node name content) = element_start ++ (name ++ 62 ∷ print_content name content)

  pub print_content : Text → Content → Text
  print_content name (closing text) = text ++ close_tag name
  print_content name (nested text inner content) =
      text ++ (print_node inner ++ print_content name content)

unfoldable mutual
  pub element_of : Node → Element
  element_of (node name content) = element name (text_of content) (children_of content)

  pub text_of : Content → Text
  text_of (closing text) = text
  text_of (nested text inner content) = text ++ text_of content

  pub children_of : Content → Elements
  children_of (closing text) = no_elements
  children_of (nested text inner content) = child (element_of inner) (children_of content)

-- The calls that a node costs.
unfoldable mutual
  pub calls : Node → ℕ
  calls (node name content) = 1 + content_calls content

  pub content_calls : Content → ℕ
  content_calls (closing text) = 1
  content_calls (nested text inner content) = 1 + (calls inner + content_calls content)

-- A name without white space and `>`, that does not begin with a slash.
abbrev pub IsName : Text → Type 0
IsName [] = ◌≡◌ {A = Bool} true false
IsName (c ∷ s) = (c == 47 ≡ false) × (has_space (c ∷ s) ≡ false) × (contains 62 (c ∷ s) ≡ false)

-- A text in which no namespace begins.
abbrev pub IsFree : Text → Type 0
IsFree text = find namespace (text ++ namespace) ≡ some (length text)

unfoldable mutual
  pub IsPrintable : (depth : ℕ) → Node → Type 0
  IsPrintable depth (node name content) =
      (depth ≤ 64) × IsName name × IsPrintableContent depth content

  pub IsPrintableContent : (depth : ℕ) → Content → Type 0
  IsPrintableContent depth (closing text) = IsFree text
  IsPrintableContent depth (nested text inner content) =
      IsFree text × IsPrintable (depth + 1) inner × IsPrintableContent depth content

starts_with-append : (p s : Text) → starts_with (p ++ s) p ≡ true
unfolding starts_with strip_prefix
starts_with-append [] s = refl
starts_with-append (c ∷ p) s = ground (arith, starts_with-append p s)

find_end_of_tag :
    (name s : Text)
    → contains 62 name ≡ false
    → find (62 ∷ []) (name ++ 62 ∷ s) ≡ some (length name)
unfolding find starts_with strip_prefix contains
find_end_of_tag [] s h = refl
find_end_of_tag (c ∷ name) s h = ground (arith, h, find_end_of_tag name s)

find-namespace :
    (text s : Text) → IsFree text → find namespace (text ++ (namespace ++ s)) ≡ some (length text)
unfolding find starts_with strip_prefix
find-namespace text s h =
    let ended : Ended namespace text =
      subst (Ended namespace) (take-append text namespace)
        (found-Ended namespace [] [] (text ++ namespace) ((λ t. tt), refl) (length text) h).0 in
    found_first namespace text s (ended s) refl

valid_name : (name : Text) → IsName name → is_invalid_name name ≡ false
unfolding is_invalid_name
valid_name [] h = ground (arith, h)
valid_name (c ∷ s) h = h.1

parse_tag-name :
    (content : Text → Text → Parsed (Text × Elements × Text)) (name s : Text)
    → IsName name
    → parse_tag content (some (length name)) (name ++ 62 ∷ s)
      ≡ bind (content name s) (with_name name)
unfolding parse_tag parse_named
parse_tag-name content name s h =
    ap (λ n. parse_named content n (drop (length name + 1) (name ++ 62 ∷ s)))
      (take-append name (62 ∷ s))
    ∙ ap (parse_named content name) (behind_tag name (62 ∷ []) s)
    ∙ ap
        (λ b. elim b [
          | true ↦ failed invalid_name
          | false ↦ bind (content name s) (with_name name)
        ])
        (valid_name name h)

opens_name : (c : ℕ) (s : Text) → c == 47 ≡ false → opens_element (element_start ++ c ∷ s) ≡ true
unfolding opens_element starts_with strip_prefix
opens_name c s h = ground (arith, h)

unclosed_name :
    (c : ℕ) (s name : Text)
    → c == 47 ≡ false
    → starts_with (element_start ++ c ∷ s) (close_tag name) ≡ false
unfolding close_tag starts_with strip_prefix
unclosed_name c s name h = ground (arith, h)

opened :
    (content : Text → Text → Parsed (Text × Elements × Text)) (depth : ℕ) (s : Text)
    → ltb 64 depth ≡ false
    → opens_element s ≡ true
    → let behind : Text = drop (length element_start) s in
      parse_open content depth s ≡ parse_tag content (find (62 ∷ []) behind) behind
unfolding parse_open
opened content depth s shallow opens =
    let behind : Text = drop (length element_start) s in
    let tag : Parsed (Element × Text) = parse_tag content (find (62 ∷ []) behind) behind in
    ap
      (λ b. elim b [
        | true ↦ failed nested_too_deep
        | false ↦ elim (opens_element s) [ false ↦ failed malformed_arguments | true ↦ tag ]
      ])
      shallow
    ∙ ap (λ b. elim b [ false ↦ failed malformed_arguments | true ↦ tag ]) opens

pub parse_open-name :
    (content : Text → Text → Parsed (Text × Elements × Text)) (depth : ℕ) (name s : Text)
    → depth ≤ 64
    → IsName name
    → parse_open content depth (element_start ++ (name ++ 62 ∷ s))
      ≡ bind (content name s) (with_name name)
unfolding drop
parse_open-name content depth [] s le h = ground (arith, h)
parse_open-name content depth (c ∷ name) s le h =
    opened content depth (element_start ++ (c ∷ name ++ 62 ∷ s)) (ground (arith, le))
      (opens_name c (name ++ 62 ∷ s) h.0)
    ∙ ap (λ found. parse_tag content found (c ∷ name ++ 62 ∷ s)) (find_end_of_tag (c ∷ name) s h.2)
    ∙ parse_tag-name content (c ∷ name) s h

module _ (nested : Text → Parsed (Element × Text))
    (content : Text → Parsed (Text × Elements × Text)) (name text : Text) (free : IsFree text) where
  parse_marker-at :
      (s : Text)
      → parse_marker nested content name
          (find namespace (text ++ (namespace ++ s)))
          (text ++ (namespace ++ s))
        ≡ parse_at nested content name text (namespace ++ s)
  unfolding parse_marker
  parse_marker-at s =
      let whole : Text = text ++ (namespace ++ s) in
      ap (λ found. parse_marker nested content name found whole) (find-namespace text s free)
      ∙ ap (λ before. parse_at nested content name before (drop (length text) whole))
          (take-append text (namespace ++ s))
      ∙ ap (parse_at nested content name text) (drop-append text (namespace ++ s))

  pub parse_marker-close :
      (rest : Text)
      → let s : Text = text ++ (close_tag name ++ rest) in
        parse_marker nested content name (find namespace s) s ≡ parsed (text, no_elements, rest)
  unfolding close_tag parse_at
  parse_marker-close rest = parse_marker-at (60 ∷ 47 ∷ ((name ++ 62 ∷ []) ++ rest)) ∙ closed
    where
      closed :
          parse_at nested content name text (close_tag name ++ rest)
          ≡ parsed (text, no_elements, rest)
      closed =
          ap
            (λ b. elim b [
              | true ↦
                  parsed
                    (text, no_elements, drop (length (close_tag name)) (close_tag name ++ rest))
              | false ↦ elim (opens_element (close_tag name ++ rest)) [
                | false ↦ failed mismatched_tags
                | true ↦
                    bind (nested (close_tag name ++ rest))
                      (λ (first, more). bind (content more) (with_child text first))
              ]
            ])
            (starts_with-append (close_tag name) rest)
          ∙ ap (λ r. parsed (text, no_elements, r)) (drop-append (close_tag name) rest)

  pub parse_marker-child :
      (c : ℕ) (more : Text)
      → c == 47 ≡ false
      → let inner : Text = element_start ++ c ∷ more in
        let s : Text = text ++ inner in
        parse_marker nested content name (find namespace s) s
        ≡ bind (nested inner) (λ (first, rest). bind (content rest) (with_child text first))
  unfolding parse_at
  parse_marker-child c more h = parse_marker-at (60 ∷ c ∷ more) ∙ opened_child
    where
      inner : Text
      inner = element_start ++ c ∷ more

      read : Parsed (Text × Elements × Text)
      read = bind (nested inner) (λ (first, rest). bind (content rest) (with_child text first))

      opened_child : parse_at nested content name text inner ≡ read
      opened_child =
          ap
            (λ b. elim b [
              | true ↦ parsed (text, no_elements, drop (length (close_tag name)) inner)
              | false ↦ elim (opens_element inner) [ false ↦ failed mismatched_tags | true ↦ read ]
            ])
            (unclosed_name c more name h)
          ∙ ap (λ b. elim b [ false ↦ failed mismatched_tags | true ↦ read ]) (opens_name c more h)
