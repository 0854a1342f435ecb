-- ===== src/NativeTools/RoundTrip.antt =====
-- The round trip of the markup of elements.
use agentic_model_gateway.Base.{
  ℕ, zero, suc, ◌+◌, ◌≤◌, ◌≡◌, refl, sym, ap, ◌∙◌, false, [], ◌∷◌, ◌++◌, length, ◌==◌, arith,
  length-append,
}
use mathlib.Core.List.{append_assoc}
use agentic_model_gateway.Stream.Text.{Text}
use agentic_model_gateway.NativeTools.Markup.{
  element_start, parsed, bind, close_tag, with_name, with_child, parse_element, parse_content,
  read_element,
}
use agentic_model_gateway.NativeTools.Printed.{
  Node, node, Content, closing, nested, print_node, print_content, element_of, text_of, children_of,
  calls, content_calls, IsPrintable, IsPrintableContent, parse_open-name, parse_marker-close,
  parse_marker-child,
}

-- A printed child begins like an element.
child_begins :
    (inner : Node) (depth : ℕ) (after : Text)
    → IsPrintable depth inner
    → (c : ℕ) × (more : Text) × (print_node inner ++ after ≡ element_start ++ c ∷ more)
      × (c == 47 ≡ false)
unfolding print_node IsPrintable
child_begins (node [] content) depth after h = absurd (ground (arith, h))
child_begins (node (c ∷ name) content) depth after h = (c, _, refl, h.1.0)

mutual
  unfolding parse_element print_node IsPrintable calls element_of

  pub read_node :
      (m : Node) (depth fuel : ℕ) (rest : Text)
      → IsPrintable depth m
      → calls m ≤ fuel
      → parse_element fuel (print_node m ++ rest) depth ≡ parsed (element_of m, rest)
  read_node (node name content) depth zero rest h le = absurd (omega (arith, le))
  read_node (node name content) depth (suc fuel) rest (shallow, valid, printable) le =
      ap (λ s. parse_element (suc fuel) s depth)
        (append_assoc element_start (name ++ 62 ∷ print_content name content) rest
          ∙ ap (λ s. element_start ++ s) (append_assoc name (62 ∷ print_content name content) rest))
      ∙ parse_open-name (λ n behind. parse_content fuel n depth behind) depth name
          (print_content name content ++ rest) shallow valid
      ∙ ap (λ r. bind r (with_name name))
          (read_content content name depth fuel rest printable (omega (arith, le)))

  read_content :
      (content : Content) (name : Text) (depth fuel : ℕ) (rest : Text)
      → IsPrintableContent depth content
      → content_calls content ≤ fuel
      → parse_content fuel name depth (print_content name content ++ rest)
        ≡ parsed (text_of content, children_of content, rest)
  read_content (closing text) name depth zero rest h le = absurd (omega (arith, le))
  read_content (closing text) name depth (suc fuel) rest h le =
      ap (parse_content (suc fuel) name depth) (append_assoc text (close_tag name) rest)
      ∙ parse_marker-close (λ behind. parse_element fuel behind (depth + 1))
          (parse_content fuel name depth) name text h rest
  read_content (nested text inner content) name depth zero rest h le = absurd (omega (arith, le))
  read_content (nested text inner content) name depth (suc fuel) rest (free, printable, others) le =
      let after : Text = print_content name content ++ rest in
      let (c, more, begins, no_slash) = child_begins inner (depth + 1) after printable in
      ap (parse_content (suc fuel) name depth) (
        append_assoc text (print_node inner ++ print_content name content) rest
        ∙ ap (λ s. text ++ s)
            (append_assoc (print_node inner) (print_content name content) rest ∙ begins))
      ∙ parse_marker-child (λ behind. parse_element fuel behind (depth + 1))
          (parse_content fuel name depth) name text free c more no_slash
      ∙ ap
          (λ r.
            bind r
              (λ (first, last). bind (parse_content fuel name depth last) (with_child text first)))
          (ap (λ s. parse_element fuel s (depth + 1)) (sym begins)
            ∙ read_node inner (depth + 1) fuel after printable (omega (arith, le)))
      ∙ ap (λ r. bind r (with_child text (element_of inner)))
          (read_content content name depth fuel rest others (omega (arith, le)))

mutual
  unfolding print_node calls close_tag

  calls-length : (m : Node) → calls m + 1 ≤ length (print_node m)
  calls-length (node name content) = omega (
    arith,
    length-append name (62 ∷ print_content name content),
    content_calls-length name content,
  )

  content_calls-length :
      (name : Text) (content : Content)
      → content_calls content ≤ length (print_content name content)
  content_calls-length name (closing text) = omega (arith, length-append text (close_tag name))
  content_calls-length name (nested text inner content) = omega (
    arith,
    length-append text (print_node inner ++ print_content name content),
    length-append (print_node inner) (print_content name content),
    calls-length inner,
    content_calls-length name content,
  )

-- The markup of an element, whose names have no white space and no > and do not begin with a slash, in
-- whose texts no namespace begins, and which is nested at most 64 deep, is read back off the front of
-- any text: the name, the joined texts, the children and what follows.
pub printed_element_read :
    (m : Node) (rest : Text)
    → IsPrintable 1 m
    → read_element (print_node m ++ rest) ≡ parsed (element_of m, rest)
unfolding read_element
printed_element_read m rest h =
    read_node m 1 (length (print_node m ++ rest) + 1) rest h
      (omega (arith, calls-length m, length-append (print_node m) rest))
