-- ===== src/NativeTools/Tests.antt =====
-- The laws of the framer at texts that cut both markers of the call `x`, and at `ab`; and the laws of
-- the markup at an element `a` with `hi` around an empty child `b`.
use agentic_model_gateway.Base.{
  ◌≡◌, ◌≢◌, arith, contains, refl, true, Option, none, some, List, [], ◌∷◌, ◌++◌,
}
use agentic_model_gateway.Stream.Slices.{drop, take}
use agentic_model_gateway.Stream.Text.{Text, join, starts_with}
use agentic_model_gateway.Think.Find.{find}
use agentic_model_gateway.NativeTools.Framer.{ok, tool_block_start, tool_block_end, frame}
use agentic_model_gateway.NativeTools.Markup.{
  element, no_elements, child, parsed, failed, out_of_fuel, has_space, read_element,
}
use agentic_model_gateway.NativeTools.Printed.{
  Node, node, closing, nested, print_node, element_of, IsPrintable,
}
use agentic_model_gateway.NativeTools.RoundTrip.{printed_element_read}
use agentic_model_gateway.NativeTools.Enough.{read_element-returns}
use agentic_model_gateway.NativeTools.Whole.{split_whole, framed_as_whole}
use agentic_model_gateway.NativeTools.Plain.{plain_text_unchanged}

-- `ab` with the front of the start marker, its rest with `x` and the front of the end marker, the
-- rest of that, and a space.
abbrev pieces : List Text
unfolding take drop
pieces =
    (97 ∷ 98 ∷ take 9 tool_block_start)
    ∷ (drop 9 tool_block_start ++ 120 ∷ take 20 tool_block_end)
    ∷ (drop 20 tool_block_end ++ 32 ∷ [])
    ∷ []

abbrev result : Text × Option Text
result = (97 ∷ 98 ∷ [], some (120 ∷ []))

framed : frame true pieces ≡ ok result
unfolding frame pieces
framed = refl

framed_as_whole_example : split_whole (join pieces) ≡ some result
framed_as_whole_example = framed_as_whole pieces result framed

plain_text_unchanged_example : frame true ((97 ∷ []) ∷ (98 ∷ []) ∷ []) ≡ ok (97 ∷ 98 ∷ [], none)
unfolding find join starts_with
plain_text_unchanged_example = plain_text_unchanged true ((97 ∷ []) ∷ (98 ∷ []) ∷ []) refl

abbrev inner : Node
inner = node (98 ∷ []) (closing [])

abbrev outer : Node
outer = node (97 ∷ []) (nested (104 ∷ []) inner (closing (105 ∷ [])))

printed_element_read_example :
    read_element (print_node outer ++ 32 ∷ [])
    ≡ parsed (
      element (97 ∷ []) (104 ∷ 105 ∷ []) (child (element (98 ∷ []) [] no_elements) no_elements),
      32 ∷ [],
    )
unfolding element_of IsPrintable find starts_with has_space contains
printed_element_read_example =
    printed_element_read outer (32 ∷ [])
      (omega arith, (refl, refl, refl), (refl, (omega arith, (refl, refl, refl), refl), refl))

read_element-returns_example : read_element (print_node inner) ≢ failed out_of_fuel
read_element-returns_example = read_element-returns (print_node inner)
