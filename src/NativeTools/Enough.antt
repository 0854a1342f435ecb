-- ===== src/NativeTools/Enough.antt =====
-- The fuel of _parse_element: what is left of the text gets shorter as the calls nest.
use agentic_model_gateway.Base.{
  ℕ, zero, suc, ◌+◌, ◌-◌, ◌≤◌, ◌<◌, ◌≡◌, ◌≢◌, refl, subst, Bool, true, false, Option, none, some,
  [], ◌∷◌, ◌++◌, length, ltb, arith, ap, length-append,
}
use agentic_model_gateway.Stream.Text.{Text, starts_with}
use agentic_model_gateway.Stream.Slices.{drop, length-drop, starts_with-drop, take}
use agentic_model_gateway.Think.Find.{find}
use agentic_model_gateway.NativeTools.Framer.{namespace}
use agentic_model_gateway.NativeTools.Markup.{
  element_start, max_native_argument_depth, Element, Elements, MarkupError, out_of_fuel, Parsed,
  parsed, failed, bind, close_tag, opens_element, is_invalid_name, with_name, with_child,
  parse_named, parse_tag, parse_open, parse_at, parse_marker, parse_element, parse_content,
  read_element,
}

abbrev is_fuel : MarkupError → Bool
is_fuel out_of_fuel = true
is_fuel _ = false

-- Not for want of fuel, where it fails; and the property, where it is parsed.
abbrev Fine : {A : Type 0} → (A → Type 0) → Parsed A → Type 0
Fine P (parsed a) = P a
Fine P (failed error) = is_fuel error ≡ false

bind-Fine :
    {A B : Type 0} (P : A → Type 0) (Q : B → Type 0) (r : Parsed A) (f : A → Parsed B)
    → Fine P r
    → ((a : A) → P a → Fine Q (f a))
    → Fine Q (bind r f)
bind-Fine P Q (parsed a) f h k = k a h
bind-Fine P Q (failed error) f h k = h

both :
    {X : Type 0} (P : X → Type 0) (test : Bool) {x y : X}
    → (test ≡ true → P x)
    → (test ≡ false → P y)
    → P (elim test [ true ↦ x | false ↦ y ])
both P true f g = f refl
both P false f g = g refl

abbrev Leaves : ℕ → Element × Text → Type 0
Leaves n (_, rest) = length rest < n

abbrev LeavesContent : ℕ → Text × Elements × Text → Type 0
LeavesContent n (_, _, rest) = length rest ≤ n

fewer : (n m : ℕ) → n ≤ m → (r : Parsed (Element × Text)) → Fine (Leaves n) r → Fine (Leaves m) r
fewer n m le (parsed (_, rest)) h = omega (arith, le, h)
fewer n m le (failed error) h = h

opens_long : (s : Text) → opens_element s ≡ true → 14 ≤ length s
unfolding opens_element
opens_long s h =
    let e : s ≡ element_start ++ drop 14 s = starts_with-drop s element_start (ground (arith, h)) in
    omega (arith, ap length e, length-append element_start (drop 14 s))

module _ (content : Text → Text → Parsed (Text × Elements × Text)) (n : ℕ)
    (reads : (name s : Text)
      → length s < n
      → Fine (LeavesContent (length s)) (content name s)) where
  named-Fine : (name s : Text) → length s < n → Fine (Leaves n) (parse_named content name s)
  unfolding parse_named
  named-Fine name s lt =
      both (Fine (Leaves n)) (is_invalid_name name) (λ _. refl)
        (λ _.
          bind-Fine (LeavesContent (length s)) (Leaves n) (content name s) (with_name name)
            (reads name s lt) (λ (_, _, rest) le. omega (arith, le, lt)))

  tag-Fine :
      (found : Option ℕ) (s : Text) → length s < n → Fine (Leaves n) (parse_tag content found s)
  unfolding parse_tag
  tag-Fine none s lt = refl
  tag-Fine (some tag_end) s lt =
      named-Fine (take tag_end s) (drop (tag_end + 1) s)
        (omega (arith, lt, length-drop (tag_end + 1) s))

  open-Fine :
      (depth : ℕ) (s : Text) → length s < n + 14 → Fine (Leaves n) (parse_open content depth s)
  unfolding parse_open
  open-Fine depth s lt =
      both (Fine (Leaves n)) (ltb max_native_argument_depth depth) (λ _. refl)
        (λ _.
          both (Fine (Leaves n)) (opens_element s)
            (λ opens.
              tag-Fine (find (62 ∷ []) (drop 14 s)) (drop 14 s)
                (omega (arith, lt, length-drop 14 s, opens_long s opens)))
            (λ _. refl))

module _ (nested : Text → Parsed (Element × Text))
    (content : Text → Parsed (Text × Elements × Text)) (name : Text) (n : ℕ)
    (reads_nested : (s : Text) → length s ≤ n → Fine (Leaves (length s)) (nested s))
    (reads : (s : Text) → length s < n → Fine (LeavesContent (length s)) (content s)) where
  at-Fine :
      (before s : Text)
      → length s ≤ n
      → Fine (LeavesContent n) (parse_at nested content name before s)
  unfolding parse_at
  at-Fine before s le =
      both (Fine (LeavesContent n)) (starts_with s (close_tag name))
        (λ _. omega (arith, le, length-drop (length (close_tag name)) s))
        (λ _.
          both (Fine (LeavesContent n)) (opens_element s)
            (λ _.
              bind-Fine (Leaves (length s)) (LeavesContent n) (nested s) _ (reads_nested s le)
                (λ (first, rest) lt.
                  bind-Fine (LeavesContent (length rest)) (LeavesContent n) (content rest)
                    (with_child before first) (reads rest (omega (arith, lt, le)))
                    (λ (_, _, last) less. omega (arith, less, lt, le))))
            (λ _. refl))

  marker-Fine :
      (found : Option ℕ) (s : Text)
      → length s ≤ n
      → Fine (LeavesContent n) (parse_marker nested content name found s)
  unfolding parse_marker
  marker-Fine none s le = refl
  marker-Fine (some marker) s le =
      at-Fine (take marker s) (drop marker s) (omega (arith, le, length-drop marker s))

mutual
  unfolding parse_element

  element-Fine :
      (fuel : ℕ) (s : Text) (depth : ℕ)
      → length s < fuel
      → Fine (Leaves (length s)) (parse_element fuel s depth)
  element-Fine zero s depth lt = absurd (omega (arith, lt))
  element-Fine (suc fuel) s depth lt = fewer (length s - 13) (length s) (omega arith) _ (
      open-Fine (λ name behind. parse_content fuel name depth behind) (length s - 13)
        (λ name behind less. content-Fine fuel name depth behind (omega (arith, lt, less))) depth s
        (omega arith))

  content-Fine :
      (fuel : ℕ) (name : Text) (depth : ℕ) (s : Text)
      → length s + 1 < fuel
      → Fine (LeavesContent (length s)) (parse_content fuel name depth s)
  content-Fine zero name depth s lt = absurd (omega (arith, lt))
  content-Fine (suc fuel) name depth s lt =
      marker-Fine (λ behind. parse_element fuel behind (depth + 1)) (parse_content fuel name depth)
        name (length s) (λ behind le. element-Fine fuel behind (depth + 1) (omega (arith, lt, le)))
        (λ behind less. content-Fine fuel name depth behind (omega (arith, lt, less)))
        (find namespace s) s (omega arith)

-- Whatever the text, with one unit of fuel for each of its characters and one more the reading of an
-- element at its front does not run out of fuel: it returns an element, or fails for an error of the
-- markup. The fuel bounds how deep the calls nest, where the next round of the loop counts as a call.
pub read_element-returns : (s : Text) → read_element s ≢ failed out_of_fuel
unfolding read_element
read_element-returns s e =
    let fine : is_fuel out_of_fuel ≡ false =
      subst (Fine (Leaves (length s))) e (element-Fine (length s + 1) s 1 (omega arith)) in
    ground (arith, fine)
