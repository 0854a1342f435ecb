-- ===== src/Base/Sets.antt =====
-- Sets of numbers as lists, and dictionaries with number keys as association lists in the order of
-- insertion.
use Prim.Native.Nat.{ℕ}
use mathlib.Core.Path.{◌≡◌, refl}
use mathlib.Core.Bool.{Bool, false, not, ◌&&◌, ◌||◌}
use mathlib.Core.List.{List, [], ◌∷◌, ◌++◌}
use mathlib.Core.Option.{Option, none, some}
use native.Mathlib.Omega.{arith}
use agentic_model_gateway.Base.Tests.{◌==◌, if◌then◌else◌}

unfoldable pub contains : ℕ → List ℕ → Bool
contains i [] = false
contains i (x ∷ xs) = x == i || contains i xs

unfoldable pub add : ℕ → List ℕ → List ℕ
unfolding contains
add i xs = if contains i xs then xs else i ∷ xs

-- `set.discard`, and a list without an item.
unfoldable pub discard : ℕ → List ℕ → List ℕ
discard i [] = []
discard i (x ∷ xs) = if x == i then discard i xs else x ∷ discard i xs

abbrev pub NoRepeats : List ℕ → Type 0
NoRepeats [] = Unit
NoRepeats (x ∷ xs) = (contains x xs ≡ false) × NoRepeats xs

pub contains-append :
    (i : ℕ) (xs ys : List ℕ) → contains i (xs ++ ys) ≡ (contains i xs || contains i ys)
unfolding contains
contains-append i [] ys = refl
contains-append i (x ∷ xs) ys = ground (arith, contains-append i xs ys)

pub contains-add : (i j : ℕ) (xs : List ℕ) → contains j (add i xs) ≡ (i == j || contains j xs)
unfolding add contains
contains-add i j xs = ground arith

pub contains-discard :
    (i j : ℕ) (xs : List ℕ) → contains j (discard i xs) ≡ (not (i == j) && contains j xs)
unfolding contains discard
contains-discard i j [] = ground arith
contains-discard i j (x ∷ xs) = ground (arith, contains-discard i j xs)

module _ {ℓ} {V : Type ℓ} where
  -- `d.get(key)`
  unfoldable pub lookup : ℕ → List (ℕ × V) → Option V
  lookup key [] = none
  lookup key ((other, held) ∷ rest) = if other == key then some held else lookup key rest

  -- `d[key] = value`: a key that is there keeps its place.
  unfoldable pub insert : ℕ → V → List (ℕ × V) → List (ℕ × V)
  insert key value [] = (key, value) ∷ []
  insert key value ((other, held) ∷ rest) =
      if other == key then (key, value) ∷ rest else (other, held) ∷ insert key value rest

  -- `d.pop(key, None)`
  unfoldable pub erase : ℕ → List (ℕ × V) → List (ℕ × V)
  erase key [] = []
  erase key ((other, held) ∷ rest) =
      if other == key then erase key rest else (other, held) ∷ erase key rest

  pub lookup-insert :
      (key asked : ℕ) (value : V) (d : List (ℕ × V))
      → lookup asked (insert key value d) ≡ (if key == asked then some value else lookup asked d)
  unfolding insert lookup
  lookup-insert key asked value [] = refl
  lookup-insert key asked value ((other, held) ∷ rest) =
      ground (arith, lookup-insert key asked value rest)

  pub lookup-erase :
      (key asked : ℕ) (d : List (ℕ × V))
      → lookup asked (erase key d) ≡ (if key == asked then none else lookup asked d)
  unfolding erase lookup
  lookup-erase key asked [] = ground arith
  lookup-erase key asked ((other, held) ∷ rest) = ground (arith, lookup-erase key asked rest)
