-- ===== src/Base/Lists.antt =====
-- Lists measured and indexed by native numbers, under the library's names.
use Prim.Native.Nat.{ℕ, zero, suc, ◌+◌, ◌≤◌}
use mathlib.Core.Path.{◌≡◌, ap}
use mathlib.Core.List.{List, [], ◌∷◌, ◌++◌}
use mathlib.Core.Option.{Option, none, some}
use native.Mathlib.Omega.{arith}

module _ {ℓ} {A : Type ℓ} where
  abbrev pub length : List A → ℕ
  length [] = 0
  length (x ∷ xs) = suc (length xs)

  abbrev pub get_elem? : List A → ℕ → Option A
  get_elem? [] i = none
  get_elem? (x ∷ xs) zero = some x
  get_elem? (x ∷ xs) (suc i) = get_elem? xs i

  abbrev pub set : List A → ℕ → A → List A
  set [] i v = []
  set (x ∷ xs) zero v = v ∷ xs
  set (x ∷ xs) (suc i) v = x ∷ set xs i v

  abbrev pub replicate : ℕ → A → List A
  replicate zero a = []
  replicate (suc n) a = a ∷ replicate n a

  pub length-append : (xs ys : List A) → length (xs ++ ys) ≡ length xs + length ys
  length-append [] ys = omega arith
  length-append (x ∷ xs) ys = omega (arith, length-append xs ys)

  -- Every element has the property.
  abbrev pub All {κ} : (A → Type κ) → List A → Type κ
  All P [] = Unit
  All P (x ∷ xs) = P x × All P xs

  pub All-append {κ} : (P : A → Type κ) (xs ys : List A) → All P xs → All P ys → All P (xs ++ ys)
  All-append P [] ys h k = k
  All-append P (x ∷ xs) ys h k = (h.0, All-append P xs ys h.1 k)

  pub All-map {κ ι} :
      {P : A → Type κ} {Q : A → Type ι} (xs : List A) → ((x : A) → P x → Q x) → All P xs → All Q xs
  All-map [] f h = tt
  All-map (x ∷ xs) f h = (f x h.0, All-map xs f h.1)

-- The sizes of the elements together.
unfoldable pub total : {A : Type 0} → (A → ℕ) → List A → ℕ
total size [] = 0
total size (x ∷ xs) = size x + total size xs

pub total-append :
    {A : Type 0} (size : A → ℕ) (xs : List A) (x : A)
    → total size (xs ++ x ∷ []) ≡ total size xs + size x
unfolding total
total-append size [] x = omega arith
total-append size (y ∷ xs) x = ground (arith, total-append size xs x)

pub total-set :
    {A : Type 0} (size : A → ℕ) (xs : List A) (i : ℕ) (x after : A)
    → get_elem? xs i ≡ some x
    → total size (set xs i after) + size x ≡ total size xs + size after
unfolding total
total-set size [] i x after e = ground (arith, e)
total-set size (y ∷ xs) zero x after e = let h : y ≡ x = cc in omega (arith, ap size h)
total-set size (y ∷ xs) (suc i) x after e = omega (arith, total-set size xs i x after e)

pub get_elem?-le-total :
    {A : Type 0} (size : A → ℕ) (xs : List A) (i : ℕ) (x : A)
    → get_elem? xs i ≡ some x
    → size x ≤ total size xs
unfolding total
get_elem?-le-total size [] i x e = ground (arith, e)
get_elem?-le-total size (y ∷ xs) zero x e = let h : y ≡ x = cc in omega (arith, ap size h)
get_elem?-le-total size (y ∷ xs) (suc i) x e = omega (arith, get_elem?-le-total size xs i x e)
