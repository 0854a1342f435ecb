-- ===== src/Continuation/Laws.antt =====
-- What a continuation makes of the existing text and the candidate.
use Prim.Native.Nat.{◌/◌}
use agentic_model_gateway.Base.{
  either, ℕ, zero, suc, ◌+◌, ◌≤◌, ◌≡◌, refl, sym, ap, subst, ◌∙◌, min, max, ℕ_discrete, true, false,
  Option, none, some, [], ◌∷◌, ◌++◌, length, ltb, arith, length-append,
}
use mathlib.Core.List.{append_assoc}
use agentic_model_gateway.Stream.Slices.{
  drop, ends_with, length-drop, length-take, starts_with-drop, take, take-drop, without_last,
}
use agentic_model_gateway.Stream.Text.{Text, is_empty, starts_with}
use agentic_model_gateway.ModelId.Laws.{ends_with-whole}
use agentic_model_gateway.Continuation.{longest_overlap, behind_overlap, continuation_suffix}

-- The suffix behind an overlap, which is the longest.
record Continues (existing candidate s : Text) : Type 0 where
  front : Text
  joined : existing ++ s ≡ front ++ candidate
  longest :
      (size : ℕ)
      → size ≤ length candidate
      → ends_with existing (take size candidate) ≡ true
      → length s + size ≤ length candidate

abbrev Result : Text → Text → Option Text → Type 0
Result existing candidate none = Unit
Result existing candidate (some s) = Continues existing candidate s

ends_with-length : (s suffix : Text) → ends_with s suffix ≡ true → length suffix ≤ length s
ends_with-length s suffix e = omega (
  arith,
  ap (λ u. length u) (ends_with-whole s suffix e),
  length-append (without_last (length suffix) s) suffix,
)

overlap-length :
    (existing candidate : Text) (size : ℕ)
    → size ≤ length candidate
    → ends_with existing (take size candidate) ≡ true
    → size ≤ length existing
overlap-length existing candidate size le e =
    omega (arith, ends_with-length existing (take size candidate) e, length-take size candidate, le)

abbrev Overlaps : Text → Text → ℕ → Type 0
Overlaps existing candidate size = ends_with existing (take size candidate) ≡ true

-- The longest overlap of at most `n` characters.
abbrev Best : ℕ → Text → Text → Option ℕ → Type 0
Best n existing candidate none = (size : ℕ) → size ≤ n → Overlaps existing candidate size → size ≡ 0
Best n existing candidate (some k) =
    Overlaps existing candidate k
    × (k ≤ n)
    × ((size : ℕ) → size ≤ n → Overlaps existing candidate size → size ≤ k)

not_here :
    (n : ℕ) (existing candidate : Text) (size : ℕ)
    → ends_with existing (take (suc n) candidate) ≡ false
    → size ≤ suc n
    → Overlaps existing candidate size
    → size ≤ n
not_here n existing candidate size f le e = elim (ℕ_discrete size (suc n)) [
  | yes same ↦
      let here = subst (Overlaps existing candidate) same e in absurd (ground (arith, f, here))
  | no other ↦ ground (arith, le, other)
]

Best-step :
    (n : ℕ) (existing candidate : Text) (rest : Option ℕ)
    → ends_with existing (take (suc n) candidate) ≡ false
    → Best n existing candidate rest
    → Best (suc n) existing candidate rest
Best-step n existing candidate none f h =
    λ size le e. h size (not_here n existing candidate size f le e) e
Best-step n existing candidate (some k) f h =
    (h.0, omega (arith, h.1), λ size le e. h.2 size (not_here n existing candidate size f le e) e)

longest_overlap-Best :
    (n : ℕ) (existing candidate : Text)
    → Best n existing candidate (longest_overlap n existing candidate)
unfolding longest_overlap
longest_overlap-Best zero existing candidate = λ size le e. omega (arith, le)
longest_overlap-Best (suc n) existing candidate =
    either (Best (suc n) existing candidate) (ends_with existing (take (suc n) candidate))
      (λ here. (here, omega arith, λ size le e. le))
      (λ f.
        Best-step n existing candidate (longest_overlap n existing candidate) f
          (longest_overlap-Best n existing candidate))

-- The suffix behind a part of the candidate that ends the existing text.
behind :
    (existing candidate : Text) (k : ℕ)
    → Overlaps existing candidate k
    → ((size : ℕ) → size ≤ length candidate → Overlaps existing candidate size → size ≤ k)
    → k ≤ length candidate
    → Continues existing candidate (drop k candidate)
behind existing candidate k e best le =
    let front = without_last (length (take k candidate)) existing in
    record {
      front = front;
      joined =
          ap (λ u. u ++ drop k candidate) (ends_with-whole existing (take k candidate) e)
          ∙ append_assoc front (take k candidate) (drop k candidate)
          ∙ ap (λ u. front ++ u) (take-drop k candidate);
      longest = λ size small o. omega (arith, length-drop k candidate, best size small o, le);
    }

behind_overlap-Result :
    (existing candidate : Text) (o : Option ℕ)
    → Best (min (length existing) (length candidate)) existing candidate o
    → Result existing candidate (behind_overlap o existing candidate)
unfolding behind_overlap
behind_overlap-Result existing candidate (some k) h =
    behind existing candidate k h.0
      (λ size le e. h.2 size (omega (arith, overlap-length existing candidate size le e, le)) e)
      (omega (arith, h.1))
behind_overlap-Result existing candidate none h =
    either (Result existing candidate) (ltb (length candidate) (max 200 (length existing / 2)))
      (λ e. record {
        front = existing;
        joined = refl;
        longest = λ size le o.
            omega (
              arith,
              le,
              h size (omega (arith, overlap-length existing candidate size le o, le)) o,
            );
      })
      (λ e. tt)

continuation_suffix-Result :
    (existing candidate : Text) → Result existing candidate (continuation_suffix existing candidate)
unfolding continuation_suffix
continuation_suffix-Result existing candidate =
    either (Result existing candidate) (is_empty candidate) (λ e. nothing_new existing candidate e)
      (λ e.
        either (Result existing candidate) (is_empty existing) (λ h. all_new existing candidate h)
          (λ h.
            either (Result existing candidate) (starts_with candidate existing)
              (λ whole. repeated existing candidate whole)
              (λ other.
                behind_overlap-Result existing candidate
                  (longest_overlap (min (length existing) (length candidate)) existing candidate)
                  (longest_overlap-Best (min (length existing) (length candidate)) existing
                    candidate))))
  where
    nothing_new :
        (existing candidate : Text) → is_empty candidate ≡ true → Continues existing candidate []
    nothing_new existing [] e = record {
      front = existing;
      joined = refl;
      longest = λ size le o. omega (arith, le);
    }
    nothing_new existing (c ∷ candidate) e = absurd (ground (arith, e))

    all_new :
        (existing candidate : Text)
        → is_empty existing ≡ true
        → Continues existing candidate candidate
    all_new [] candidate e = record {
      front = [];
      joined = refl;
      longest = λ size le o. omega (arith, overlap-length [] candidate size le o);
    }
    all_new (c ∷ existing) candidate e = absurd (ground (arith, e))

    repeated :
        (existing candidate : Text)
        → starts_with candidate existing ≡ true
        → Continues existing candidate (drop (length existing) candidate)
    repeated existing candidate e =
        let whole = starts_with-drop candidate existing e in
        record {
          front = [];
          joined = sym whole;
          longest = λ size le o. omega (
            arith,
            ap (λ u. length u) whole,
            length-append existing (drop (length existing) candidate),
            overlap-length existing candidate size le o,
          );
        }

returned :
    (existing candidate s : Text)
    → continuation_suffix existing candidate ≡ some s
    → Continues existing candidate s
returned existing candidate s e =
    subst (Result existing candidate) e (continuation_suffix-Result existing candidate)

-- Where a candidate is accepted, the existing text with the suffix ends in the whole candidate.
pub continuation_keeps_candidate :
    (existing candidate s : Text)
    → continuation_suffix existing candidate ≡ some s
    → (front : Text) × (existing ++ s ≡ front ++ candidate)
continuation_keeps_candidate existing candidate s e =
    let r = returned existing candidate s e in (r.front, r.joined)

-- Where a candidate is accepted, the suffix is shorter than the candidate by the length of every part at
-- the candidate's front that the existing text ends in, or by more.
pub continuation_removes_overlap :
    (existing candidate s : Text) (size : ℕ)
    → continuation_suffix existing candidate ≡ some s
    → size ≤ length candidate
    → ends_with existing (take size candidate) ≡ true
    → length s + size ≤ length candidate
continuation_removes_overlap existing candidate s size e =
    (returned existing candidate s e).longest size
