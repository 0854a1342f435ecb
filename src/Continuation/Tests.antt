-- ===== src/Continuation/Tests.antt =====
-- The laws of continuations at the texts `abc` and `bcd`.
use agentic_model_gateway.Base.{ℕ, ◌+◌, ◌≤◌, ◌≡◌, refl, true, some, [], ◌∷◌, ◌++◌, length, arith}
use agentic_model_gateway.Stream.Slices.{ends_with, take}
use agentic_model_gateway.Stream.Text.{Text}
use agentic_model_gateway.Continuation.{continuation_suffix}
use agentic_model_gateway.Continuation.Laws.{
  continuation_keeps_candidate, continuation_removes_overlap,
}

abbrev existing : Text
existing = 97 ∷ 98 ∷ 99 ∷ []

abbrev candidate : Text
candidate = 98 ∷ 99 ∷ 100 ∷ []

suffix_found : continuation_suffix existing candidate ≡ some (100 ∷ [])
unfolding continuation_suffix
suffix_found = refl

overlap_stands : ends_with existing (take 2 candidate) ≡ true
unfolding ends_with take
overlap_stands = refl

continuation_keeps_candidate_example : (front : Text) × (existing ++ 100 ∷ [] ≡ front ++ candidate)
continuation_keeps_candidate_example =
    continuation_keeps_candidate existing candidate (100 ∷ []) suffix_found

continuation_removes_overlap_example : length {A = ℕ} (100 ∷ []) + 2 ≤ length candidate
continuation_removes_overlap_example =
    continuation_removes_overlap existing candidate (100 ∷ []) 2 suffix_found (omega arith)
      overlap_stands
