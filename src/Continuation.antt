-- ===== src/Continuation.antt =====
-- core/anthropic/streaming/recovery.py: `continuation_suffix`, by which a stream that was cut off goes on
-- with the answer to a recovery request.
use Prim.Native.Nat.{◌/◌}
use agentic_model_gateway.Base.{
  ℕ, zero, suc, min, max, Bool, true, false, Option, none, some, List, [], length, ltb,
  if◌then◌else◌,
}
use agentic_model_gateway.Stream.Slices.{drop, ends_with, take}
use agentic_model_gateway.Stream.Text.{Text, is_empty, starts_with}
pub mod Laws
mod Tests

-- The loop over `range(max_overlap, 0, -1)`.
unfoldable pub longest_overlap : (size : ℕ) → (existing candidate : Text) → Option ℕ
unfolding ends_with take
longest_overlap zero existing candidate = none
longest_overlap (suc size) existing candidate =
    let rest = longest_overlap size existing candidate in
    if ends_with existing (take (suc size) candidate) then some (suc size) else rest

unfoldable pub behind_overlap : Option ℕ → (existing candidate : Text) → Option Text
unfolding drop
behind_overlap (some size) existing candidate = some (drop size candidate)
behind_overlap none existing candidate =
    if ltb (length candidate) (max 200 (length existing / 2)) then some candidate else none

unfoldable pub continuation_suffix : (existing candidate : Text) → Option Text
unfolding starts_with drop longest_overlap behind_overlap
continuation_suffix existing candidate =
    if is_empty candidate
    then some []
    else if is_empty existing
    then some candidate
    else if starts_with candidate existing
    then some (drop (length existing) candidate)
    else behind_overlap
        (longest_overlap (min (length existing) (length candidate)) existing candidate) existing
        candidate
