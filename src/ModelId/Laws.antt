-- ===== src/ModelId/Laws.antt =====
-- Texts with a separator or a suffix, on which the decoding of model ids rests.
pub mod RoundTrip
use agentic_model_gateway.Base.{
  ℕ, zero, suc, ◌+◌, ◌-◌, ◌≡◌, refl, sym, ap, subst, ◌∙◌, Bool, true, false, not, ◌&&◌, Option,
  none, some, List, [], ◌∷◌, ◌++◌, length, ◌==◌, if◌then◌else◌, contains, arith, length-append,
  Bool-cases, inl, inr,
}
use mathlib.Core.List.{append-nil, append_assoc}
use agentic_model_gateway.Stream.Slices.{
  drop, drop-append, ends_with, length-drop, take, take-append, take-drop, without_last,
}
use agentic_model_gateway.Stream.Text.{Text, is_empty, same_text}
use agentic_model_gateway.ModelId.{
  gateway_prefix, no_thinking_prefix, one_m_suffix, slash, DecodedGatewayModelId, gateway_model_id,
  no_thinking_gateway_model_id, one_m_gateway_model_id, Partition, put_before, partition,
  reasoning_off, decode_provider, decode_prefix, decode_gateway_model_id,
}

same_text_refl : (s : Text) → same_text s s ≡ true
unfolding same_text
same_text_refl [] = refl
same_text_refl (c ∷ s) = ground (arith, same_text_refl s)

pub same_text_eq : (s t : Text) → same_text s t ≡ true → s ≡ t
unfolding same_text
same_text_eq [] [] e = refl
same_text_eq [] (d ∷ t) e = ground arith
same_text_eq (c ∷ s) [] e = ground arith
same_text_eq (c ∷ s) (d ∷ t) e = ground (arith, same_text_eq s t)

pub partition-append :
    (before behind : Text)
    → contains slash before ≡ false
    → partition (before ++ slash ∷ behind)
      ≡ record { before = before; has_separator = true; behind = behind }
unfolding partition contains
partition-append [] behind h = refl
partition-append (c ∷ before) behind h = ground (arith, partition-append before behind)

pub partition-whole :
    (s : Text)
    → (partition s).has_separator ≡ true
    → s ≡ (partition s).before ++ slash ∷ (partition s).behind
unfolding partition
partition-whole [] h = ground arith
partition-whole (c ∷ s) h = ground (arith, partition-whole s)

front_length : (s t : Text) → length (s ++ t) - length t ≡ length s
front_length s t = omega (arith, length-append s t)

pub ends_with-append : (s suffix : Text) → ends_with (s ++ suffix) suffix ≡ true
unfolding ends_with
ends_with-append s suffix =
    ap (λ n. same_text (drop n (s ++ suffix)) suffix) (front_length s suffix)
    ∙ ap (λ r. same_text r suffix) (drop-append s suffix)
    ∙ same_text_refl suffix

pub without_last-append : (s suffix : Text) → without_last (length suffix) (s ++ suffix) ≡ s
unfolding without_last
without_last-append s suffix =
    ap (λ n. take n (s ++ suffix)) (front_length s suffix) ∙ take-append s suffix

pub ends_with-whole :
    (s suffix : Text) → ends_with s suffix ≡ true → s ≡ without_last (length suffix) s ++ suffix
unfolding ends_with without_last
ends_with-whole s suffix e =
    sym (take-drop (length s - length suffix) s)
    ∙ ap (λ r. take (length s - length suffix) s ++ r) (same_text_eq _ suffix e)
