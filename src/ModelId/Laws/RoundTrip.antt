-- ===== src/ModelId/Laws/RoundTrip.antt =====
-- Encoding and decoding of the advertised model ids.
use agentic_model_gateway.Base.{
  ◌≡◌, refl, sym, ap, ◌∙◌, Bool, true, false, some, [], ◌∷◌, ◌++◌, if◌then◌else◌, contains, arith,
  Bool-cases, Option-cases, inl, inr,
}
use mathlib.Core.List.{append-nil}
use agentic_model_gateway.Stream.Slices.{ends_with, without_last}
use agentic_model_gateway.Stream.Text.{Text, is_empty, same_text}
use agentic_model_gateway.ModelId.{
  gateway_prefix, no_thinking_prefix, one_m_suffix, slash, DecodedGatewayModelId, gateway_model_id,
  no_thinking_gateway_model_id, one_m_gateway_model_id, Partition, partition, reasoning_off,
  decode_provider, decode_prefix, decode_gateway_model_id,
}
use agentic_model_gateway.ModelId.Laws.{
  same_text_eq, partition-append, partition-whole, ends_with-append, without_last-append,
  ends_with-whole,
}

-- `provider/model`
abbrev pub model_ref : Text → Text → Text
model_ref provider model = provider ++ slash ∷ model

decode-ref :
    (off one_m : Bool) (provider model : Text)
    → contains slash provider ≡ false
    → is_empty model ≡ false
    → decode_provider off one_m (partition (model_ref provider model))
      ≡ some (record {
        provider_id = provider;
        provider_model = model;
        force_reasoning_off = off;
        one_m_context = one_m;
      })
unfolding decode_provider
decode-ref off one_m provider model h filled =
    ap (decode_provider off one_m) (partition-append provider model h) ∙ rw filled refl

decode-prefix :
    (prefix ref : Text) (off one_m : Bool)
    → contains slash prefix ≡ false
    → reasoning_off prefix ≡ some off
    → decode_prefix one_m (partition (prefix ++ slash ∷ ref))
      ≡ decode_provider off one_m (partition ref)
unfolding decode_prefix
decode-prefix prefix ref off one_m h known =
    ap (decode_prefix one_m) (partition-append prefix ref h) ∙ rw known refl

decode-plain :
    (s : Text)
    → ends_with s one_m_suffix ≡ false
    → decode_gateway_model_id s ≡ decode_prefix false (partition s)
unfolding decode_gateway_model_id
decode-plain s e = ap (λ b. decode_prefix b (partition (if b then without_last 4 s else s))) e

decode-one_m :
    (s : Text) → decode_gateway_model_id (s ++ one_m_suffix) ≡ decode_prefix true (partition s)
unfolding decode_gateway_model_id
decode-one_m s =
    let whole = s ++ one_m_suffix in
    ap (λ b. decode_prefix b (partition (if b then without_last 4 whole else whole)))
      (ends_with-append s one_m_suffix)
    ∙ ap (λ u. decode_prefix true (partition u)) (without_last-append s one_m_suffix)

-- A reference whose provider has no slash, and whose model is not empty, is decoded from each of its
-- advertised ids, with the id's variant; an id without the suffix must not end in it by chance.
pub decode_advertised :
    (provider model : Text)
    → contains slash provider ≡ false
    → is_empty model ≡ false
    → ends_with (gateway_model_id (model_ref provider model)) one_m_suffix ≡ false
    → ends_with (no_thinking_gateway_model_id (model_ref provider model)) one_m_suffix ≡ false
    → let decoded : Bool → Bool → DecodedGatewayModelId = λ off one_m. record {
      provider_id = provider;
      provider_model = model;
      force_reasoning_off = off;
      one_m_context = one_m;
    } in
      (decode_gateway_model_id (gateway_model_id (model_ref provider model))
        ≡ some (decoded false false))
      × (decode_gateway_model_id (no_thinking_gateway_model_id (model_ref provider model))
          ≡ some (decoded true false))
      × (decode_gateway_model_id (one_m_gateway_model_id (model_ref provider model))
          ≡ some (decoded false true))
unfolding gateway_model_id no_thinking_gateway_model_id one_m_gateway_model_id contains
    reasoning_off same_text
decode_advertised provider model h filled plain off = (
  decode-plain _ plain
      ∙ decode-prefix gateway_prefix (model_ref provider model) false false refl refl
      ∙ decode-ref false false provider model h filled,
  decode-plain _ off
      ∙ decode-prefix no_thinking_prefix (model_ref provider model) true false refl refl
      ∙ decode-ref true false provider model h filled,
  decode-one_m _
      ∙ decode-prefix gateway_prefix (model_ref provider model) false true refl refl
      ∙ decode-ref false true provider model h filled,
)

-- The parts of a decoded record as one id: the prefix of its variant, the reference, and the suffix where
-- it has one. With reasoning off and the suffix, it is an id that is decoded but not advertised.
unfoldable pub id_of : DecodedGatewayModelId → Text
id_of d =
    let ref = model_ref d.provider_id d.provider_model in
    (if d.force_reasoning_off then no_thinking_gateway_model_id ref else gateway_model_id ref)
    ++ (if d.one_m_context then one_m_suffix else [])

abbrev prefix_of : Bool → Text
prefix_of off = if off then no_thinking_prefix else gateway_prefix

reasoning_off-prefix :
    (prefix : Text) (off : Bool) → reasoning_off prefix ≡ some off → prefix ≡ prefix_of off
unfolding reasoning_off
reasoning_off-prefix prefix off e =
    ground (arith, same_text_eq prefix gateway_prefix, same_text_eq prefix no_thinking_prefix)

decode_provider-whole :
    (off one_m : Bool) (s : Text) (d : DecodedGatewayModelId)
    → decode_provider off one_m (partition s) ≡ some d
    → (s ≡ model_ref d.provider_id d.provider_model)
      × (d.force_reasoning_off ≡ off)
      × (d.one_m_context ≡ one_m)
unfolding decode_provider
decode_provider-whole off one_m s d e =
    (ground (arith, partition-whole s), ground arith, ground arith)

prefix_known :
    (one_m : Bool) (q : Partition) (d : DecodedGatewayModelId)
    → decode_prefix one_m q ≡ some d
    → (off : Bool) × (q.has_separator ≡ true)
      × (reasoning_off q.before ≡ some off)
      × (decode_provider off one_m (partition q.behind) ≡ some d)
unfolding decode_prefix
prefix_known one_m q d e = elim (Option-cases (reasoning_off q.before)) [
  | inl unknown ↦ absurd (ground (arith, unknown))
  | inr (off, known) ↦ (off, ground (arith, known), known, ground (arith, known))
]

decode_prefix-whole :
    (one_m : Bool) (s : Text) (d : DecodedGatewayModelId)
    → decode_prefix one_m (partition s) ≡ some d
    → (s ≡ prefix_of d.force_reasoning_off ++ slash ∷ model_ref d.provider_id d.provider_model)
      × (d.one_m_context ≡ one_m)
decode_prefix-whole one_m s d e =
    let (off, separated, known, rest) = prefix_known one_m (partition s) d e in
    let (ref, same_off, same_one_m) = decode_provider-whole off one_m (partition s).behind d rest in
    (
      partition-whole s separated
          ∙ ap (λ prefix. prefix ++ slash ∷ (partition s).behind)
              (reasoning_off-prefix (partition s).before off known ∙ ap prefix_of (sym same_off))
          ∙ ap (λ r. prefix_of d.force_reasoning_off ++ slash ∷ r) ref,
      same_one_m,
    )

id_of-parts :
    (s : Text) (d : DecodedGatewayModelId) (one_m : Bool)
    → s ≡ prefix_of d.force_reasoning_off ++ slash ∷ model_ref d.provider_id d.provider_model
    → d.one_m_context ≡ one_m
    → id_of d ≡ s ++ (if one_m then one_m_suffix else [])
unfolding id_of gateway_model_id no_thinking_gateway_model_id
id_of-parts s d one_m e same =
    ap (λ b. encoded ++ (if b then one_m_suffix else [])) same
    ∙ ap (λ r. r ++ (if one_m then one_m_suffix else [])) (variant d.force_reasoning_off ∙ sym e)
  where
    ref : Text
    ref = model_ref d.provider_id d.provider_model

    encoded : Text
    encoded =
        if d.force_reasoning_off then no_thinking_gateway_model_id ref else gateway_model_id ref

    variant :
        (off : Bool)
        → (if off then no_thinking_gateway_model_id ref else gateway_model_id ref)
          ≡ prefix_of off ++ slash ∷ ref
    variant true = refl
    variant false = refl

-- An id that is decoded is, in this order, the prefix for whether reasoning is forced off, a slash, the
-- provider, a slash, the model, and the suffix if it is for the one-million context.
pub decoded_id :
    (s : Text) (d : DecodedGatewayModelId) → decode_gateway_model_id s ≡ some d → id_of d ≡ s
unfolding decode_gateway_model_id
decoded_id s d e = elim (Bool-cases (ends_with s one_m_suffix)) [
  | inl suffixed ↦
      let (whole, same) = decode_prefix-whole true (without_last 4 s) d (
        ap (λ b. decode_prefix b (partition (if b then without_last 4 s else s))) (sym suffixed)
        ∙ e) in
      id_of-parts (without_last 4 s) d true whole same
      ∙ sym (ends_with-whole s one_m_suffix suffixed)
  | inr bare ↦
      let (whole, same) = decode_prefix-whole false s d (sym (decode-plain s bare) ∙ e) in
      id_of-parts s d false whole same ∙ append-nil s
]
