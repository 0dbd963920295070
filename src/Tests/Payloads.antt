-- ===== src/Tests/Payloads.antt =====
-- Payload checks, the token payloads and UTF-8 at concrete inputs.
use jetsonfabric.Base.{
  length, ltb, ◌≡◌, ◌≢◌, ◌↔◌, refl, arith, none, some, List, [], ◌∷◌, pos, negsuc, ℤ, Bytes, true,
  false,
}
use jetsonfabric.Inference.{PayloadKind, sampled_tokens, Payload, activation, validate_payload}
use jetsonfabric.Inference.Validity.{IsTensor, validate_payload-IsTensor}
use jetsonfabric.Inference.TokenPayload.{
  to_bits, to_bits, token_descriptor, append_i32_le, append_tokens, sampled_tokens_payload,
  decode_token_ids, sampled_token_payload, decode_single_token,
}
use jetsonfabric.Inference.TokenRoundTrip.{
  AllI32, decode-sampled_tokens, decode_single-sampled_token, token_payloads_valid,
}
use jetsonfabric.Protocol.Utf8.{
  validate_sequence, sequence_width, complete_utf8_prefix, is_valid_utf8, complete,
}
use jetsonfabric.Protocol.Utf8.WellFormed.{WellFormed, Split, complete_utf8_prefix-Split}
use jetsonfabric.Protocol.Utf8.Accepts.{is_valid_utf8-WellFormed}

abbrev hidden : Payload
hidden = record {
  kind = activation;
  encoding = "";
  tensor = record {
    dtype = "f16";
    shape = pos 1 ∷ pos 2 ∷ [];
    byte_order = "little";
    layout = "row_major";
  };
  bytes = 0 ∷ 60 ∷ 0 ∷ 188 ∷ [];
}

activation-ne-text : activation ≢ PayloadKind.text
activation-ne-text e = cc

validate_payload-IsTensor_example : (validate_payload hidden ≡ "") ↔ IsTensor hidden
validate_payload-IsTensor_example = validate_payload-IsTensor hidden activation-ne-text

abbrev draft : List ℤ
draft = pos 151643 ∷ negsuc 0 ∷ pos 2147483647 ∷ []

draft_fits : AllI32 draft
draft_fits = (omega arith, (omega arith, (omega arith, tt)))

decode-sampled_tokens_example :
    elim (sampled_tokens_payload draft) [ none ↦ none | some p ↦ decode_token_ids p ]
    ≡ elim (ltb (length draft) 2) [ true ↦ none | false ↦ some draft ]
decode-sampled_tokens_example = decode-sampled_tokens draft draft_fits

decode_single-sampled_token_example :
    decode_single_token (sampled_token_payload (negsuc 41)) ≡ some (negsuc 41)
decode_single-sampled_token_example = decode_single-sampled_token (negsuc 41) (omega arith)

abbrev draft_payload : Payload
draft_payload = record {
  kind = sampled_tokens;
  encoding = "";
  tensor = record {
    dtype = "i32";
    shape = pos 3 ∷ [];
    byte_order = "little";
    layout = "row_major";
  };
  bytes = 91 ∷ 80 ∷ 2 ∷ 0 ∷ 255 ∷ 255 ∷ 255 ∷ 255 ∷ 255 ∷ 255 ∷ 255 ∷ 127 ∷ [];
}

draft_made : sampled_tokens_payload draft ≡ some draft_payload
unfolding sampled_tokens_payload append_tokens append_i32_le token_descriptor to_bits
draft_made = refl

token_payloads_valid_example :
    (validate_payload (sampled_token_payload (pos 7)) ≡ "") × (validate_payload draft_payload ≡ "")
token_payloads_valid_example =
    token_payloads_valid (pos 7) draft draft_payload draft_made (omega arith)

-- "a€" and the first two bytes of another sign.
abbrev euro : Bytes
euro = 0x61 ∷ 0xe2 ∷ 0x82 ∷ 0xac ∷ 0xe2 ∷ 0x82 ∷ []

euro_prefix : complete_utf8_prefix euro ≡ complete 4
unfolding complete_utf8_prefix sequence_width validate_sequence
euro_prefix = refl

complete_utf8_prefix-Split_example : Split euro 0 4
complete_utf8_prefix-Split_example = complete_utf8_prefix-Split euro 4 euro_prefix

is_valid_utf8-WellFormed_example : (is_valid_utf8 euro ≡ true) ↔ WellFormed euro
is_valid_utf8-WellFormed_example = is_valid_utf8-WellFormed euro
