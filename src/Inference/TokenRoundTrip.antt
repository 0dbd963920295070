-- ===== src/Inference/TokenRoundTrip.antt =====
-- The token payloads of token_payload.cpp: writing, reading and the payload check on them.
use mathlib.Core.Path.{ap₂}
use jetsonfabric.Base.{
  ℕ, ◌+◌, ◌*◌, ◌/◌, ◌%◌, ◌^◌, ◌<◌, ◌≤◌, ◌≡◌, ◌∙◌, sym, refl, ap, ℤ, pos, negsuc, true, false, none,
  some, Bytes, List, [], ◌∷◌, ◌++◌, append_assoc, append-nil, arith, length, string_discrete, ltb,
  Bool-cases, inl, inr,
}
use jetsonfabric.Inference.{
  Payload, PayloadKind.sampled_token, PayloadKind.sampled_tokens, validate_payload, dtype_width,
  max_payload_bytes,
}
use jetsonfabric.Inference.Validity.{IsTensor, validate_payload-IsTensor}
use jetsonfabric.Inference.TokenPayload.{
  to_bits, of_bits, word_bytes, append_i32_le, read_i32_le, token_descriptor, read_tokens,
  is_vector_of, decode_token_ids, decode_single_token, sampled_token_payload, append_tokens,
  sampled_tokens_payload,
}

-- The values of int32_t.
abbrev pub IsI32 : ℤ → Type 0
IsI32 (pos n) = n < 2 ^ 31
IsI32 (negsuc n) = n < 2 ^ 31

abbrev pub AllI32 : List ℤ → Type 0
AllI32 [] = Unit {0}
AllI32 (t ∷ ts) = IsI32 t × AllI32 ts

word_again :
    (w : ℕ)
    → w < 2 ^ 32
    → (w % 256 + w / 2 ^ 8 % 256 * 2 ^ 8 + w / 2 ^ 16 % 256 * 2 ^ 16 + w / 2 ^ 24 % 256 * 2 ^ 24)
        % 2 ^ 32
      ≡ w
word_again w h = omega arith

bits_again : (t : ℤ) → IsI32 t → of_bits (to_bits t) ≡ t
unfolding of_bits to_bits
bits_again (pos n) h = ground arith
bits_again (negsuc n) h = ground arith

to_bits-lt : (t : ℤ) → to_bits t < 2 ^ 32
unfolding to_bits
to_bits-lt (pos n) = omega arith
to_bits-lt (negsuc n) = omega arith

read_again :
    (t : ℤ)
    → IsI32 t
    → read_i32_le
        (to_bits t % 256)
        (to_bits t / 2 ^ 8 % 256)
        (to_bits t / 2 ^ 16 % 256)
        (to_bits t / 2 ^ 24 % 256)
      ≡ t
unfolding read_i32_le
read_again t h = ap of_bits (word_again (to_bits t) (to_bits-lt t)) ∙ bits_again t h

-- The bytes of a list of tokens.
spell : List ℤ → Bytes
spell [] = []
spell (t ∷ ts) = word_bytes (to_bits t) ++ spell ts

append_tokens-spell : (out : Bytes) (ts : List ℤ) → append_tokens out ts ≡ out ++ spell ts
unfolding append_tokens append_i32_le spell
append_tokens-spell out [] = sym (append-nil out)
append_tokens-spell out (t ∷ ts) =
    append_tokens-spell (out ++ word_bytes (to_bits t)) ts
    ∙ append_assoc out (word_bytes (to_bits t)) (spell ts)

read_tokens-spell : (ts : List ℤ) → AllI32 ts → read_tokens (spell ts) ≡ ts
unfolding read_tokens spell
read_tokens-spell [] h = refl
read_tokens-spell (t ∷ ts) h = ap₂ ◌∷◌ (read_again t h.0) (read_tokens-spell ts h.1)

length-spell : (ts : List ℤ) → length (spell ts) ≡ 4 * length ts
unfolding spell
length-spell [] = omega arith
length-spell (t ∷ ts) = omega (arith, length-spell ts)

-- A payload with the descriptor of `count` words and as many words is decoded to them.
decode_words :
    (p : Payload) (ts : List ℤ)
    → p.tensor ≡ token_descriptor (length ts)
    → p.bytes ≡ spell ts
    → 0 < length ts
    → AllI32 ts
    → decode_token_ids p ≡ some ts
unfolding decode_token_ids token_descriptor is_vector_of string_discrete
decode_words p ts e b h all = rw (e, b, read_tokens-spell ts all) (ground (arith, length-spell ts))

-- For a list of int32_t values, the payload of sampled tokens is decoded to the same tokens if
-- there are two or more; with one value or none there is no payload.
pub decode-sampled_tokens :
    (ts : List ℤ)
    → AllI32 ts
    → (elim (sampled_tokens_payload ts) [ none ↦ none | some p ↦ decode_token_ids p ])
      ≡ (elim (ltb (length ts) 2) [ true ↦ none | false ↦ some ts ])
unfolding sampled_tokens_payload
decode-sampled_tokens ts all = elim (Bool-cases (ltb (length ts) 2)) [
  | inl few ↦ rw few
  | inr enough ↦ rw enough (decode_words _ ts refl (append_tokens-spell [] ts) (ground arith) all)
]

decode_single_of :
    (p : Payload) (t : ℤ) → decode_token_ids p ≡ some (t ∷ []) → decode_single_token p ≡ some t
unfolding decode_single_token
decode_single_of p t h = ground arith

-- The payload of a sampled int32_t token is decoded to that token.
pub decode_single-sampled_token :
    (t : ℤ) → IsI32 t → decode_single_token (sampled_token_payload t) ≡ some t
unfolding sampled_token_payload append_i32_le spell
decode_single-sampled_token t h =
    decode_single_of (sampled_token_payload t) t
      (decode_words (sampled_token_payload t) (t ∷ []) refl refl (omega arith) (h, tt))

words_IsTensor :
    (p : Payload) (ts : List ℤ)
    → p.encoding ≡ ""
    → p.tensor ≡ token_descriptor (length ts)
    → p.bytes ≡ spell ts
    → 0 < length ts
    → 4 * length ts ≤ max_payload_bytes
    → (p.kind ≡ sampled_token → length ts ≡ 1)
    → (p.kind ≡ sampled_tokens → 2 ≤ length ts)
    → IsTensor p
unfolding token_descriptor dtype_width string_discrete
words_IsTensor p ts plain e b some_there small one many = record {
  plain = plain;
  typed = rw e (omega arith);
  shaped = rw e (cc);
  order = rw e;
  rows = rw e;
  positive = rw e (some_there, tt);
  sized = rw (e, b) (omega (arith, length-spell ts));
  bounded = rw b (omega (arith, length-spell ts));
  one_token = λ k. rw e (omega (arith, one k));
  many_tokens = λ k. rw e (omega (arith, many k));
}

one_valid : (t : ℤ) → validate_payload (sampled_token_payload t) ≡ ""
unfolding sampled_token_payload append_i32_le spell
one_valid t = (validate_payload-IsTensor (sampled_token_payload t) (ground arith)).1 (
    words_IsTensor (sampled_token_payload t) (t ∷ []) refl refl refl (omega arith) (omega arith)
      (λ k. refl) (λ k. absurd (cc)))

many_valid :
    (ts : List ℤ) (p : Payload)
    → sampled_tokens_payload ts ≡ some p
    → 4 * length ts ≤ max_payload_bytes
    → validate_payload p ≡ ""
unfolding sampled_tokens_payload
many_valid ts p e h = (validate_payload-IsTensor p (ground arith)).1 (
    words_IsTensor p ts (ground arith) (ground arith) (ground (arith, append_tokens-spell [] ts))
      (ground arith) h (λ k. absurd (ground arith)) (λ k. ground arith))

-- The payload of a sampled token passes the payload check, and so does a payload of sampled tokens
-- whose words are within the limit of 512 MiB.
pub token_payloads_valid :
    (t : ℤ) (ts : List ℤ) (p : Payload)
    → sampled_tokens_payload ts ≡ some p
    → 4 * length ts ≤ max_payload_bytes
    → (validate_payload (sampled_token_payload t) ≡ "") × (validate_payload p ≡ "")
token_payloads_valid t ts p e h = (one_valid t, many_valid ts p e h)
