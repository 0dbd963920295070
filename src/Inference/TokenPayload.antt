-- ===== src/Inference/TokenPayload.antt =====
-- runtime/inference/token_payload.cpp: tokens as little-endian 32-bit words. `x >> k & 0xff` is
-- written `x / 2 ^ k % 256`, and the `|` of bytes shifted apart is their sum.
use jetsonfabric.Base.{
  ℕ, ◌+◌, ◌-◌, ◌*◌, ◌/◌, ◌%◌, ◌^◌, ℤ, pos, negsuc, Bool, false, not, ◌&&◌, ◌||◌, Option, none, some,
  String, Bytes, List, [], ◌∷◌, ◌++◌, length, test, string_discrete, ltb, ◌==◌, if◌then◌else◌,
}
use jetsonfabric.Inference.{
  Payload, PayloadKind.sampled_token, PayloadKind.sampled_tokens, TensorDescriptor,
}

-- static_cast between int32_t and uint32_t.
unfoldable pub to_bits : ℤ → ℕ
to_bits (pos n) = n % 2 ^ 32
to_bits (negsuc n) = 2 ^ 32 - 1 - n % 2 ^ 32

unfoldable pub of_bits : ℕ → ℤ
of_bits w = if ltb w (2 ^ 31) then pos w else negsuc (2 ^ 32 - w - 1)

abbrev pub word_bytes : ℕ → Bytes
word_bytes w = w % 256 ∷ w / 2 ^ 8 % 256 ∷ w / 2 ^ 16 % 256 ∷ w / 2 ^ 24 % 256 ∷ []

unfoldable pub append_i32_le : Bytes → ℤ → Bytes
append_i32_le output value = output ++ word_bytes (to_bits value)

unfoldable pub read_i32_le : ℕ → ℕ → ℕ → ℕ → ℤ
read_i32_le a b c d = of_bits ((a + b * 2 ^ 8 + c * 2 ^ 16 + d * 2 ^ 24) % 2 ^ 32)

unfoldable pub token_descriptor : ℕ → TensorDescriptor
token_descriptor count = record {
  dtype = "i32";
  shape = pos count ∷ [];
  byte_order = "little";
  layout = "row_major";
}

-- The loop of `decode_token_ids`, one word a round; the caller has checked that words fill the bytes.
unfoldable pub read_tokens : Bytes → List ℤ
read_tokens (a ∷ b ∷ c ∷ d ∷ rest) = read_i32_le a b c d ∷ read_tokens rest
read_tokens _ = []

abbrev is_text : String → String → Bool
is_text s t = test (string_discrete s t)

-- shape.size() == 1, shape[0] > 0 and shape[0] == count
unfoldable pub is_vector_of : List ℤ → ℕ → Bool
is_vector_of (pos n ∷ []) count = ltb 0 n && (n == count)
is_vector_of _ count = false

unfoldable pub decode_token_ids : Payload → Option (List ℤ)
decode_token_ids p =
    if not (is_text p.tensor.dtype "i32") && not (is_text p.tensor.dtype "u32")
      || not (is_vector_of p.tensor.shape (length p.bytes / 4))
      || not (is_text p.tensor.byte_order "little")
      || not (is_text p.tensor.layout "row_major")
      || not (length p.bytes % 4 == 0)
    then none
    else some (read_tokens p.bytes)

unfoldable pub decode_single_token : Payload → Option ℤ
decode_single_token p = elim (decode_token_ids p) [
  | none ↦ none
  | some tokens ↦ elim tokens [ [] ↦ none | t ∷ rest ↦ elim rest [ [] ↦ some t | u ∷ more ↦ none ] ]
]

unfoldable pub sampled_token_payload : ℤ → Payload
sampled_token_payload token = record {
  kind = sampled_token;
  encoding = "";
  tensor = token_descriptor 1;
  bytes = append_i32_le [] token;
}

unfoldable pub append_tokens : Bytes → List ℤ → Bytes
append_tokens output [] = output
append_tokens output (t ∷ tokens) = append_tokens (append_i32_le output t) tokens

unfoldable pub sampled_tokens_payload : List ℤ → Option Payload
sampled_tokens_payload tokens =
    if ltb (length tokens) 2
    then none
    else some (record {
      kind = sampled_tokens;
      encoding = "";
      tensor = token_descriptor (length tokens);
      bytes = append_tokens [] tokens;
    })
