-- ===== src/Protocol/Frame.antt =====
-- runtime/protocol/stage.cpp: the binary frame around the metadata and the payload of a stage message,
-- and the operation that stage_control.cpp reads from it. A frame is a list of bytes; `x >> k & 0xff`
-- is written `x / 2 ^ k % 256`.
pub mod Header
pub mod Decodes
use Prim.Native.Nat.{bit_and, bit_xor}
use jetsonfabric.Base.{
  ◌+◌, ◌-◌, ◌*◌, ◌/◌, ◌%◌, ◌^◌, ℕ, zero, suc, pos, ℤ-discrete, to_string, Bool, false, not, ◌&&◌,
  ◌||◌, Option, none, some, String, ◌<>◌, Bytes, [], ◌∷◌, ◌++◌, length, take, drop, get_or, test,
  string_discrete, ltb, ◌==◌, if◌then◌else◌,
}
use jetsonfabric.Inference.{max_payload_bytes}
use jetsonfabric.Protocol.Control.{validate_stage_operation_name}
use jetsonfabric.Protocol.Fields.{
  parse_metadata, extract_int, extract_int64, extract_u32, extract_string,
}
use jetsonfabric.Protocol.Json.{
  Checked, ok, invalid, json_failure, ◌>>=◌, ◌>>◌, reject_if, Json, Field.text, number,
}
use jetsonfabric.Protocol.Message.{stage_wire_version, stage_wire_transport}

abbrev pub header_size : ℕ
header_size = 20

abbrev pub max_metadata_bytes : ℕ
max_metadata_bytes = 1048576

-- "JFST"
abbrev pub magic : Bytes
magic = 74 ∷ 70 ∷ 83 ∷ 84 ∷ []

-- The byte at a place of the frame.
abbrev pub at : Bytes → ℕ → ℕ
at s i = get_or s i 0

unfoldable pub read_u16_be : Bytes → ℕ → ℕ
read_u16_be s i = at s i * 2 ^ 8 + at s (i + 1)

unfoldable pub read_u32_be : Bytes → ℕ → ℕ
read_u32_be s i = at s i * 2 ^ 24 + at s (i + 1) * 2 ^ 16 + at s (i + 2) * 2 ^ 8 + at s (i + 3)

-- Eight rounds of `value << 8 | data[i]` on uint64_t.
unfoldable pub shift_in : ℕ → Bytes → ℕ → ℕ
shift_in zero s value = value
shift_in (suc n) [] value = shift_in n [] (value * 2 ^ 8 % 2 ^ 64)
shift_in (suc n) (b ∷ s) value = shift_in n s (value * 2 ^ 8 % 2 ^ 64 + b)

unfoldable pub read_u64_be : Bytes → ℕ → ℕ
unfolding shift_in
read_u64_be s i = shift_in 8 (drop i s) 0

unfoldable pub append_u16_be : Bytes → ℕ → Bytes
append_u16_be out value = out ++ (value / 2 ^ 8 % 256 ∷ value % 256 ∷ [])

unfoldable pub append_u32_be : Bytes → ℕ → Bytes
append_u32_be out value =
    out ++ (value / 2 ^ 24 % 256 ∷ value / 2 ^ 16 % 256 ∷ value / 2 ^ 8 % 256 ∷ value % 256 ∷ [])

unfoldable pub append_u64_be : Bytes → ℕ → Bytes
append_u64_be out value =
    out
    ++ (value / 2 ^ 56 % 256
        ∷ value / 2 ^ 48 % 256
        ∷ value / 2 ^ 40 % 256
        ∷ value / 2 ^ 32 % 256
        ∷ value / 2 ^ 24 % 256
        ∷ value / 2 ^ 16 % 256
        ∷ value / 2 ^ 8 % 256
        ∷ value % 256
        ∷ [])

-- The inner loop: one bit a round; the mask is 0U - (crc & 1U).
unfoldable pub crc_bits : ℕ → ℕ → ℕ
crc_bits zero crc = crc
crc_bits (suc n) crc =
    let mask = (2 ^ 32 - crc % 2) % 2 ^ 32 in
    crc_bits n (bit_xor (crc / 2) (bit_and 0xedb88320 mask))

unfoldable pub crc_bytes : Bytes → ℕ → ℕ
unfolding crc_bits
crc_bytes [] crc = crc
crc_bytes (b ∷ s) crc = crc_bytes s (crc_bits 8 (bit_xor crc b))

unfoldable pub crc32 : Bytes → ℕ
unfolding crc_bytes
crc32 payload = 2 ^ 32 - 1 - crc_bytes payload (2 ^ 32 - 1)

unfoldable pub has_magic : Bytes → Bool
has_magic (a ∷ b ∷ c ∷ d ∷ rest) = (a == 74) && (b == 70) && (c == 83) && (d == 84)
has_magic _ = false

module _ (json : Json) where
  open json use {Value, parse, find, is_null, is_string, get_string, Object, put, dump}

  pub record DecodedFrame : Type 0 where
    pub metadata : Value
    pub payload : Bytes

  -- What the metadata has to say of the frame.
  unfoldable pub check_metadata : Value → ℕ → Bytes → Checked (Unit {0})
  check_metadata metadata version payload = do
    declared_version ← extract_int json metadata "protocol_version" (pos 0)
    reject_if (not (test (ℤ-discrete declared_version (pos version))))
        "metadata protocol_version does not match frame version"
    declared_bytes ← extract_int64 json metadata "payload_bytes" (pos 0)
    reject_if (not (test (ℤ-discrete declared_bytes (pos (length payload)))))
        "payload_bytes does not match frame payload length"
    checksum ← extract_u32 json metadata "payload_crc32" 0
    reject_if (not (checksum == crc32 payload)) "stagewire payload checksum mismatch"
    transport ← extract_string json metadata "transport" ""
    reject_if (not (test (string_discrete transport stage_wire_transport)))
        "invalid stagewire transport"

  unfoldable pub decode_frame : Bytes → Checked DecodedFrame
  unfolding has_magic check_metadata
  decode_frame frame = do
    reject_if (ltb (length frame) header_size) "truncated stagewire header"
    reject_if (not (has_magic frame)) "invalid stagewire magic"
    let version = read_u16_be frame 4
    reject_if (not (version == stage_wire_version))
        ("unsupported stagewire version: " <> to_string (pos version))
    reject_if (not (read_u16_be frame 6 == 0)) "stagewire flags must be zero"
    let metadata_length = read_u32_be frame 8
    let payload_length = read_u64_be frame 12
    reject_if
        ((metadata_length == 0)
          || ltb max_metadata_bytes metadata_length
          || ltb max_payload_bytes payload_length)
        "stagewire frame is too large"
    let expected = header_size + metadata_length + payload_length
    reject_if (not (expected == length frame)) (
        if ltb (length frame) expected
        then "truncated stagewire frame"
        else "stagewire frame has trailing data")
    let payload = drop (header_size + metadata_length) frame
    metadata ← parse_metadata json (take metadata_length (drop header_size frame))
    check_metadata metadata version payload
    ok (record { metadata = metadata; payload = payload })

  unfoldable pub frame_metadata : Object → Bytes → ℕ → Object
  frame_metadata metadata payload payload_checksum =
      let a = put metadata "protocol_version" (number (pos stage_wire_version)) in
      let b = put a "payload_bytes" (number (pos (length payload))) in
      let c = put b "payload_crc32" (number (pos payload_checksum)) in
      put c "transport" (text stage_wire_transport)

  unfoldable pub encode_frame_prefix : Object → Bytes → ℕ → Checked Bytes
  unfolding frame_metadata
  encode_frame_prefix metadata payload payload_checksum =
      elim (dump (frame_metadata metadata payload payload_checksum)) [
        | none ↦ json_failure
        | some metadata_text ↦ do
          reject_if
              (ltb max_metadata_bytes (length metadata_text)
                || ltb max_payload_bytes (length payload))
              "stagewire frame is too large"
          let out = append_u16_be (append_u16_be magic stage_wire_version) 0
          let sized = append_u64_be (append_u32_be out (length metadata_text)) (length payload)
          ok (sized ++ metadata_text)
      ]

  unfoldable pub operation_member : Option Value → Checked String
  operation_member none = invalid "stage operation is required"
  operation_member (some v) =
      if is_null v
      then invalid "stage operation is required"
      else if is_string v
      then ok (get_string v)
      else json_failure

  unfoldable pub metadata_operation : Bytes → Checked String
  unfolding operation_member
  metadata_operation metadata_text = elim (parse metadata_text) [
    | none ↦ json_failure
    | some metadata ↦ operation_member (find metadata "operation")
  ]

  unfoldable pub decode_stage_operation : Bytes → Checked String
  unfolding metadata_operation
  decode_stage_operation frame = do
    reject_if (ltb (length frame) header_size) "truncated stagewire header"
    let metadata_length = read_u32_be frame 8
    reject_if ((metadata_length == 0) || ltb (length frame) (header_size + metadata_length))
        "invalid stagewire metadata length"
    operation ← metadata_operation (take metadata_length (drop header_size frame))
    validate_stage_operation_name operation
    ok operation
