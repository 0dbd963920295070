-- ===== src/Protocol/Fields.antt =====
-- runtime/protocol/stage.cpp: how a member of the metadata is read, and what is refused.
pub mod Reads
use jetsonfabric.Base.{
  ◌-◌, ◌^◌, ℕ, ℤ, pos, negsuc, ltb_ℤ, not, ◌&&◌, ◌||◌, Option, none, some, String, ◌<>◌, Bytes,
  List, [], ◌∷◌, ltb, if◌then◌else◌,
}
use jetsonfabric.Protocol.Json.{Checked, ok, invalid, ◌>>=◌, ◌>>◌, reject_if, Json}

-- static_cast of an int64_t that is not negative to an unsigned type.
abbrev pub to_unsigned : ℤ → ℕ
to_unsigned (pos n) = n
to_unsigned (negsuc n) = 2 ^ 64 - 1 - n

abbrev pub int_min : ℤ
int_min = negsuc (2 ^ 31 - 1)

abbrev pub int_max : ℤ
int_max = pos (2 ^ 31 - 1)

module _ (json : Json) where
  open json use {
    Value, parse, parse_error, is_object, is_null, is_string, is_array, is_integer, is_unsigned,
    find, elements, get_string, get_bytes, get_int64, get_uint64,
  }

  unfoldable pub parse_metadata : Bytes → Checked Value
  parse_metadata s = elim (parse s) [
    | none ↦ invalid ("stagewire metadata must be valid JSON: " <> parse_error s)
    | some body ↦
        if is_object body then ok body else invalid "stagewire metadata must be a JSON object"
  ]

  -- A member that is missing or null is none.
  unfoldable pub optional_field : Value → String → Option Value
  optional_field body key = elim (find body key) [
    | none ↦ none
    | some v ↦ if is_null v then none else some v
  ]

  unfoldable pub json_int64_value : Value → String → Checked ℤ
  json_int64_value v key =
      if not (is_integer v) && not (is_unsigned v)
      then invalid (key <> " must be an integer")
      else elim (get_int64 v) [
        | none ↦ invalid (key <> " is outside integer range")
        | some n ↦ ok n
      ]

  unfoldable pub extract_int : Value → String → ℤ → Checked ℤ
  extract_int body key fallback = elim (optional_field body key) [
    | none ↦ ok fallback
    | some v ↦ do
      parsed ← json_int64_value v key
      reject_if (ltb_ℤ parsed int_min || ltb_ℤ int_max parsed) (key <> " is outside int range")
      ok parsed
  ]

  unfoldable pub extract_int64 : Value → String → ℤ → Checked ℤ
  extract_int64 body key fallback = elim (optional_field body key) [
    | none ↦ ok fallback
    | some v ↦ json_int64_value v key
  ]

  unfoldable pub extract_u32 : Value → String → ℕ → Checked ℕ
  extract_u32 body key fallback = do
    parsed ← extract_int64 body key (pos fallback)
    reject_if (ltb_ℤ parsed (pos 0) || ltb (2 ^ 32 - 1) (to_unsigned parsed))
        (key <> " is outside uint32 range")
    ok (to_unsigned parsed)

  unfoldable pub extract_u64 : Value → String → ℕ → Checked ℕ
  extract_u64 body key fallback = elim (optional_field body key) [
    | none ↦ ok fallback
    | some v ↦ if is_unsigned v then ok (get_uint64 v) else do
      parsed ← json_int64_value v key
      reject_if (ltb_ℤ parsed (pos 0)) (key <> " is outside uint64 range")
      ok (to_unsigned parsed)
  ]

  unfoldable pub extract_string : Value → String → String → Checked String
  extract_string body key fallback = elim (optional_field body key) [
    | none ↦ ok fallback
    | some v ↦ do reject_if (not (is_string v)) (key <> " must be a string"); ok (get_string v)
  ]

  -- The same, for a string that the program takes as its bytes.
  unfoldable pub extract_bytes : Value → String → Bytes → Checked Bytes
  extract_bytes body key fallback = elim (optional_field body key) [
    | none ↦ ok fallback
    | some v ↦ do reject_if (not (is_string v)) (key <> " must be a string"); ok (get_bytes v)
  ]

  -- The loops over the elements of an array.
  unfoldable pub unsigned_elements : String → String → ℕ → List Value → Checked (List ℕ)
  unsigned_elements key complaint maximum [] = ok []
  unsigned_elements key complaint maximum (v ∷ vs) = do
    parsed ← json_int64_value v key
    reject_if (ltb_ℤ parsed (pos 0) || ltb maximum (to_unsigned parsed)) (key <> complaint)
    rest ← unsigned_elements key complaint maximum vs
    ok (to_unsigned parsed ∷ rest)

  unfoldable pub extract_byte_string : Value → String → Checked Bytes
  extract_byte_string body key = elim (optional_field body key) [
    | none ↦ ok []
    | some v ↦ do
      reject_if (not (is_array v)) (key <> " must be a byte array")
      unsigned_elements key " contains a value outside byte range" 255 (elements v)
  ]

  unfoldable pub extract_unsigned_array : Value → String → ℕ → Checked (List ℕ)
  extract_unsigned_array body key maximum = elim (optional_field body key) [
    | none ↦ ok []
    | some v ↦ do
      reject_if (not (is_array v)) (key <> " must be an array")
      unsigned_elements key " contains an out-of-range value" maximum (elements v)
  ]

  unfoldable pub shape_elements : List Value → Checked (List ℤ)
  shape_elements [] = ok []
  shape_elements (v ∷ vs) = do
    dim ← json_int64_value v "shape"
    rest ← shape_elements vs
    ok (dim ∷ rest)

  unfoldable pub extract_shape : Value → Checked (List ℤ)
  extract_shape body = elim (optional_field body "shape") [
    | none ↦ ok []
    | some v ↦ do reject_if (not (is_array v)) "shape must be an array"; shape_elements (elements v)
  ]
