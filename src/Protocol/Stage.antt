-- ===== src/Protocol/Stage.antt =====
-- runtime/protocol/stage.cpp: stage requests and responses as frames. Where the C++ takes a field of the
-- request the model reads the record; the metadata is built by the same assignments in the same order.
pub mod Identity
pub mod Optional
pub mod Writable
pub mod Prefix
pub mod Request
pub mod Response
use jetsonfabric.Base.{
  ◌≡◌, ◌+◌, ◌*◌, ◌/◌, ◌%◌, ◌^◌, ◌≤◌, ℕ, zero, suc, ℤ, pos, negsuc, leb_ℤ, ltb_ℤ, ℤ-discrete, Bool,
  true, false, not, ◌&&◌, ◌||◌, Option, none, some, String, ◌<>◌, codes, Bytes, List, [], ◌∷◌, ◌++◌,
  length, test, string_discrete, ltb, leb, ◌==◌, if◌then◌else◌,
}
use jetsonfabric.Inference.{max_payload_bytes}
use jetsonfabric.Protocol.Json.{Checked, ok, invalid, ◌>>=◌, ◌>>◌, reject_if, Json, Field}
use jetsonfabric.Protocol.Message.{max_stage_tokens}

abbrev pub is_text : String → String → Bool
is_text s t = test (string_discrete s t)

unfoldable pub is_hex : ℕ → Bool
is_hex c = leb 48 c && leb c 57 || leb 65 c && leb c 70 || leb 97 c && leb c 102

unfoldable pub all_hex : Bytes → Bool
unfolding is_hex
all_hex [] = true
all_hex (c ∷ cs) = is_hex c && all_hex cs

unfoldable pub validate_managed : String → ℕ → String → Checked (Unit {0})
unfolding all_hex
validate_managed deployment_id deployment_epoch model_sha256 = do
  reject_if (is_text deployment_id "" || (deployment_epoch == 0))
      "managed stagewire identity requires deployment_id and positive deployment_epoch"
  reject_if (not (length (codes model_sha256) == 64) || not (all_hex (codes model_sha256)))
      "managed stagewire identity requires a 64-character hexadecimal model_sha256"

unfoldable pub validate_deployment_identity : String → ℕ → String → Checked (Unit {0})
unfolding validate_managed
validate_deployment_identity deployment_id deployment_epoch model_sha256 =
    if is_text deployment_id "" && (deployment_epoch == 0) && is_text model_sha256 ""
    then ok tt
    else validate_managed deployment_id deployment_epoch model_sha256

unfoldable pub dtype_width : String → Checked ℕ
dtype_width t =
    if is_text t "u8" || is_text t "i8"
    then ok 1
    else if is_text t "f16" || is_text t "bf16"
    then ok 2
    else if is_text t "i32" || is_text t "u32" || is_text t "f32"
    then ok 4
    else if is_text t "i64" || is_text t "u64" || is_text t "f64"
    then ok 8
    else invalid ("unsupported dtype: " <> t)

unfoldable pub shape_is_empty : List ℤ → Bool
shape_is_empty [] = true
shape_is_empty (d ∷ shape) = false

-- The loop over the dimensions, on uint64_t.
unfoldable pub shape_count : List ℤ → ℕ → Checked ℕ
shape_count [] count = ok count
shape_count (negsuc n ∷ shape) count = invalid "invalid or oversized tensor shape"
shape_count (pos zero ∷ shape) count = invalid "invalid or oversized tensor shape"
shape_count (pos (suc n) ∷ shape) count =
    if ltb (max_payload_bytes / suc n) count
    then invalid "invalid or oversized tensor shape"
    else shape_count shape (count * suc n % 2 ^ 64)

-- A payload kind other than text.
unfoldable pub is_tensor_kind : String → Bool
is_tensor_kind kind =
    is_text kind "tokens"
    || is_text kind "activation"
    || is_text kind "sampled_token"
    || is_text kind "sampled_tokens"

unfoldable pub validate_text_metadata :
    String → String → List ℤ → String → String → Checked (Unit {0})
unfolding shape_is_empty
validate_text_metadata encoding dtype shape byte_order layout = do
  reject_if (not (is_text encoding "utf-8")) "text payload encoding must be utf-8"
  reject_if
      (not (is_text dtype "")
        || not (shape_is_empty shape)
        || not (is_text byte_order "")
        || not (is_text layout ""))
      "text payload must not declare tensor metadata"

unfoldable pub validate_shaped : String → String → List ℤ → String → String → ℕ → Checked (Unit {0})
unfolding shape_is_empty is_tensor_kind shape_count dtype_width
validate_shaped kind dtype shape byte_order layout payload_size = do
  reject_if (not (is_tensor_kind kind)) ("invalid payload_kind: " <> kind)
  reject_if (is_text dtype "" || shape_is_empty shape) "tensor payload requires dtype and shape"
  reject_if (not (is_text byte_order "little") || not (is_text layout "row_major"))
      "tensor payload requires little byte order and row_major layout"
  count ← shape_count shape 1
  width ← dtype_width dtype
  reject_if (ltb (max_payload_bytes / width) count || not (count * width % 2 ^ 64 == payload_size))
      "tensor shape and dtype do not match payload length"

unfoldable pub validate_tensor_metadata :
    String → String → String → List ℤ → String → String → ℕ → Checked (Unit {0})
unfolding validate_text_metadata validate_shaped
validate_tensor_metadata kind encoding dtype shape byte_order layout payload_size =
    if is_text kind "text"
    then validate_text_metadata encoding dtype shape byte_order layout
    else validate_shaped kind dtype shape byte_order layout payload_size

unfoldable pub validate_max_tokens : ℤ → Checked ℤ
validate_max_tokens value = do
  reject_if (leb_ℤ value (pos 0) || ltb_ℤ (pos max_stage_tokens) value)
      "max_tokens must be between 1 and 1024"
  ok value

-- `if (condition) body[key] = field;`
module _ (json : Json) where
  open json use {Object, put}

  unfoldable pub put_if : Bool → Object → String → Field → Object
  put_if c body key field = if c then put body key field else body
