-- ===== src/Inference.antt =====
-- runtime/inference/stage.hpp and stage.cpp: what a stage takes and gives, and the checks on both.
-- A thrown std::invalid_argument is `none`, or the message where the program shows it.
pub mod Shape
pub mod Flow
pub mod Validity
pub mod TokenPayload
pub mod TokenRoundTrip
use jetsonfabric.Base.{
  ℕ, zero, suc, ◌*◌, ◌/◌, ◌%◌, ◌^◌, ℤ, pos, negsuc, ◌-ℤ◌, ltb_ℤ, leb_ℤ, ℤ-discrete, Bool, true,
  false, not, ◌&&◌, ◌||◌, Option, none, some, String, ◌<>◌, Bytes, List, [], ◌∷◌, length, test,
  is_some, string_discrete, ltb, ◌==◌, if◌then◌else◌,
}

pub data Phase : Type 0 where
  prefill decode : Phase

pub data PayloadKind : Type 0 where
  text tokens activation sampled_token sampled_tokens : PayloadKind

pub data ErrorKind : Type 0 where
  invalid_input execution_failure : ErrorKind

unfoldable pub phase_discrete : Discrete Phase
phase_discrete = hlevel

unfoldable pub kind_discrete : Discrete PayloadKind
kind_discrete = hlevel

pub record StagePosition : Type 0 where
  pub index : ℤ
  pub count : ℤ

pub record LayerRange : Type 0 where
  pub first : ℤ
  pub last : ℤ

pub record TensorDescriptor : Type 0 where
  pub dtype : String
  pub shape : List ℤ
  pub byte_order : String
  pub layout : String

pub record Payload : Type 0 where
  pub kind : PayloadKind
  pub encoding : String
  pub tensor : TensorDescriptor
  pub bytes : Bytes

pub record StageInput : Type 0 where
  pub session_id : String
  pub request_id : String
  pub model_id : String
  pub phase : Phase
  pub decode_step : ℤ
  pub position : StagePosition
  pub layers : LayerRange
  pub payload : Payload
  pub max_tokens : ℤ

pub record StageOutput : Type 0 where
  pub payload : Payload
  pub prompt_tokens : ℤ
  pub prompt_token_ids : List ℕ
  pub completion_tokens : ℤ
  pub execution_batch_size : ℤ
  pub verification_width : ℤ
  pub token_text : Bytes
  pub token_text_offsets : List ℕ
  pub token_eog : List ℕ
  pub end_of_generation : Bool

pub record ExecutionError : Type 0 where
  pub kind : ErrorKind
  pub code : String
  pub message : String

-- `success` with its output, or an error of either kind.
pub data ExecutionResult : Type 0 where
  success : StageOutput → ExecutionResult
  error_result : ExecutionError → ExecutionResult

unfoldable pub is_first : StagePosition → Bool
is_first p = ltb_ℤ (pos 0) p.count && test (ℤ-discrete p.index (pos 0))

unfoldable pub is_last : StagePosition → Bool
is_last p =
    ltb_ℤ (pos 0) p.count
    && leb_ℤ (pos 0) p.index
    && ltb_ℤ p.index p.count
    && test (ℤ-discrete p.index (p.count -ℤ pos 1))

unfoldable pub phase_string : Phase → String
phase_string prefill = "prefill"
phase_string decode = "decode"

unfoldable pub parse_phase : String → Option Phase
parse_phase s =
    if test (string_discrete s "prefill")
    then some prefill
    else if test (string_discrete s "decode")
    then some decode
    else none

unfoldable pub kind_string : PayloadKind → String
kind_string text = "text"
kind_string tokens = "tokens"
kind_string activation = "activation"
kind_string sampled_token = "sampled_token"
kind_string sampled_tokens = "sampled_tokens"

unfoldable pub parse_payload_kind : String → Option PayloadKind
parse_payload_kind s =
    if test (string_discrete s "text")
    then some text
    else if test (string_discrete s "tokens")
    then some tokens
    else if test (string_discrete s "activation")
    then some activation
    else if test (string_discrete s "sampled_token")
    then some sampled_token
    else if test (string_discrete s "sampled_tokens")
    then some sampled_tokens
    else none

abbrev pub max_payload_bytes : ℕ
max_payload_bytes = 536870912

abbrev is_text : String → String → Bool
is_text s t = test (string_discrete s t)

unfoldable pub dtype_width : String → ℕ
dtype_width t =
    if is_text t "u8" || is_text t "i8"
    then 1
    else if is_text t "f16" || is_text t "bf16"
    then 2
    else if is_text t "i32" || is_text t "u32" || is_text t "f32"
    then 4
    else if is_text t "i64" || is_text t "u64" || is_text t "f64"
    then 8
    else 0

-- The loop over the dimensions, on uint64_t; `none` is the return from inside it.
unfoldable pub count_elements : List ℤ → ℕ → Option ℕ
count_elements [] count = some count
count_elements (negsuc n ∷ shape) count = none
count_elements (pos zero ∷ shape) count = none
count_elements (pos (suc n) ∷ shape) count =
    if ltb (max_payload_bytes / suc n) count
    then none
    else count_elements shape (count * suc n % 2 ^ 64)

-- The message for a payload, "" if there is nothing to say.
unfoldable pub validate_size : Payload → ℕ → ℕ → String
validate_size p width count =
    if ltb (max_payload_bytes / width) count || not (count * width % 2 ^ 64 == length p.bytes)
    then "tensor shape and dtype do not match payload length"
    else if test (kind_discrete p.kind sampled_token) && not (count == 1)
    then "sampled_token payload must contain exactly one element"
    else if test (kind_discrete p.kind sampled_tokens) && ltb count 2
    then "sampled_tokens payload must contain at least two elements"
    else ""

unfoldable pub validate_tensor : Payload → String
validate_tensor p =
    if not (is_text p.encoding "")
    then "tensor payload must not declare text encoding"
    else if is_text p.tensor.dtype "" || (elim p.tensor.shape [ [] ↦ true | d ∷ s ↦ false ])
    then "tensor payload requires dtype and shape"
    else if not (is_text p.tensor.byte_order "little") || not (is_text p.tensor.layout "row_major")
    then "tensor payload requires little byte order and row_major layout"
    else if dtype_width p.tensor.dtype == 0
    then "unsupported tensor dtype: " <> p.tensor.dtype
    else elim (count_elements p.tensor.shape 1) [
      | none ↦ "invalid or oversized tensor shape"
      | some count ↦ validate_size p (dtype_width p.tensor.dtype) count
    ]

unfoldable pub validate_payload : Payload → String
validate_payload p =
    if test (kind_discrete p.kind text)
    then if not (is_text p.encoding "utf-8")
      then "text payload encoding must be utf-8"
      else if not (is_text p.tensor.dtype "")
          || not (elim p.tensor.shape [ [] ↦ true | d ∷ s ↦ false ])
          || not (is_text p.tensor.byte_order "")
          || not (is_text p.tensor.layout "")
      then "text payload must not declare tensor metadata"
      else ""
    else validate_tensor p

unfoldable pub validate_stage_input : StageInput → String
validate_stage_input i =
    if is_text i.session_id ""
    then "session_id is required"
    else if is_text i.request_id ""
    then "request_id is required"
    else if is_text i.model_id ""
    then "model_id is required"
    else if leb_ℤ i.position.count (pos 0)
    then "stage count must be greater than zero"
    else if ltb_ℤ i.position.index (pos 0) || leb_ℤ i.position.count i.position.index
    then "stage index must be within stage count"
    else if leb_ℤ i.layers.last i.layers.first
    then "layer range end must be greater than start"
    else if test (phase_discrete i.phase prefill) && not (test (ℤ-discrete i.decode_step (pos 0)))
    then "prefill requires decode_step 0"
    else if test (phase_discrete i.phase decode) && leb_ℤ i.decode_step (pos 0)
    then "decode requires a positive decode_step"
    else if leb_ℤ i.max_tokens (pos 0)
    then "max_tokens must be greater than zero"
    else validate_payload i.payload

unfoldable pub is_allowed_input : Phase → StagePosition → PayloadKind → Bool
is_allowed_input phase p kind =
    if leb_ℤ p.count (pos 0) || ltb_ℤ p.index (pos 0) || leb_ℤ p.count p.index
    then false
    else if not (is_first p)
    then test (kind_discrete kind activation)
    else if test (phase_discrete phase prefill)
    then test (kind_discrete kind text) || test (kind_discrete kind tokens)
    else test (kind_discrete kind sampled_token) || test (kind_discrete kind tokens)

unfoldable pub expected_output : Phase → StagePosition → Option PayloadKind
expected_output phase p =
    if leb_ℤ p.count (pos 0) || ltb_ℤ p.index (pos 0) || leb_ℤ p.count p.index
    then none
    else some (if is_last p then sampled_token else activation)
