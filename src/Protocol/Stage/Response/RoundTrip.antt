-- ===== src/Protocol/Stage/Response/RoundTrip.antt =====
-- The metadata of an encoded response reads back as the response.
use mathlib.Core.Path.{subst}
use jetsonfabric.Base.{◌≡◌, ◌^◌, ◌-◌, ◌<◌, pos, Option, String, length, arith}
use jetsonfabric.Protocol.Control.{validate_stage_operation_name}
use jetsonfabric.Protocol.Fields.Reads.{Is-Int, read_int, read_string}
use jetsonfabric.Protocol.Frame.{crc32}
use jetsonfabric.Protocol.Json.{ok, Json, JsonLaws, Field, Matches, Is-Int64, All-Int64}
use jetsonfabric.Protocol.Message.{StageResponse, stage_wire_version, stage_wire_transport}
use jetsonfabric.Protocol.Stage.{validate_deployment_identity}
use jetsonfabric.Protocol.Stage.Identity.{unmanaged, text_eq}
use jetsonfabric.Protocol.Stage.Optional.{
  optional_string, optional_int, optional_int64, optional_shape, managed_string, managed_natural,
}
use jetsonfabric.Protocol.Stage.Response.{check_widths, check_payload, decode_response_fields}
use jetsonfabric.Protocol.Stage.Response.Arrays.{AllWithin, optional_unsigned, message_back}
use jetsonfabric.Protocol.Stage.Response.Written
use jetsonfabric.Protocol.Utf8.{is_valid_utf8}

-- The numbers are in the ranges of the C++ types that hold them, and each end-of-generation flag is 0 or 1.
pub record IsTyped (r : StageResponse) : Type 0 where
  pub epoch : r.deployment_epoch < 2 ^ 64
  pub step : Is-Int r.decode_step
  pub index : Is-Int r.stage_index
  pub count : Is-Int r.stage_count
  pub first : Is-Int r.layer_start
  pub last : Is-Int r.layer_end
  pub prompt : Is-Int r.prompt_tokens
  pub completion : Is-Int r.completion_tokens
  pub batch : Is-Int r.execution_batch_size
  pub width : Is-Int r.verification_width
  pub latency : Is-Int r.latency_ms
  pub received_bytes : Is-Int64 r.bytes_in
  pub sent_bytes : Is-Int64 r.bytes_out
  pub execution : Is-Int64 r.execution_us
  pub decoding : Is-Int64 r.activation_decode_us
  pub encoding_time : Is-Int64 r.activation_encode_us
  pub total : Is-Int64 r.stage_total_us
  pub dims : All-Int64 r.shape
  pub ids : AllWithin (2 ^ 32 - 1) r.prompt_token_ids
  pub offsets : AllWithin (2 ^ 32 - 1) r.token_text_offsets
  pub flags : AllWithin 1 r.token_eog
  pub bytes : AllWithin 255 r.message

-- What the receiver makes of a response: it fills in what describes the frame.
abbrev pub received : StageResponse → StageResponse
received r = record r {
  protocol_version = stage_wire_version;
  payload_bytes = length r.payload;
  payload_crc32 = crc32 r.payload;
  transport = stage_wire_transport;
}

module _ (json : Json) (laws : JsonLaws json) (r : StageResponse) (typed : IsTyped r)
    (body : json.Value)
    (m : (k : String)
      → Matches json (laws.field (Written.written json laws r) k) (json.find body k)) where
  at :
      (k : String) {o : Option Field}
      → laws.field (Written.written json laws r) k ≡ o
      → Matches json o (json.find body k)
  at k e = subst (λ o. Matches json o (json.find body k)) e (m k)

  module _ (named : validate_stage_operation_name r.operation ≡ ok tt)
      (identity : validate_deployment_identity r.deployment_id r.deployment_epoch r.model_sha256
        ≡ ok tt)
      (widths : check_widths r.execution_batch_size r.verification_width ≡ ok tt)
      (tensor : check_payload r.error r.payload_kind r.encoding r.dtype r.shape r.byte_order
          r.layout
          (length r.payload)
        ≡ ok tt) where
    pub fields_ok : decode_response_fields json body r.payload ≡ ok (received r)
    unfolding decode_response_fields
    fields_ok = rw (
      read_int json body "protocol_version" (pos 2) (pos 0) (omega arith)
          (at "protocol_version" (Written.protocol_version_written json laws r)),
      read_string json body "operation" r.operation _
          (at "operation" (Written.operation_written json laws r)),
      named,
      read_string json body "session_id" r.session_id _
          (at "session_id" (Written.session_id_written json laws r)),
      read_string json body "request_id" r.request_id _
          (at "request_id" (Written.request_id_written json laws r)),
      read_string json body "model_id" r.model_id _
          (at "model_id" (Written.model_id_written json laws r)),
      managed_string json body "deployment_id" r.deployment_id r.deployment_id
          (text_eq r.deployment_id "")
          (at "deployment_id" (Written.deployment_id_written json laws r)),
      managed_natural json body "deployment_epoch" r.deployment_id r.deployment_epoch
          (λ t. (unmanaged r.deployment_id r.deployment_epoch r.model_sha256 identity t).0)
          (at "deployment_epoch" (Written.deployment_epoch_written json laws r)),
      managed_string json body "model_sha256" r.deployment_id r.model_sha256
          (λ t. (unmanaged r.deployment_id r.deployment_epoch r.model_sha256 identity t).1)
          (at "model_sha256" (Written.model_sha256_written json laws r)),
      identity,
      read_int json body "decode_step" r.decode_step (pos 0) typed.step
          (at "decode_step" (Written.decode_step_written json laws r)),
      read_string json body "phase" r.phase _ (at "phase" (Written.phase_written json laws r)),
      read_int json body "stage_index" r.stage_index (pos 0) typed.index
          (at "stage_index" (Written.stage_index_written json laws r)),
      read_int json body "stage_count" r.stage_count (pos 1) typed.count
          (at "stage_count" (Written.stage_count_written json laws r)),
      read_string json body "node_name" r.node_name _
          (at "node_name" (Written.node_name_written json laws r)),
      read_int json body "layer_start" r.layer_start (pos 0) typed.first
          (at "layer_start" (Written.layer_start_written json laws r)),
      read_int json body "layer_end" r.layer_end (pos 0) typed.last
          (at "layer_end" (Written.layer_end_written json laws r)),
      read_string json body "payload_kind" r.payload_kind _
          (at "payload_kind" (Written.payload_kind_written json laws r)),
      optional_string json body "encoding" r.encoding
          (at "encoding" (Written.encoding_written json laws r)),
      optional_string json body "dtype" r.dtype (at "dtype" (Written.dtype_written json laws r)),
      optional_shape json body r.shape (at "shape" (Written.shape_written json laws r)),
      optional_string json body "byte_order" r.byte_order
          (at "byte_order" (Written.byte_order_written json laws r)),
      optional_string json body "layout" r.layout
          (at "layout" (Written.layout_written json laws r)),
      read_string json body "transport" stage_wire_transport ""
          (at "transport" (Written.transport_written json laws r)),
      optional_int64 json body "bytes_in" r.bytes_in (pos 0)
          (at "bytes_in" (Written.bytes_in_written json laws r)),
      optional_int64 json body "bytes_out" r.bytes_out (pos 0)
          (at "bytes_out" (Written.bytes_out_written json laws r)),
      optional_int json body "prompt_tokens" r.prompt_tokens (pos 0) typed.prompt
          (at "prompt_tokens" (Written.prompt_tokens_written json laws r)),
      optional_unsigned json body "prompt_token_ids" (2 ^ 32 - 1) r.prompt_token_ids typed.ids
          (at "prompt_token_ids" (Written.prompt_token_ids_written json laws r)),
      optional_int json body "completion_tokens" r.completion_tokens (pos 0) typed.completion
          (at "completion_tokens" (Written.completion_tokens_written json laws r)),
      optional_int json body "execution_batch_size" r.execution_batch_size (pos 1) typed.batch
          (at "execution_batch_size" (Written.execution_batch_size_written json laws r)),
      optional_int json body "verification_width" r.verification_width (pos 1) typed.width
          (at "verification_width" (Written.verification_width_written json laws r)),
      widths,
      optional_int json body "latency_ms" r.latency_ms (pos 0) typed.latency
          (at "latency_ms" (Written.latency_ms_written json laws r)),
      optional_int64 json body "execution_us" r.execution_us (pos 0)
          (at "execution_us" (Written.execution_us_written json laws r)),
      optional_int64 json body "activation_decode_us" r.activation_decode_us (pos 0)
          (at "activation_decode_us" (Written.activation_decode_us_written json laws r)),
      optional_int64 json body "activation_encode_us" r.activation_encode_us (pos 0)
          (at "activation_encode_us" (Written.activation_encode_us_written json laws r)),
      optional_int64 json body "stage_total_us" r.stage_total_us (pos 0)
          (at "stage_total_us" (Written.stage_total_us_written json laws r)),
      optional_string json body "error" r.error (at "error" (Written.error_written json laws r)),
      message_back json body r.message (is_valid_utf8 r.message) typed.bytes
          (at "message" (Written.message_written json laws r))
          (at "message_bytes" (Written.message_bytes_written json laws r)),
      optional_unsigned json body "token_text_offsets" (2 ^ 32 - 1) r.token_text_offsets
          typed.offsets (at "token_text_offsets" (Written.token_text_offsets_written json laws r)),
      optional_unsigned json body "token_eog" 1 r.token_eog typed.flags
          (at "token_eog" (Written.token_eog_written json laws r)),
      tensor,
    )
