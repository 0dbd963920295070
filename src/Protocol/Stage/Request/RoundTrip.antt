-- ===== src/Protocol/Stage/Request/RoundTrip.antt =====
-- An encoded stage request decodes to the request, whatever JSON library carries its metadata.
use mathlib.Core.Path.{subst}
use jetsonfabric.Base.{◌≡◌, ◌^◌, ◌<◌, pos, Option, String, length, arith}
use jetsonfabric.Protocol.Fields.Reads.{Is-Int, read_int, read_string}
use jetsonfabric.Protocol.Frame.{crc32}
use jetsonfabric.Protocol.Json.{ok, Json, JsonLaws, Field, Matches, All-Int64}
use jetsonfabric.Protocol.Message.{StageRequest, stage_wire_version, stage_wire_transport}
use jetsonfabric.Protocol.Stage.{
  validate_deployment_identity, validate_tensor_metadata, validate_max_tokens,
}
use jetsonfabric.Protocol.Stage.Identity.{unmanaged, text_eq}
use jetsonfabric.Protocol.Stage.Optional.{
  optional_string, optional_int, optional_shape, managed_string, managed_natural,
}
use jetsonfabric.Protocol.Stage.Request.{decode_request_fields}
use jetsonfabric.Protocol.Stage.Request.Written

-- The numbers are in the ranges of the C++ types that hold them.
pub record IsTyped (r : StageRequest) : Type 0 where
  pub epoch : r.deployment_epoch < 2 ^ 64
  pub step : Is-Int r.decode_step
  pub index : Is-Int r.stage_index
  pub count : Is-Int r.stage_count
  pub first : Is-Int r.layer_start
  pub last : Is-Int r.layer_end
  pub tokens : Is-Int r.max_tokens
  pub rollback : Is-Int r.rollback_tokens
  pub dims : All-Int64 r.shape

-- What the receiver makes of a request: it fills in what describes the frame.
abbrev pub received : StageRequest → StageRequest
received r = record r {
  protocol_version = stage_wire_version;
  payload_bytes = length r.payload;
  payload_crc32 = crc32 r.payload;
  transport = stage_wire_transport;
}

module _ (json : Json) (laws : JsonLaws json) (r : StageRequest) (operation : String)
    (typed : IsTyped r) (body : json.Value)
    (m : (k : String)
      → Matches json
          (laws.field (Written.written json laws r operation) k)
          (json.find body k)) where
  at :
      (k : String) {o : Option Field}
      → laws.field (Written.written json laws r operation) k ≡ o
      → Matches json o (json.find body k)
  at k e = subst (λ o. Matches json o (json.find body k)) e (m k)

  module _
      (identity : validate_deployment_identity r.deployment_id r.deployment_epoch r.model_sha256
        ≡ ok tt)
      (tokens : validate_max_tokens r.max_tokens ≡ ok r.max_tokens)
      (tensor : validate_tensor_metadata r.payload_kind r.encoding r.dtype r.shape r.byte_order
          r.layout
          (length r.payload)
        ≡ ok tt) where
    pub fields_ok : decode_request_fields json body r.payload ≡ ok (received r)
    unfolding decode_request_fields
    fields_ok = rw (
      read_int json body "protocol_version" (pos 2) (pos 0) (omega arith)
          (at "protocol_version" (Written.protocol_version_written json laws r operation)),
      read_string json body "session_id" r.session_id ""
          (at "session_id" (Written.session_id_written json laws r operation)),
      read_string json body "request_id" r.request_id ""
          (at "request_id" (Written.request_id_written json laws r operation)),
      read_string json body "model_id" r.model_id ""
          (at "model_id" (Written.model_id_written json laws r operation)),
      managed_string json body "deployment_id" r.deployment_id r.deployment_id
          (text_eq r.deployment_id "")
          (at "deployment_id" (Written.deployment_id_written json laws r operation)),
      managed_natural json body "deployment_epoch" r.deployment_id r.deployment_epoch
          (λ t. (unmanaged r.deployment_id r.deployment_epoch r.model_sha256 identity t).0)
          (at "deployment_epoch" (Written.deployment_epoch_written json laws r operation)),
      managed_string json body "model_sha256" r.deployment_id r.model_sha256
          (λ t. (unmanaged r.deployment_id r.deployment_epoch r.model_sha256 identity t).1)
          (at "model_sha256" (Written.model_sha256_written json laws r operation)),
      identity,
      read_int json body "decode_step" r.decode_step (pos 0) typed.step
          (at "decode_step" (Written.decode_step_written json laws r operation)),
      read_string json body "phase" r.phase _
          (at "phase" (Written.phase_written json laws r operation)),
      read_int json body "stage_index" r.stage_index (pos 0) typed.index
          (at "stage_index" (Written.stage_index_written json laws r operation)),
      read_int json body "stage_count" r.stage_count (pos 1) typed.count
          (at "stage_count" (Written.stage_count_written json laws r operation)),
      read_string json body "node_name" r.node_name ""
          (at "node_name" (Written.node_name_written json laws r operation)),
      read_int json body "layer_start" r.layer_start (pos 0) typed.first
          (at "layer_start" (Written.layer_start_written json laws r operation)),
      read_int json body "layer_end" r.layer_end (pos 0) typed.last
          (at "layer_end" (Written.layer_end_written json laws r operation)),
      read_string json body "payload_kind" r.payload_kind ""
          (at "payload_kind" (Written.payload_kind_written json laws r operation)),
      optional_string json body "encoding" r.encoding
          (at "encoding" (Written.encoding_written json laws r operation)),
      optional_string json body "dtype" r.dtype
          (at "dtype" (Written.dtype_written json laws r operation)),
      optional_shape json body r.shape (at "shape" (Written.shape_written json laws r operation)),
      optional_string json body "byte_order" r.byte_order
          (at "byte_order" (Written.byte_order_written json laws r operation)),
      optional_string json body "layout" r.layout
          (at "layout" (Written.layout_written json laws r operation)),
      read_string json body "transport" stage_wire_transport ""
          (at "transport" (Written.transport_written json laws r operation)),
      read_int json body "max_tokens" r.max_tokens (pos 128) typed.tokens
          (at "max_tokens" (Written.max_tokens_written json laws r operation)),
      tokens,
      optional_int json body "rollback_tokens" r.rollback_tokens (pos 0) typed.rollback
          (at "rollback_tokens" (Written.rollback_tokens_written json laws r operation)),
      tensor,
    )
