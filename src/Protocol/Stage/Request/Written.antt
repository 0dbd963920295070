-- ===== src/Protocol/Stage/Request/Written.antt =====
-- What the metadata of an encoded request says under each key.
use package.text.Mathlib.Text.{◌==◌ as str_eq}
use jetsonfabric.Base.{
  none, ℤ-discrete, test, pos, not, ◌≡◌, Bool, true, false, some, String, if◌then◌else◌, arith,
}
use jetsonfabric.Protocol.Frame.{frame_metadata, crc32}
use jetsonfabric.Protocol.Json.{numbers, natural, number, Json, JsonLaws, Field, Field.text}
use jetsonfabric.Protocol.Message.{stage_wire_version, stage_wire_transport, StageRequest}
use jetsonfabric.Protocol.Stage.{shape_is_empty, is_text, put_if}
use jetsonfabric.Protocol.Stage.Request.{request_identity, request_body}

module _ (json : Json) (laws : JsonLaws json) where
  open laws use {field, field-put, field-empty}
  open json use {Object}

  pub field-put_if :
      (c : Bool) (b : Object) (j : String) (f : Field) (k : String)
      → field (put_if json c b j f) k
        ≡ (if str_eq j k then (if c then some f else field b k) else field b k)
  unfolding put_if
  field-put_if true b j f k = field-put b j f k
  field-put_if false b j f k = ground arith

  module _ (r : StageRequest) (operation : String) where
    abbrev pub written : Object
    written = frame_metadata json (request_body json r operation) r.payload (crc32 r.payload)

    pub protocol_version_written :
        field written "protocol_version" ≡ some (number (pos stage_wire_version))
    unfolding frame_metadata request_body request_identity
    protocol_version_written = simp (field-put, field-put_if, field-empty)

    pub operation_written : field written "operation" ≡ some (text operation)
    unfolding frame_metadata request_body request_identity
    operation_written = simp (field-put, field-put_if, field-empty)

    pub session_id_written : field written "session_id" ≡ some (text r.session_id)
    unfolding frame_metadata request_body request_identity
    session_id_written = simp (field-put, field-put_if, field-empty)

    pub request_id_written : field written "request_id" ≡ some (text r.request_id)
    unfolding frame_metadata request_body request_identity
    request_id_written = simp (field-put, field-put_if, field-empty)

    pub model_id_written : field written "model_id" ≡ some (text r.model_id)
    unfolding frame_metadata request_body request_identity
    model_id_written = simp (field-put, field-put_if, field-empty)

    pub deployment_id_written :
        field written "deployment_id"
        ≡ (if not (is_text r.deployment_id "") then some (text r.deployment_id) else none)
    unfolding frame_metadata request_body request_identity
    deployment_id_written = simp (field-put, field-put_if, field-empty)

    pub deployment_epoch_written :
        field written "deployment_epoch"
        ≡ (if not (is_text r.deployment_id "") then some (natural r.deployment_epoch) else none)
    unfolding frame_metadata request_body request_identity
    deployment_epoch_written = simp (field-put, field-put_if, field-empty)

    pub model_sha256_written :
        field written "model_sha256"
        ≡ (if not (is_text r.deployment_id "") then some (text r.model_sha256) else none)
    unfolding frame_metadata request_body request_identity
    model_sha256_written = simp (field-put, field-put_if, field-empty)

    pub phase_written : field written "phase" ≡ some (text r.phase)
    unfolding frame_metadata request_body request_identity
    phase_written = simp (field-put, field-put_if, field-empty)

    pub decode_step_written : field written "decode_step" ≡ some (number r.decode_step)
    unfolding frame_metadata request_body request_identity
    decode_step_written = simp (field-put, field-put_if, field-empty)

    pub stage_index_written : field written "stage_index" ≡ some (number r.stage_index)
    unfolding frame_metadata request_body request_identity
    stage_index_written = simp (field-put, field-put_if, field-empty)

    pub stage_count_written : field written "stage_count" ≡ some (number r.stage_count)
    unfolding frame_metadata request_body request_identity
    stage_count_written = simp (field-put, field-put_if, field-empty)

    pub node_name_written : field written "node_name" ≡ some (text r.node_name)
    unfolding frame_metadata request_body request_identity
    node_name_written = simp (field-put, field-put_if, field-empty)

    pub layer_start_written : field written "layer_start" ≡ some (number r.layer_start)
    unfolding frame_metadata request_body request_identity
    layer_start_written = simp (field-put, field-put_if, field-empty)

    pub layer_end_written : field written "layer_end" ≡ some (number r.layer_end)
    unfolding frame_metadata request_body request_identity
    layer_end_written = simp (field-put, field-put_if, field-empty)

    pub payload_kind_written : field written "payload_kind" ≡ some (text r.payload_kind)
    unfolding frame_metadata request_body request_identity
    payload_kind_written = simp (field-put, field-put_if, field-empty)

    pub encoding_written :
        field written "encoding"
        ≡ (if not (is_text r.encoding "") then some (text r.encoding) else none)
    unfolding frame_metadata request_body request_identity
    encoding_written = simp (field-put, field-put_if, field-empty)

    pub dtype_written :
        field written "dtype" ≡ (if not (is_text r.dtype "") then some (text r.dtype) else none)
    unfolding frame_metadata request_body request_identity
    dtype_written = simp (field-put, field-put_if, field-empty)

    pub shape_written :
        field written "shape"
        ≡ (if not (shape_is_empty r.shape) then some (numbers r.shape) else none)
    unfolding frame_metadata request_body request_identity
    shape_written = simp (field-put, field-put_if, field-empty)

    pub byte_order_written :
        field written "byte_order"
        ≡ (if not (is_text r.byte_order "") then some (text r.byte_order) else none)
    unfolding frame_metadata request_body request_identity
    byte_order_written = simp (field-put, field-put_if, field-empty)

    pub layout_written :
        field written "layout" ≡ (if not (is_text r.layout "") then some (text r.layout) else none)
    unfolding frame_metadata request_body request_identity
    layout_written = simp (field-put, field-put_if, field-empty)

    pub transport_written : field written "transport" ≡ some (text stage_wire_transport)
    unfolding frame_metadata request_body request_identity
    transport_written = simp (field-put, field-put_if, field-empty)

    pub max_tokens_written : field written "max_tokens" ≡ some (number r.max_tokens)
    unfolding frame_metadata request_body request_identity
    max_tokens_written = simp (field-put, field-put_if, field-empty)

    pub rollback_tokens_written : field written "rollback_tokens" ≡ (
        if not (test (ℤ-discrete r.rollback_tokens (pos 0)))
        then some (number r.rollback_tokens)
        else none)
    unfolding frame_metadata request_body request_identity
    rollback_tokens_written = simp (field-put, field-put_if, field-empty)
