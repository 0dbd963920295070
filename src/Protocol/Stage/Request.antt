-- ===== src/Protocol/Stage/Request.antt =====
-- runtime/protocol/stage.cpp: decode_stage_request and encode_stage_request_frame.
pub mod Written
pub mod RoundTrip
pub mod Encoded
pub mod Decoded
use jetsonfabric.Base.{
  ◌%◌, ◌^◌, ℕ, ℤ, pos, ℤ-discrete, Bool, not, String, Bytes, ◌++◌, length, test, if◌then◌else◌,
}
use jetsonfabric.Protocol.Control.{validate_stage_operation}
use jetsonfabric.Protocol.Fields.{
  to_unsigned, extract_int, extract_string, extract_u64, extract_shape,
}
use jetsonfabric.Protocol.Frame.{decode_frame, encode_frame_prefix, crc32, DecodedFrame}
use jetsonfabric.Protocol.Json.{
  Checked, ok, ◌>>=◌, ◌>>◌, Json, Field.text, number, natural, numbers,
}
use jetsonfabric.Protocol.Message.{StageRequest, stage_wire_version, stage_wire_transport}
use jetsonfabric.Protocol.Stage.{
  validate_deployment_identity, validate_tensor_metadata, validate_max_tokens, put_if, is_text,
  shape_is_empty,
}

module _ (json : Json) where
  open json use {Value, Object, empty, put}

  -- The fields of a request from the metadata, in the order in which they are read.
  unfoldable pub decode_request_fields : Value → Bytes → Checked StageRequest
  decode_request_fields body payload = do
    protocol_version ← extract_int json body "protocol_version" (pos 0)
    session_id ← extract_string json body "session_id" ""
    request_id ← extract_string json body "request_id" ""
    model_id ← extract_string json body "model_id" ""
    deployment_id ← extract_string json body "deployment_id" ""
    deployment_epoch ← extract_u64 json body "deployment_epoch" 0
    model_sha256 ← extract_string json body "model_sha256" ""
    validate_deployment_identity deployment_id deployment_epoch model_sha256
    step ← extract_int json body "decode_step" (pos 0)
    phase ←
        extract_string json body "phase"
          (if test (ℤ-discrete step (pos 0)) then "prefill" else "decode")
    decode_step ← extract_int json body "decode_step" (pos 0)
    stage_index ← extract_int json body "stage_index" (pos 0)
    stage_count ← extract_int json body "stage_count" (pos 1)
    node_name ← extract_string json body "node_name" ""
    layer_start ← extract_int json body "layer_start" (pos 0)
    layer_end ← extract_int json body "layer_end" (pos 0)
    payload_kind ← extract_string json body "payload_kind" ""
    encoding ← extract_string json body "encoding" ""
    dtype ← extract_string json body "dtype" ""
    shape ← extract_shape json body
    byte_order ← extract_string json body "byte_order" ""
    layout ← extract_string json body "layout" ""
    transport ← extract_string json body "transport" ""
    declared_tokens ← extract_int json body "max_tokens" (pos 128)
    max_tokens ← validate_max_tokens declared_tokens
    rollback_tokens ← extract_int json body "rollback_tokens" (pos 0)
    validate_tensor_metadata payload_kind encoding dtype shape byte_order layout (length payload)
    ok (record {
      protocol_version = to_unsigned protocol_version % 2 ^ 16;
      session_id = session_id;
      request_id = request_id;
      model_id = model_id;
      deployment_id = deployment_id;
      deployment_epoch = deployment_epoch;
      model_sha256 = model_sha256;
      phase = phase;
      decode_step = decode_step;
      stage_index = stage_index;
      stage_count = stage_count;
      node_name = node_name;
      layer_start = layer_start;
      layer_end = layer_end;
      payload_kind = payload_kind;
      encoding = encoding;
      dtype = dtype;
      shape = shape;
      byte_order = byte_order;
      layout = layout;
      payload = payload;
      payload_bytes = length payload;
      payload_crc32 = crc32 payload;
      transport = transport;
      max_tokens = max_tokens;
      rollback_tokens = rollback_tokens;
    })

  unfoldable pub decode_stage_request : Bytes → Checked StageRequest
  decode_stage_request frame = do
    decoded ← decode_frame json frame
    decode_request_fields decoded.metadata decoded.payload

  -- The assignments up to the payload kind; the request names a deployment or none.
  unfoldable pub request_identity : StageRequest → String → Object
  request_identity r operation =
      let a = put empty "protocol_version" (number (pos stage_wire_version)) in
      let b = put a "operation" (text operation) in
      let c = put b "session_id" (text r.session_id) in
      let d = put c "request_id" (text r.request_id) in
      let e = put d "model_id" (text r.model_id) in
      let managed = not (is_text r.deployment_id "") in
      let f = put_if json managed e "deployment_id" (text r.deployment_id) in
      let g = put_if json managed f "deployment_epoch" (natural r.deployment_epoch) in
      let h = put_if json managed g "model_sha256" (text r.model_sha256) in
      let i = put h "phase" (text r.phase) in
      let j = put i "decode_step" (number r.decode_step) in
      let k = put j "stage_index" (number r.stage_index) in
      let l = put k "stage_count" (number r.stage_count) in
      let m = put l "node_name" (text r.node_name) in
      let n = put m "layer_start" (number r.layer_start) in put n "layer_end" (number r.layer_end)

  unfoldable pub request_body : StageRequest → String → Object
  unfolding request_identity shape_is_empty
  request_body r operation =
      let a = put (request_identity r operation) "payload_kind" (text r.payload_kind) in
      let b = put_if json (not (is_text r.encoding "")) a "encoding" (text r.encoding) in
      let c = put_if json (not (is_text r.dtype "")) b "dtype" (text r.dtype) in
      let d = put_if json (not (shape_is_empty r.shape)) c "shape" (numbers r.shape) in
      let e = put_if json (not (is_text r.byte_order "")) d "byte_order" (text r.byte_order) in
      let f = put_if json (not (is_text r.layout "")) e "layout" (text r.layout) in
      let g = put f "payload_bytes" (number (pos (length r.payload))) in
      let h = put g "payload_crc32" (number (pos (crc32 r.payload))) in
      let i = put h "transport" (text stage_wire_transport) in
      let j = put i "max_tokens" (number r.max_tokens) in
      put_if json (not (test (ℤ-discrete r.rollback_tokens (pos 0)))) j "rollback_tokens"
        (number r.rollback_tokens)

  -- A frame as its prefix and its payload.
  pub record EncodedStageFrame : Type 0 where
    pub prefix : Bytes
    pub payload : Bytes

  unfoldable pub flatten : EncodedStageFrame → Bytes
  flatten f = f.prefix ++ f.payload

  unfoldable pub encode_stage_request_frame : StageRequest → String → Checked EncodedStageFrame
  encode_stage_request_frame r operation = do
    validate_stage_operation operation r.rollback_tokens
    max_tokens ← validate_max_tokens r.max_tokens
    validate_tensor_metadata r.payload_kind r.encoding r.dtype r.shape r.byte_order r.layout
        (length r.payload)
    validate_deployment_identity r.deployment_id r.deployment_epoch r.model_sha256
    prefix ←
        encode_frame_prefix json (request_body (record r { max_tokens = max_tokens }) operation)
          r.payload (crc32 r.payload)
    ok (record { prefix = prefix; payload = r.payload })

  unfoldable pub encode_stage_request : StageRequest → String → Checked Bytes
  unfolding flatten encode_stage_request_frame
  encode_stage_request r operation = do
    frame ← encode_stage_request_frame r operation
    ok (flatten frame)
