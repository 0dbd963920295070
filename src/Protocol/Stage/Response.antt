-- ===== src/Protocol/Stage/Response.antt =====
-- runtime/protocol/stage.cpp: decode_stage_response and encode_stage_response_frame.
pub mod Arrays
pub mod Written
pub mod RoundTrip
pub mod Encoded
pub mod Decoded
use jetsonfabric.Base.{
  ◌%◌, ◌^◌, ◌-◌, ℕ, ℤ, pos, leb_ℤ, ℤ-discrete, Bool, true, false, not, ◌&&◌, ◌||◌, String, Bytes,
  List, [], ◌∷◌, map, length, test, if◌then◌else◌,
}
use jetsonfabric.Protocol.Control.{validate_stage_operation_name}
use jetsonfabric.Protocol.Fields.{
  to_unsigned, extract_int, extract_int64, extract_string, extract_bytes, extract_byte_string,
  extract_u64, extract_shape, extract_unsigned_array,
}
use jetsonfabric.Protocol.Frame.{decode_frame, encode_frame_prefix, crc32}
use jetsonfabric.Protocol.Json.{
  Checked, ok, ◌>>=◌, ◌>>◌, reject_if, Json, Field.text, raw, number, natural, numbers,
}
use jetsonfabric.Protocol.Message.{StageResponse, stage_wire_version, stage_wire_transport}
use jetsonfabric.Protocol.Stage.{
  validate_deployment_identity, validate_tensor_metadata, put_if, is_text, shape_is_empty,
}
use jetsonfabric.Protocol.Stage.Request.{EncodedStageFrame, flatten}
use jetsonfabric.Protocol.Utf8.{is_valid_utf8}

unfoldable pub is_nil : List ℕ → Bool
is_nil [] = true
is_nil (x ∷ xs) = false

unfoldable pub check_widths : ℤ → ℤ → Checked (Unit {0})
check_widths execution_batch_size verification_width =
    reject_if (leb_ℤ execution_batch_size (pos 0) || leb_ℤ verification_width (pos 0))
      "stage response batch and verification widths must be positive"

-- Only the payload of an answer without an error is checked.
unfoldable pub check_payload :
    String → String → String → String → List ℤ → String → String → ℕ → Checked (Unit {0})
check_payload error kind encoding dtype shape byte_order layout size =
    if is_text error ""
    then validate_tensor_metadata kind encoding dtype shape byte_order layout size
    else ok tt

module _ (json : Json) where
  open json use {Value, Object, empty, put}

  unfoldable pub decode_message : Value → Checked Bytes
  unfolding is_nil
  decode_message body = do
    message ← extract_byte_string json body "message_bytes"
    if is_nil message then extract_bytes json body "message" [] else ok message

  -- The fields of a response from the metadata, in the order in which they are read.
  unfoldable pub decode_response_fields : Value → Bytes → Checked StageResponse
  unfolding decode_message check_widths check_payload
  decode_response_fields body payload = do
    protocol_version ← extract_int json body "protocol_version" (pos 0)
    operation ← extract_string json body "operation" ""
    validate_stage_operation_name operation
    session_id ← extract_string json body "session_id" ""
    request_id ← extract_string json body "request_id" ""
    model_id ← extract_string json body "model_id" ""
    deployment_id ← extract_string json body "deployment_id" ""
    deployment_epoch ← extract_u64 json body "deployment_epoch" 0
    model_sha256 ← extract_string json body "model_sha256" ""
    validate_deployment_identity deployment_id deployment_epoch model_sha256
    step ← extract_int json body "decode_step" (pos 0)
    phase ←
        extract_string json body "phase"
          (if test (ℤ-discrete step (pos 0)) then "prefill" else "decode")
    decode_step ← extract_int json body "decode_step" (pos 0)
    stage_index ← extract_int json body "stage_index" (pos 0)
    stage_count ← extract_int json body "stage_count" (pos 1)
    node_name ← extract_string json body "node_name" ""
    layer_start ← extract_int json body "layer_start" (pos 0)
    layer_end ← extract_int json body "layer_end" (pos 0)
    payload_kind ← extract_string json body "payload_kind" ""
    encoding ← extract_string json body "encoding" ""
    dtype ← extract_string json body "dtype" ""
    shape ← extract_shape json body
    byte_order ← extract_string json body "byte_order" ""
    layout ← extract_string json body "layout" ""
    transport ← extract_string json body "transport" ""
    bytes_in ← extract_int64 json body "bytes_in" (pos 0)
    bytes_out ← extract_int64 json body "bytes_out" (pos 0)
    prompt_tokens ← extract_int json body "prompt_tokens" (pos 0)
    prompt_token_ids ← extract_unsigned_array json body "prompt_token_ids" (2 ^ 32 - 1)
    completion_tokens ← extract_int json body "completion_tokens" (pos 0)
    execution_batch_size ← extract_int json body "execution_batch_size" (pos 1)
    verification_width ← extract_int json body "verification_width" (pos 1)
    check_widths execution_batch_size verification_width
    latency_ms ← extract_int json body "latency_ms" (pos 0)
    execution_us ← extract_int64 json body "execution_us" (pos 0)
    activation_decode_us ← extract_int64 json body "activation_decode_us" (pos 0)
    activation_encode_us ← extract_int64 json body "activation_encode_us" (pos 0)
    stage_total_us ← extract_int64 json body "stage_total_us" (pos 0)
    error ← extract_string json body "error" ""
    message ← decode_message body
    token_text_offsets ← extract_unsigned_array json body "token_text_offsets" (2 ^ 32 - 1)
    token_eog ← extract_unsigned_array json body "token_eog" 1
    check_payload error payload_kind encoding dtype shape byte_order layout (length payload)
    ok (record {
      protocol_version = to_unsigned protocol_version % 2 ^ 16;
      operation = operation;
      session_id = session_id;
      request_id = request_id;
      model_id = model_id;
      deployment_id = deployment_id;
      deployment_epoch = deployment_epoch;
      model_sha256 = model_sha256;
      phase = phase;
      decode_step = decode_step;
      stage_index = stage_index;
      stage_count = stage_count;
      node_name = node_name;
      layer_start = layer_start;
      layer_end = layer_end;
      payload_kind = payload_kind;
      encoding = encoding;
      dtype = dtype;
      shape = shape;
      byte_order = byte_order;
      layout = layout;
      payload = payload;
      payload_bytes = length payload;
      payload_crc32 = crc32 payload;
      transport = transport;
      bytes_in = bytes_in;
      bytes_out = bytes_out;
      prompt_tokens = prompt_tokens;
      prompt_token_ids = prompt_token_ids;
      completion_tokens = completion_tokens;
      execution_batch_size = execution_batch_size;
      verification_width = verification_width;
      latency_ms = latency_ms;
      execution_us = execution_us;
      activation_decode_us = activation_decode_us;
      activation_encode_us = activation_encode_us;
      stage_total_us = stage_total_us;
      error = error;
      message = message;
      token_text_offsets = token_text_offsets;
      token_eog = token_eog;
    })

  unfoldable pub decode_stage_response : Bytes → Checked StageResponse
  decode_stage_response frame = do
    decoded ← decode_frame json frame
    decode_response_fields decoded.metadata decoded.payload

  -- The assignments up to the layers, up to the transport, up to the error, and the rest.
  unfoldable pub response_identity : StageResponse → Object
  response_identity r =
      let a = put empty "protocol_version" (number (pos stage_wire_version)) in
      let b = put a "operation" (text r.operation) in
      let c = put b "session_id" (text r.session_id) in
      let d = put c "request_id" (text r.request_id) in
      let e = put d "model_id" (text r.model_id) in
      let f =
        put_if json (not (is_text r.deployment_id "")) e "deployment_id" (text r.deployment_id) in
      let g =
        put_if json (not (is_text r.deployment_id "")) f "deployment_epoch"
          (natural r.deployment_epoch) in
      let h =
        put_if json (not (is_text r.deployment_id "")) g "model_sha256" (text r.model_sha256) in
      let i = put h "phase" (text r.phase) in
      let j = put i "decode_step" (number r.decode_step) in
      let k = put j "stage_index" (number r.stage_index) in
      let l = put k "stage_count" (number r.stage_count) in
      let m = put l "node_name" (text r.node_name) in
      let n = put m "layer_start" (number r.layer_start) in put n "layer_end" (number r.layer_end)

  unfoldable pub response_tensor : StageResponse → Object
  unfolding response_identity shape_is_empty
  response_tensor r =
      let a = put (response_identity r) "payload_kind" (text r.payload_kind) in
      let b = put_if json (not (is_text r.encoding "")) a "encoding" (text r.encoding) in
      let c = put_if json (not (is_text r.dtype "")) b "dtype" (text r.dtype) in
      let d = put_if json (not (shape_is_empty r.shape)) c "shape" (numbers r.shape) in
      let e = put_if json (not (is_text r.byte_order "")) d "byte_order" (text r.byte_order) in
      let f = put_if json (not (is_text r.layout "")) e "layout" (text r.layout) in
      let g = put f "payload_bytes" (number (pos (length r.payload))) in
      let h = put g "payload_crc32" (number (pos (crc32 r.payload))) in
      put h "transport" (text stage_wire_transport)

  unfoldable pub response_counts : StageResponse → Object
  unfolding response_tensor is_nil
  response_counts r =
      let a =
        put_if json (not (test (ℤ-discrete r.bytes_in (pos 0)))) (response_tensor r) "bytes_in"
          (number r.bytes_in) in
      let b =
        put_if json (not (test (ℤ-discrete r.bytes_out (pos 0)))) a "bytes_out"
          (number r.bytes_out) in
      let c =
        put_if json (not (test (ℤ-discrete r.prompt_tokens (pos 0)))) b "prompt_tokens"
          (number r.prompt_tokens) in
      let d =
        put_if json (not (is_nil r.prompt_token_ids)) c "prompt_token_ids"
          (numbers (map pos r.prompt_token_ids)) in
      let e =
        put_if json (not (test (ℤ-discrete r.completion_tokens (pos 0)))) d "completion_tokens"
          (number r.completion_tokens) in
      let f =
        put_if json (not (test (ℤ-discrete r.execution_batch_size (pos 1)))) e
          "execution_batch_size" (number r.execution_batch_size) in
      let g =
        put_if json (not (test (ℤ-discrete r.verification_width (pos 1)))) f "verification_width"
          (number r.verification_width) in
      let h =
        put_if json (not (test (ℤ-discrete r.latency_ms (pos 0)))) g "latency_ms"
          (number r.latency_ms) in
      let i =
        put_if json (not (test (ℤ-discrete r.execution_us (pos 0)))) h "execution_us"
          (number r.execution_us) in
      let j =
        put_if json (not (test (ℤ-discrete r.activation_decode_us (pos 0)))) i
          "activation_decode_us" (number r.activation_decode_us) in
      let k =
        put_if json (not (test (ℤ-discrete r.activation_encode_us (pos 0)))) j
          "activation_encode_us" (number r.activation_encode_us) in
      let l =
        put_if json (not (test (ℤ-discrete r.stage_total_us (pos 0)))) k "stage_total_us"
          (number r.stage_total_us) in
      put_if json (not (is_text r.error "")) l "error" (text r.error)

  unfoldable pub response_body : StageResponse → Object
  unfolding response_counts is_nil
  response_body r =
      let a =
        put_if json (not (is_nil r.message) && is_valid_utf8 r.message) (response_counts r)
          "message" (raw r.message) in
      let b =
        put_if json (not (is_nil r.message) && not (is_valid_utf8 r.message)) a "message_bytes"
          (numbers (map pos r.message)) in
      let c =
        put_if json (not (is_nil r.token_text_offsets)) b "token_text_offsets"
          (numbers (map pos r.token_text_offsets)) in
      put_if json (not (is_nil r.token_eog)) c "token_eog" (numbers (map pos r.token_eog))

  unfoldable pub encode_stage_response_frame : StageResponse → Checked (EncodedStageFrame json)
  unfolding response_body
  encode_stage_response_frame r = do
    validate_stage_operation_name r.operation
    check_widths r.execution_batch_size r.verification_width
    check_payload r.error r.payload_kind r.encoding r.dtype r.shape r.byte_order r.layout
        (length r.payload)
    validate_deployment_identity r.deployment_id r.deployment_epoch r.model_sha256
    prefix ← encode_frame_prefix json (response_body r) r.payload (crc32 r.payload)
    ok (record { prefix = prefix; payload = r.payload })

  unfoldable pub encode_stage_response : StageResponse → Checked Bytes
  unfolding encode_stage_response_frame
  encode_stage_response r = do frame ← encode_stage_response_frame r; ok (flatten json frame)
