-- ===== src/Protocol/Stage/Response/Written.antt =====
-- What the metadata of an encoded response says under each key.
use jetsonfabric.Base.{◌≡◌, not, ◌&&◌, none, some, pos, map, ℤ-discrete, test, if◌then◌else◌}
use jetsonfabric.Protocol.Frame.{frame_metadata, crc32}
use jetsonfabric.Protocol.Json.{Json, JsonLaws, Field.text, raw, number, natural, numbers}
use jetsonfabric.Protocol.Message.{StageResponse, stage_wire_version, stage_wire_transport}
use jetsonfabric.Protocol.Stage.{is_text, shape_is_empty}
use jetsonfabric.Protocol.Stage.Request.Written.{field-put_if}
use jetsonfabric.Protocol.Stage.Response.{
  is_nil, response_identity, response_tensor, response_counts, response_body,
}
use jetsonfabric.Protocol.Utf8.{is_valid_utf8}

module _ (json : Json) (laws : JsonLaws json) (r : StageResponse) where
  open laws use {field, field-put, field-empty}
  open json use {Object}

  abbrev pub written : Object
  written = frame_metadata json (response_body json r) r.payload (crc32 r.payload)

  pub protocol_version_written :
      field written "protocol_version" ≡ some (number (pos stage_wire_version))
  unfolding frame_metadata response_body response_counts response_tensor response_identity
  protocol_version_written = simp (field-put, field-put_if json laws, field-empty)

  pub operation_written : field written "operation" ≡ some (text r.operation)
  unfolding frame_metadata response_body response_counts response_tensor response_identity
  operation_written = simp (field-put, field-put_if json laws, field-empty)

  pub session_id_written : field written "session_id" ≡ some (text r.session_id)
  unfolding frame_metadata response_body response_counts response_tensor response_identity
  session_id_written = simp (field-put, field-put_if json laws, field-empty)

  pub request_id_written : field written "request_id" ≡ some (text r.request_id)
  unfolding frame_metadata response_body response_counts response_tensor response_identity
  request_id_written = simp (field-put, field-put_if json laws, field-empty)

  pub model_id_written : field written "model_id" ≡ some (text r.model_id)
  unfolding frame_metadata response_body response_counts response_tensor response_identity
  model_id_written = simp (field-put, field-put_if json laws, field-empty)

  pub deployment_id_written :
      field written "deployment_id"
      ≡ (if not (is_text r.deployment_id "") then some (text r.deployment_id) else none)
  unfolding frame_metadata response_body response_counts response_tensor response_identity
  deployment_id_written = simp (field-put, field-put_if json laws, field-empty)

  pub deployment_epoch_written :
      field written "deployment_epoch"
      ≡ (if not (is_text r.deployment_id "") then some (natural r.deployment_epoch) else none)
  unfolding frame_metadata response_body response_counts response_tensor response_identity
  deployment_epoch_written = simp (field-put, field-put_if json laws, field-empty)

  pub model_sha256_written :
      field written "model_sha256"
      ≡ (if not (is_text r.deployment_id "") then some (text r.model_sha256) else none)
  unfolding frame_metadata response_body response_counts response_tensor response_identity
  model_sha256_written = simp (field-put, field-put_if json laws, field-empty)

  pub phase_written : field written "phase" ≡ some (text r.phase)
  unfolding frame_metadata response_body response_counts response_tensor response_identity
  phase_written = simp (field-put, field-put_if json laws, field-empty)

  pub decode_step_written : field written "decode_step" ≡ some (number r.decode_step)
  unfolding frame_metadata response_body response_counts response_tensor response_identity
  decode_step_written = simp (field-put, field-put_if json laws, field-empty)

  pub stage_index_written : field written "stage_index" ≡ some (number r.stage_index)
  unfolding frame_metadata response_body response_counts response_tensor response_identity
  stage_index_written = simp (field-put, field-put_if json laws, field-empty)

  pub stage_count_written : field written "stage_count" ≡ some (number r.stage_count)
  unfolding frame_metadata response_body response_counts response_tensor response_identity
  stage_count_written = simp (field-put, field-put_if json laws, field-empty)

  pub node_name_written : field written "node_name" ≡ some (text r.node_name)
  unfolding frame_metadata response_body response_counts response_tensor response_identity
  node_name_written = simp (field-put, field-put_if json laws, field-empty)

  pub layer_start_written : field written "layer_start" ≡ some (number r.layer_start)
  unfolding frame_metadata response_body response_counts response_tensor response_identity
  layer_start_written = simp (field-put, field-put_if json laws, field-empty)

  pub layer_end_written : field written "layer_end" ≡ some (number r.layer_end)
  unfolding frame_metadata response_body response_counts response_tensor response_identity
  layer_end_written = simp (field-put, field-put_if json laws, field-empty)

  pub payload_kind_written : field written "payload_kind" ≡ some (text r.payload_kind)
  unfolding frame_metadata response_body response_counts response_tensor response_identity
  payload_kind_written = simp (field-put, field-put_if json laws, field-empty)

  pub encoding_written :
      field written "encoding"
      ≡ (if not (is_text r.encoding "") then some (text r.encoding) else none)
  unfolding frame_metadata response_body response_counts response_tensor response_identity
  encoding_written = simp (field-put, field-put_if json laws, field-empty)

  pub dtype_written :
      field written "dtype" ≡ (if not (is_text r.dtype "") then some (text r.dtype) else none)
  unfolding frame_metadata response_body response_counts response_tensor response_identity
  dtype_written = simp (field-put, field-put_if json laws, field-empty)

  pub shape_written :
      field written "shape"
      ≡ (if not (shape_is_empty r.shape) then some (numbers r.shape) else none)
  unfolding frame_metadata response_body response_counts response_tensor response_identity
  shape_written = simp (field-put, field-put_if json laws, field-empty)

  pub byte_order_written :
      field written "byte_order"
      ≡ (if not (is_text r.byte_order "") then some (text r.byte_order) else none)
  unfolding frame_metadata response_body response_counts response_tensor response_identity
  byte_order_written = simp (field-put, field-put_if json laws, field-empty)

  pub layout_written :
      field written "layout" ≡ (if not (is_text r.layout "") then some (text r.layout) else none)
  unfolding frame_metadata response_body response_counts response_tensor response_identity
  layout_written = simp (field-put, field-put_if json laws, field-empty)

  pub transport_written : field written "transport" ≡ some (text stage_wire_transport)
  unfolding frame_metadata response_body response_counts response_tensor response_identity
  transport_written = simp (field-put, field-put_if json laws, field-empty)

  pub bytes_in_written :
      field written "bytes_in"
      ≡ (if not (test (ℤ-discrete r.bytes_in (pos 0))) then some (number r.bytes_in) else none)
  unfolding frame_metadata response_body response_counts response_tensor response_identity
  bytes_in_written = simp (field-put, field-put_if json laws, field-empty)

  pub bytes_out_written :
      field written "bytes_out"
      ≡ (if not (test (ℤ-discrete r.bytes_out (pos 0))) then some (number r.bytes_out) else none)
  unfolding frame_metadata response_body response_counts response_tensor response_identity
  bytes_out_written = simp (field-put, field-put_if json laws, field-empty)

  pub prompt_tokens_written : field written "prompt_tokens" ≡ (
      if not (test (ℤ-discrete r.prompt_tokens (pos 0)))
      then some (number r.prompt_tokens)
      else none)
  unfolding frame_metadata response_body response_counts response_tensor response_identity
  prompt_tokens_written = simp (field-put, field-put_if json laws, field-empty)

  pub prompt_token_ids_written : field written "prompt_token_ids" ≡ (
      if not (is_nil r.prompt_token_ids) then some (numbers (map pos r.prompt_token_ids)) else none)
  unfolding frame_metadata response_body response_counts response_tensor response_identity
  prompt_token_ids_written = simp (field-put, field-put_if json laws, field-empty)

  pub completion_tokens_written : field written "completion_tokens" ≡ (
      if not (test (ℤ-discrete r.completion_tokens (pos 0)))
      then some (number r.completion_tokens)
      else none)
  unfolding frame_metadata response_body response_counts response_tensor response_identity
  completion_tokens_written = simp (field-put, field-put_if json laws, field-empty)

  pub execution_batch_size_written : field written "execution_batch_size" ≡ (
      if not (test (ℤ-discrete r.execution_batch_size (pos 1)))
      then some (number r.execution_batch_size)
      else none)
  unfolding frame_metadata response_body response_counts response_tensor response_identity
  execution_batch_size_written = simp (field-put, field-put_if json laws, field-empty)

  pub verification_width_written : field written "verification_width" ≡ (
      if not (test (ℤ-discrete r.verification_width (pos 1)))
      then some (number r.verification_width)
      else none)
  unfolding frame_metadata response_body response_counts response_tensor response_identity
  verification_width_written = simp (field-put, field-put_if json laws, field-empty)

  pub latency_ms_written :
      field written "latency_ms"
      ≡ (if not (test (ℤ-discrete r.latency_ms (pos 0))) then some (number r.latency_ms) else none)
  unfolding frame_metadata response_body response_counts response_tensor response_identity
  latency_ms_written = simp (field-put, field-put_if json laws, field-empty)

  pub execution_us_written : field written "execution_us" ≡ (
      if not (test (ℤ-discrete r.execution_us (pos 0))) then some (number r.execution_us) else none)
  unfolding frame_metadata response_body response_counts response_tensor response_identity
  execution_us_written = simp (field-put, field-put_if json laws, field-empty)

  pub activation_decode_us_written : field written "activation_decode_us" ≡ (
      if not (test (ℤ-discrete r.activation_decode_us (pos 0)))
      then some (number r.activation_decode_us)
      else none)
  unfolding frame_metadata response_body response_counts response_tensor response_identity
  activation_decode_us_written = simp (field-put, field-put_if json laws, field-empty)

  pub activation_encode_us_written : field written "activation_encode_us" ≡ (
      if not (test (ℤ-discrete r.activation_encode_us (pos 0)))
      then some (number r.activation_encode_us)
      else none)
  unfolding frame_metadata response_body response_counts response_tensor response_identity
  activation_encode_us_written = simp (field-put, field-put_if json laws, field-empty)

  pub stage_total_us_written : field written "stage_total_us" ≡ (
      if not (test (ℤ-discrete r.stage_total_us (pos 0)))
      then some (number r.stage_total_us)
      else none)
  unfolding frame_metadata response_body response_counts response_tensor response_identity
  stage_total_us_written = simp (field-put, field-put_if json laws, field-empty)

  pub error_written :
      field written "error" ≡ (if not (is_text r.error "") then some (text r.error) else none)
  unfolding frame_metadata response_body response_counts response_tensor response_identity
  error_written = simp (field-put, field-put_if json laws, field-empty)

  pub message_written :
      field written "message"
      ≡ (if not (is_nil r.message) && is_valid_utf8 r.message then some (raw r.message) else none)
  unfolding frame_metadata response_body response_counts response_tensor response_identity
  message_written = simp (field-put, field-put_if json laws, field-empty)

  pub message_bytes_written : field written "message_bytes" ≡ (
      if not (is_nil r.message) && not (is_valid_utf8 r.message)
      then some (numbers (map pos r.message))
      else none)
  unfolding frame_metadata response_body response_counts response_tensor response_identity
  message_bytes_written = simp (field-put, field-put_if json laws, field-empty)

  pub token_text_offsets_written : field written "token_text_offsets" ≡ (
      if not (is_nil r.token_text_offsets)
      then some (numbers (map pos r.token_text_offsets))
      else none)
  unfolding frame_metadata response_body response_counts response_tensor response_identity
  token_text_offsets_written = simp (field-put, field-put_if json laws, field-empty)

  pub token_eog_written :
      field written "token_eog"
      ≡ (if not (is_nil r.token_eog) then some (numbers (map pos r.token_eog)) else none)
  unfolding frame_metadata response_body response_counts response_tensor response_identity
  token_eog_written = simp (field-put, field-put_if json laws, field-empty)
