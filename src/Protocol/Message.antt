-- ===== src/Protocol/Message.antt =====
-- runtime/protocol/stage.hpp: the stage request and response, with their default values.
use jetsonfabric.Base.{
  ℕ, ℤ, pos, ◌-ℤ◌, ltb_ℤ, ℤ-discrete, Bool, ◌&&◌, test, String, Bytes, List, [],
}

abbrev pub stage_wire_version : ℕ
stage_wire_version = 2

abbrev pub stage_wire_transport : String
stage_wire_transport = "http_binary_v1"

abbrev pub max_stage_tokens : ℕ
max_stage_tokens = 1024

pub record StageRequest : Type 0 where
  pub protocol_version : ℕ
  pub session_id : String
  pub request_id : String
  pub model_id : String
  pub deployment_id : String
  pub deployment_epoch : ℕ
  pub model_sha256 : String
  pub phase : String
  pub decode_step : ℤ
  pub stage_index : ℤ
  pub stage_count : ℤ
  pub node_name : String
  pub layer_start : ℤ
  pub layer_end : ℤ
  pub payload_kind : String
  pub encoding : String
  pub dtype : String
  pub shape : List ℤ
  pub byte_order : String
  pub layout : String
  pub payload : Bytes
  pub payload_bytes : ℕ
  pub payload_crc32 : ℕ
  pub transport : String
  pub max_tokens : ℤ
  pub rollback_tokens : ℤ

abbrev pub default_request : StageRequest
default_request = record {
  protocol_version = stage_wire_version;
  session_id = "";
  request_id = "";
  model_id = "";
  deployment_id = "";
  deployment_epoch = 0;
  model_sha256 = "";
  phase = "prefill";
  decode_step = pos 0;
  stage_index = pos 0;
  stage_count = pos 1;
  node_name = "";
  layer_start = pos 0;
  layer_end = pos 0;
  payload_kind = "text";
  encoding = "utf-8";
  dtype = "";
  shape = [];
  byte_order = "";
  layout = "";
  payload = [];
  payload_bytes = 0;
  payload_crc32 = 0;
  transport = stage_wire_transport;
  max_tokens = pos 128;
  rollback_tokens = pos 0;
}

unfoldable pub is_first_stage : StageRequest → Bool
is_first_stage r = ltb_ℤ (pos 0) r.stage_count && test (ℤ-discrete r.stage_index (pos 0))

unfoldable pub is_last_stage : StageRequest → Bool
is_last_stage r =
    ltb_ℤ (pos 0) r.stage_count && test (ℤ-discrete r.stage_index (r.stage_count -ℤ pos 1))

pub record StageResponse : Type 0 where
  pub protocol_version : ℕ
  pub operation : String
  pub session_id : String
  pub request_id : String
  pub model_id : String
  pub deployment_id : String
  pub deployment_epoch : ℕ
  pub model_sha256 : String
  pub phase : String
  pub decode_step : ℤ
  pub stage_index : ℤ
  pub stage_count : ℤ
  pub node_name : String
  pub layer_start : ℤ
  pub layer_end : ℤ
  pub payload_kind : String
  pub encoding : String
  pub dtype : String
  pub shape : List ℤ
  pub byte_order : String
  pub layout : String
  pub payload : Bytes
  pub payload_bytes : ℕ
  pub payload_crc32 : ℕ
  pub transport : String
  pub bytes_in : ℤ
  pub bytes_out : ℤ
  pub prompt_tokens : ℤ
  pub prompt_token_ids : List ℕ
  pub completion_tokens : ℤ
  pub execution_batch_size : ℤ
  pub verification_width : ℤ
  pub latency_ms : ℤ
  pub execution_us : ℤ
  pub activation_decode_us : ℤ
  pub activation_encode_us : ℤ
  pub stage_total_us : ℤ
  pub error : String
  pub message : Bytes
  pub token_text_offsets : List ℕ
  pub token_eog : List ℕ

abbrev pub default_response : StageResponse
default_response = record {
  protocol_version = stage_wire_version;
  operation = "execute";
  session_id = "";
  request_id = "";
  model_id = "";
  deployment_id = "";
  deployment_epoch = 0;
  model_sha256 = "";
  phase = "prefill";
  decode_step = pos 0;
  stage_index = pos 0;
  stage_count = pos 1;
  node_name = "";
  layer_start = pos 0;
  layer_end = pos 0;
  payload_kind = "text";
  encoding = "utf-8";
  dtype = "";
  shape = [];
  byte_order = "";
  layout = "";
  payload = [];
  payload_bytes = 0;
  payload_crc32 = 0;
  transport = stage_wire_transport;
  bytes_in = pos 0;
  bytes_out = pos 0;
  prompt_tokens = pos 0;
  prompt_token_ids = [];
  completion_tokens = pos 0;
  execution_batch_size = pos 1;
  verification_width = pos 1;
  latency_ms = pos 0;
  execution_us = pos 0;
  activation_decode_us = pos 0;
  activation_encode_us = pos 0;
  stage_total_us = pos 0;
  error = "";
  message = [];
  token_text_offsets = [];
  token_eog = [];
}
