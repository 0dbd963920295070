-- ===== src/Pipeline/Worker.antt =====
-- runtime/pipeline_parallel/stage_worker.cpp: a stage worker checks a request, decodes its payload,
-- calls the executor and encodes what the executor returns. The executor (inference/executor.hpp)
-- and the activation codec are interfaces of the program, here records of operations; `X` is the
-- state that the executor keeps. The readings of the steady clock, in microseconds, are arguments.
pub mod Operations
pub mod Fits
pub mod Runs
pub mod Answers
pub mod Sessions
use jetsonfabric.Base.{
  ℕ, ◌/◌, ◌+◌, ℤ, pos, negsuc, ◌-ℤ◌, false, none, some, String, ◌<>◌, length, ◌⊎◌, inl, inr,
}
use jetsonfabric.Inference.{
  ExecutionResult, StageInput, StageOutput, Payload, kind_string, parse_phase, parse_payload_kind,
}
use jetsonfabric.Inference.TokenPayload.{of_bits, to_bits}
use jetsonfabric.Pipeline.Assignment.{StageAssignment}
use jetsonfabric.Pipeline.Result.{StageRunResult, default_result}
use jetsonfabric.Protocol.Message.{StageRequest, StageResponse, default_response}

-- How a call ends: std::invalid_argument is told apart from the other exceptions.
pub data Fallible (A : Type 0) : Type 0 where
  returned : A → Fallible A
  throws_invalid_argument throws_exception : String → Fallible A

pub record Executor (X : Type 0) : Type 0 where
  pub execute : StageInput → X → X × Fallible ExecutionResult
  pub close_session : String → X → X × Fallible (Unit {0})
  pub rollback_session : String → ℤ → X → X × Fallible (Unit {0})

pub record ActivationCodec : Type 0 where
  pub encode : Payload → Fallible Payload
  pub decode : Payload → Fallible Payload

pub record StageWorker : Type 0 where
  pub node_name : String
  pub model_id : String
  pub assignment : StageAssignment

-- What `steady_clock::now` gives at the points of a run where it is called.
pub record Readings : Type 0 where
  pub stage_start : ℕ
  pub decode_start : ℕ
  pub decode_end : ℕ
  pub execution_start : ℕ
  pub execution_end : ℕ
  pub encode_start : ℕ
  pub encode_end : ℕ
  pub stage_end : ℕ

pub record StageTimings : Type 0 where
  pub execution_us : ℤ
  pub activation_decode_us : ℤ
  pub activation_encode_us : ℤ
  pub stage_total_us : ℤ

unfoldable pub elapsed_us : ℕ → ℕ → ℤ
elapsed_us start now = pos now -ℤ pos start

-- Division rounds towards zero; the cast keeps the low 32 bits.
unfoldable pub elapsed_ms : ℤ → ℤ
elapsed_ms (pos us) = of_bits (to_bits (pos (us / 1000)))
elapsed_ms (negsuc us) = of_bits (to_bits (pos 0 -ℤ pos ((us + 1) / 1000)))

unfoldable pub stage_error_result : String → String → String → StageRunResult
stage_error_result status code message = record default_result {
  ok = false;
  status = status;
  error_code = code;
  error_message = message;
}

unfoldable pub bad_request : String → String → StageRunResult
unfolding stage_error_result
bad_request = stage_error_result "400 Bad Request"

-- The exception's message, or the payload.
unfoldable pub to_inference_payload : StageRequest → String ⊎ Payload
to_inference_payload q = elim (parse_payload_kind q.payload_kind) [
  | none ↦ inl ("invalid inference payload kind: " <> q.payload_kind)
  | some kind ↦ inr (record {
    kind = kind;
    encoding = q.encoding;
    tensor = record {
      dtype = q.dtype;
      shape = q.shape;
      byte_order = q.byte_order;
      layout = q.layout;
    };
    bytes = q.payload;
  })
]

unfoldable pub to_stage_input : StageRequest → String ⊎ StageInput
unfolding to_inference_payload
to_stage_input q = elim (parse_phase q.phase) [
  | none ↦ inl ("invalid inference phase: " <> q.phase)
  | some phase ↦ elim (to_inference_payload q) [
    | inl message ↦ inl message
    | inr payload ↦ inr (record {
      session_id = q.session_id;
      request_id = q.request_id;
      model_id = q.model_id;
      phase = phase;
      decode_step = q.decode_step;
      position = record { index = q.stage_index; count = q.stage_count };
      layers = record { first = q.layer_start; last = q.layer_end };
      payload = payload;
      max_tokens = q.max_tokens;
    })
  ]
]

unfoldable pub base_response : StageRequest → StageResponse
base_response q = record default_response {
  session_id = q.session_id;
  request_id = q.request_id;
  model_id = q.model_id;
  deployment_id = q.deployment_id;
  deployment_epoch = q.deployment_epoch;
  model_sha256 = q.model_sha256;
  phase = q.phase;
  decode_step = q.decode_step;
  stage_index = q.stage_index;
  stage_count = q.stage_count;
  node_name = q.node_name;
  layer_start = q.layer_start;
  layer_end = q.layer_end;
}

unfoldable pub to_stage_response : StageRequest → StageOutput → ℤ → StageTimings → StageResponse
unfolding base_response elapsed_ms
to_stage_response q o bytes_in t = record (base_response q) {
  payload_kind = kind_string o.payload.kind;
  encoding = o.payload.encoding;
  dtype = o.payload.tensor.dtype;
  shape = o.payload.tensor.shape;
  byte_order = o.payload.tensor.byte_order;
  layout = o.payload.tensor.layout;
  payload = o.payload.bytes;
  bytes_in = bytes_in;
  bytes_out = pos (length o.payload.bytes);
  prompt_tokens = o.prompt_tokens;
  prompt_token_ids = o.prompt_token_ids;
  completion_tokens = o.completion_tokens;
  execution_batch_size = o.execution_batch_size;
  verification_width = o.verification_width;
  latency_ms = elapsed_ms t.execution_us;
  execution_us = t.execution_us;
  activation_decode_us = t.activation_decode_us;
  activation_encode_us = t.activation_encode_us;
  stage_total_us = t.stage_total_us;
  message = o.token_text;
  token_text_offsets = o.token_text_offsets;
  token_eog = o.token_eog;
}

unfoldable pub close_response : StageRequest → ℤ → StageResponse
unfolding base_response elapsed_ms
close_response q duration_us = record (base_response q) {
  payload_kind = "text";
  encoding = "utf-8";
  bytes_in = pos (length q.payload);
  latency_ms = elapsed_ms duration_us;
  stage_total_us = duration_us;
}
