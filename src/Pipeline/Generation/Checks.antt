-- ===== src/Pipeline/Generation/Checks.antt =====
-- generation_runner.cpp: a request on its way through the stages, the checks on a stage's response
-- and the timings that are kept of it.
use jetsonfabric.Base.{
  false, ◌-ℤ◌, ◌+ℤ◌, ℤ, pos, ltb_ℤ, ℤ-discrete, Bool, not, ◌&&◌, none, some, String, ◌<>◌,
  to_string, List, [], ◌∷◌, test, string_discrete, ℕ_discrete, if◌then◌else◌,
}
use jetsonfabric.Inference.{
  kind_discrete, PayloadKind, PayloadKind.sampled_tokens, parse_phase, parse_payload_kind,
  expected_output,
}
use jetsonfabric.Pipeline.Generation.{GenerationResult}
use jetsonfabric.Pipeline.Result.{StageRunResult}
use jetsonfabric.Protocol.Generation.{GenerationStage, GenerationStageTiming, default_timing}
use jetsonfabric.Protocol.Message.{StageRequest, StageResponse}

unfoldable pub apply_stage : GenerationStage → StageRequest → StageRequest
apply_stage s q = record q {
  request_id = q.request_id <> "-stage-" <> to_string s.stage_index;
  stage_index = s.stage_index;
  stage_count = s.stage_count;
  node_name = s.node_name;
  layer_start = s.layer_start;
  layer_end = s.layer_end;
}

unfoldable pub apply_response : StageRequest → StageResponse → StageRequest
apply_response q r = record q {
  payload_kind = r.payload_kind;
  encoding = r.encoding;
  dtype = r.dtype;
  shape = r.shape;
  byte_order = r.byte_order;
  layout = r.layout;
  payload = r.payload;
}

abbrev is_text : String → String → Bool
is_text s t = test (string_discrete s t)

abbrev is_int : ℤ → ℤ → Bool
is_int a b = test (ℤ-discrete a b)

unfoldable pub validate_response_identity : StageRequest → StageResponse → String
validate_response_identity q r =
    if is_text r.session_id q.session_id
      && is_text r.request_id q.request_id
      && is_text r.model_id q.model_id
      && is_text r.deployment_id q.deployment_id
      && test (ℕ_discrete r.deployment_epoch q.deployment_epoch)
      && is_text r.model_sha256 q.model_sha256
      && is_text r.phase q.phase
      && is_int r.decode_step q.decode_step
      && is_int r.stage_index q.stage_index
      && is_int r.stage_count q.stage_count
      && is_text r.node_name q.node_name
      && is_int r.layer_start q.layer_start
      && is_int r.layer_end q.layer_end
    then ""
    else "stage response identity does not match its request"

-- Whether the request carries more than one token.
abbrev several : List ℤ → Bool
several [] = false
several (d ∷ shape) = ltb_ℤ (pos 1) d

unfoldable pub speculative_final_output : StageRequest → PayloadKind → Bool
speculative_final_output q actual =
    is_text q.phase "decode"
    && ltb_ℤ (pos 0) q.stage_count
    && is_int q.stage_index (q.stage_count -ℤ pos 1)
    && several q.shape
    && test (kind_discrete actual sampled_tokens)

unfoldable pub validate_transition : StageRequest → StageResponse → String
unfolding speculative_final_output
validate_transition q r = elim (parse_payload_kind r.payload_kind) [
  | none ↦ "invalid inference payload kind: " <> r.payload_kind
  | some actual ↦ elim (parse_phase q.phase) [
    | none ↦ "invalid inference phase: " <> q.phase
    | some phase ↦
        elim (expected_output phase (record { index = q.stage_index; count = q.stage_count })) [
          | none ↦ "invalid stage position"
          | some expected ↦
              if not (test (kind_discrete actual expected))
                && not (speculative_final_output q actual)
              then "stage response violates the pipeline payload transition"
              else ""
        ]
  ]
]

unfoldable pub validate_response : StageRequest → StageResponse → String
unfolding validate_response_identity validate_transition
validate_response q r =
    if not (is_text (validate_response_identity q r) "")
    then validate_response_identity q r
    else validate_transition q r

abbrev max_ℤ : ℤ → ℤ → ℤ
max_ℤ a b = if ltb_ℤ a b then b else a

-- What a run adds to the timing of its stage.
unfoldable pub add_timing : StageRunResult → GenerationStageTiming → GenerationStageTiming
add_timing run t = record t {
  calls = t.calls +ℤ pos 1;
  batch_items = t.batch_items +ℤ run.response.execution_batch_size;
  max_execution_batch_size = max_ℤ t.max_execution_batch_size run.response.execution_batch_size;
  verification_items = t.verification_items +ℤ run.response.verification_width;
  max_verification_width = max_ℤ t.max_verification_width run.response.verification_width;
  execution_us = t.execution_us +ℤ run.response.execution_us;
  activation_decode_us = t.activation_decode_us +ℤ run.response.activation_decode_us;
  activation_encode_us = t.activation_encode_us +ℤ run.response.activation_encode_us;
  stage_total_us = t.stage_total_us +ℤ run.response.stage_total_us;
  remote_call_us = t.remote_call_us +ℤ run.remote_call_us;
  remote_overhead_us =
      t.remote_overhead_us
      +ℤ (if ltb_ℤ run.response.stage_total_us run.remote_call_us
          then run.remote_call_us -ℤ run.response.stage_total_us
          else pos 0);
  bytes_in = t.bytes_in +ℤ run.response.bytes_in;
  bytes_out = t.bytes_out +ℤ run.response.bytes_out;
}

-- The first timing of this phase and stage is added to, or a new one at the end.
unfoldable pub record_timing :
    GenerationStage → StageRunResult → List GenerationStageTiming → List GenerationStageTiming
unfolding add_timing
record_timing s run [] =
    add_timing run (record default_timing {
      phase = run.response.phase;
      stage_index = s.stage_index;
      node_name = s.node_name;
      remote = not (is_int s.stage_index (pos 0));
    })
    ∷ []
record_timing s run (t ∷ timings) =
    let rest = record_timing s run timings in
    if is_text t.phase run.response.phase && is_int t.stage_index s.stage_index
    then add_timing run t ∷ timings
    else t ∷ rest

unfoldable pub record_stage_timing :
    GenerationResult → GenerationStage → StageRunResult → GenerationResult
unfolding record_timing
record_stage_timing r s run = record r { stage_timings = record_timing s run r.stage_timings }
