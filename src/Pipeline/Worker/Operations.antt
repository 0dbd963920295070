-- ===== src/Pipeline/Worker/Operations.antt =====
-- The operations of the stage worker: `run`, `close_session` and `rollback_session` with the request
-- check that they share. A run can end with an exception of the executor, which nothing catches.
use jetsonfabric.Base.{
  false, true, ℕ, ℤ, pos, leb_ℤ, ℤ-discrete, Bool, not, ◌||◌, String, ◌<>◌, to_string, length, test,
  string_discrete, if◌then◌else◌, ◌⊎◌, inl, inr,
}
use jetsonfabric.Inference.{
  invalid_input, execution_failure, ExecutionError, ExecutionResult, success,
  ExecutionResult.error_result, StageInput, StageOutput, PayloadKind.activation, kind_discrete,
  validate_payload, validate_stage_input,
}
use jetsonfabric.Pipeline.Assignment.{validate_stage_assignment}
use jetsonfabric.Pipeline.Result.{StageRunResult, default_result}
use jetsonfabric.Pipeline.Worker.{
  Fallible, returned, throws_invalid_argument, throws_exception, Executor, ActivationCodec,
  StageWorker, Readings, StageTimings, elapsed_us, stage_error_result, bad_request, to_stage_input,
  to_stage_response, close_response,
}
use jetsonfabric.Protocol.Message.{StageRequest}

abbrev is_text : String → String → Bool
is_text s t = test (string_discrete s t)

abbrev is_int : ℤ → ℤ → Bool
is_int a b = test (ℤ-discrete a b)

unfoldable pub validate_request : StageWorker → StageRequest → String
validate_request w q =
    if is_text q.session_id ""
    then "session_id is required"
    else if is_text q.request_id ""
    then "request_id is required"
    else if is_text q.model_id ""
    then "model_id is required"
    else if not (is_text q.model_id w.model_id)
    then "request model_id " <> q.model_id <> " does not match runtime model_id " <> w.model_id
    else if not (is_int q.stage_index w.assignment.stage_index)
    then "request stage_index "
      <> to_string q.stage_index
      <> " does not match runtime stage_index "
      <> to_string w.assignment.stage_index
    else if not (is_int q.stage_count w.assignment.stage_count)
    then "request stage_count "
      <> to_string q.stage_count
      <> " does not match runtime stage_count "
      <> to_string w.assignment.stage_count
    else if not (is_int q.layer_start w.assignment.layer_start)
        || not (is_int q.layer_end w.assignment.layer_end)
    then "request layer range ["
      <> to_string q.layer_start
      <> ":"
      <> to_string q.layer_end
      <> "] does not match runtime assignment ["
      <> to_string w.assignment.layer_start
      <> ":"
      <> to_string w.assignment.layer_end
      <> "]"
    else if not (is_text q.node_name w.node_name)
    then "request node_name " <> q.node_name <> " does not match runtime node_name " <> w.node_name
    else if is_text q.phase ""
    then "phase is required"
    else if is_text q.payload_kind ""
    then "payload_kind is required"
    else ""

-- The checks that the three operations begin with.
unfoldable pub check_request : StageWorker → StageRequest → StageRunResult ⊎ Unit {0}
check_request w q =
    let assignment_error = validate_stage_assignment w.assignment in
    let request_error = validate_request w q in
    if not (is_text assignment_error "")
    then inl (bad_request "invalid_stage_assignment" assignment_error)
    else if not (is_text request_error "")
    then inl (bad_request "invalid_stage_request" request_error)
    else inr tt

unfoldable pub check_input : StageInput → StageRunResult ⊎ StageInput
check_input i =
    let input_error = validate_stage_input i in
    if not (is_text input_error "")
    then inl (bad_request "invalid_stage_input" input_error)
    else inr i

-- The payload that came over the wire is checked, and decoded if it is an activation.
unfoldable pub decode_input : ActivationCodec → StageInput → StageRunResult ⊎ StageInput
unfolding check_input
decode_input codec i =
    let wire_payload_error = validate_payload i.payload in
    if not (is_text wire_payload_error "")
    then inl (bad_request "invalid_stage_input" wire_payload_error)
    else if test (kind_discrete i.payload.kind activation)
    then elim (codec.decode i.payload) [
      | returned payload ↦ check_input (record i { payload = payload })
      | throws_invalid_argument what ↦ inl (bad_request "activation_decode_failed" what)
      | throws_exception what ↦ inl (bad_request "activation_decode_failed" what)
    ]
    else check_input i

-- What `run` does before it calls the executor: an answer, or the input.
unfoldable pub admit : StageWorker → ActivationCodec → StageRequest → StageRunResult ⊎ StageInput
unfolding check_request decode_input
admit w codec q = elim (check_request w q) [
  | inl r ↦ inl r
  | inr u ↦ elim (to_stage_input q) [
    | inl what ↦ inl (bad_request "invalid_stage_input" what)
    | inr i ↦ decode_input codec i
  ]
]

unfoldable pub execution_error : ExecutionError → StageRunResult
execution_error e = elim e.kind [
  | invalid_input ↦ stage_error_result "400 Bad Request" e.code e.message
  | execution_failure ↦ stage_error_result "502 Bad Gateway" e.code e.message
]

-- `decoded` and `encoded` say which of the two codec calls were made, for the timings.
unfoldable pub run_timings : Readings → Bool → Bool → StageTimings
run_timings t decoded encoded = record {
  execution_us = elapsed_us t.execution_start t.execution_end;
  activation_decode_us = if decoded then elapsed_us t.decode_start t.decode_end else pos 0;
  activation_encode_us = if encoded then elapsed_us t.encode_start t.encode_end else pos 0;
  stage_total_us = elapsed_us t.stage_start t.stage_end;
}

unfoldable pub run_success : StageRequest → StageOutput → StageTimings → StageRunResult
run_success q o timings = record default_result {
  ok = true;
  status = "200 OK";
  response = to_stage_response q o (pos (length q.payload)) timings;
}

-- The executor's output is checked, encoded if it is an activation, and checked again.
unfoldable pub encode_output :
    ActivationCodec → StageRequest → Readings → Bool → StageOutput → StageRunResult
unfolding run_success run_timings
encode_output codec q t decoded o =
    let output_error = validate_payload o.payload in
    if not (is_text output_error "")
    then stage_error_result "502 Bad Gateway" "invalid_stage_output" output_error
    else if test (kind_discrete o.payload.kind activation)
    then elim (codec.encode o.payload) [
      | throws_invalid_argument what ↦
          stage_error_result "502 Bad Gateway" "activation_encode_failed" what
      | throws_exception what ↦ stage_error_result "502 Bad Gateway" "activation_encode_failed" what
      | returned payload ↦
          if not (is_text (validate_payload payload) "")
          then stage_error_result "502 Bad Gateway" "invalid_stage_output"
              (validate_payload payload)
          else run_success q (record o { payload = payload }) (run_timings t decoded true)
    ]
    else run_success q o (run_timings t decoded false)

unfoldable pub finish_run :
    ActivationCodec
    → StageRequest
    → Readings
    → Bool
    → Fallible ExecutionResult
    → Fallible StageRunResult
unfolding encode_output execution_error
finish_run codec q t decoded (returned (success o)) = returned (encode_output codec q t decoded o)
finish_run codec q t decoded (returned (error_result e)) = returned (execution_error e)
finish_run codec q t decoded (throws_invalid_argument what) = throws_invalid_argument what
finish_run codec q t decoded (throws_exception what) = throws_exception what

unfoldable pub session_success : ℕ → ℕ → StageRequest → StageRunResult
session_success start now q = record default_result {
  ok = true;
  status = "200 OK";
  response = close_response q (elapsed_us start now);
}

-- The end of the try and catch blocks around the executor's call.
unfoldable pub close_outcome : ℕ → ℕ → StageRequest → Fallible (Unit {0}) → StageRunResult
unfolding session_success
close_outcome start now q (returned v) = session_success start now q
close_outcome start now q (throws_invalid_argument what) =
    stage_error_result "502 Bad Gateway" "stage_session_close_failed" what
close_outcome start now q (throws_exception what) =
    stage_error_result "502 Bad Gateway" "stage_session_close_failed" what

unfoldable pub rollback_outcome : ℕ → ℕ → StageRequest → Fallible (Unit {0}) → StageRunResult
unfolding session_success
rollback_outcome start now q (returned v) = session_success start now q
rollback_outcome start now q (throws_invalid_argument what) =
    bad_request "stage_session_rollback_rejected" what
rollback_outcome start now q (throws_exception what) =
    stage_error_result "502 Bad Gateway" "stage_session_rollback_failed" what

module _ {X : Type 0} (executor : Executor X) where
  unfoldable pub run :
      StageWorker → ActivationCodec → Readings → StageRequest → X → X × Fallible StageRunResult
  unfolding admit finish_run
  run w codec t q x = elim (admit w codec q) [
    | inl r ↦ (x, returned r)
    | inr i ↦
        let (y, outcome) = executor.execute i x in
        (y, finish_run codec q t (is_text q.payload_kind "activation") outcome)
  ]

  unfoldable pub close_session : StageWorker → ℕ → ℕ → StageRequest → X → X × StageRunResult
  unfolding check_request close_outcome
  close_session w start now q x = elim (check_request w q) [
    | inl r ↦ (x, r)
    | inr u ↦
        let (y, outcome) = executor.close_session q.session_id x in
        (y, close_outcome start now q outcome)
  ]

  unfoldable pub rollback_session : StageWorker → ℕ → ℕ → StageRequest → X → X × StageRunResult
  unfolding check_request rollback_outcome
  rollback_session w start now q x = elim (check_request w q) [
    | inl r ↦ (x, r)
    | inr u ↦
        if leb_ℤ q.rollback_tokens (pos 0)
        then (x, bad_request "invalid_rollback" "rollback_tokens must be greater than zero")
        else let (y, outcome) = executor.rollback_session q.session_id q.rollback_tokens x in
          (y, rollback_outcome start now q outcome)
  ]
