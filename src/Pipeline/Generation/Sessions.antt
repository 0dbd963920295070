-- ===== src/Pipeline/Generation/Sessions.antt =====
-- generation_runner.cpp: closing and rolling back the sessions of all stages.
use jetsonfabric.Base.{
  ℕ, suc, ◌+ℤ◌, pos, ℤ-discrete, Bool, not, ◌&&◌, String, ◌<>◌, to_string, List, [], ◌∷◌, test,
  string_discrete, if◌then◌else◌,
}
use jetsonfabric.Pipeline.Generation.{
  GenerationResult, close_session, rollback_session, with_deployment, write_tokens,
}
use jetsonfabric.Pipeline.Generation.Checks.{validate_response_identity}
use jetsonfabric.Pipeline.Generation.Pass.{StageInvoker}
use jetsonfabric.Pipeline.Result.{StageRunResult}
use jetsonfabric.Protocol.Generation.{GenerationStage, GenerationRequest}
use jetsonfabric.Protocol.Message.{StageRequest, default_request}

abbrev is_text : String → String → Bool
is_text s t = test (string_discrete s t)

-- The fields that both kinds of request take from the generation and the stage.
unfoldable pub session_request : GenerationRequest → GenerationStage → String → StageRequest
unfolding with_deployment
session_request g s id = record (with_deployment g default_request) {
  session_id = g.session_id;
  request_id = g.request_id <> id <> to_string s.stage_index;
  model_id = g.model_id;
  stage_index = s.stage_index;
  stage_count = s.stage_count;
  node_name = s.node_name;
  layer_start = s.layer_start;
  layer_end = s.layer_end;
  max_tokens = pos 1;
}

unfoldable pub close_request : GenerationRequest → GenerationStage → StageRequest
unfolding session_request
close_request g s = record (session_request g s "-close-stage-") {
  phase = "prefill";
  payload_kind = "text";
  encoding = "utf-8";
}

unfoldable pub rollback_request : GenerationRequest → GenerationStage → ℕ → StageRequest
unfolding session_request write_tokens
rollback_request g s token_count = record (session_request g s "-rollback-stage-") {
  phase = "decode";
  decode_step = pos 1;
  payload_kind = "sampled_token";
  dtype = "u32";
  shape = pos 1 ∷ [];
  byte_order = "little";
  layout = "row_major";
  rollback_tokens = pos token_count;
  payload = write_tokens (0 ∷ []);
}

-- The first error is kept.
unfoldable pub session_error : GenerationStage → StageRequest → StageRunResult → String → String
session_error s request run first_error =
    let response_error = validate_response_identity request run.response in
    if not run.ok && is_text first_error ""
    then "stage " <> to_string s.stage_index <> ": " <> run.error_message
    else if run.ok && not (is_text response_error "") && is_text first_error ""
    then "stage " <> to_string s.stage_index <> ": " <> response_error
    else first_error

unfoldable pub close_from :
    {W : Type 0}
    → StageInvoker W
    → GenerationRequest
    → List GenerationStage
    → String
    → W
    → W × String
unfolding close_request session_error
close_from invoke g [] first_error w = (w, first_error)
close_from invoke g (s ∷ stages) first_error w =
    let request = close_request g s in
    let (w', close) = invoke s request close_session w in
    close_from invoke g stages (session_error s request close first_error) w'

unfoldable pub close_sessions : {W : Type 0} → StageInvoker W → GenerationRequest → W → W × String
unfolding close_from
close_sessions invoke g w = close_from invoke g g.stages "" w

-- The counters of a rollback call.
unfoldable pub add_rollback : GenerationStage → StageRunResult → GenerationResult → GenerationResult
add_rollback s run r = record r {
  rollback_stage_calls = suc r.rollback_stage_calls;
  rollback_stage_us = r.rollback_stage_us +ℤ run.response.stage_total_us;
  rollback_remote_call_us = r.rollback_remote_call_us +ℤ run.remote_call_us;
  remote_rollback_stage_calls =
      if test (ℤ-discrete s.stage_index (pos 0))
      then r.remote_rollback_stage_calls
      else suc r.remote_rollback_stage_calls;
}

unfoldable pub rollback_from :
    {W : Type 0}
    → StageInvoker W
    → GenerationRequest
    → ℕ
    → List GenerationStage
    → String
    → GenerationResult
    → W
    → W × (String × GenerationResult)
unfolding rollback_request session_error add_rollback
rollback_from invoke g token_count [] first_error result w = (w, (first_error, result))
rollback_from invoke g token_count (s ∷ stages) first_error result w =
    let request = rollback_request g s token_count in
    let (w', run) = invoke s request rollback_session w in
    rollback_from invoke g token_count stages (session_error s request run first_error)
      (add_rollback s run result) w'

unfoldable pub rollback_sessions :
    {W : Type 0}
    → StageInvoker W
    → GenerationRequest
    → ℕ
    → GenerationResult
    → W
    → W × (String × GenerationResult)
unfolding rollback_from
rollback_sessions invoke g token_count result w =
    rollback_from invoke g token_count g.stages "" result w
