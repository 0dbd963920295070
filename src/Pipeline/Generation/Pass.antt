-- ===== src/Pipeline/Generation/Pass.antt =====
-- generation_runner.cpp: one pass of a request through the stages. The stage invoker is a function of
-- the program's surroundings, so it takes and returns their state, of type `W`; it always returns.
use jetsonfabric.Base.{
  ℕ, suc, ◌+ℤ◌, pos, ◌-ℤ◌, ℤ-discrete, Bool, not, String, ◌<>◌, to_string, List, [], ◌∷◌, test,
  string_discrete, if◌then◌else◌, ◌⊎◌, inl, inr,
}
use jetsonfabric.Pipeline.Generation.{GenerationResult, StageOperation, execute, generation_error}
use jetsonfabric.Pipeline.Generation.Checks.{
  apply_stage, apply_response, validate_response, record_stage_timing,
}
use jetsonfabric.Pipeline.Result.{StageRunResult}
use jetsonfabric.Protocol.Generation.{GenerationStage}
use jetsonfabric.Protocol.Message.{default_response, StageRequest, StageResponse}

abbrev pub StageInvoker : Type 0 → Type 0
StageInvoker W = GenerationStage → StageRequest → StageOperation → W → W × StageRunResult

-- The variables of `run_pass`.
pub record Pass : Type 0 where
  pub request : StageRequest
  pub final_response : StageResponse
  pub prompt_token_ids : List ℕ
  pub result : GenerationResult

abbrev is_text : String → String → Bool
is_text s t = test (string_discrete s t)

-- The counters that are raised before the call's result is looked at.
unfoldable pub count_call : GenerationStage → GenerationResult → GenerationResult
count_call s r = record r {
  stage_calls = suc r.stage_calls;
  remote_stage_calls =
      if test (ℤ-discrete s.stage_index (pos 0))
      then r.remote_stage_calls
      else suc r.remote_stage_calls;
}

unfoldable pub failed_stage : GenerationStage → StageRunResult → GenerationResult
unfolding generation_error
failed_stage s run =
    generation_error run.status
      (if is_text run.error_code "" then "generation_stage_failed" else run.error_code)
      ("stage " <> to_string s.stage_index <> ": " <> run.error_message)

-- What a good response adds to the result.
unfoldable pub add_response : GenerationStage → StageRunResult → GenerationResult → GenerationResult
unfolding record_stage_timing
add_response s run r =
    let timed = record_stage_timing r s run in
    record timed {
      prompt_tokens = timed.prompt_tokens +ℤ run.response.prompt_tokens;
      bytes_in = timed.bytes_in +ℤ run.response.bytes_in;
      bytes_out = timed.bytes_out +ℤ run.response.bytes_out;
    }

abbrev chosen_ids : List ℕ → List ℕ → List ℕ
chosen_ids [] ids = ids
chosen_ids (t ∷ new) ids = t ∷ new

-- `request` is the request that the stage was called with.
unfoldable pub accept_response : GenerationStage → StageRunResult → StageRequest → Pass → Pass
unfolding add_response
accept_response s run request p = record {
  request =
      if test (ℤ-discrete s.stage_index (s.stage_count -ℤ pos 1))
      then request
      else apply_response request run.response;
  final_response =
      if test (ℤ-discrete s.stage_index (s.stage_count -ℤ pos 1))
      then run.response
      else p.final_response;
  prompt_token_ids = chosen_ids run.response.prompt_token_ids p.prompt_token_ids;
  result = add_response s run (count_call s p.result);
}

-- The body of the loop behind the call: an error, or the variables for the next stage.
unfoldable pub check_stage :
    GenerationStage → StageRunResult → StageRequest → Pass → GenerationResult ⊎ Pass
unfolding accept_response failed_stage
check_stage s run request p =
    if not run.ok
    then inl (failed_stage s run)
    else if not (is_text (validate_response request run.response) "")
    then inl (
        generation_error "502 Bad Gateway" "invalid_stage_response"
          (validate_response request run.response))
    else inr (accept_response s run request p)

-- The loop; each stage starts from the id of the pass.
unfoldable pub run_stages :
    {W : Type 0}
    → StageInvoker W
    → String
    → List GenerationStage
    → Pass
    → W
    → W × (GenerationResult ⊎ Pass)
unfolding check_stage
run_stages invoke pass_request_id [] p w = (w, inr p)
run_stages invoke pass_request_id (s ∷ stages) p w =
    let request = apply_stage s (record p.request { request_id = pass_request_id }) in
    let (w', run) = invoke s request execute w in
    elim (check_stage s run request p) [
      | inl error ↦ (w', inl error)
      | inr q ↦ run_stages invoke pass_request_id stages q w'
    ]

unfoldable pub run_pass :
    {W : Type 0}
    → StageInvoker W
    → List GenerationStage
    → StageRequest
    → GenerationResult
    → W
    → W × (GenerationResult ⊎ Pass)
unfolding run_stages
run_pass invoke stages request result w =
    run_stages invoke request.request_id stages
      (record {
        request = request;
        final_response = default_response;
        prompt_token_ids = [];
        result = result;
      })
      w
