-- ===== src/Tests/Worker.antt =====
-- A stage worker of one stage over an executor that counts its calls.
use jetsonfabric.Base.{
  ◌-ℤ◌, ℤ-discrete, ℕ, suc, ◌≡◌, ◌↔◌, ◌⊎◌, refl, true, false, pos, [], ◌∷◌, string_discrete, some,
}
use jetsonfabric.Inference.{
  validate_stage_input, validate_payload, parse_phase, parse_payload_kind, kind_discrete,
  phase_discrete, validate_tensor, dtype_width, count_elements, validate_size, validate_payload,
  validate_stage_input, StageInput, StageOutput, success, StagePosition, decode, activation,
  expected_output, is_allowed_input, is_last,
}
use jetsonfabric.Inference.Flow.{expected_output_allowed, next_position, next_phase}
use jetsonfabric.Inference.TokenPayload.{
  token_descriptor, append_i32_le, to_bits, sampled_token_payload,
}
use jetsonfabric.Pipeline.Assignment.{validate_stage_assignment}
use jetsonfabric.Pipeline.Result.{default_result, StageRunResult}
use jetsonfabric.Pipeline.Worker.{
  bad_request, stage_error_result, to_stage_input, Fallible, returned, throws_invalid_argument,
  Executor, ActivationCodec, StageWorker, Readings,
}
use jetsonfabric.Pipeline.Worker.Fits.{Fits, validate_request-Fits}
use jetsonfabric.Pipeline.Worker.Operations.{validate_request, run, close_session, rollback_session}
use jetsonfabric.Pipeline.Worker.Runs.{IsAdmitted}
use jetsonfabric.Pipeline.Worker.Answers.{run_calls, run-IsAnswer, IsAnswer}
use jetsonfabric.Protocol.Message.{StageRequest, default_request}

abbrev answer : StageOutput
answer = record {
  payload = sampled_token_payload (pos 42);
  prompt_tokens = pos 3;
  prompt_token_ids = [];
  completion_tokens = pos 1;
  execution_batch_size = pos 1;
  verification_width = pos 1;
  token_text = 33 ∷ [];
  token_text_offsets = [];
  token_eog = [];
  end_of_generation = false;
}

abbrev counting : Executor ℕ
counting = record {
  execute = λ i n. (suc n, returned (success answer));
  close_session = λ s n. (suc n, returned tt);
  rollback_session = λ s k n. (suc n, throws_invalid_argument "unknown session");
}

abbrev plain : ActivationCodec
plain = record { encode = returned; decode = returned }

abbrev worker : StageWorker
worker = record {
  node_name = "orin-0";
  model_id = "qwen";
  assignment = record {
    stage_index = pos 0;
    stage_count = pos 1;
    layer_start = pos 0;
    layer_end = pos 24;
  };
}

abbrev readings : Readings
readings = record {
  stage_start = 10;
  decode_start = 0;
  decode_end = 0;
  execution_start = 12;
  execution_end = 5012;
  encode_start = 0;
  encode_end = 0;
  stage_end = 5020;
}

abbrev prompt : StageRequest
prompt = record default_request {
  session_id = "s";
  request_id = "r";
  model_id = "qwen";
  node_name = "orin-0";
  layer_end = pos 24;
  payload = 104 ∷ 105 ∷ [];
  rollback_tokens = pos 2;
}

validate_request-Fits_example : (validate_request worker prompt ≡ "") ↔ Fits worker prompt
validate_request-Fits_example = validate_request-Fits worker prompt

run_calls_example :
    ((r : StageRunResult) × (run counting worker plain readings prompt 0 ≡ (0, returned r))
      × (r.ok ≡ false)
      × (r.status ≡ "400 Bad Request"))
    ⊎ ((i : StageInput) × IsAdmitted worker prompt i
        × ((run counting worker plain readings prompt 0).0 ≡ (counting.execute i 0).0))
run_calls_example = run_calls counting worker plain readings prompt 0

abbrev result_of : Fallible StageRunResult → StageRunResult
result_of (returned r) = r
result_of f = default_result

abbrev first_token : StageRunResult
first_token = result_of (run counting worker plain readings prompt 0).1

prompt_runs :
    (run counting worker plain readings prompt 0 ≡ (1, returned first_token))
    × (first_token.ok ≡ true)
unfolding run validate_stage_assignment validate_request string_discrete ℤ-discrete to_stage_input
    validate_stage_input validate_payload parse_phase parse_payload_kind kind_discrete
    phase_discrete sampled_token_payload token_descriptor append_i32_le to_bits validate_tensor
    dtype_width count_elements validate_size stage_error_result bad_request
prompt_runs = (refl, refl)

run-IsAnswer_example :
    (i : StageInput) × (o : StageOutput) × IsAdmitted worker prompt i
    × (counting.execute i 0 ≡ (1, returned (success o)))
    × IsAnswer prompt first_token
run-IsAnswer_example =
    run-IsAnswer counting worker plain readings prompt 0 1 first_token prompt_runs.0 prompt_runs.1

abbrev middle : StagePosition
middle = record { index = pos 0; count = pos 2 }

middle_gives : expected_output decode middle ≡ some activation
unfolding expected_output is_last ℤ-discrete ◌-ℤ◌
middle_gives = refl

expected_output_allowed_example :
    is_allowed_input (next_phase decode middle) (next_position middle) activation ≡ true
expected_output_allowed_example = expected_output_allowed decode middle activation middle_gives
