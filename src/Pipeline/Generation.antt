-- ===== src/Pipeline/Generation.antt =====
-- runtime/pipeline_parallel/generation_runner.cpp: the data of a generation, the requests that it
-- sends and the checks on what comes back. The token counters start at 0 and only grow, so they are
-- natural numbers here; sizes and times that responses bring are integers.
pub mod Checks
pub mod Pass
pub mod Sessions
pub mod Run
pub mod Start
pub mod Kept
pub mod Steps
pub mod Turns
pub mod Ends
pub mod Returns
pub mod InStep
pub mod Tokens
use jetsonfabric.Base.{
  ◌/◌, ◌%◌, ℕ, ◌+◌, ◌-◌, ◌*◌, ◌^◌, ℤ, pos, ℤ-discrete, Bool, false, not, ◌||◌, none, some, String,
  ◌<>◌, to_string, Bytes, List, [], ◌∷◌, ◌++◌, length, take, drop, test, string_discrete, ltb, ◌==◌,
  if◌then◌else◌, ◌⊎◌, inl, inr,
}
use jetsonfabric.Inference.TokenPayload.{word_bytes}
use jetsonfabric.Protocol.Generation.{GenerationRequest, GenerationStageTiming}
use jetsonfabric.Protocol.Message.{StageRequest, StageResponse, default_request}

pub data StageOperation : Type 0 where
  execute close_session rollback_session : StageOperation

pub record GenerationToken : Type 0 where
  pub token : ℕ
  pub text : Bytes
  pub index : ℕ

pub record GenerationResult : Type 0 where
  pub ok : Bool
  pub status : String
  pub error_code : String
  pub error_message : String
  pub finish_reason : String
  pub prompt_tokens : ℤ
  pub completion_tokens : ℕ
  pub sampled_tokens : List ℕ
  pub stage_calls : ℕ
  pub remote_stage_calls : ℕ
  pub rollback_stage_calls : ℕ
  pub remote_rollback_stage_calls : ℕ
  pub rollback_stage_us : ℤ
  pub rollback_remote_call_us : ℤ
  pub bytes_in : ℤ
  pub bytes_out : ℤ
  pub stage_timings : List GenerationStageTiming
  pub target_decode_passes : ℕ
  pub speculative_draft_tokens : ℕ
  pub speculative_accepted_tokens : ℕ

abbrev pub default_generation : GenerationResult
default_generation = record {
  ok = false;
  status = "500 Internal Server Error";
  error_code = "";
  error_message = "";
  finish_reason = "";
  prompt_tokens = pos 0;
  completion_tokens = 0;
  sampled_tokens = [];
  stage_calls = 0;
  remote_stage_calls = 0;
  rollback_stage_calls = 0;
  remote_rollback_stage_calls = 0;
  rollback_stage_us = pos 0;
  rollback_remote_call_us = pos 0;
  bytes_in = pos 0;
  bytes_out = pos 0;
  stage_timings = [];
  target_decode_passes = 0;
  speculative_draft_tokens = 0;
  speculative_accepted_tokens = 0;
}

unfoldable pub generation_error : String → String → String → GenerationResult
generation_error status code message = record default_generation {
  status = status;
  error_code = code;
  error_message = message;
}

unfoldable pub read_u32_le : ℕ → ℕ → ℕ → ℕ → ℕ
read_u32_le a b c d = a + b * 2 ^ 8 + c * 2 ^ 16 + d * 2 ^ 24

-- One entry of the three vectors of a SampledBatch, which have the same length.
pub record Sampled : Type 0 where
  pub token : ℕ
  pub text : Bytes
  pub end_of_generation : Bool

abbrev pub SampledBatch : Type 0
SampledBatch = List Sampled

-- The loop of `read_sampled_batch` over the payload; the lists of offsets and flags are as long as
-- the payload has words, so that the last clause is for no run.
unfoldable pub read_batch_from : Bytes → Bytes → List ℕ → List ℕ → ℕ → String ⊎ SampledBatch
unfolding read_u32_le
read_batch_from message [] offsets eog text_start =
    if text_start == length message
    then inr []
    else inl "sampled_tokens text offsets do not consume the message"
read_batch_from message (a ∷ b ∷ c ∷ d ∷ payload) (text_end ∷ offsets) (flag ∷ eog) text_start =
    let rest = read_batch_from message payload offsets eog text_end in
    if ltb text_end text_start || ltb (length message) text_end
    then inl "sampled_tokens text offsets are invalid"
    else elim rest [
      | inl what ↦ inl what
      | inr batch ↦ inr (
          record {
            token = read_u32_le a b c d;
            text = take (text_end - text_start) (drop text_start message);
            end_of_generation = not (flag == 0);
          }
          ∷ batch)
    ]
read_batch_from message payload offsets eog text_start =
    inl "sampled_tokens metadata does not match its payload"

unfoldable pub read_single : StageResponse → Bytes → String ⊎ SampledBatch
unfolding read_u32_le
read_single r (a ∷ b ∷ c ∷ d ∷ []) = inr (
    record {
      token = read_u32_le a b c d;
      text = r.message;
      end_of_generation = test (ℤ-discrete r.completion_tokens (pos 0));
    }
    ∷ [])
read_single r payload = inl "final stage returned an invalid sampled_token"

-- The message of the std::invalid_argument, or the batch.
unfoldable pub read_sampled_batch : StageResponse → String ⊎ SampledBatch
unfolding read_single read_batch_from
read_sampled_batch r =
    if test (string_discrete r.payload_kind "sampled_token")
    then read_single r r.payload
    else if not (test (string_discrete r.payload_kind "sampled_tokens"))
        || ltb (length r.payload) 8
        || not (length r.payload % 4 == 0)
    then inl "final stage did not return sampled token output"
    else if not (length r.token_text_offsets == length r.payload / 4)
        || not (length r.token_eog == length r.payload / 4)
    then inl "sampled_tokens metadata does not match its payload"
    else read_batch_from r.message r.payload r.token_text_offsets r.token_eog 0

-- The fields that name the deployment of the generation.
unfoldable pub with_deployment : GenerationRequest → StageRequest → StageRequest
with_deployment g q = elim g.deployment [
  | none ↦ q
  | some i ↦ record q {
    deployment_id = i.deployment_id;
    deployment_epoch = i.epoch;
    model_sha256 = i.model_sha256;
  }
]

-- `write_u32_le` for each token.
unfoldable pub write_tokens : List ℕ → Bytes
write_tokens [] = []
write_tokens (t ∷ tokens) = word_bytes t ++ write_tokens tokens

unfoldable pub prefill_request : GenerationRequest → StageRequest
unfolding with_deployment
prefill_request g = record (with_deployment g default_request) {
  session_id = g.session_id;
  request_id = g.request_id <> "-" <> "prefill" <> "-" <> to_string (pos 0);
  model_id = g.model_id;
  phase = "prefill";
  decode_step = pos 0;
  max_tokens = g.max_tokens;
  payload_kind = "text";
  encoding = "utf-8";
  payload = g.prompt;
}

unfoldable pub decode_request : GenerationRequest → ℕ → List ℕ → StageRequest
unfolding with_deployment write_tokens
decode_request g decode_step tokens = record (with_deployment g default_request) {
  session_id = g.session_id;
  request_id = g.request_id <> "-" <> "decode" <> "-" <> to_string (pos decode_step);
  model_id = g.model_id;
  phase = "decode";
  decode_step = pos decode_step;
  max_tokens = g.max_tokens;
  payload_kind = if length tokens == 1 then "sampled_token" else "tokens";
  encoding = "";
  dtype = "u32";
  shape = pos (length tokens) ∷ [];
  byte_order = "little";
  layout = "row_major";
  payload = write_tokens tokens;
}
