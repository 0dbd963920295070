-- ===== src/Tests/Generation.antt =====
-- A generation over one stage that answers every pass with the same token; the surroundings count
-- the calls.
use jetsonfabric.Base.{
  List, take, to_string, ℕ, suc, ◌≡◌, refl, inl, inr, true, false, pos, [], ◌∷◌, ◌++◌, map, some,
  none, string_discrete, ℤ-discrete, ℕ_discrete,
}
use jetsonfabric.Pipeline.Generation.{
  Sampled, SampledBatch, write_tokens, with_deployment, close_session, default_generation,
}
use jetsonfabric.Pipeline.Generation.Ends.{Ended}
use jetsonfabric.Pipeline.Generation.InStep.{close_sessions_calls, recording}
use jetsonfabric.Pipeline.Generation.Pass.{StageInvoker}
use jetsonfabric.Pipeline.Generation.Returns.{run-Ended}
use jetsonfabric.Pipeline.Generation.Run.{
  verify, count_accepted, Runner, TokenSink, Progress, Outcome, decode_once,
}
use jetsonfabric.Pipeline.Generation.Sessions.{rollback_sessions, rollback_request, close_sessions}
use jetsonfabric.Pipeline.Generation.Tokens.{verify-Appends, Appends, tokens_of}
use jetsonfabric.Pipeline.Generation.Checks.{validate_response_identity}
use jetsonfabric.Pipeline.Generation.Start.{run}
use jetsonfabric.Pipeline.Result.{default_result}
use jetsonfabric.Speculative.{PromptLookupDraft, propose}
use jetsonfabric.Protocol.Generation.{GenerationStage, GenerationRequest}
use jetsonfabric.Protocol.Message.{default_response}
use jetsonfabric.Protocol.Utf8.{complete_utf8_prefix, sequence_width}

abbrev only : GenerationStage
only = record {
  stage_index = pos 0;
  stage_count = pos 1;
  node_id = "n0";
  node_name = "orin-0";
  api_url = "";
  runtime_url = "";
  layer_start = pos 0;
  layer_end = pos 24;
}

abbrev generation : GenerationRequest
generation = record {
  request_id = "r";
  session_id = "s";
  model_id = "qwen";
  prompt = 104 ∷ 105 ∷ [];
  max_tokens = pos 3;
  deployment = none;
  stages = only ∷ [];
}

-- The request's fields come back, with the token 33.
abbrev echo : StageInvoker ℕ
echo s q operation n = (
  suc n,
  record default_result {
    ok = true;
    status = "200 OK";
    response = record default_response {
      session_id = q.session_id;
      request_id = q.request_id;
      model_id = q.model_id;
      phase = q.phase;
      decode_step = q.decode_step;
      stage_index = q.stage_index;
      stage_count = q.stage_count;
      node_name = q.node_name;
      layer_start = q.layer_start;
      layer_end = q.layer_end;
      payload_kind = "sampled_token";
      payload = 33 ∷ 0 ∷ 0 ∷ 0 ∷ [];
      completion_tokens = pos 1;
      message = 33 ∷ [];
    };
  },
)

abbrev lookup : PromptLookupDraft
lookup = record { max_ngram = 4; min_ngram = 2 }

abbrev runner : Runner ℕ
runner = record { invoke_stage = echo; draft_strategy = none; speculative_max_tokens = 4 }

-- The same runner with drafts of the prompt lookup.
abbrev drafting : Runner ℕ
drafting = record runner { draft_strategy = some (propose lookup) }

abbrev keep : TokenSink ℕ
keep t n = (n, true)

run-Ended_example : Ended runner generation (run runner generation (some keep) 0)
run-Ended_example = run-Ended runner generation keep 0

close_sessions_calls_example :
    (close_sessions (recording echo) generation (0, [])).0.1
    ≡ [] ++ map (λ s. (s, close_session)) generation.stages
close_sessions_calls_example = close_sessions_calls echo generation 0 []

abbrev one_token : Progress
one_token = record {
  result = record default_generation { completion_tokens = 1; sampled_tokens = 33 ∷ [] };
  end_of_generation = false;
  previous_token = 33;
  decode_step = 1;
  recover_after_rejection = false;
  pending_text = [];
  history = 33 ∷ [];
}

abbrev progress_of : Outcome ℕ → Progress
progress_of (n, inl r) = one_token
progress_of (n, inr p) = p

abbrev two_tokens : Progress
two_tokens = progress_of (decode_once drafting generation keep one_token 0)

abbrev said : ℕ → Sampled
said token = record { token = token; text = token ∷ []; end_of_generation = false }

abbrev target : SampledBatch
target = said 33 ∷ said 35 ∷ said 36 ∷ []

-- The second token of the draft is rejected.
abbrev draft : List ℕ
draft = 33 ∷ 34 ∷ []

abbrev three_tokens : Progress
three_tokens = progress_of (verify runner generation keep draft target one_token 0)

one_rejected : verify runner generation keep draft target one_token 0 ≡ (1, inr three_tokens)
unfolding verify validate_response_identity string_discrete ℤ-discrete ℕ_discrete to_string
    complete_utf8_prefix sequence_width rollback_sessions rollback_request write_tokens
    with_deployment
one_rejected = refl

verify-Appends_example :
    Appends
      (take (suc (count_accepted draft target)) target)
      (33 ∷ [])
      three_tokens.result.sampled_tokens
    × (tokens_of (take (count_accepted draft target) target)
        ≡ take (count_accepted draft target) draft)
verify-Appends_example =
    verify-Appends runner generation keep draft target one_token three_tokens 0 1 refl one_rejected
