-- ===== src/Pipeline/Generation/Start.antt =====
-- generation_runner.cpp: the prefill pass, the decode loop, and `GenerationRunner::run` as a whole.
-- The loop runs on the number of tokens asked for: each turn ends the generation or emits a token.
use jetsonfabric.Base.{
  ◌⊎◌, inl, inr, ℕ, zero, suc, pos_part, false, true, Option, none, some, String, [], ◌∷◌,
  if◌then◌else◌,
}
use jetsonfabric.Pipeline.Generation.{
  GenerationResult, SampledBatch, default_generation, generation_error, read_sampled_batch,
  prefill_request,
}
use jetsonfabric.Pipeline.Generation.Pass.{Pass, run_pass}
use jetsonfabric.Pipeline.Generation.Run.{
  Runner, TokenSink, Progress, Outcome, give_up, fail, fail_pass, emit, continues, finish,
  decode_once,
}
use jetsonfabric.Protocol.Generation.{GenerationRequest}

unfoldable pub initial_progress : Progress
initial_progress = record {
  result = default_generation;
  end_of_generation = false;
  previous_token = 0;
  decode_step = 1;
  recover_after_rejection = false;
  pending_text = [];
  history = [];
}

-- A return of `run`; `none` is a loop that has used up its fuel.
abbrev pub Returned : Type 0 → Type 0
Returned W = W × Option GenerationResult

unfoldable pub close_loop : {W : Type 0} → W × GenerationResult → Returned W
close_loop (w, r) = (w, some r)

unfoldable pub after_turn : {W : Type 0} → Outcome W → (Progress → W → Returned W) → Returned W
after_turn (w, inl error) k = (w, some error)
after_turn (w, inr p) k = k p w

module _ {W : Type 0} (runner : Runner W) (g : GenerationRequest) (sink : TokenSink W) where
  unfoldable pub first_token : SampledBatch → Progress → W → Outcome W
  unfolding fail give_up emit
  first_token (t ∷ []) p w =
      if t.end_of_generation
      then (w, inr (record p { end_of_generation = true }))
      else emit runner g sink t.token t.text p w
  first_token batch p w =
      give_up (
        fail runner g "502 Bad Gateway" "invalid_sampled_token" "prefill returned multiple tokens"
          w)

  unfoldable pub check_prefill : String ⊎ SampledBatch → Progress → W → Outcome W
  unfolding fail give_up first_token
  check_prefill (inl what) p w =
      give_up (fail runner g "502 Bad Gateway" "invalid_sampled_token" what w)
  check_prefill (inr batch) p w = first_token batch p w

  unfoldable pub after_prefill : W × (GenerationResult ⊎ Pass) → Outcome W
  unfolding fail_pass give_up check_prefill initial_progress
  after_prefill (w, inl error) = give_up (fail_pass runner g error w)
  after_prefill (w, inr pass) =
      check_prefill (read_sampled_batch pass.final_response)
        (record initial_progress { result = pass.result; history = pass.prompt_token_ids }) w

  unfoldable pub prefill : W → Outcome W
  unfolding after_prefill
  prefill w =
      after_prefill (run_pass runner.invoke_stage g.stages (prefill_request g) default_generation w)

  unfoldable pub decode_loop : ℕ → Progress → W → Returned W
  unfolding decode_once finish continues close_loop after_turn
  decode_loop zero p w =
      if continues runner g p then (w, none) else close_loop (finish runner g p w)
  decode_loop (suc fuel) p w =
      let more = after_turn (decode_once runner g sink p w) (λ q w'. decode_loop fuel q w') in
      if continues runner g p then more else close_loop (finish runner g p w)

-- A null sink is refused before anything else.
unfoldable pub run :
    {W : Type 0} → Runner W → GenerationRequest → Option (TokenSink W) → W → Returned W
unfolding prefill decode_loop
run runner g none w = (
  w,
  some (
      generation_error "500 Internal Server Error" "generation_sink_missing"
        "token sink is required"),
)
run runner g (some sink) w =
    after_turn (prefill runner g sink w)
      (λ p w'. decode_loop runner g sink (pos_part g.max_tokens) p w')
