-- ===== src/Pipeline/Generation/Run.antt =====
-- generation_runner.cpp: `GenerationRunner::run`. The token sink and the stage invoker share the state
-- `W` of the program's surroundings; a null sink or draft strategy is `none`.
use jetsonfabric.Base.{
  ◌⊎◌, inl, inr, ℕ, suc, ◌+◌, ◌-◌, min, pos, ◌-ℤ◌, pos_part, ltb_ℤ, Bool, true, false, not, ◌&&◌,
  Option, none, some, String, ◌<>◌, Bytes, List, [], ◌∷◌, ◌++◌, length, take, drop, test,
  string_discrete, ltb, ◌==◌, if◌then◌else◌,
}
use jetsonfabric.Pipeline.Generation.{
  GenerationResult, GenerationToken, SampledBatch, generation_error, read_sampled_batch,
  decode_request,
}
use jetsonfabric.Pipeline.Generation.Pass.{StageInvoker, Pass, run_pass}
use jetsonfabric.Pipeline.Generation.Sessions.{close_sessions, rollback_sessions}
use jetsonfabric.Protocol.Generation.{GenerationRequest}
use jetsonfabric.Protocol.Utf8.{complete_utf8_prefix, Prefix, complete, malformed, out_of_fuel}

-- The two interfaces and the options of the runner; its constructor wants a positive limit.
pub record Runner (W : Type 0) : Type 0 where
  pub invoke_stage : StageInvoker W
  pub draft_strategy : Option (List ℕ → ℕ → List ℕ)
  pub speculative_max_tokens : ℕ

abbrev pub TokenSink : Type 0 → Type 0
TokenSink W = GenerationToken → W → W × Bool

-- The local variables of `run`.
pub record Progress : Type 0 where
  pub result : GenerationResult
  pub end_of_generation : Bool
  pub previous_token : ℕ
  pub decode_step : ℕ
  pub recover_after_rejection : Bool
  pub pending_text : Bytes
  pub history : List ℕ

unfoldable pub with_cleanup : String → String → String
with_cleanup message cleanup_error =
    if test (string_discrete cleanup_error "")
    then message
    else message <> "; cleanup: " <> cleanup_error

-- The draft tokens that the target repeats, before its end.
unfoldable pub count_accepted : List ℕ → SampledBatch → ℕ
count_accepted [] target = 0
count_accepted (d ∷ draft) [] = 0
count_accepted (d ∷ draft) (t ∷ target) =
    let rest = count_accepted draft target in
    if not t.end_of_generation && t.token == d then suc rest else 0

-- A return from the loop or its helpers with a result, or the variables to go on with.
abbrev pub Outcome : Type 0 → Type 0
Outcome W = W × (GenerationResult ⊎ Progress)

unfoldable pub give_up : {W : Type 0} → W × GenerationResult → Outcome W
give_up (w, r) = (w, inl r)

unfoldable pub and_then : {W : Type 0} → Outcome W → (Progress → W → Outcome W) → Outcome W
and_then (w, inl r) k = (w, inl r)
and_then (w, inr p) k = k p w

module _ {W : Type 0} (runner : Runner W) (g : GenerationRequest) where
  unfoldable pub fail : String → String → String → W → W × GenerationResult
  unfolding with_cleanup
  fail status code message w =
      let (w', cleanup_error) = close_sessions runner.invoke_stage g w in
      (w', generation_error status code (with_cleanup message cleanup_error))

  -- The way out behind a pass that failed.
  unfoldable pub fail_pass : GenerationResult → W → W × GenerationResult
  unfolding with_cleanup
  fail_pass error w =
      let (w', cleanup_error) = close_sessions runner.invoke_stage g w in
      (w', record error { error_message = with_cleanup error.error_message cleanup_error })

  -- The loop's condition.
  unfoldable pub continues : Progress → Bool
  continues p = ltb_ℤ (pos p.result.completion_tokens) g.max_tokens && not p.end_of_generation

  -- The end behind the loop.
  unfoldable pub finish : Progress → W → W × GenerationResult
  finish p w =
      let (w', cleanup_error) = close_sessions runner.invoke_stage g w in
      (
        w',
        if not (test (string_discrete cleanup_error ""))
            then generation_error "502 Bad Gateway" "generation_cleanup_failed" cleanup_error
            else record p.result {
              ok = true;
              status = "200 OK";
              finish_reason = if p.end_of_generation then "stop" else "length";
            },
      )

  unfoldable pub draft_tokens : Progress → List ℕ
  draft_tokens p =
      let remaining = g.max_tokens -ℤ pos p.result.completion_tokens in
      elim runner.draft_strategy [
        | none ↦ []
        | some propose ↦
            if ltb_ℤ (pos 1) remaining && not p.recover_after_rejection
            then propose p.history (min runner.speculative_max_tokens (pos_part remaining - 1))
            else []
      ]

  module _ (sink : TokenSink W) where
    -- What `emit` does with the sink's answer.
    unfoldable pub after_sink : Progress → W × Bool → Outcome W
    unfolding fail give_up
    after_sink next (w, true) = (w, inr next)
    after_sink next (w, false) = give_up (
        fail "499 Client Closed Request" "generation_canceled"
          "generation token sink canceled the request" w)

    -- The counters, then the sink.
    unfoldable pub emit_token : ℕ → Bytes → Bytes → Progress → W → Outcome W
    unfolding after_sink
    emit_token token emitted_text pending_text p w =
        after_sink
          (record p {
            result = record p.result {
              sampled_tokens = p.result.sampled_tokens ++ (token ∷ []);
              completion_tokens = suc p.result.completion_tokens;
            };
            history = p.history ++ (token ∷ []);
            previous_token = token;
            pending_text = pending_text;
          })
          (sink
            (record { token = token; text = emitted_text; index = length p.result.sampled_tokens })
            w)

    -- The text that is complete goes out with the token.
    unfoldable pub emit_prefix : Prefix → ℕ → Bytes → Progress → W → Outcome W
    unfolding fail give_up emit_token
    emit_prefix (complete n) token pending p w =
        emit_token token (take n pending) (drop n pending) p w
    emit_prefix malformed token pending p w =
        give_up
          (fail "502 Bad Gateway" "invalid_token_text" "token text contains malformed UTF-8" w)
    emit_prefix out_of_fuel token pending p w =
        give_up
          (fail "502 Bad Gateway" "invalid_token_text" "token text contains malformed UTF-8" w)

    unfoldable pub emit : ℕ → Bytes → Progress → W → Outcome W
    unfolding emit_prefix
    emit token text p w =
        emit_prefix (complete_utf8_prefix (p.pending_text ++ text)) token (p.pending_text ++ text) p
          w

    -- The loop over the output of a decode pass.
    unfoldable pub emit_batch : SampledBatch → Progress → W → Outcome W
    unfolding emit and_then
    emit_batch [] p w = (w, inr p)
    emit_batch (t ∷ batch) p w =
        let more = and_then (emit t.token t.text p w) (λ q w'. emit_batch batch q w') in
        if ltb_ℤ (pos p.result.completion_tokens) g.max_tokens
        then if t.end_of_generation then (w, inr (record p { end_of_generation = true })) else more
        else (w, inr p)

    -- The part of the loop's body behind the rollback, if there was one.
    unfoldable pub emit_accepted : List ℕ → SampledBatch → ℕ → Progress → W → Outcome W
    unfolding emit_batch
    emit_accepted draft target accepted p w =
        let output_count = if ltb accepted (length draft) then suc accepted else length target in
        emit_batch (take output_count target)
          (record p {
            decode_step = p.decode_step + (suc (length draft) - (length draft - accepted));
          })
          w

    unfoldable pub after_rollback :
        List ℕ → SampledBatch → ℕ → Progress → W × (String × GenerationResult) → Outcome W
    unfolding fail give_up emit_accepted
    after_rollback draft target accepted p (w, (rollback_error, result)) =
        if not (test (string_discrete rollback_error ""))
        then give_up (fail "502 Bad Gateway" "generation_rollback_failed" rollback_error w)
        else emit_accepted draft target accepted
            (record p { result = result; recover_after_rejection = true }) w

    -- The part behind the checks on the target's output.
    unfoldable pub verify : List ℕ → SampledBatch → Progress → W → Outcome W
    unfolding count_accepted emit_accepted after_rollback
    verify draft target p w =
        let accepted = count_accepted draft target in
        let rollback_tokens = length draft - accepted in
        let counted = record p {
          result = record p.result {
            speculative_draft_tokens = p.result.speculative_draft_tokens + length draft;
            speculative_accepted_tokens = p.result.speculative_accepted_tokens + accepted;
          };
        } in
        if ltb 0 rollback_tokens
        then after_rollback draft target accepted counted
            (rollback_sessions runner.invoke_stage g rollback_tokens counted.result w)
        else emit_accepted draft target accepted counted w

    unfoldable pub check_target : List ℕ → String ⊎ SampledBatch → Progress → W → Outcome W
    unfolding fail give_up verify
    check_target draft (inl what) p w =
        give_up (fail "502 Bad Gateway" "invalid_sampled_token" what w)
    check_target draft (inr target) p w =
        if not (length target == suc (length draft))
        then give_up (
            fail "502 Bad Gateway" "invalid_speculative_verification"
              "target output count does not match speculative verification input" w)
        else verify draft target p w

    -- The part of the loop's body behind its pass.
    unfoldable pub after_pass : List ℕ → Progress → W × (GenerationResult ⊎ Pass) → Outcome W
    unfolding fail_pass give_up check_target
    after_pass draft p (w, inl error) = give_up (fail_pass error w)
    after_pass draft p (w, inr pass) =
        check_target draft (read_sampled_batch pass.final_response)
          (record p {
            recover_after_rejection = false;
            result = record pass.result {
              target_decode_passes = suc pass.result.target_decode_passes;
            };
          })
          w

    -- The body of the loop.
    unfoldable pub decode_once : Progress → W → Outcome W
    unfolding after_pass draft_tokens
    decode_once p w =
        let draft = draft_tokens p in
        let request = decode_request g p.decode_step (p.previous_token ∷ draft) in
        after_pass draft p (run_pass runner.invoke_stage g.stages request p.result w)
