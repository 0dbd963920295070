-- ===== src/Pipeline/Generation/Turns.antt =====
-- generation_runner.cpp: what one turn of the decode loop does to the counters.
use jetsonfabric.Base.{
  true, inl, inr, refl, ◌⊎◌, String, string_discrete, test, not, ◌==◌, sym, ◌≡◌, ap, ◌∙◌, ◌≤◌, ◌<◌,
  ℕ, suc, ◌+◌, ◌-◌, pos_part, ltb, false, List, [], ◌∷◌, length, length-take, take, if◌then◌else◌,
  arith,
}
use jetsonfabric.Pipeline.Generation.{GenerationResult, SampledBatch}
use jetsonfabric.Pipeline.Generation.Run.{
  fail, give_up, fail_pass, after_rollback, verify, check_target, after_pass, decode_once,
  draft_tokens, Runner, TokenSink, Progress, count_accepted, emit_accepted,
}
use jetsonfabric.Pipeline.Generation.Pass.{Pass}
use jetsonfabric.Pipeline.Generation.Steps.{
  if_Turn, fail-Turn, Turn, map_Turn, Emits, emit_batch-Emits,
}
use jetsonfabric.Pipeline.Generation.Kept.{Kept, Passes, rollback_sessions-Kept, run_pass-Passes}
use jetsonfabric.Pipeline.Generation.Sessions.{rollback_sessions}
use jetsonfabric.Protocol.Generation.{GenerationRequest}

-- One turn: the generation ends, or there is a token more, and never more than the limit `m`; and
-- where the draft fits the tokens that remain, the decode step goes on by as many as are emitted.
pub record Turns (m : ℕ) (draft : List ℕ) (p q : Progress) : Type 0 where
  pub counted :
      length p.result.sampled_tokens ≡ p.result.completion_tokens
      → length q.result.sampled_tokens ≡ q.result.completion_tokens
  pub bounded : p.result.completion_tokens ≤ m → q.result.completion_tokens ≤ m
  pub grows :
      p.result.completion_tokens < m
      → q.end_of_generation ≡ false
      → p.result.completion_tokens < q.result.completion_tokens
  pub in_step :
      p.result.completion_tokens + suc (length draft) ≤ m
      → q.end_of_generation ≡ false
      → q.decode_step + p.result.completion_tokens ≡ p.decode_step + q.result.completion_tokens

pub accepted_le :
    (draft : List ℕ) (target : SampledBatch) → count_accepted draft target ≤ length draft
unfolding count_accepted
accepted_le [] target = omega arith
accepted_le (d ∷ draft) [] = omega arith
accepted_le (d ∷ draft) (t ∷ target) = ground (arith, accepted_le draft target)

module _ {W : Type 0} (runner : Runner W) (g : GenerationRequest) (sink : TokenSink W) where
  abbrev m : ℕ
  m = pos_part g.max_tokens

  -- `b` is the progress that the batch starts from, with the counters of `p`.
  emit_accepted-Turns :
      (draft : List ℕ) (target : SampledBatch) (accepted : ℕ) (p b : Progress) (w : W)
      → accepted ≤ length draft
      → length target ≡ suc (length draft)
      → b.result.sampled_tokens ≡ p.result.sampled_tokens
      → b.result.completion_tokens ≡ p.result.completion_tokens
      → b.decode_step ≡ p.decode_step
      → Turn runner g (Turns m draft p) (emit_accepted runner g sink draft target accepted b w)
  unfolding emit_accepted
  emit_accepted-Turns draft target accepted p b w few long tokens same step =
      let output_count = if ltb accepted (length draft) then suc accepted else length target in
      let count : output_count ≡ suc accepted = ground arith in
      let taken : length (take output_count target) ≡ suc accepted =
        omega (arith, length-take output_count target, count) in
      map_Turn runner g
        (Emits m (take output_count target) (record b {
          decode_step = b.decode_step + (suc (length draft) - (length draft - accepted));
        }))
        (Turns m draft p) _ (emit_batch-Emits runner g sink (take output_count target) _ w)
        (λ q e. record {
          counted = λ h. e.counted (ap length tokens ∙ h ∙ sym same);
          bounded = λ h. e.bounded (omega (arith, same));
          grows = λ room stays. omega (arith, e.exact stays (omega (arith, same)), taken, same);
          in_step = λ room stays.
              omega (arith, e.exact stays (omega (arith, same)), taken, same, step, e.stepped);
        })

  after_rollback-Turns :
      (draft : List ℕ) (target : SampledBatch) (accepted : ℕ) (p b : Progress)
      (x : W × (String × GenerationResult))
      → accepted ≤ length draft
      → length target ≡ suc (length draft)
      → Kept p.result x.1.1
      → b.decode_step ≡ p.decode_step
      → Turn runner g (Turns m draft p) (after_rollback runner g sink draft target accepted b x)
  unfolding after_rollback
  after_rollback-Turns draft target accepted p b (w, (error, result)) few long kept step =
      if_Turn runner g (Turns m draft p) (not (test (string_discrete error "")))
        (give_up (fail runner g "502 Bad Gateway" "generation_rollback_failed" error w))
        (emit_accepted runner g sink draft target accepted
          (record b { result = result; recover_after_rejection = true }) w)
        (λ bad. fail-Turn runner g (Turns m draft p) _ _ _ w)
        (λ good.
          emit_accepted-Turns draft target accepted p _ w few long kept.tokens kept.completion step)

  verify-Turns :
      (draft : List ℕ) (target : SampledBatch) (p b : Progress) (w : W)
      → length target ≡ suc (length draft)
      → Kept p.result b.result
      → b.decode_step ≡ p.decode_step
      → Turn runner g (Turns m draft p) (verify runner g sink draft target b w)
  unfolding verify
  verify-Turns draft target p b w long kept step =
      let accepted = count_accepted draft target in
      let few = accepted_le draft target in
      let counted : Progress = record b {
        result = record b.result {
          speculative_draft_tokens = b.result.speculative_draft_tokens + length draft;
          speculative_accepted_tokens = b.result.speculative_accepted_tokens + accepted;
        };
      } in
      let rolled =
        rollback_sessions runner.invoke_stage g (length draft - accepted) counted.result w in
      let same =
        rollback_sessions-Kept runner.invoke_stage g (length draft - accepted) counted.result w in
      if_Turn runner g (Turns m draft p) (ltb 0 (length draft - accepted))
        (after_rollback runner g sink draft target accepted counted rolled)
        (emit_accepted runner g sink draft target accepted counted w)
        (λ some_rejected.
          after_rollback-Turns draft target accepted p counted rolled few long
            (record {
              tokens = same.tokens ∙ kept.tokens;
              completion = same.completion ∙ kept.completion;
            })
            step)
        (λ none_rejected.
          emit_accepted-Turns draft target accepted p counted w few long kept.tokens kept.completion
            step)

  check_target-Turns :
      (draft : List ℕ) (o : String ⊎ SampledBatch) (p b : Progress) (w : W)
      → Kept p.result b.result
      → b.decode_step ≡ p.decode_step
      → Turn runner g (Turns m draft p) (check_target runner g sink draft o b w)
  unfolding check_target
  check_target-Turns draft (inl what) p b w kept step = fail-Turn runner g (Turns m draft p) _ _ _ w
  check_target-Turns draft (inr target) p b w kept step =
      if_Turn runner g (Turns m draft p) (not (length target == suc (length draft)))
        (give_up (
          fail runner g "502 Bad Gateway" "invalid_speculative_verification"
            "target output count does not match speculative verification input" w))
        (verify runner g sink draft target b w)
        (λ bad. fail-Turn runner g (Turns m draft p) _ _ _ w)
        (λ good. verify-Turns draft target p b w (ground arith) kept step)

  after_pass-Turns :
      (draft : List ℕ) (p : Progress) (x : W × (GenerationResult ⊎ Pass))
      → Passes p.result x
      → Turn runner g (Turns m draft p) (after_pass runner g sink draft p x)
  unfolding after_pass give_up fail_pass
  after_pass-Turns draft p (w, inl error) h = (h, (w, refl))
  after_pass-Turns draft p (w, inr pass) h =
      check_target-Turns draft _ p _ w (record { tokens = h.tokens; completion = h.completion })
        refl

  pub decode_once-Turns :
      (p : Progress) (w : W)
      → Turn runner g (Turns m (draft_tokens runner g p) p) (decode_once runner g sink p w)
  unfolding decode_once
  decode_once-Turns p w =
      after_pass-Turns (draft_tokens runner g p) p _
        (run_pass-Passes runner.invoke_stage g.stages _ p.result w)
