-- ===== src/Pipeline/Generation/Returns.antt =====
-- generation_runner.cpp: how a generation ends.
use jetsonfabric.Base.{
  ◌≡◌, refl, ap, ◌⊎◌, inl, inr, true, String, some, [], ◌∷◌, length, arith, pos_part,
}
use jetsonfabric.Pipeline.Generation.{GenerationResult, SampledBatch, default_generation}
use jetsonfabric.Pipeline.Generation.Ends.{Ended, Going, after_turn-Ended, decode_loop-Ended}
use jetsonfabric.Pipeline.Generation.Kept.{Passes, run_pass-Passes}
use jetsonfabric.Pipeline.Generation.Pass.{Pass}
use jetsonfabric.Pipeline.Generation.Run.{Runner, TokenSink, Progress, give_up, fail_pass, emit}
use jetsonfabric.Pipeline.Generation.Start.{first_token, check_prefill, after_prefill, prefill, run}
use jetsonfabric.Pipeline.Generation.Steps.{
  Turn, if_Turn, map_Turn, fail-Turn, Emitted, emit-Emitted,
}
use jetsonfabric.Protocol.Generation.{GenerationRequest}

module _ {W : Type 0} (runner : Runner W) (g : GenerationRequest) (sink : TokenSink W) where
  first_token-Going :
      (batch : SampledBatch) (p : Progress) (w : W)
      → p.result.sampled_tokens ≡ []
      → p.result.completion_tokens ≡ 0
      → Turn runner g (Going runner g) (first_token runner g sink batch p w)
  unfolding first_token
  first_token-Going [] p w none_yet zero_yet = fail-Turn runner g (Going runner g) _ _ _ w
  first_token-Going (t ∷ (u ∷ batch)) p w none_yet zero_yet =
      fail-Turn runner g (Going runner g) _ _ _ w
  first_token-Going (t ∷ []) p w none_yet zero_yet =
      let start = ap length none_yet in
      if_Turn runner g (Going runner g) t.end_of_generation
        (w, inr (record p { end_of_generation = true })) (emit runner g sink t.token t.text p w)
        (λ ends. record {
          counted = omega (arith, start, zero_yet);
          bounded = omega (arith, zero_yet);
        })
        (λ going.
          map_Turn runner g (Emitted p) (Going runner g) (emit runner g sink t.token t.text p w)
            (emit-Emitted runner g sink t.token t.text p w)
            (λ q e. record {
              counted = e.counted (omega (arith, start, zero_yet));
              bounded = omega (arith, e.more, zero_yet);
            }))

  check_prefill-Going :
      (o : String ⊎ SampledBatch) (p : Progress) (w : W)
      → p.result.sampled_tokens ≡ []
      → p.result.completion_tokens ≡ 0
      → Turn runner g (Going runner g) (check_prefill runner g sink o p w)
  unfolding check_prefill
  check_prefill-Going (inl what) p w none_yet zero_yet = fail-Turn runner g (Going runner g) _ _ _ w
  check_prefill-Going (inr batch) p w none_yet zero_yet =
      first_token-Going batch p w none_yet zero_yet

  after_prefill-Going :
      (x : W × (GenerationResult ⊎ Pass))
      → Passes default_generation x
      → Turn runner g (Going runner g) (after_prefill runner g sink x)
  unfolding after_prefill give_up fail_pass
  after_prefill-Going (w, inl error) h = (h, (w, refl))
  after_prefill-Going (w, inr pass) h = check_prefill-Going _ _ w h.tokens h.completion

  prefill-Going : (w : W) → Turn runner g (Going runner g) (prefill runner g sink w)
  unfolding prefill
  prefill-Going w =
      after_prefill-Going _ (run_pass-Passes runner.invoke_stage g.stages _ default_generation w)

  -- A generation with a sink always ends, whatever the stages and the sink answer: the loop has fuel
  -- enough; the sessions of all stages have been asked to close last; and the result is an error, or
  -- it has counted its tokens, at most as many as were asked for or the one of the prefill, and as
  -- many as were asked for where the reason is the length.
  pub run-Ended : (w : W) → Ended runner g (run runner g (some sink) w)
  unfolding run
  run-Ended w =
      after_turn-Ended runner g (Going runner g) (prefill runner g sink w) _ (prefill-Going w)
        (λ p v going.
          decode_loop-Ended runner g sink (pos_part g.max_tokens) p v going (λ stays. omega arith))
