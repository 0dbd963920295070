-- ===== src/Pipeline/Generation/Tokens.antt =====
-- generation_runner.cpp: which tokens of the target a verification emits.
use mathlib.Core.Path.{subst}
use mathlib.Core.Path.{ap₂}
use jetsonfabric.Base.{
  Bool-cases, ◌&&◌, ◌==◌, inl, inr, refl, ap, not, ◌≡◌, refl, ap, sym, ◌∙◌, ◌≤◌, inl, inr, ℕ, suc,
  ◌+◌, ◌-◌, pos, ltb_ℤ, ltb, not, true, Bytes, String, List, [], ◌∷◌, ◌++◌, map, append-nil,
  append_assoc, length, take, test, string_discrete, if◌then◌else◌, arith,
}
use jetsonfabric.Pipeline.Generation.{GenerationResult, Sampled, SampledBatch}
use jetsonfabric.Pipeline.Generation.Kept.{rollback_sessions-Kept}
use jetsonfabric.Pipeline.Generation.Run.{
  Runner, TokenSink, Progress, Outcome, give_up, and_then, fail, emit_token, emit_prefix, emit,
  emit_batch, count_accepted, emit_accepted, after_rollback, verify,
}
use jetsonfabric.Pipeline.Generation.Sessions.{rollback_sessions}
use jetsonfabric.Pipeline.Generation.Steps.{
  Turn, if_Turn, and_then-Turn, map_Turn, fail-Turn, after_sink-Turn,
}
use jetsonfabric.Pipeline.Generation.Turns.{accepted_le}
use jetsonfabric.Protocol.Generation.{GenerationRequest}
use jetsonfabric.Protocol.Utf8.{Prefix, complete, malformed, out_of_fuel}

abbrev pub tokens_of : SampledBatch → List ℕ
tokens_of batch = map (λ t. t.token) batch

-- `b` is `a` with some first tokens of the batch behind it.
pub record Appends (batch : SampledBatch) (a b : List ℕ) : Type 0 where
  pub count : ℕ
  pub within : count ≤ length batch
  pub same : b ≡ a ++ tokens_of (take count batch)

abbrev tokens : Progress → List ℕ
tokens p = p.result.sampled_tokens

nothing : (batch : SampledBatch) (a : List ℕ) → Appends batch a a
nothing batch a = record { count = 0; within = omega arith; same = sym (append-nil a) }

one_before :
    (t : Sampled) (batch : SampledBatch) (a b c : List ℕ)
    → b ≡ a ++ (t.token ∷ [])
    → Appends batch b c
    → Appends (t ∷ batch) a c
one_before t batch a b c e h = record {
  count = suc h.count;
  within = omega (arith, h.within);
  same =
      h.same
      ∙ ap (λ l. l ++ tokens_of (take h.count batch)) e
      ∙ append_assoc a (t.token ∷ []) (tokens_of (take h.count batch));
}

module _ {W : Type 0} (runner : Runner W) (g : GenerationRequest) (sink : TokenSink W) where
  emit_prefix_tokens :
      (x : Prefix) (token : ℕ) (pending : Bytes) (p : Progress) (w : W)
      → Turn runner g
          (λ q. tokens q ≡ tokens p ++ (token ∷ []))
          (emit_prefix runner g sink x token pending p w)
  unfolding emit_prefix emit_token
  emit_prefix_tokens malformed token pending p w =
      fail-Turn runner g (λ q. tokens q ≡ tokens p ++ (token ∷ [])) _ _ _ w
  emit_prefix_tokens out_of_fuel token pending p w =
      fail-Turn runner g (λ q. tokens q ≡ tokens p ++ (token ∷ [])) _ _ _ w
  emit_prefix_tokens (complete n) token pending p w =
      after_sink-Turn runner g sink (λ q. tokens q ≡ tokens p ++ (token ∷ [])) _ _ refl

  emit_tokens :
      (token : ℕ) (text : Bytes) (p : Progress) (w : W)
      → Turn runner g (λ q. tokens q ≡ tokens p ++ (token ∷ [])) (emit runner g sink token text p w)
  unfolding emit
  emit_tokens token text p w = emit_prefix_tokens _ token _ p w

  emit_batch-Appends :
      (batch : SampledBatch) (p : Progress) (w : W)
      → Turn runner g
          (λ q. Appends batch (tokens p) (tokens q))
          (emit_batch runner g sink batch p w)
  unfolding emit_batch
  emit_batch-Appends [] p w = nothing [] (tokens p)
  emit_batch-Appends (t ∷ batch) p w =
      let Q = λ (q : Progress). Appends (t ∷ batch) (tokens p) (tokens q) in
      let stop : Outcome W = (w, inr (record p { end_of_generation = true })) in
      let first = emit runner g sink t.token t.text p w in
      let rest = λ (q : Progress) (v : W). emit_batch runner g sink batch q v in
      let goes_on : Turn runner g Q (and_then first rest) =
        and_then-Turn runner g (λ q. tokens q ≡ tokens p ++ (t.token ∷ [])) Q first rest
          (emit_tokens t.token t.text p w)
          (λ q v e.
            map_Turn runner g (λ r. Appends batch (tokens q) (tokens r)) Q (rest q v)
              (emit_batch-Appends batch q v)
              (λ r h. one_before t batch (tokens p) (tokens q) (tokens r) e h)) in
      if_Turn runner g Q (ltb_ℤ (pos p.result.completion_tokens) g.max_tokens)
        (if t.end_of_generation then stop else and_then first rest) (w, inr p)
        (λ room.
          if_Turn runner g Q t.end_of_generation stop (and_then first rest)
            (λ ends. nothing (t ∷ batch) (tokens p)) (λ going. goes_on))
        (λ full. nothing (t ∷ batch) (tokens p))

  emit_accepted-Appends :
      (draft : List ℕ) (target : SampledBatch) (b : Progress) (w : W)
      → length target ≡ suc (length draft)
      → Turn runner g
          (λ q. Appends (take (suc (count_accepted draft target)) target) (tokens b) (tokens q))
          (emit_accepted runner g sink draft target (count_accepted draft target) b w)
  unfolding emit_accepted
  emit_accepted-Appends draft target b w long =
      let accepted = count_accepted draft target in
      let output_count = if ltb accepted (length draft) then suc accepted else length target in
      let few = accepted_le draft target in
      let count : output_count ≡ suc accepted = ground arith in
      subst
        (λ n.
          Turn runner g (λ q. Appends (take n target) (tokens b) (tokens q))
            (emit_batch runner g sink (take output_count target)
              (record b {
                decode_step = b.decode_step + (suc (length draft) - (length draft - accepted));
              })
              w))
        count
        (emit_batch-Appends (take output_count target)
          (record b {
            decode_step = b.decode_step + (suc (length draft) - (length draft - accepted));
          })
          w)

  after_rollback-Appends :
      (draft : List ℕ) (target : SampledBatch) (p : Progress) (a : List ℕ)
      (x : W × (String × GenerationResult))
      → length target ≡ suc (length draft)
      → x.1.1.sampled_tokens ≡ a
      → Turn runner g
          (λ q. Appends (take (suc (count_accepted draft target)) target) a (tokens q))
          (after_rollback runner g sink draft target (count_accepted draft target) p x)
  unfolding after_rollback
  after_rollback-Appends draft target p a (w, (error, result)) long same =
      let accepted = count_accepted draft target in
      let next : Progress = record p { result = result; recover_after_rejection = true } in
      let Q = λ (q : Progress). Appends (take (suc accepted) target) a (tokens q) in
      if_Turn runner g Q (not (test (string_discrete error "")))
        (give_up (fail runner g "502 Bad Gateway" "generation_rollback_failed" error w))
        (emit_accepted runner g sink draft target accepted next w)
        (λ bad. fail-Turn runner g Q _ _ _ w)
        (λ good.
          subst
            (λ l.
              Turn runner g (λ q. Appends (take (suc accepted) target) l (tokens q))
                (emit_accepted runner g sink draft target accepted next w))
            same (emit_accepted-Appends draft target next w long))

  verified :
      (draft : List ℕ) (target : SampledBatch) (p : Progress) (w : W)
      → length target ≡ suc (length draft)
      → Turn runner g
          (λ q. Appends (take (suc (count_accepted draft target)) target) (tokens p) (tokens q))
          (verify runner g sink draft target p w)
  unfolding verify
  verified draft target p w long =
      let accepted = count_accepted draft target in
      let Q = λ (q : Progress). Appends (take (suc accepted) target) (tokens p) (tokens q) in
      let counted : Progress = record p {
        result = record p.result {
          speculative_draft_tokens = p.result.speculative_draft_tokens + length draft;
          speculative_accepted_tokens = p.result.speculative_accepted_tokens + accepted;
        };
      } in
      let rolled =
        rollback_sessions runner.invoke_stage g (length draft - accepted) counted.result w in
      let same =
        rollback_sessions-Kept runner.invoke_stage g (length draft - accepted) counted.result w in
      if_Turn runner g Q (ltb 0 (length draft - accepted))
        (after_rollback runner g sink draft target accepted counted rolled)
        (emit_accepted runner g sink draft target accepted counted w)
        (λ some_rejected.
          after_rollback-Appends draft target counted (tokens p) rolled long same.tokens)
        (λ none_rejected. emit_accepted-Appends draft target counted w long)

-- Up to the count, the target repeats the draft.
accepted_same :
    (draft : List ℕ) (target : SampledBatch)
    → tokens_of (take (count_accepted draft target) target)
      ≡ take (count_accepted draft target) draft
unfolding count_accepted
accepted_same [] target = refl
accepted_same (d ∷ draft) [] = refl
accepted_same (d ∷ draft) (t ∷ target) =
    elim (Bool-cases (not t.end_of_generation && t.token == d)) [
      | inl hit ↦
          let e : t.token ≡ d = ground arith in
          rw hit (ap₂ (λ x l. x ∷ l) e (accepted_same draft target))
      | inr miss ↦ rw miss refl
    ]

-- Where the target has answered each token of the draft and the one before it, and the verification
-- goes on, it has emitted first tokens of the target and no more than those that repeat the draft and
-- the one behind them: no token that the target sampled behind a rejected draft token is emitted.
pub verify-Appends :
    {W : Type 0} (runner : Runner W) (g : GenerationRequest) (sink : TokenSink W) (draft : List ℕ)
    (target : SampledBatch) (p q : Progress) (w v : W)
    → length target ≡ suc (length draft)
    → verify runner g sink draft target p w ≡ (v, inr q)
    → Appends
        (take (suc (count_accepted draft target)) target)
        p.result.sampled_tokens
        q.result.sampled_tokens
      × (tokens_of (take (count_accepted draft target) target)
          ≡ take (count_accepted draft target) draft)
verify-Appends runner g sink draft target p q w v long e = (
  subst
      (Turn runner g
        (λ r. Appends (take (suc (count_accepted draft target)) target) (tokens p) (tokens r)))
      e (verified runner g sink draft target p w long),
  accepted_same draft target,
)
