-- ===== src/Pipeline/Generation/Steps.antt =====
-- generation_runner.cpp: what `emit` and the loop over a batch do to the counters, and where they
-- give up.
use mathlib.Core.Bool.{true≢false}
use jetsonfabric.Base.{
  ◌≡◌, refl, ◌∙◌, ◌≤◌, ◌<◌, min, inl, inr, ℕ, suc, ◌+◌, ℤ, pos, negsuc, pos_part, ltb_ℤ, Bool, true,
  false, Bytes, String, [], ◌∷◌, length, length-append, if◌then◌else◌, arith,
}
use jetsonfabric.Pipeline.Generation.{Sampled, SampledBatch, generation_error}
use jetsonfabric.Pipeline.Generation.Run.{
  Runner, TokenSink, Progress, Outcome, give_up, and_then, fail, after_sink, emit_token,
  emit_prefix, emit, emit_batch,
}
use jetsonfabric.Pipeline.Generation.Sessions.{close_sessions}
use jetsonfabric.Protocol.Generation.{GenerationRequest}
use jetsonfabric.Protocol.Utf8.{Prefix, complete, malformed, out_of_fuel}

module _ {W : Type 0} (runner : Runner W) (g : GenerationRequest) where
  -- The state in which all stages have just been asked to close the session.
  abbrev pub Closed : W → Type 0
  Closed w = (v : W) × (w ≡ (close_sessions runner.invoke_stage g v).0)

  -- A step gives up with an error behind the cleanup, or goes on with such a progress.
  abbrev pub Turn : (Progress → Type 0) → Outcome W → Type 0
  Turn Q (w, inl r) = (r.ok ≡ false) × Closed w
  Turn Q (w, inr p) = Q p

  pub if_Turn :
      (Q : Progress → Type 0) (b : Bool) (x y : Outcome W)
      → (b ≡ true → Turn Q x)
      → (b ≡ false → Turn Q y)
      → Turn Q (if b then x else y)
  if_Turn Q true x y h k = h refl
  if_Turn Q false x y h k = k refl

  pub and_then-Turn :
      (Q R : Progress → Type 0) (x : Outcome W) (k : Progress → W → Outcome W)
      → Turn Q x
      → ((q : Progress) (w : W) → Q q → Turn R (k q w))
      → Turn R (and_then x k)
  unfolding and_then
  and_then-Turn Q R (w, inl r) k h f = h
  and_then-Turn Q R (w, inr q) k h f = f q w h

  pub map_Turn :
      (Q R : Progress → Type 0) (x : Outcome W) → Turn Q x → ((q : Progress) → Q q → R q) → Turn R x
  map_Turn Q R (w, inl r) h f = h
  map_Turn Q R (w, inr q) h f = f q h

  pub fail-Turn :
      (Q : Progress → Type 0) (status code message : String) (w : W)
      → Turn Q (give_up (fail runner g status code message w))
  unfolding fail give_up generation_error
  fail-Turn Q status code message w = (refl, (w, refl))

pub below : (c : ℕ) (z : ℤ) → ltb_ℤ (pos c) z ≡ true → c < pos_part z
below c (pos n) h = ground arith
below c (negsuc n) h = absurd (ground arith)

pub above : (c : ℕ) (z : ℤ) → ltb_ℤ (pos c) z ≡ false → pos_part z ≤ c
above c (pos n) h = ground arith
above c (negsuc n) h = omega arith

-- One more token.
pub record Emitted (p q : Progress) : Type 0 where
  pub counted :
      length p.result.sampled_tokens ≡ p.result.completion_tokens
      → length q.result.sampled_tokens ≡ q.result.completion_tokens
  pub more : q.result.completion_tokens ≡ suc p.result.completion_tokens
  pub stepped : q.decode_step ≡ p.decode_step
  pub ended : q.end_of_generation ≡ p.end_of_generation

-- What a batch does: no token beyond the limit `m`, and all of them unless the generation ends.
pub record Emits (m : ℕ) (batch : SampledBatch) (p q : Progress) : Type 0 where
  pub counted :
      length p.result.sampled_tokens ≡ p.result.completion_tokens
      → length q.result.sampled_tokens ≡ q.result.completion_tokens
  pub grows : p.result.completion_tokens ≤ q.result.completion_tokens
  pub bounded : p.result.completion_tokens ≤ m → q.result.completion_tokens ≤ m
  pub exact :
      q.end_of_generation ≡ false
      → p.result.completion_tokens ≤ m
      → q.result.completion_tokens ≡ min (p.result.completion_tokens + length batch) m
  pub stepped : q.decode_step ≡ p.decode_step

module _ {W : Type 0} (runner : Runner W) (g : GenerationRequest) (sink : TokenSink W) where
  pub after_sink-Turn :
      (Q : Progress → Type 0) (p : Progress) (x : W × Bool)
      → Q p
      → Turn runner g Q (after_sink runner g sink p x)
  unfolding after_sink
  after_sink-Turn Q p (w, true) h = h
  after_sink-Turn Q p (w, false) h = fail-Turn runner g Q _ _ _ w

  emit_prefix-Emitted :
      (x : Prefix) (token : ℕ) (pending : Bytes) (p : Progress) (w : W)
      → Turn runner g (Emitted p) (emit_prefix runner g sink x token pending p w)
  unfolding emit_prefix emit_token
  emit_prefix-Emitted malformed token pending p w = fail-Turn runner g (Emitted p) _ _ _ w
  emit_prefix-Emitted out_of_fuel token pending p w = fail-Turn runner g (Emitted p) _ _ _ w
  emit_prefix-Emitted (complete n) token pending p w = after_sink-Turn (Emitted p) _ _ (record {
    counted = λ h. omega (arith, h, length-append p.result.sampled_tokens (token ∷ []));
    more = refl;
    stepped = refl;
    ended = refl;
  })

  pub emit-Emitted :
      (token : ℕ) (text : Bytes) (p : Progress) (w : W)
      → Turn runner g (Emitted p) (emit runner g sink token text p w)
  unfolding emit
  emit-Emitted token text p w = emit_prefix-Emitted _ token _ p w

  one_more :
      {t : Sampled} (batch : SampledBatch) (p q r : Progress) (m : ℕ)
      → p.result.completion_tokens < m
      → Emitted p q
      → Emits m batch q r
      → Emits m (t ∷ batch) p r
  one_more batch p q r m small e b = record {
    counted = λ h. b.counted (e.counted h);
    grows = omega (arith, e.more, b.grows);
    bounded = λ h. b.bounded (omega (arith, e.more, small));
    exact = λ stays h. omega (arith, e.more, small, b.exact stays (omega (arith, e.more, small)));
    stepped = b.stepped ∙ e.stepped;
  }

  pub emit_batch-Emits :
      (batch : SampledBatch) (p : Progress) (w : W)
      → Turn runner g (Emits (pos_part g.max_tokens) batch p) (emit_batch runner g sink batch p w)
  unfolding emit_batch
  emit_batch-Emits [] p w = record {
    counted = λ h. h;
    grows = omega arith;
    bounded = λ h. h;
    exact = λ e h. omega (arith, h);
    stepped = refl;
  }
  emit_batch-Emits (t ∷ batch) p w =
      let Q = Emits (pos_part g.max_tokens) (t ∷ batch) p in
      let stop : Outcome W = (w, inr (record p { end_of_generation = true })) in
      let more : Outcome W =
        and_then (emit runner g sink t.token t.text p w)
          (λ q v. emit_batch runner g sink batch q v) in
      let c = p.result.completion_tokens in
      let stopped : Turn runner g Q stop = record {
        counted = λ h. h;
        grows = omega arith;
        bounded = λ h. h;
        exact = λ e h. absurd (true≢false e);
        stepped = refl;
      } in
      let full : ltb_ℤ (pos c) g.max_tokens ≡ false → Turn runner g Q (w, inr p) = λ out. record {
        counted = λ h. h;
        grows = omega arith;
        bounded = λ h. h;
        exact = λ e h. omega (arith, h, above c g.max_tokens out);
        stepped = refl;
      } in
      let goes_on : ltb_ℤ (pos c) g.max_tokens ≡ true → Turn runner g Q more = λ room.
        let small = below c g.max_tokens room in
        and_then-Turn runner g (Emitted p) Q (emit runner g sink t.token t.text p w)
          (λ q v. emit_batch runner g sink batch q v) (emit-Emitted t.token t.text p w)
          (λ q v e.
            map_Turn runner g (Emits (pos_part g.max_tokens) batch q) Q
              (emit_batch runner g sink batch q v) (emit_batch-Emits batch q v)
              (λ r b. one_more batch p q r (pos_part g.max_tokens) small e b)) in
      if_Turn runner g Q (ltb_ℤ (pos c) g.max_tokens) (if t.end_of_generation then stop else more)
        (w, inr p)
        (λ room.
          if_Turn runner g Q t.end_of_generation stop more (λ ends. stopped)
            (λ going. goes_on room))
        full
