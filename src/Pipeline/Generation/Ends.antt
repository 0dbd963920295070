-- ===== src/Pipeline/Generation/Ends.antt =====
-- generation_runner.cpp: how the decode loop ends.
use jetsonfabric.Base.{
  ◌≡◌, refl, ◌≤◌, ◌<◌, max, ◌⊎◌, inl, inr, ℕ, zero, suc, ◌+◌, pos_part, not, Bool, true, false,
  none, some, length, if◌then◌else◌, arith, test, string_discrete,
}
use jetsonfabric.Pipeline.Generation.{GenerationResult, generation_error}
use jetsonfabric.Pipeline.Generation.Run.{
  Runner, TokenSink, Progress, Outcome, continues, finish, draft_tokens, decode_once,
}
use jetsonfabric.Pipeline.Generation.Start.{Returned, close_loop, after_turn, decode_loop}
use jetsonfabric.Pipeline.Generation.Sessions.{close_sessions}
use jetsonfabric.Pipeline.Generation.Steps.{below, above, Closed, Turn}
use jetsonfabric.Pipeline.Generation.Turns.{Turns, decode_once-Turns}
use jetsonfabric.Protocol.Generation.{GenerationRequest}

-- The result of a generation that went well: the tokens are counted, they are at most `m`, or the
-- one of the prefill, and there are `m` unless the model ended the generation.
pub record Counts (m : ℕ) (r : GenerationResult) : Type 0 where
  pub counted : length r.sampled_tokens ≡ r.completion_tokens
  pub bounded : r.completion_tokens ≤ max m 1
  pub reason :
      (r.finish_reason ≡ "stop") ⊎ ((r.finish_reason ≡ "length") × (m ≤ r.completion_tokens))

module _ {W : Type 0} (runner : Runner W) (g : GenerationRequest) where
  -- The end of a run: an error, or a result that counts, with the sessions just closed.
  abbrev pub Ended : Returned W → Type 0
  Ended (w, none) = ⊥
  Ended (w, some r) = ((r.ok ≡ false) ⊎ Counts (pos_part g.max_tokens) r) × Closed runner g w

  -- What the loop relies on.
  pub record Going (p : Progress) : Type 0 where
    pub counted : length p.result.sampled_tokens ≡ p.result.completion_tokens
    pub bounded : p.result.completion_tokens ≤ max (pos_part g.max_tokens) 1

  if_Ended :
      (b : Bool) (x y : Returned W)
      → (b ≡ true → Ended x)
      → (b ≡ false → Ended y)
      → Ended (if b then x else y)
  if_Ended true x y h k = h refl
  if_Ended false x y h k = k refl

  pub continues_room :
      (p : Progress)
      → continues runner g p ≡ true
      → (p.result.completion_tokens < pos_part g.max_tokens) × (p.end_of_generation ≡ false)
  unfolding continues
  continues_room p h = (below p.result.completion_tokens g.max_tokens (ground arith), ground arith)

  stops_full :
      (p : Progress)
      → continues runner g p ≡ false
      → p.end_of_generation ≡ false
      → pos_part g.max_tokens ≤ p.result.completion_tokens
  unfolding continues
  stops_full p h e = above p.result.completion_tokens g.max_tokens (ground arith)

  Counts-finish :
      (p : Progress) (ends : Bool)
      → p.end_of_generation ≡ ends
      → Going p
      → continues runner g p ≡ false
      → Counts (pos_part g.max_tokens) (record p.result {
        ok = true;
        status = "200 OK";
        finish_reason = if ends then "stop" else "length";
      })
  Counts-finish p true e going stops = record {
    counted = going.counted;
    bounded = going.bounded;
    reason = inl refl;
  }
  Counts-finish p false e going stops = record {
    counted = going.counted;
    bounded = going.bounded;
    reason = inr (refl, stops_full p stops e);
  }

  if_Counts :
      (m : ℕ) (b : Bool) (x y : GenerationResult)
      → x.ok ≡ false
      → Counts m y
      → ((if b then x else y).ok ≡ false) ⊎ Counts m (if b then x else y)
  if_Counts m true x y h k = inl h
  if_Counts m false x y h k = inr k

  finish-Ended :
      (p : Progress) (w : W)
      → Going p
      → continues runner g p ≡ false
      → Ended (close_loop (finish runner g p w))
  unfolding close_loop finish generation_error
  finish-Ended p w going stops = (
    if_Counts (pos_part g.max_tokens)
        (not (test (string_discrete (close_sessions runner.invoke_stage g w).1 ""))) _ _ refl
        (Counts-finish p p.end_of_generation refl going stops),
    (w, refl),
  )

  pub after_turn-Ended :
      (Q : Progress → Type 0) (x : Outcome W) (k : Progress → W → Returned W)
      → Turn runner g Q x
      → ((q : Progress) (w : W) → Q q → Ended (k q w))
      → Ended (after_turn x k)
  unfolding after_turn
  after_turn-Ended Q (w, inl r) k h f = (inl h.0, h.1)
  after_turn-Ended Q (w, inr q) k h f = f q w h

  pub decode_loop-Ended :
      (sink : TokenSink W) (fuel : ℕ) (p : Progress) (w : W)
      → Going p
      → (p.end_of_generation ≡ false → pos_part g.max_tokens ≤ p.result.completion_tokens + fuel)
      → Ended (decode_loop runner g sink fuel p w)
  unfolding decode_loop
  decode_loop-Ended sink zero p w going room =
      if_Ended (continues runner g p) (w, none) (close_loop (finish runner g p w))
        (λ h. let (small, e) = continues_room p h in absurd (omega (arith, small, room e)))
        (λ h. finish-Ended p w going h)
  decode_loop-Ended sink (suc fuel) p w going room =
      let Q = Turns (pos_part g.max_tokens) (draft_tokens runner g p) p in
      let rest = λ (q : Progress) (v : W). decode_loop runner g sink fuel q v in
      if_Ended (continues runner g p) (after_turn (decode_once runner g sink p w) rest)
        (close_loop (finish runner g p w))
        (λ h.
          let (small, e) = continues_room p h in
          after_turn-Ended Q (decode_once runner g sink p w) rest
            (decode_once-Turns runner g sink p w)
            (λ q v turn.
              decode_loop-Ended sink fuel q v
                (record {
                  counted = turn.counted going.counted;
                  bounded = omega (arith, turn.bounded (omega (arith, small)));
                })
                (λ stays. omega (arith, room e, turn.grows small stays))))
        (λ h. finish-Ended p w going h)
