-- ===== src/Pipeline/Generation/Kept.antt =====
-- generation_runner.cpp: what the passes and the rollbacks do to the tokens of a generation.
use jetsonfabric.Base.{
  ◌≡◌, refl, ◌∙◌, ◌⊎◌, inl, inr, ℕ, Bool, true, false, not, String, List, [], ◌∷◌, test,
  string_discrete, if◌then◌else◌,
}
use jetsonfabric.Pipeline.Generation.{GenerationResult, execute, rollback_session, generation_error}
use jetsonfabric.Pipeline.Generation.Checks.{apply_stage, validate_response, record_stage_timing}
use jetsonfabric.Pipeline.Generation.Pass.{
  StageInvoker, Pass, count_call, failed_stage, add_response, accept_response, check_stage,
  run_stages, run_pass,
}
use jetsonfabric.Pipeline.Generation.Sessions.{
  rollback_request, session_error, add_rollback, rollback_from, rollback_sessions,
}
use jetsonfabric.Pipeline.Result.{StageRunResult}
use jetsonfabric.Protocol.Generation.{GenerationStage, GenerationRequest}
use jetsonfabric.Protocol.Message.{StageRequest}

pub record Kept (a b : GenerationResult) : Type 0 where
  pub tokens : b.sampled_tokens ≡ a.sampled_tokens
  pub completion : b.completion_tokens ≡ a.completion_tokens

Kept-trans : {a b c : GenerationResult} → Kept a b → Kept b c → Kept a c
Kept-trans h k = record { tokens = k.tokens ∙ h.tokens; completion = k.completion ∙ h.completion }

abbrev pub Passes : {W : Type 0} → GenerationResult → W × (GenerationResult ⊎ Pass) → Type 0
Passes a (w, inl error) = error.ok ≡ false
Passes a (w, inr p) = Kept a p.result

abbrev Checked : GenerationResult → GenerationResult ⊎ Pass → Type 0
Checked a (inl error) = error.ok ≡ false
Checked a (inr p) = Kept a p.result

if_Checked :
    (a : GenerationResult) (b : Bool) (x y : GenerationResult ⊎ Pass)
    → Checked a x
    → Checked a y
    → Checked a (if b then x else y)
if_Checked a true x y h k = h
if_Checked a false x y h k = k

check_stage-Checked :
    (s : GenerationStage) (run : StageRunResult) (request : StageRequest) (p : Pass)
    → Checked p.result (check_stage s run request p)
unfolding check_stage failed_stage generation_error accept_response add_response record_stage_timing
    count_call
check_stage-Checked s run request p =
    if_Checked p.result (not run.ok) (inl (failed_stage s run)) _ refl (
      if_Checked p.result (not (test (string_discrete (validate_response request run.response) "")))
        (inl (
          generation_error "502 Bad Gateway" "invalid_stage_response"
            (validate_response request run.response)))
        (inr (accept_response s run request p)) refl (record { tokens = refl; completion = refl }))

Passes-trans :
    {W : Type 0} (a b : GenerationResult) (x : W × (GenerationResult ⊎ Pass))
    → Kept a b
    → Passes b x
    → Passes a x
Passes-trans a b (w, inl error) k h = h
Passes-trans a b (w, inr p) k h = Kept-trans k h

next_stage :
    {W : Type 0} (a : GenerationResult) (o : GenerationResult ⊎ Pass) (w : W)
    (k : Pass → W × (GenerationResult ⊎ Pass))
    → Checked a o
    → ((q : Pass) → Passes q.result (k q))
    → Passes {W = W} a (elim o [ inl error ↦ (w, inl error) | inr q ↦ k q ])
next_stage a (inl error) w k h f = h
next_stage a (inr q) w k h f = Passes-trans a q.result (k q) h (f q)

module _ {W : Type 0} (invoke : StageInvoker W) where
  run_stages-Passes :
      (id : String) (stages : List GenerationStage) (p : Pass) (w : W)
      → Passes p.result (run_stages invoke id stages p w)
  unfolding run_stages
  run_stages-Passes id [] p w = record { tokens = refl; completion = refl }
  run_stages-Passes id (s ∷ stages) p w =
      let request = apply_stage s (record p.request { request_id = id }) in
      let called = invoke s request execute w in
      next_stage p.result (check_stage s called.1 request p) called.0
        (λ q. run_stages invoke id stages q called.0) (check_stage-Checked s called.1 request p)
        (λ q. run_stages-Passes id stages q called.0)

  -- A pass fails with an error, or it keeps the tokens.
  pub run_pass-Passes :
      (stages : List GenerationStage) (request : StageRequest) (a : GenerationResult) (w : W)
      → Passes a (run_pass invoke stages request a w)
  unfolding run_pass
  run_pass-Passes stages request a w = run_stages-Passes _ stages _ w

  rollback_from-Kept :
      (g : GenerationRequest) (count : ℕ) (stages : List GenerationStage) (error : String)
      (a : GenerationResult) (w : W)
      → Kept a (rollback_from invoke g count stages error a w).1.1
  unfolding rollback_from add_rollback
  rollback_from-Kept g count [] error a w = record { tokens = refl; completion = refl }
  rollback_from-Kept g count (s ∷ stages) error a w =
      let called = invoke s (rollback_request g s count) rollback_session w in
      let rest =
        rollback_from-Kept g count stages
          (session_error s (rollback_request g s count) called.1 error) (add_rollback s called.1 a)
          called.0 in
      record { tokens = rest.tokens; completion = rest.completion }

  pub rollback_sessions-Kept :
      (g : GenerationRequest) (count : ℕ) (a : GenerationResult) (w : W)
      → Kept a (rollback_sessions invoke g count a w).1.1
  unfolding rollback_sessions
  rollback_sessions-Kept g count a w = rollback_from-Kept g count g.stages "" a w
