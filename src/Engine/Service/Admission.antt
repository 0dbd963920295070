-- ===== src/Engine/Service/Admission.antt =====
-- generation_service.cpp and the routing of model_manager.cpp: where the requests of a generation go.
use jetsonfabric.Base.{
  refl, List, ℕ, ◌≡◌, ◌≢◌, sym, ap, ◌∙◌, inl, inr, true, false, Option, none, some, arith,
  Option-cases,
}
use jetsonfabric.Deployment.{DeploymentIdentity}
use jetsonfabric.Deployment.Manager.{
  Manager, ResidentDeployment, ResidentExecution, preferred_deployment, is_executable,
  active_deployment_identity, executable_deployment_identity,
}
use jetsonfabric.Deployment.Manager.Admission.{route_managed, unmanaged_reached}
use jetsonfabric.Deployment.Manager.Routing.{route, runs_on, is_managed, expected_identity}
use jetsonfabric.Engine.Service.{
  GenerationStage, GenerationService, select_deployment, validate_request, validate_selected,
  is_other,
}
use jetsonfabric.Pipeline.Generation.Checks.{apply_stage}
use jetsonfabric.Pipeline.Generation.Sessions.{close_request, rollback_request, session_request}
use jetsonfabric.Pipeline.Generation.{prefill_request, decode_request, with_deployment}
use jetsonfabric.Protocol.Generation.{GenerationRequest}
use jetsonfabric.Protocol.Message.{StageRequest, default_request}

-- The request names the deployment and the model of the generation.
pub record Carries (g : GenerationRequest) (q : StageRequest) : Type 0 where
  pub model : q.model_id ≡ g.model_id
  pub deployment : q.deployment_id ≡ (with_deployment g default_request).deployment_id
  pub epoch : q.deployment_epoch ≡ (with_deployment g default_request).deployment_epoch
  pub digest : q.model_sha256 ≡ (with_deployment g default_request).model_sha256

-- A deployment that the generation names has an id.
abbrev pub Named : Option DeploymentIdentity → Type 0
Named none = Unit {0}
Named (some i) = i.deployment_id ≢ ""

module _ {E : Type 0} (s : GenerationService) (g : GenerationRequest) (m : Manager E) where
  -- Some stage worker of the manager gets the request.
  abbrev pub Reaches : StageRequest → Type 0
  Reaches q = (x : ResidentExecution E) × (route q m ≡ runs_on x)

  selected_there :
      validate_request s g (select_deployment g m) m ≡ none
      → (i : DeploymentIdentity) × (select_deployment g m ≡ some i)
        × (validate_selected s g i ≡ none)
  unfolding validate_request
  selected_there h = elim (Option-cases (select_deployment g m)) [
    | inl gone ↦ absurd (ground arith)
    | inr (i, there) ↦ (i, there, ground arith)
  ]

  active_there :
      (i : DeploymentIdentity)
      → active_deployment_identity m ≡ some i
      → (d : ResidentDeployment E) × (preferred_deployment m ≡ some d)
        × (is_executable d ≡ true)
        × (d.identity ≡ i)
  unfolding active_deployment_identity
  active_there i h = elim (Option-cases (preferred_deployment m)) [
    | inl gone ↦ absurd (ground arith)
    | inr (d, there) ↦ (d, there, ground arith, ground arith)
  ]

  selected_good :
      (i : DeploymentIdentity)
      → validate_selected s g i ≡ none
      → (i.model_id ≡ g.model_id) × (is_other g.deployment i ≡ false)
  unfolding validate_selected
  selected_good i h = (ground arith, ground arith)

  selected_local :
      (i : DeploymentIdentity) → g.deployment ≡ none → validate_selected s g i ≡ none → i.epoch ≡ 0
  unfolding validate_selected
  selected_local i e h = ground arith

  carried_local :
      (q : StageRequest)
      → g.deployment ≡ none
      → validate_request s g (select_deployment g m) m ≡ none
      → Carries g q
      → Reaches q
  carried_local q e h c =
      let (i, there, good) = selected_there h in
      let (d, preferred, ex, same) = active_there i (chosen i there) in
      unmanaged_reached q m d free preferred ex (ap (λ j. j.epoch) same ∙ selected_local i e good)
    where
      chosen :
          (i : DeploymentIdentity)
          → select_deployment g m ≡ some i
          → active_deployment_identity m ≡ some i
      chosen i there = unfold select_deployment in (ground arith)

      free : is_managed q ≡ false
      free = unfold is_managed with_deployment in (ground (arith, c.deployment, c.epoch, c.digest))

  named_same :
      (i j : DeploymentIdentity) → g.deployment ≡ some i → is_other g.deployment j ≡ false → i ≡ j
  unfolding is_other
  named_same i j e h = ground arith

  carried_managed :
      (i : DeploymentIdentity) (q : StageRequest)
      → g.deployment ≡ some i
      → i.deployment_id ≢ ""
      → validate_request s g (select_deployment g m) m ≡ none
      → Carries g q
      → Reaches q
  carried_managed i q e named h c =
      let (j, there, good) = selected_there h in
      let (model, other) = selected_good j good in
      let same = named_same i j e other in
      let whole : expected_identity q ≡ i =
        identity (c.model ∙ sym model ∙ ap (λ k. k.model_id) (sym same)) in
      (route_managed q m (managed)).1 (rw whole (executable there same))
    where
      carries :
          (q.deployment_id ≡ i.deployment_id)
          × (q.deployment_epoch ≡ i.epoch)
          × (q.model_sha256 ≡ i.model_sha256)
      carries = unfold with_deployment in (rw e at c.deployment, rw e at c.epoch, rw e at c.digest)

      identity : q.model_id ≡ i.model_id → expected_identity q ≡ i
      identity model = unfold expected_identity in (ground (arith, carries.0, carries.1, carries.2))

      executable :
          {j : DeploymentIdentity}
          → select_deployment g m ≡ some j
          → i ≡ j
          → executable_deployment_identity i m ≡ some i
      executable there same = unfold select_deployment in (ground arith)

      managed : is_managed q ≡ true
      managed = unfold is_managed in (ground (arith, named, carries.0))

  carried :
      (o : Option DeploymentIdentity) (q : StageRequest)
      → g.deployment ≡ o
      → Named o
      → validate_request s g (select_deployment g m) m ≡ none
      → Carries g q
      → Reaches q
  carried none q e named h c = carried_local q e h c
  carried (some i) q e named h c = carried_managed i q e named h c

  -- In the state in which a runtime takes a generation, whose deployment, if it names one, has an id,
  -- each request of it to one of its stages is routed to a stage worker: the prefill, every decode,
  -- the close and every rollback.
  pub generation-Reaches :
      validate_request s g (select_deployment g m) m ≡ none
      → Named g.deployment
      → (stage : GenerationStage) (step : ℕ) (tokens : List ℕ)
      → Reaches (apply_stage stage (prefill_request g))
        × Reaches (apply_stage stage (decode_request g step tokens))
        × Reaches (close_request g stage)
        × Reaches (rollback_request g stage step)
  unfolding apply_stage prefill_request decode_request close_request rollback_request
      session_request
  generation-Reaches h named stage step tokens = (
    reaches _ refl refl refl refl,
    reaches _ refl refl refl refl,
    reaches _ refl refl refl refl,
    reaches _ refl refl refl refl,
  )
    where
      reaches :
          (q : StageRequest)
          → q.model_id ≡ g.model_id
          → q.deployment_id ≡ (with_deployment g default_request).deployment_id
          → q.deployment_epoch ≡ (with_deployment g default_request).deployment_epoch
          → q.model_sha256 ≡ (with_deployment g default_request).model_sha256
          → Reaches q
      reaches q model deployment epoch digest =
          carried g.deployment q refl named h
            (record { model = model; deployment = deployment; epoch = epoch; digest = digest })
