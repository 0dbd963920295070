-- ===== src/Deployment/Manager/LoadCases.antt =====
-- The branches of the two sections of a load, as rules.
use jetsonfabric.Pipeline.Assignment.{StageAssignment, validate_stage_assignment}
use jetsonfabric.Base.{
  test, not, string_discrete, length, ◌≡◌, refl, Bool, true, false, Option, none, some, String,
  is_some, Bool-cases, Option-cases, inl, inr, if◌then◌else◌,
}
use jetsonfabric.Deployment.{
  DeploymentIdentity, DeploymentOperationResult, ResidentDeploymentState.loading,
  ResidentDeploymentState.ready, ResidentDeploymentState.failed,
  is_valid_resident_deployment_transition,
}
use jetsonfabric.Deployment.Manager.{
  ResidentDeployment, Manager, update, key_for, resident_at, InferenceEngineParts,
}
use jetsonfabric.Deployment.Manager.Load.{
  PendingLoad, BuildOutcome, BeginLoad, refused, started, is_canceled, fail_load, install,
  finish_found, built, throws_invalid_argument, throws_exception, begin_load, begin_managed,
  insert_loading,
}
use jetsonfabric.Deployment.Manager.Operations.{
  invalid_identity, canceled_load, transition, operation_success, operation_error,
  require_managed_identity,
}

module _ {ℓ} {E : Type 0} (P : Option (Manager E × DeploymentOperationResult) → Type ℓ)
    (m : Manager E) (p : PendingLoad) (d : ResidentDeployment E) (load : d.state ≡ loading)
    (canceled : is_canceled p d m ≡ true → P (some (m, canceled_load d)))
    (fails : (r : DeploymentOperationResult)
      → is_canceled p d m ≡ false
      → r.ok ≡ false
      → P (some (update p.address (record d { state = failed }) m, r))) where
  fail_load_rule : (status code message : String) → P (fail_load p d status code message m)
  unfolding fail_load transition is_valid_resident_deployment_transition operation_error
  fail_load_rule status code message = elim (Bool-cases (is_canceled p d m)) [
    | inl c ↦ rw c (canceled c)
    | inr c ↦
        let r : DeploymentOperationResult =
          operation_error status code message (some d.identity) (some failed) in
        rw (c, load) (fails r c refl)
  ]

  module _
      (installs : (d' : ResidentDeployment E)
        → is_canceled p d m ≡ false
        → d'.state ≡ ready
        → is_some d'.execution ≡ true
        → d'.identity ≡ d.identity
        → d'.cancel_requested ≡ d.cancel_requested
        → P (
            some
              (update p.address d' m, operation_success "200 OK" d'.identity (some ready)))) where
    install_rule :
        (parts : InferenceEngineParts E) (executor : E) → P (install p d parts executor m)
    unfolding install transition is_valid_resident_deployment_transition
    install_rule parts executor = elim (Bool-cases (is_canceled p d m)) [
      | inl c ↦ rw c (canceled c)
      | inr c ↦ rw (c, load) (installs _ c refl refl refl refl)
    ]

    -- With the object still loading, the second section is canceled, installs, or fails the load.
    pub finish_rule : (outcome : BuildOutcome E) → P (finish_found p d outcome m)
    unfolding finish_found
    finish_rule (throws_invalid_argument message) = fail_load_rule _ _ message
    finish_rule (throws_exception message) = fail_load_rule _ _ message
    finish_rule (built parts) = elim (Option-cases parts.executor) [
      | inl e ↦ rw e (fail_load_rule _ _ _)
      | inr (x, e) ↦ rw e (install_rule parts x)
    ]

module _ {ℓ} {E : Type 0} (P : Manager E × BeginLoad → Type ℓ) (m : Manager E) (node_name : String)
    (i : DeploymentIdentity) (assignment : StageAssignment)
    (no_load : (r : DeploymentOperationResult) → r.ok ≡ false → P (m, refused r))
    (adds : resident_at (key_for i) m ≡ none
      → P (
        insert_loading i m,
        started (record {
          address = length m.objects;
          identity = i;
          node_name = node_name;
          assignment = assignment;
        }),
      )) where
  begin_managed_rule : P (begin_managed node_name i assignment m)
  unfolding begin_managed operation_error
  begin_managed_rule = elim (Option-cases (resident_at (key_for i) m)) [
    | inl e ↦ rw (e, begin_managed) (adds e)
    | inr (x, e) ↦ rw (e, begin_managed) (no_load _ refl)
  ]

  begin_from :
      (builder : Bool) (t : Dec (validate_stage_assignment assignment ≡ "")) (o : Option String)
      → P (
          if not builder
          then (
            m,
            refused (
                operation_error "400 Bad Request" "invalid_engine_builder"
                  "deployment load requires an engine builder" none none),
          )
          else if not (test t)
          then (
            m,
            refused (
                operation_error "400 Bad Request" "invalid_stage_assignment"
                  (validate_stage_assignment assignment)
                  none
                  none),
          )
          else elim o [
            | some message ↦ (m, refused (invalid_identity message))
            | none ↦ begin_managed node_name i assignment m
          ])
  unfolding operation_error invalid_identity
  begin_from false t o = no_load _ refl
  begin_from true (no n) o = no_load _ refl
  begin_from true (yes y) (some message) = no_load _ refl
  begin_from true (yes y) none = begin_managed_rule

  -- The first section refuses the load, or adds an entry for a key that has none.
  pub begin_rule : (has_builder : Bool) → P (begin_load has_builder node_name i assignment m)
  unfolding begin_load
  begin_rule has_builder =
      begin_from has_builder (string_discrete (validate_stage_assignment assignment) "")
        (require_managed_identity i)
