-- ===== src/Deployment/Manager/Cases.antt =====
-- The branches of the operations behind the lookup, as one rule for each operation: what holds at
-- the end of every branch holds of the operation.
use jetsonfabric.Base.{
  String, ℕ, ◌≡◌, ◌≢◌, refl, true, false, Option, none, some, arith, is_some, Option-cases, inl,
  inr,
}
use jetsonfabric.Deployment.{
  DeploymentIdentity, DeploymentOperationResult, ResidentDeploymentState,
  ResidentDeploymentState.loading, ResidentDeploymentState.ready, ResidentDeploymentState.active,
  ResidentDeploymentState.draining, ResidentDeploymentState.unloading,
  ResidentDeploymentState.failed, is_valid_resident_deployment_transition,
}
use jetsonfabric.Deployment.Manager.{find_exact, ResidentDeployment, Manager, key_for, update}
use jetsonfabric.Deployment.Manager.Operations.{
  invalid_state_error, deployment_not_found, invalid_identity, require_managed_identity,
  activate_resident_deployment, drain_resident_deployment, unload_resident_deployment,
  operation_success, operation_error, transition, transitioning_error, activate_found, drain_found,
  unload_found, drop_entry,
}

module _ {ℓ} {E : Type 0} (P : Option (Manager E × DeploymentOperationResult) → Type ℓ)
    (m : Manager E) (a : ℕ) (d : ResidentDeployment E) where
  activate_from :
      (s : ResidentDeploymentState)
      → d.state ≡ s
      → ((r : DeploymentOperationResult) → r.ok ≡ false → P (some (m, r)))
      → (d.state ≡ active
          → P (
              some (
                record m { preferred = some (key_for d.identity) },
                operation_success "200 OK" d.identity (some active),
              )))
      → (d.state ≡ ready
          → is_some d.execution ≡ true
          → P (
              some (
                record (update a (record d { state = active }) m) {
                  preferred = some (key_for d.identity);
                },
                operation_success "200 OK" d.identity (some active),
              )))
      → P (activate_found m a d)
  unfolding activate_found transition is_valid_resident_deployment_transition operation_error
      transitioning_error invalid_state_error
  activate_from active e same prefer start = rw e (prefer e)
  activate_from loading e same prefer start = rw e (same _ refl)
  activate_from draining e same prefer start = rw e (same _ refl)
  activate_from unloading e same prefer start = rw e (same _ refl)
  activate_from failed e same prefer start = rw e (same _ refl)
  activate_from ready e same prefer start = elim (Option-cases d.execution) [
    | inl none_there ↦ rw (e, none_there) (same _ refl)
    | inr (x, there) ↦ rw (e, there) (rw there at (start e (rw there)))
  ]

  pub activate_cases :
      ((r : DeploymentOperationResult) → r.ok ≡ false → P (some (m, r)))
      → (d.state ≡ active
          → P (
              some (
                record m { preferred = some (key_for d.identity) },
                operation_success "200 OK" d.identity (some active),
              )))
      → (d.state ≡ ready
          → is_some d.execution ≡ true
          → P (
              some (
                record (update a (record d { state = active }) m) {
                  preferred = some (key_for d.identity);
                },
                operation_success "200 OK" d.identity (some active),
              )))
      → P (activate_found m a d)
  activate_cases = activate_from d.state refl

  drain_from :
      (s : ResidentDeploymentState)
      → d.state ≡ s
      → ((r : DeploymentOperationResult) → P (some (m, r)))
      → (d.state ≡ active
          → P (
              some (
                update a (record d { state = draining }) m,
                operation_success "200 OK" d.identity (some draining),
              )))
      → P (drain_found m a d)
  unfolding drain_found transition is_valid_resident_deployment_transition
  drain_from active e same drains = rw e (drains e)
  drain_from loading e same drains = rw e (same _)
  drain_from draining e same drains = rw e (same _)
  drain_from unloading e same drains = rw e (same _)
  drain_from failed e same drains = rw e (same _)
  drain_from ready e same drains = rw e (same _)

  pub drain_cases :
      ((r : DeploymentOperationResult) → P (some (m, r)))
      → (d.state ≡ active
          → P (
              some (
                update a (record d { state = draining }) m,
                operation_success "200 OK" d.identity (some draining),
              )))
      → P (drain_found m a d)
  drain_cases = drain_from d.state refl

  unload_from :
      (s : ResidentDeploymentState)
      → d.state ≡ s
      → ((r : DeploymentOperationResult) → r.ok ≡ false → P (some (m, r)))
      → (d.state ≡ loading
          → P (
              some (
                drop_entry d.identity (update a (record d { cancel_requested = true }) m),
                operation_success "200 OK" d.identity none,
              )))
      → (d.state ≢ loading
          → d.state ≢ active
          → P (
              some (
                drop_entry d.identity (update a (record d { state = unloading }) m),
                operation_success "200 OK" d.identity none,
              )))
      → P (unload_found m a d)
  unfolding unload_found transition is_valid_resident_deployment_transition operation_error
      transitioning_error
  unload_from active e same cancels unloads = rw e (same _ refl)
  unload_from loading e same cancels unloads = rw e (rw e at (cancels e))
  unload_from unloading e same cancels unloads = rw e (same _ refl)
  unload_from draining e same cancels unloads = rw e (unloads (ground arith) (ground arith))
  unload_from failed e same cancels unloads = rw e (unloads (ground arith) (ground arith))
  unload_from ready e same cancels unloads = rw e (unloads (ground arith) (ground arith))

  pub unload_cases :
      ((r : DeploymentOperationResult) → r.ok ≡ false → P (some (m, r)))
      → (d.state ≡ loading
          → P (
              some (
                drop_entry d.identity (update a (record d { cancel_requested = true }) m),
                operation_success "200 OK" d.identity none,
              )))
      → (d.state ≢ loading
          → d.state ≢ active
          → P (
              some (
                drop_entry d.identity (update a (record d { state = unloading }) m),
                operation_success "200 OK" d.identity none,
              )))
      → P (unload_found m a d)
  unload_cases = unload_from d.state refl

module _ {ℓ} {E : Type 0} (P : Option (Manager E × DeploymentOperationResult) → Type ℓ)
    (m : Manager E) (i : DeploymentIdentity)
    (bad : (r : DeploymentOperationResult) → r.ok ≡ false → P (some (m, r))) where
  dispatch :
      (o : Option String) (q : Option (ℕ × ResidentDeployment E)) (r : DeploymentOperationResult)
      (f : Manager E → ℕ → ResidentDeployment E → Option (Manager E × DeploymentOperationResult))
      → (q ≡ none → P (some (m, r)))
      → ((a : ℕ) (d : ResidentDeployment E) → q ≡ some (a, d) → P (f m a d))
      → P (elim o [
        | some message ↦ some (m, invalid_identity message)
        | none ↦ elim q [ none ↦ some (m, r) | some (a, d) ↦ f m a d ]
      ])
  unfolding invalid_identity operation_error
  dispatch (some message) q r f missing found = bad _ refl
  dispatch none none r f missing found = missing refl
  dispatch none (some (a, d)) r f missing found = found a d refl

  -- What holds at every end behind the lookup, of the answer for an identity that is not resident,
  -- and of every refusal, holds of the operation.
  pub activate_rule :
      (find_exact i m ≡ none → P (some (m, deployment_not_found i)))
      → ((a : ℕ) (d : ResidentDeployment E)
          → find_exact i m ≡ some (a, d)
          → P (activate_found m a d))
      → P (activate_resident_deployment i m)
  unfolding activate_resident_deployment
  activate_rule = dispatch (require_managed_identity i) (find_exact i m) _ activate_found

  pub drain_rule :
      (find_exact i m ≡ none → P (some (m, operation_success "200 OK" i none)))
      → ((a : ℕ) (d : ResidentDeployment E) → find_exact i m ≡ some (a, d) → P (drain_found m a d))
      → P (drain_resident_deployment i m)
  unfolding drain_resident_deployment
  drain_rule = dispatch (require_managed_identity i) (find_exact i m) _ drain_found

  pub unload_rule :
      (find_exact i m ≡ none → P (some (m, operation_success "200 OK" i none)))
      → ((a : ℕ) (d : ResidentDeployment E) → find_exact i m ≡ some (a, d) → P (unload_found m a d))
      → P (unload_resident_deployment i m)
  unfolding unload_resident_deployment
  unload_rule = dispatch (require_managed_identity i) (find_exact i m) _ unload_found
