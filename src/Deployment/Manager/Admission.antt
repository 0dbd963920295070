-- ===== src/Deployment/Manager/Admission.antt =====
-- model_manager.cpp: which requests reach which stage worker.
use jetsonfabric.Base.{◌∙◌, ℕ, ◌≡◌, ◌≢◌, ◌↔◌, true, false, some, arith, Option-cases, inl, inr}
use jetsonfabric.Deployment.{DeploymentIdentity}
use jetsonfabric.Deployment.Manager.{
  ResidentDeployment, ResidentExecution, Manager, find_exact, is_executable, preferred_deployment,
  executable_deployment_identity,
}
use jetsonfabric.Deployment.Manager.Map.{find_exact-some}
use jetsonfabric.Deployment.Manager.Routing.{
  runs_on, faults, route, worker_of, deployment_for, is_managed, expected_identity,
  validate_stage_deployment, stage_success,
}
use jetsonfabric.Protocol.Message.{StageRequest}

module _ {E : Type 0} (q : StageRequest) (m : Manager E) where
  -- What `deployment_for` finds is executable.
  deployment_for-executable :
      (d : ResidentDeployment E) → deployment_for q m ≡ some d → is_executable d ≡ true
  unfolding deployment_for
  deployment_for-executable d h = ground arith

  deployment_for_managed :
      (d : ResidentDeployment E)
      → is_managed q ≡ true
      → deployment_for q m ≡ some d
      → (a : ℕ) × (find_exact (expected_identity q) m ≡ some (a, d))
  unfolding deployment_for
  deployment_for_managed d h e = elim (Option-cases (find_exact (expected_identity q) m)) [
    | inl gone ↦ absurd (ground arith)
    | inr ((a, d'), there) ↦ (a, ground arith)
  ]

  deployment_for_unmanaged :
      (d : ResidentDeployment E)
      → is_managed q ≡ false
      → deployment_for q m ≡ some d
      → preferred_deployment m ≡ some d
  unfolding deployment_for
  deployment_for_unmanaged d h e = ground arith

  executable_runs :
      (d : ResidentDeployment E)
      → is_executable d ≡ true
      → (x : ResidentExecution E) × (d.execution ≡ some x) × (worker_of d ≡ runs_on x)
  unfolding is_executable worker_of
  executable_runs d h = elim (Option-cases d.execution) [
    | inl gone ↦ absurd (ground arith)
    | inr (x, there) ↦ (x, there, ground arith)
  ]

  -- A request whose identity is that of the deployment passes the check.
  validate_expected :
      (i : DeploymentIdentity) → i ≡ expected_identity q → (validate_stage_deployment i q).ok ≡ true
  unfolding validate_stage_deployment expected_identity stage_success
  validate_expected i h = ground arith

  validate_unmanaged :
      (i : DeploymentIdentity)
      → is_managed q ≡ false
      → (validate_stage_deployment i q).ok ≡ true
      → i.epoch ≡ 0
  unfolding validate_stage_deployment is_managed stage_success
  validate_unmanaged i h ok = ground arith

  route_found :
      (d : ResidentDeployment E)
      → deployment_for q m ≡ some d
      → (validate_stage_deployment d.identity q).ok ≡ true
      → route q m ≡ worker_of d
  unfolding route
  route_found d h ok = ground arith

  -- For every request and every state, the routing never follows a null execution pointer.
  pub route-ne-faults : route q m ≢ faults
  unfolding route
  route-ne-faults h = elim (Option-cases (deployment_for q m)) [
    | inl e ↦ ground arith
    | inr (d, e) ↦
        let (x, held, runs) = executable_runs d (deployment_for-executable d e) in ground arith
  ]

  served :
      (a : ℕ) (d : ResidentDeployment E)
      → find_exact (expected_identity q) m ≡ some (a, d)
      → is_executable d ≡ true
      → executable_deployment_identity (expected_identity q) m ≡ some (expected_identity q)
  unfolding executable_deployment_identity
  served a d h x = ground (arith, find_exact-some (expected_identity q) m a d h)

  reached :
      is_managed q ≡ true
      → (a : ℕ) (d : ResidentDeployment E) → find_exact (expected_identity q) m ≡ some (a, d)
      → is_executable d ≡ true
      → (x : ResidentExecution E) × (route q m ≡ runs_on x)
  reached named a d h ex =
      let (x, held, runs) = executable_runs d ex in
      (x, route_found d (found named) (validate_expected d.identity same) ∙ runs)
    where
      same : d.identity ≡ expected_identity q
      same = (find_exact-some (expected_identity q) m a d h).2

      found : is_managed q ≡ true → deployment_for q m ≡ some d
      found named = unfold deployment_for in (ground arith)

  -- A request that names a deployment reaches a stage worker exactly when that epoch, with this
  -- model and this digest, is resident and executable.
  pub route_managed :
      is_managed q ≡ true
      → ((x : ResidentExecution E) × (route q m ≡ runs_on x))
        ↔ (executable_deployment_identity (expected_identity q) m ≡ some (expected_identity q))
  unfolding route executable_deployment_identity
  route_managed named = (
    λ r. elim (Option-cases (deployment_for q m)) [
      | inl gone ↦ absurd (ground (arith, r.1))
      | inr (d, e) ↦
          let (a, h) = deployment_for_managed d named e in
          served a d h (deployment_for-executable d e)
    ],
    λ h. elim (Option-cases (find_exact (expected_identity q) m)) [
      | inl gone ↦ absurd (ground arith)
      | inr ((a, d), there) ↦ reached named a d there (ground arith)
    ],
  )

  -- A request that names no deployment reaches the preferred one if that is executable, of epoch 0.
  pub unmanaged_reached :
      (d : ResidentDeployment E)
      → is_managed q ≡ false
      → preferred_deployment m ≡ some d
      → is_executable d ≡ true
      → d.identity.epoch ≡ 0
      → (x : ResidentExecution E) × (route q m ≡ runs_on x)
  unmanaged_reached d free there ex zero_epoch =
      let (x, held, runs) = executable_runs d ex in (x, route_found d found good ∙ runs)
    where
      found : deployment_for q m ≡ some d
      found = unfold deployment_for in (ground arith)

      good : (validate_stage_deployment d.identity q).ok ≡ true
      good = unfold validate_stage_deployment stage_success in (ground arith)

  -- If a request that names no deployment reaches a stage worker, then the worker is that of the
  -- preferred deployment, whose epoch is 0: it never runs on a managed epoch.
  pub route_unmanaged :
      (x : ResidentExecution E)
      → is_managed q ≡ false
      → route q m ≡ runs_on x
      → (d : ResidentDeployment E) × (preferred_deployment m ≡ some d)
        × (d.identity.epoch ≡ 0)
        × (d.execution ≡ some x)
  unfolding route worker_of
  route_unmanaged x free h = elim (Option-cases (deployment_for q m)) [
    | inl gone ↦ absurd (ground arith)
    | inr (d, e) ↦ (
      d,
      deployment_for_unmanaged d free e,
      ground (arith, validate_unmanaged d.identity free),
      ground arith,
    )
  ]
