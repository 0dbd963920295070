-- ===== src/Deployment/Manager/Effects.antt =====
-- What the operations of model_manager.cpp do for the epoch that they name.
use mathlib.Core.Path.{subst}
use jetsonfabric.Base.{ℕ, ◌≡◌, refl, sym, ap, ◌∙◌, true, false, Option, none, some, arith, is_some}
use jetsonfabric.Deployment.{
  DeploymentIdentity, DeploymentOperationResult, ResidentDeploymentState,
  ResidentDeploymentState.active, ResidentDeploymentState.draining, state_discrete,
}
use jetsonfabric.Deployment.Manager.{
  DeploymentKey, ResidentDeployment, Manager, key_for, key_discrete, find_key, resident_at,
  find_exact, update, is_executable, executable_deployment_identity, active_deployment_identity,
  preferred_deployment,
}
use jetsonfabric.Deployment.Manager.Cases.{
  activate_rule, drain_rule, unload_rule, activate_cases, drain_cases, unload_cases,
}
use jetsonfabric.Deployment.Manager.Invariant.{of_Ends, Inv, Ends, Entry-Fits}
use jetsonfabric.Deployment.Manager.Lookup.{
  resident_at-eq_some, resident_at-update_self, resident_at-update_ne, resident_at-drop_self,
}
use jetsonfabric.Deployment.Manager.Map.{find_exact-some}
use jetsonfabric.Deployment.Manager.Operations.{
  operation_error, deployment_not_found, activate_resident_deployment, drain_resident_deployment,
  unload_resident_deployment, drop_entry, operation_success,
}

module _ {E : Type 0} where
  running :
      (d : ResidentDeployment E)
      → d.state ≡ active
      → is_some d.execution ≡ true
      → is_executable d ≡ true
  unfolding is_executable state_discrete
  running d s x = ground arith

  draining_running :
      (d : ResidentDeployment E)
      → d.state ≡ draining
      → is_some d.execution ≡ true
      → is_executable d ≡ true
  unfolding is_executable state_discrete
  draining_running d s x = ground arith

  -- Both views of an epoch, from the lookup by its key.
  executable-resident_at :
      (i : DeploymentIdentity) (m : Manager E) (a : ℕ) (d : ResidentDeployment E)
      → resident_at (key_for i) m ≡ some (a, d)
      → d.identity ≡ i
      → is_executable d ≡ true
      → executable_deployment_identity i m ≡ some i
  unfolding executable_deployment_identity find_exact
  executable-resident_at i m a d h same x = ground arith

  active-resident_at :
      (i : DeploymentIdentity) (m : Manager E) (a : ℕ) (d : ResidentDeployment E)
      → m.preferred ≡ some (key_for i)
      → resident_at (key_for i) m ≡ some (a, d)
      → d.identity ≡ i
      → is_executable d ≡ true
      → active_deployment_identity m ≡ some i
  unfolding active_deployment_identity preferred_deployment
  active-resident_at i m a d p h same x = ground arith

module _ {E : Type 0} (m : Manager E) (v : Inv m) (i : DeploymentIdentity) where
  key_entry :
      (a : ℕ) (d : ResidentDeployment E)
      → find_exact i m ≡ some (a, d)
      → find_key (key_for d.identity) m.deployments ≡ some a
  key_entry a d h =
      let (mine, there, same) = find_exact-some i m a d h in
      ap (λ j. find_key (key_for j) m.deployments) same ∙ mine

  abbrev Serves : Manager E → DeploymentOperationResult → Type 0
  Serves n r =
      r.ok ≡ true
      → (executable_deployment_identity i n ≡ some i) × (active_deployment_identity n ≡ some i)

  serve :
      (n : Manager E) (a : ℕ) (d : ResidentDeployment E)
      → d.identity ≡ i
      → resident_at (key_for i) n ≡ some (a, d)
      → n.preferred ≡ some (key_for d.identity)
      → is_executable d ≡ true
      → (executable_deployment_identity i n ≡ some i) × (active_deployment_identity n ≡ some i)
  serve n a d same h p x = (
    executable-resident_at i n a d h same x,
    active-resident_at i n a d (p ∙ ap some (ap key_for same)) h same x,
  )

  prefer-resident_at :
      (n : Manager E) (o : Option DeploymentKey) (k : DeploymentKey)
      → resident_at k (record n { preferred = o }) ≡ resident_at k n
  unfolding resident_at
  prefer-resident_at n o k = refl

  activate_serves :
      Ends
        (λ n r.
          r.ok ≡ true
          → (executable_deployment_identity i n ≡ some i) × (active_deployment_identity n ≡ some i))
        (activate_resident_deployment i m)
  unfolding deployment_not_found operation_error
  activate_serves =
      activate_rule (Ends Serves) m i (λ r bad good. absurd (cc)) (λ gone good. absurd (cc))
        λ a d h.
          let (mine, there, same) = find_exact-some i m a d h in
          let (key, fit) = Entry-Fits m v a d there (key_for i) mine in
          activate_cases (Ends Serves) m a d (λ r bad good. absurd (cc))
            (λ act good.
              serve (record m { preferred = some (key_for d.identity) }) a d same
                (prefer-resident_at m _ _ ∙ resident_at-eq_some (key_for i) m a d mine there) refl
                (running d act (fit.active_runs act)))
            (λ rdy runs good.
              serve
                (record (update a (record d { state = active }) m) {
                  preferred = some (key_for d.identity);
                })
                a (record d { state = active }) same
                (prefer-resident_at (update a (record d { state = active }) m) _ _
                  ∙ resident_at-update_self m v a d there (record d { state = active }) (key_for i)
                      mine)
                refl (running (record d { state = active }) refl runs))

  -- What a drain does to the lookup of a key: at most active becomes draining.
  abbrev SameService : Manager E → DeploymentOperationResult → Type 0
  SameService n r =
      (j : DeploymentIdentity)
      → executable_deployment_identity j n ≡ executable_deployment_identity j m

  executable_by_lookup :
      (j : DeploymentIdentity) (n : Manager E)
      → resident_at (key_for j) n ≡ resident_at (key_for j) m
      → executable_deployment_identity j n ≡ executable_deployment_identity j m
  unfolding executable_deployment_identity find_exact
  executable_by_lookup j n h = ground arith

  executable_by_object :
      (j : DeploymentIdentity) (n : Manager E) (a : ℕ) (d d' : ResidentDeployment E)
      → resident_at (key_for j) m ≡ some (a, d)
      → resident_at (key_for j) n ≡ some (a, d')
      → d'.identity ≡ d.identity
      → is_executable d' ≡ is_executable d
      → executable_deployment_identity j n ≡ executable_deployment_identity j m
  unfolding executable_deployment_identity find_exact
  executable_by_object j n a d d' h h' same x = ground arith

  drain_keeps_service :
      Ends
        (λ n r.
          (j : DeploymentIdentity)
          → executable_deployment_identity j n ≡ executable_deployment_identity j m)
        (drain_resident_deployment i m)
  drain_keeps_service =
      drain_rule (Ends SameService) m i (λ r bad j. refl) (λ gone j. refl)
        λ a d h.
          let (mine, there, same) = find_exact-some i m a d h in
          let (key, fit) = Entry-Fits m v a d there (key_for i) mine in
          drain_cases (Ends SameService) m a d (λ r j. refl)
            λ act j.
              let d' : ResidentDeployment E = record d { state = draining } in
              elim (key_discrete (key_for d.identity) (key_for j)) [
                | yes p ↦
                    let at_j : find_key (key_for j) m.deployments ≡ some a =
                      ap (λ k. find_key k m.deployments) (sym p) ∙ key_entry a d h in
                    executable_by_object j _ a d d'
                      (resident_at-eq_some (key_for j) m a d at_j there)
                      (resident_at-update_self m v a d there d' (key_for j) at_j) refl
                      (draining_running d' refl (fit.active_runs act)
                        ∙ sym (running d act (fit.active_runs act)))
                | no n ↦
                    executable_by_lookup j _ (resident_at-update_ne m v a d there d' (key_for j) n)
              ]

  find_exact-drop :
      (n : Manager E) → (e : DeploymentIdentity) → e ≡ i → find_exact i (drop_entry e n) ≡ none
  unfolding find_exact
  find_exact-drop n e same =
      subst (λ x. find_exact i (drop_entry x n) ≡ none) (sym same)
        (ground (arith, resident_at-drop_self i n))

  unload_removes :
      Ends
        (λ n r. (r.ok ≡ true → find_exact i n ≡ none) × (r.ok ≡ false → n ≡ m))
        (unload_resident_deployment i m)
  unfolding operation_success
  unload_removes =
      unload_rule (Ends Removed) m i (λ r bad. (λ good. absurd (cc), λ _. refl))
        (λ gone. (λ good. gone, λ bad. refl))
        λ a d h.
          let (mine, there, same) = find_exact-some i m a d h in
          unload_cases (Ends Removed) m a d (λ r bad. (λ good. absurd (cc), λ _. refl))
            (λ load. (λ good. find_exact-drop _ _ same, λ bad. absurd (cc)))
            (λ idle quiet. (λ good. find_exact-drop _ _ same, λ bad. absurd (cc)))
    where
      Removed : Manager E → DeploymentOperationResult → Type 0
      Removed n r = (r.ok ≡ true → find_exact i n ≡ none) × (r.ok ≡ false → n ≡ m)

module _ {E : Type 0} (m n : Manager E) (i : DeploymentIdentity) (r : DeploymentOperationResult)
    (v : Inv m) where
  -- Where activating in a well-formed state reports success, the epoch is executable and is the
  -- active one.
  pub activate_success :
      activate_resident_deployment i m ≡ some (n, r)
      → r.ok ≡ true
      → (executable_deployment_identity i n ≡ some i) × (active_deployment_identity n ≡ some i)
  activate_success e good = of_Ends _ _ n r e (activate_serves m v i) good

  -- A drain in a well-formed state leaves the set of executable epochs as it was, whatever epoch
  -- it names.
  pub drain_keeps_executable :
      drain_resident_deployment i m ≡ some (n, r)
      → (j : DeploymentIdentity)
      → executable_deployment_identity j n ≡ executable_deployment_identity j m
  drain_keeps_executable e = of_Ends _ _ n r e (drain_keeps_service m v i)

  -- Where an unload in a well-formed state reports success, the epoch is no longer resident.
  pub unload_success :
      unload_resident_deployment i m ≡ some (n, r) → r.ok ≡ true → find_exact i n ≡ none
  unload_success e good = (of_Ends _ _ n r e (unload_removes m v i)).0 good
