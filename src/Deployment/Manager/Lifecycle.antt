-- ===== src/Deployment/Manager/Lifecycle.antt =====
-- The states that a resident epoch goes through, seen by its key, against the transition table of
-- deployment.hpp.
use mathlib.Core.Path.{subst, subst₂}
use jetsonfabric.Base.{ℕ, ◌≡◌, ◌≢◌, refl, sym, ap, ◌∙◌, true, Option, none, some, get_elem?}
use jetsonfabric.Deployment.{
  DeploymentIdentity, DeploymentOperationResult, ResidentDeploymentState,
  ResidentDeploymentState.loading, ResidentDeploymentState.ready, ResidentDeploymentState.active,
  ResidentDeploymentState.draining, ResidentDeploymentState.unloading,
  ResidentDeploymentState.failed, is_valid_resident_deployment_transition,
}
use jetsonfabric.Deployment.Manager.{
  DeploymentKey, ResidentDeployment, Manager, key_for, key_discrete, find_key, resident_at,
  find_exact, update,
}
use jetsonfabric.Deployment.Manager.Cases.{
  activate_rule, drain_rule, unload_rule, activate_cases, drain_cases, unload_cases,
}
use jetsonfabric.Deployment.Manager.Invariant.{Entry-Fits, Inv, Ends}
use jetsonfabric.Deployment.Manager.Lookup.{
  resident_at-eq_some, resident_at-update_self, resident_at-update_ne, resident_at-drop_self,
  resident_at-drop_ne,
}
use jetsonfabric.Deployment.Manager.Map.{find_exact-some}
use jetsonfabric.Deployment.Manager.Operations.{
  activate_resident_deployment, drain_resident_deployment, unload_resident_deployment, drop_entry,
}

abbrev found_state :
    {E : Type 0} → Option (ℕ × ResidentDeployment E) → Option ResidentDeploymentState
found_state none = none
found_state (some (a, d)) = some d.state

-- The state of the epoch with this key; `none` where there is no such epoch.
abbrev pub state_of : {E : Type 0} → DeploymentKey → Manager E → Option ResidentDeploymentState
state_of k m = found_state (resident_at k m)

abbrev pub Valid : Option ResidentDeploymentState → Option ResidentDeploymentState → Type 0
Valid a b = is_valid_resident_deployment_transition a b ≡ true

-- One locked section changes a state not at all, by one transition of the table, by the two of an
-- unload, or it takes away a load that is under way, for which the table has no entry.
pub data Lifecycle (a b : Option ResidentDeploymentState) : Type 0 where
  stays : b ≡ a → Lifecycle a b
  moves : Valid a b → Lifecycle a b
  unloads : Valid a (some unloading) → Valid (some unloading) b → Lifecycle a b
  cancels : a ≡ some loading → b ≡ none → Lifecycle a b

module _ {E : Type 0} (m : Manager E) (v : Inv m) (a : ℕ) (d : ResidentDeployment E)
    (there : get_elem? m.objects a ≡ some d)
    (mine : find_key (key_for d.identity) m.deployments ≡ some a) (k : DeploymentKey) where
  state_before : key_for d.identity ≡ k → state_of k m ≡ some d.state
  state_before p =
      ap found_state
        (resident_at-eq_some k m a d (ap (λ j. find_key j m.deployments) (sym p) ∙ mine) there)

  pub update-Lifecycle :
      (d' : ResidentDeployment E)
      → Lifecycle (some d.state) (some d'.state)
      → Lifecycle (state_of k m) (state_of k (update a d' m))
  update-Lifecycle d' c = elim (key_discrete (key_for d.identity) k) [
    | yes p ↦
        subst₂ Lifecycle (sym (state_before p))
          (sym (
            ap found_state (
              resident_at-update_self m v a d there d' k
                (ap (λ j. find_key j m.deployments) (sym p) ∙ mine))))
          c
    | no n ↦ stays (ap found_state (resident_at-update_ne m v a d there d' k n))
  ]

  drop-Lifecycle :
      (d' : ResidentDeployment E)
      → Lifecycle (some d.state) none
      → Lifecycle (state_of k m) (state_of k (drop_entry d.identity (update a d' m)))
  drop-Lifecycle d' c = elim (key_discrete (key_for d.identity) k) [
    | yes p ↦
        subst₂ Lifecycle (sym (state_before p))
          (sym (
            ap found_state (
              ap (λ j. resident_at j (drop_entry d.identity (update a d' m))) (sym p)
              ∙ resident_at-drop_self d.identity (update a d' m))))
          c
    | no n ↦ stays (
        ap found_state (
          resident_at-drop_ne d.identity k (update a d' m) n
          ∙ resident_at-update_ne m v a d there d' k n))
  ]

prefer-resident_at :
    {E : Type 0} (n : Manager E) (o : Option DeploymentKey) (k : DeploymentKey)
    → resident_at k (record n { preferred = o }) ≡ resident_at k n
unfolding resident_at
prefer-resident_at n o k = refl

Valid-unload :
    (s : ResidentDeploymentState)
    → s ≢ loading
    → s ≢ active
    → s ≢ unloading
    → Valid (some s) (some unloading)
unfolding is_valid_resident_deployment_transition
Valid-unload loading p q r = absurd (p refl)
Valid-unload active p q r = absurd (q refl)
Valid-unload unloading p q r = absurd (r refl)
Valid-unload ready p q r = refl
Valid-unload draining p q r = refl
Valid-unload failed p q r = refl

module _ {E : Type 0} (m : Manager E) (v : Inv m) (i : DeploymentIdentity) (k : DeploymentKey) where
  abbrev Follows : Option (Manager E × DeploymentOperationResult) → Type 0
  Follows = Ends (λ n r. Lifecycle (state_of k m) (state_of k n))

  mine_of :
      (a : ℕ) (d : ResidentDeployment E)
      → find_exact i m ≡ some (a, d)
      → find_key (key_for d.identity) m.deployments ≡ some a
  mine_of a d h =
      let (mine, there, same) = find_exact-some i m a d h in
      ap (λ j. find_key (key_for j) m.deployments) same ∙ mine

  pub activate-Lifecycle :
      Ends (λ n r. Lifecycle (state_of k m) (state_of k n)) (activate_resident_deployment i m)
  unfolding is_valid_resident_deployment_transition
  activate-Lifecycle =
      activate_rule Follows m i (λ r bad. stays refl) (λ gone. stays refl)
        λ a d h.
          activate_cases Follows m a d (λ r bad. stays refl)
            (λ act. stays (ap found_state (prefer-resident_at m _ k)))
            (λ rdy runs.
              subst (λ x. Lifecycle (state_of k m) (found_state x)) (sym (prefer-resident_at _ _ k))
                (update-Lifecycle m v a d (find_exact-some i m a d h).1 (mine_of a d h) k
                  (record d { state = active }) (moves (rw rdy))))

  pub drain-Lifecycle :
      Ends (λ n r. Lifecycle (state_of k m) (state_of k n)) (drain_resident_deployment i m)
  unfolding is_valid_resident_deployment_transition
  drain-Lifecycle =
      drain_rule Follows m i (λ r bad. stays refl) (λ gone. stays refl)
        λ a d h.
          drain_cases Follows m a d (λ r. stays refl)
            (λ act.
              update-Lifecycle m v a d (find_exact-some i m a d h).1 (mine_of a d h) k
                (record d { state = draining }) (moves (rw act)))

  pub unload-Lifecycle :
      Ends (λ n r. Lifecycle (state_of k m) (state_of k n)) (unload_resident_deployment i m)
  unfolding is_valid_resident_deployment_transition
  unload-Lifecycle =
      unload_rule Follows m i (λ r bad. stays refl) (λ gone. stays refl)
        λ a d h.
          unload_cases Follows m a d (λ r bad. stays refl)
            (λ load.
              drop-Lifecycle m v a d (find_exact-some i m a d h).1 (mine_of a d h) k _
                (cancels (ap some load) refl))
            (λ idle quiet.
              drop-Lifecycle m v a d (find_exact-some i m a d h).1 (mine_of a d h) k _ (
                unloads
                  (Valid-unload d.state idle quiet
                    (Entry-Fits m v a d (find_exact-some i m a d h).1 _ (mine_of a d h)).1.settled)
                  refl))
