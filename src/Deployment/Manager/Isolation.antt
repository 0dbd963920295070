-- ===== src/Deployment/Manager/Isolation.antt =====
-- An operation on one deployment identity, seen from the other resident epochs.
use jetsonfabric.Base.{Option, ℕ, ◌≡◌, ◌≢◌, refl, sym, ap, ◌∙◌, some}
use jetsonfabric.Deployment.{DeploymentOperationResult, DeploymentIdentity}
use jetsonfabric.Deployment.Manager.{
  update, DeploymentKey, ResidentDeployment, Manager, key_for, resident_at, find_exact,
}
use jetsonfabric.Deployment.Manager.Cases.{
  activate_rule, drain_rule, unload_rule, activate_cases, drain_cases, unload_cases,
}
use jetsonfabric.Deployment.Manager.Invariant.{Inv, Ends}
use jetsonfabric.Deployment.Manager.Lookup.{resident_at-update_ne, resident_at-drop_ne}
use jetsonfabric.Deployment.Manager.Map.{find_exact-some}
use jetsonfabric.Deployment.Manager.Operations.{
  activate_resident_deployment, drain_resident_deployment, unload_resident_deployment,
}

module _ {E : Type 0} (m : Manager E) (v : Inv m) (i : DeploymentIdentity) (k : DeploymentKey)
    (off : key_for i ≢ k) where
  abbrev Untouched : Option (Manager E × DeploymentOperationResult) → Type 0
  Untouched = Ends (λ n r. resident_at k n ≡ resident_at k m)

  not_mine :
      (a : ℕ) (d : ResidentDeployment E) → find_exact i m ≡ some (a, d) → key_for d.identity ≢ k
  not_mine a d h e = off (ap key_for (sym (find_exact-some i m a d h).2) ∙ e)

  write :
      (a : ℕ) (d d' : ResidentDeployment E)
      → find_exact i m ≡ some (a, d)
      → resident_at k (update a d' m) ≡ resident_at k m
  write a d d' h = resident_at-update_ne m v a d (find_exact-some i m a d h).1 d' k (not_mine a d h)

  prefer :
      (n : Manager E) (j : DeploymentKey)
      → resident_at k (record n { preferred = some j }) ≡ resident_at k n
  unfolding resident_at
  prefer n j = refl

  -- Activating one epoch leaves the lookup of every other key as it was.
  pub activate_others :
      Ends (λ n r. resident_at k n ≡ resident_at k m) (activate_resident_deployment i m)
  activate_others =
      activate_rule Untouched m i (λ r bad. refl) (λ gone. refl)
        λ a d h.
          activate_cases Untouched m a d (λ r bad. refl) (λ act. prefer m _)
            (λ rdy runs. prefer _ _ ∙ write a d _ h)

  pub drain_others : Ends (λ n r. resident_at k n ≡ resident_at k m) (drain_resident_deployment i m)
  drain_others =
      drain_rule Untouched m i (λ r bad. refl) (λ gone. refl)
        λ a d h. drain_cases Untouched m a d (λ r. refl) (λ act. write a d _ h)

  pub unload_others :
      Ends (λ n r. resident_at k n ≡ resident_at k m) (unload_resident_deployment i m)
  unload_others =
      unload_rule Untouched m i (λ r bad. refl) (λ gone. refl)
        λ a d h.
          unload_cases Untouched m a d (λ r bad. refl)
            (λ load. resident_at-drop_ne d.identity k _ (not_mine a d h) ∙ write a d _ h)
            (λ idle quiet. resident_at-drop_ne d.identity k _ (not_mine a d h) ∙ write a d _ h)
