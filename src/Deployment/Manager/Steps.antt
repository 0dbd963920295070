-- ===== src/Deployment/Manager/Steps.antt =====
-- What each step of the concurrent system does to the epoch of a key, loads included.
use mathlib.Core.Path.{subst}
use jetsonfabric.Base.{
  ℕ, ◌≡◌, ◌≢◌, refl, sym, ap, ◌∙◌, Bool, false, Option, none, some, String, length, arith,
}
use jetsonfabric.Deployment.{
  DeploymentIdentity, ResidentDeploymentState.failed, is_valid_resident_deployment_transition,
}
use jetsonfabric.Deployment.Manager.{
  DeploymentKey, ResidentDeployment, Manager, key_for, key_discrete, find_key, resident_at, update,
}
use jetsonfabric.Deployment.Manager.Invariant.{of_Ends, Inv, Ends}
use jetsonfabric.Deployment.Manager.Lifecycle.{
  state_of, Lifecycle, stays, moves, update-Lifecycle, activate-Lifecycle, drain-Lifecycle,
  unload-Lifecycle,
}
use jetsonfabric.Deployment.Manager.Load.{
  PendingLoad, BuildOutcome, begin_load, finish_load, insert_loading, loading_deployment,
  is_canceled,
}
use jetsonfabric.Deployment.Manager.LoadCases.{begin_rule, finish_rule}
use jetsonfabric.Deployment.Manager.Loading.{
  find_key_of_absent, get_elem?-insert_old, get_elem?-insert_new, not_canceled,
}
use jetsonfabric.Deployment.Manager.Lookup.{resident_at-eq_some, resident_at-update_ne}
use jetsonfabric.Deployment.Manager.Map.{find_key-emplace_self, find_key-emplace_ne}
use jetsonfabric.Deployment.Manager.Pending.{IsPending}
use jetsonfabric.Deployment.Manager.System.{
  System, Step, activates, drains, unloads, begins, finishes, IsSound, Takes-IsPending,
}
use jetsonfabric.Pipeline.Assignment.{StageAssignment}

module _ {E : Type 0} (m : Manager E) (v : Inv m) (i : DeploymentIdentity)
    (absent : resident_at (key_for i) m ≡ none) where
  new_entry : find_key (key_for i) (insert_loading i m).deployments ≡ some (length m.objects)
  unfolding insert_loading
  new_entry =
      find_key-emplace_self (key_for i) (key_for i) (length m.objects) m.deployments
        (find_key_of_absent (key_for i) m v absent) refl

  old_entry :
      (k : DeploymentKey)
      → key_for i ≢ k
      → find_key k (insert_loading i m).deployments ≡ find_key k m.deployments
  unfolding insert_loading
  old_entry k n =
      find_key-emplace_ne (key_for i) k (length m.objects) m.deployments
        (find_key_of_absent (key_for i) m v absent) n

  pub resident_at-insert_self :
      resident_at (key_for i) (insert_loading i m) ≡ some (length m.objects, loading_deployment i)
  resident_at-insert_self =
      resident_at-eq_some (key_for i) (insert_loading i m) (length m.objects) (loading_deployment i)
        new_entry (get_elem?-insert_new i m)

  resident_at-insert_from :
      (k : DeploymentKey)
      → key_for i ≢ k
      → (o : Option ℕ) → find_key k m.deployments ≡ o
      → resident_at k (insert_loading i m) ≡ resident_at k m
  unfolding resident_at
  resident_at-insert_from k n none e = ground (arith, old_entry k n)
  resident_at-insert_from k n (some a) e =
      let x = v.entries k a e in
      resident_at-eq_some k (insert_loading i m) a x.0 (old_entry k n ∙ e)
        (get_elem?-insert_old i m a x.0 x.1)
      ∙ sym (resident_at-eq_some k m a x.0 e x.1)

  -- A load that starts leaves every other key as it was.
  pub resident_at-insert_ne :
      (k : DeploymentKey) → key_for i ≢ k → resident_at k (insert_loading i m) ≡ resident_at k m
  resident_at-insert_ne k n = resident_at-insert_from k n (find_key k m.deployments) refl

  insert-Lifecycle :
      (k : DeploymentKey) → Lifecycle (state_of k m) (state_of k (insert_loading i m))
  unfolding is_valid_resident_deployment_transition loading_deployment
  insert-Lifecycle k = elim (key_discrete (key_for i) k) [
    | yes p ↦
        subst (λ j. Lifecycle (state_of j m) (state_of j (insert_loading i m))) p
          (moves (rw (absent, resident_at-insert_self)))
    | no n ↦ stays (rw (resident_at-insert_ne k n))
  ]

module _ {E : Type 0} (m : Manager E) (v : Inv m) (p : PendingLoad) (q : IsPending p m)
    (outcome : BuildOutcome E) where
  entry_of_live :
      is_canceled p (q.0) m ≡ false
      → find_key (key_for (q.0).identity) m.deployments ≡ some p.address
  entry_of_live live =
      ap (λ j. find_key (key_for j) m.deployments) q.3 ∙ (not_canceled p (q.0) m live).0

  finish-Lifecycle :
      (k : DeploymentKey)
      → Ends (λ n r. Lifecycle (state_of k m) (state_of k n)) (finish_load p outcome m)
  unfolding finish_load is_valid_resident_deployment_transition
  finish-Lifecycle k =
      rw (q.1, finish_load)
        (finish_rule (Ends (λ n r. Lifecycle (state_of k m) (state_of k n))) m p q.0 q.2
          (λ c. stays refl)
          (λ r live bad.
            update-Lifecycle m v p.address q.0 q.1 (entry_of_live live) k
              (record (q.0) { state = failed }) (moves (rw (q.2))))
          (λ d' live rdy runs same held.
            update-Lifecycle m v p.address q.0 q.1 (entry_of_live live) k d'
              (moves (rw (q.2, rdy))))
          outcome)

  pub finish_others :
      (k : DeploymentKey)
      → key_for p.identity ≢ k
      → Ends (λ n r. resident_at k n ≡ resident_at k m) (finish_load p outcome m)
  unfolding finish_load
  finish_others k off =
      rw (q.1, finish_load)
        (finish_rule (Ends (λ n r. resident_at k n ≡ resident_at k m)) m p q.0 q.2 (λ c. refl)
          (λ r live bad. away _) (λ d' live rdy runs same held. away d') outcome)
    where
      away : (d' : ResidentDeployment E) → resident_at k (update p.address d' m) ≡ resident_at k m
      away d' =
          resident_at-update_ne m v p.address q.0 q.1 d' k (λ e. off (ap key_for (sym q.3) ∙ e))

begin-Lifecycle :
    {E : Type 0} (m : Manager E) (v : Inv m) (k : DeploymentKey) (has_builder : Bool)
    (node_name : String) (i : DeploymentIdentity) (assignment : StageAssignment)
    → Lifecycle (state_of k m) (state_of k (begin_load has_builder node_name i assignment m).0)
begin-Lifecycle m v k has_builder node_name i assignment =
    begin_rule (λ x. Lifecycle (state_of k m) (state_of k x.0)) m node_name i assignment
      (λ r bad. stays refl) (λ absent. insert-Lifecycle m v i absent k) has_builder

-- From a sound state each step leaves the state of an epoch as it is, changes it by one transition
-- of the table or by the two of an unload, or takes away an epoch that is loading.
pub Step-Lifecycle :
    {E : Type 0} {s t : System E} (k : DeploymentKey)
    → IsSound s
    → Step s t
    → Lifecycle (state_of k s.manager) (state_of k t.manager)
Step-Lifecycle {s} k v (activates i r e l) =
    of_Ends _ _ _ r e (activate-Lifecycle s.manager v.inv i k)
Step-Lifecycle {s} k v (drains i r e l) = of_Ends _ _ _ r e (drain-Lifecycle s.manager v.inv i k)
Step-Lifecycle {s} k v (unloads i r e l) = of_Ends _ _ _ r e (unload-Lifecycle s.manager v.inv i k)
Step-Lifecycle {s} k v (begins b n i a p e l) =
    subst (λ x. Lifecycle (state_of k s.manager) (state_of k x.0)) e
      (begin-Lifecycle s.manager v.inv k b n i a)
Step-Lifecycle {s} k v (finishes p outcome r takes e) =
    of_Ends _ _ _ r e
      (finish-Lifecycle s.manager v.inv p (Takes-IsPending s.manager takes v.pending) outcome k)
