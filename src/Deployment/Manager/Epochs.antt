-- ===== src/Deployment/Manager/Epochs.antt =====
-- The steps seen from an epoch that they do not name, and from the caller that waits for an answer.
use mathlib.Core.Path.{subst}
use jetsonfabric.Base.{◌≡◌, ◌≢◌, refl, Bool, String}
use jetsonfabric.Deployment.{DeploymentIdentity}
use jetsonfabric.Deployment.Manager.{DeploymentKey, Manager, key_for, resident_at}
use jetsonfabric.Deployment.Manager.Invariant.{
  Inv, Ends, of_Ends, activate-Inv, drain-Inv, unload-Inv,
}
use jetsonfabric.Deployment.Manager.Isolation.{activate_others, drain_others, unload_others}
use jetsonfabric.Deployment.Manager.Load.{PendingLoad, BuildOutcome, begin_load, finish_load}
use jetsonfabric.Deployment.Manager.LoadCases.{begin_rule}
use jetsonfabric.Deployment.Manager.Loading.{finish-Inv}
use jetsonfabric.Deployment.Manager.Operations.{
  activate_resident_deployment, drain_resident_deployment, unload_resident_deployment,
}
use jetsonfabric.Deployment.Manager.Pending.{IsPending}
use jetsonfabric.Deployment.Manager.Steps.{resident_at-insert_ne, finish_others}
use jetsonfabric.Deployment.Manager.System.{
  System, Step, activates, drains, unloads, begins, finishes, IsSound, Takes-IsPending,
}
use jetsonfabric.Pipeline.Assignment.{StageAssignment}

-- The key of the epoch that a step names.
abbrev pub step_key : {E : Type 0} {s t : System E} → Step s t → DeploymentKey
step_key (activates i r e l) = key_for i
step_key (drains i r e l) = key_for i
step_key (unloads i r e l) = key_for i
step_key (begins b n i a p e l) = key_for i
step_key (finishes p outcome r takes e) = key_for p.identity

begin_others :
    {E : Type 0} (m : Manager E) (v : Inv m) (k : DeploymentKey) (has_builder : Bool)
    (node_name : String) (i : DeploymentIdentity) (assignment : StageAssignment)
    → key_for i ≢ k
    → resident_at k (begin_load has_builder node_name i assignment m).0 ≡ resident_at k m
begin_others m v k has_builder node_name i assignment off =
    begin_rule (λ x. resident_at k x.0 ≡ resident_at k m) m node_name i assignment (λ r bad. refl)
      (λ absent. resident_at-insert_ne m v i absent k off) has_builder

-- From a sound state, a step leaves every epoch whose key it does not name exactly as it was: its
-- object, its state and its stage worker.
pub Step-others :
    {E : Type 0} {s t : System E} (k : DeploymentKey)
    → IsSound s
    → (st : Step s t) → step_key st ≢ k
    → resident_at k t.manager ≡ resident_at k s.manager
Step-others {s} k v (activates i r e l) off =
    of_Ends _ _ _ r e (activate_others s.manager v.inv i k off)
Step-others {s} k v (drains i r e l) off = of_Ends _ _ _ r e (drain_others s.manager v.inv i k off)
Step-others {s} k v (unloads i r e l) off =
    of_Ends _ _ _ r e (unload_others s.manager v.inv i k off)
Step-others {s} k v (begins b n i a p e l) off =
    subst (λ x. resident_at k x.0 ≡ resident_at k s.manager) e
      (begin_others s.manager v.inv k b n i a off)
Step-others {s} k v (finishes p outcome r takes e) off =
    of_Ends _ _ _ r e
      (finish_others s.manager v.inv p (Takes-IsPending s.manager takes v.pending) outcome k off)

-- In a sound state every operation, and the end of every load that is pending, returns, so the
-- std::logic_error of an invalid transition is never thrown, and the new state is well formed.
pub never_throws :
    {E : Type 0} (s : System E) (i : DeploymentIdentity) (p : PendingLoad)
    (outcome : BuildOutcome E)
    → IsSound s
    → IsPending p s.manager
    → Ends (λ n r. Inv n) (activate_resident_deployment i s.manager)
      × Ends (λ n r. Inv n) (drain_resident_deployment i s.manager)
      × Ends (λ n r. Inv n) (unload_resident_deployment i s.manager)
      × Ends (λ n r. Inv n) (finish_load p outcome s.manager)
never_throws s i p outcome v q = (
  activate-Inv s.manager v.inv i,
  drain-Inv s.manager v.inv i,
  unload-Inv s.manager v.inv i,
  finish-Inv s.manager v.inv p q outcome,
)
