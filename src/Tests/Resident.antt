-- ===== src/Tests/Resident.antt =====
-- The deployment manager at concrete inputs; an executor is a number.
mod Requests
mod Service
use jetsonfabric.Base.{
  ℕ_discrete, ap, ℕ, ◌≡◌, ◌≢◌, refl, true, false, Option, none, some, String, [], ◌∷◌, pos, arith,
  string_discrete,
}
use jetsonfabric.Deployment.{
  ResidentDeploymentState.active, ResidentDeploymentState.draining, DeploymentIdentity,
  DeploymentOperationResult, identity_discrete, state_discrete,
  is_valid_resident_deployment_transition,
}
use jetsonfabric.Deployment.Manager.{
  Manager, ResidentDeployment, InferenceEngineParts, empty, key_for, key_discrete, find_key,
  emplace, erase, key_lt, last_key, find_exact, resident_at, update, is_executable,
  executable_deployment_identity, active_deployment_identity, select_preferred_after_erase,
  last_executable,
}
use jetsonfabric.Deployment.Manager.Load.{
  PendingLoad, built, throws_exception, begin_load, begin_managed, finish_load, finish_found,
  install, fail_load, is_canceled, insert_loading, loading_deployment,
}
use jetsonfabric.Deployment.Manager.Operations.{
  activate_resident_deployment, activate_found, drain_resident_deployment, drain_found,
  unload_resident_deployment, unload_found, drop_entry, operation_success, operation_error,
  require_managed_identity, all_xdigits, transition, canceled_load,
}
use jetsonfabric.Deployment.Manager.System.{
  System, Step, begins, finishes, activates, here, start, next, IsSound,
}
use jetsonfabric.Deployment.Manager.Soundness.{idle, Reach-IsSound}
use jetsonfabric.Deployment.Manager.Steps.{Step-Lifecycle}
use jetsonfabric.Deployment.Manager.Lifecycle.{Lifecycle, state_of}
use jetsonfabric.Deployment.Manager.Invariant.{Inv, Ends}
use jetsonfabric.Deployment.Manager.Epochs.{Step-others, never_throws, step_key}
use jetsonfabric.Deployment.Manager.Effects.{
  activate_success, drain_keeps_executable, unload_success,
}
use jetsonfabric.Deployment.Manager.Pending.{IsPending}
use jetsonfabric.Pipeline.Assignment.{StageAssignment, validate_stage_assignment}

-- Whatever a run of the manager computes with.
manager_open : Unit {0}
unfolding ℕ_discrete string_discrete validate_stage_assignment require_managed_identity all_xdigits
    begin_load begin_managed resident_at find_key emplace erase key_lt last_key key_discrete empty
    insert_loading loading_deployment finish_load finish_found install fail_load is_canceled
    transition is_valid_resident_deployment_transition state_discrete identity_discrete update
    find_exact key_for activate_resident_deployment activate_found drain_resident_deployment
    drain_found unload_resident_deployment unload_found drop_entry select_preferred_after_erase
    last_executable is_executable operation_success operation_error canceled_load
manager_open = tt

abbrev digest : String
digest = "0123456789abcdef0123456789abcdef0123456789abcdef0123456789abcdef"

abbrev first : DeploymentIdentity
first = record { deployment_id = "prod"; epoch = 1; model_id = "qwen"; model_sha256 = digest }

abbrev whole : StageAssignment
whole = record { stage_index = pos 0; stage_count = pos 1; layer_start = pos 0; layer_end = pos 24 }

abbrev parts : InferenceEngineParts ℕ
parts = record { executor = some 7; model_residency = none; execution_assignment = none }

abbrev load_first : PendingLoad
load_first = record { address = 0; identity = first; node_name = "orin-0"; assignment = whole }

abbrev after : Option (Manager ℕ × DeploymentOperationResult) → Manager ℕ
after none = empty
after (some (m, r)) = m

abbrev loading_first : Manager ℕ
loading_first = insert_loading first empty

abbrev ready_first : Manager ℕ
ready_first = after (finish_load load_first (built parts) loading_first)

abbrev active_first : Manager ℕ
active_first = after (activate_resident_deployment first ready_first)

abbrev alone : Manager ℕ → System ℕ
alone m = record { manager = m; loads = [] }

abbrev loading : System ℕ
loading = record { manager = loading_first; loads = load_first ∷ [] }

begins_first : Step (idle ℕ) loading
unfolding manager_open
begins_first = begins true "orin-0" first whole load_first refl refl

finishes_first : Step loading (alone ready_first)
unfolding manager_open
finishes_first = finishes load_first (built parts) _ (here []) refl

activates_first : Step (alone ready_first) (alone active_first)
unfolding manager_open
activates_first = activates first _ refl refl

Reach-IsSound_example : IsSound (alone active_first)
Reach-IsSound_example =
    Reach-IsSound (next (next (next start begins_first) finishes_first) activates_first)

IsSound-ready : IsSound (alone ready_first)
IsSound-ready = Reach-IsSound (next (next start begins_first) finishes_first)

IsSound-active : IsSound (alone active_first)
IsSound-active =
    Reach-IsSound (next (next (next start begins_first) finishes_first) activates_first)

IsSound-loading : IsSound loading
IsSound-loading = Reach-IsSound (next start begins_first)

Step-Lifecycle_example :
    Lifecycle (state_of ("prod", 1) ready_first) (state_of ("prod", 1) active_first)
Step-Lifecycle_example = Step-Lifecycle ("prod", 1) IsSound-ready activates_first

key_of_activation : step_key activates_first ≢ ("prod", 2)
unfolding activates_first key_for
key_of_activation e = absurd (omega (arith, ap (λ k. k.1) e))

Step-others_example : resident_at ("prod", 2) active_first ≡ resident_at ("prod", 2) ready_first
Step-others_example = Step-others ("prod", 2) IsSound-ready activates_first key_of_activation

abbrev canceled_object : ResidentDeployment ℕ
canceled_object = record (loading_deployment first) { cancel_requested = true }

abbrev canceled_first : Manager ℕ
canceled_first = after (unload_resident_deployment first loading_first)

still_pending : IsPending load_first canceled_first
unfolding manager_open
still_pending = (canceled_object, refl, refl, refl)

pending_first : IsPending load_first loading_first
unfolding manager_open
pending_first = (loading_deployment first, refl, refl, refl)

never_throws_example :
    Ends (λ n r. Inv n) (activate_resident_deployment first loading_first)
    × Ends (λ n r. Inv n) (drain_resident_deployment first loading_first)
    × Ends (λ n r. Inv n) (unload_resident_deployment first loading_first)
    × Ends (λ n r. Inv n) (finish_load load_first (throws_exception "no CUDA device") loading_first)
never_throws_example =
    never_throws loading first load_first (throws_exception "no CUDA device") IsSound-loading
      pending_first

activated :
    activate_resident_deployment first ready_first
    ≡ some (active_first, operation_success "200 OK" first (some active))
unfolding manager_open
activated = refl

success_ok : (operation_success "200 OK" first (some active)).ok ≡ true
unfolding operation_success
success_ok = refl

activate_success_example :
    (executable_deployment_identity first active_first ≡ some first)
    × (active_deployment_identity active_first ≡ some first)
activate_success_example =
    activate_success ready_first active_first first _ IsSound-ready.inv activated success_ok

abbrev draining_first : Manager ℕ
draining_first = after (drain_resident_deployment first active_first)

drained :
    drain_resident_deployment first active_first
    ≡ some (draining_first, operation_success "200 OK" first (some draining))
unfolding manager_open
drained = refl

drain_keeps_executable_example :
    executable_deployment_identity first draining_first
    ≡ executable_deployment_identity first active_first
drain_keeps_executable_example =
    drain_keeps_executable active_first draining_first first _ IsSound-active.inv drained first

abbrev unloaded_first : Manager ℕ
unloaded_first = after (unload_resident_deployment first ready_first)

unloaded :
    unload_resident_deployment first ready_first
    ≡ some (unloaded_first, operation_success "200 OK" first none)
unfolding manager_open
unloaded = refl

gone_ok : (operation_success "200 OK" first none).ok ≡ true
unfolding operation_success
gone_ok = refl

unload_success_example : find_exact first unloaded_first ≡ none
unload_success_example =
    unload_success ready_first unloaded_first first _ IsSound-ready.inv unloaded gone_ok

abbrev refusal : DeploymentOperationResult
refusal =
    operation_error "409 Conflict" "deployment_not_draining"
      "active deployment must enter draining state before unload" (some first) (some active)

abbrev active_object : ResidentDeployment ℕ
active_object = record {
  identity = first;
  state = active;
  cancel_requested = false;
  model_residency = none;
  execution =
      some (record { node_name = "orin-0"; model_id = "qwen"; assignment = whole; executor = 7 });
}
