-- ===== src/Deployment/Manager/Routing.antt =====
-- Which resident deployment answers a stage request: `deployment_for`, `unavailable_for` and
-- `validate_stage_deployment` of model_manager.cpp, as `run_stage`, `close_session` and
-- `rollback_session` compose them before they call the stage worker.
use jetsonfabric.Base.{
  ◌&&◌, ◌||◌, Bool, true, not, Option, none, some, test, if◌then◌else◌, string_discrete, ℕ_discrete,
  ◌==◌,
}
use jetsonfabric.Deployment.{DeploymentIdentity}
use jetsonfabric.Deployment.Manager.{
  ResidentDeployment, ResidentExecution, Manager, find_exact, is_executable, preferred_deployment,
  has_active_deployment,
}
use jetsonfabric.Pipeline.Result.{StageRunResult, default_result}
use jetsonfabric.Protocol.Message.{StageRequest}

-- Whether a request names a deployment.
unfoldable pub is_managed : StageRequest → Bool
is_managed q =
    not (test (string_discrete q.deployment_id ""))
    || not (q.deployment_epoch == 0)
    || not (test (string_discrete q.model_sha256 ""))

unfoldable pub expected_identity : StageRequest → DeploymentIdentity
expected_identity q = record {
  deployment_id = q.deployment_id;
  epoch = q.deployment_epoch;
  model_id = q.model_id;
  model_sha256 = q.model_sha256;
}

unfoldable pub no_active_deployment : StageRunResult
no_active_deployment = record default_result {
  status = "503 Service Unavailable";
  error_code = "no_active_deployment";
  error_message = "runtime has no executable deployment for the request identity";
}

unfoldable pub unavailable_for : StageRequest → Bool → StageRunResult
unavailable_for q any_active =
    if not (is_managed q) || not any_active then no_active_deployment else record default_result {
      status = "409 Conflict";
      error_code = "deployment_mismatch";
      error_message = "stage request identity does not match a resident executable epoch";
    }

unfoldable pub stage_success : StageRunResult
stage_success = record default_result { ok = true }

unfoldable pub validate_stage_deployment : DeploymentIdentity → StageRequest → StageRunResult
validate_stage_deployment active q =
    if active.epoch == 0 && not (is_managed q)
    then stage_success
    else if test (string_discrete q.deployment_id active.deployment_id)
        && test (ℕ_discrete q.deployment_epoch active.epoch)
        && test (string_discrete q.model_id active.model_id)
        && test (string_discrete q.model_sha256 active.model_sha256)
    then stage_success
    else record default_result {
      status = "409 Conflict";
      error_code = "deployment_mismatch";
      error_message = "stage request deployment identity does not match the selected runtime epoch";
    }

-- A request is answered at once, or goes to a stage worker. `faults` is a null execution pointer.
pub data Routed (E : Type 0) : Type 0 where
  answered : StageRunResult → Routed E
  runs_on : ResidentExecution E → Routed E
  faults : Routed E

module _ {E : Type 0} where
  unfoldable pub deployment_for : StageRequest → Manager E → Option (ResidentDeployment E)
  deployment_for q m =
      if not (is_managed q)
      then elim (preferred_deployment m) [
        | none ↦ none
        | some d ↦ if is_executable d then some d else none
      ]
      else elim (find_exact (expected_identity q) m) [
        | none ↦ none
        | some (a, d) ↦ if is_executable d then some d else none
      ]

  unfoldable pub worker_of : ResidentDeployment E → Routed E
  worker_of d = elim d.execution [ none ↦ faults | some x ↦ runs_on x ]

  unfoldable pub route : StageRequest → Manager E → Routed E
  unfolding worker_of
  route q m = elim (deployment_for q m) [
    | none ↦ answered (unavailable_for q (has_active_deployment m))
    | some d ↦
        let mismatch = validate_stage_deployment d.identity q in
        if not mismatch.ok then answered mismatch else worker_of d
  ]

  -- `run_stage`, `close_session` and `rollback_session`, each with its method of the stage worker.
  unfoldable pub run_with :
      (ResidentExecution E → StageRequest → StageRunResult)
      → StageRunResult
      → StageRequest
      → Manager E
      → StageRunResult
  run_with method fault q m = elim (route q m) [
    | answered r ↦ r
    | runs_on x ↦ method x q
    | faults ↦ fault
  ]
