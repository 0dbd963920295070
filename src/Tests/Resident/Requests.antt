-- ===== src/Tests/Resident/Requests.antt =====
-- Stage requests to a managed epoch and to the deployment of the command line.
use jetsonfabric.Base.{
  inr, inl, ◌⊎◌, string_discrete, ◌≡◌, ◌≢◌, ◌↔◌, refl, true, false, some, String, ℕ,
}
use jetsonfabric.Deployment.{DeploymentIdentity}
use jetsonfabric.Deployment.Manager.{
  has_active_deployment, Manager, ResidentDeployment, ResidentExecution, preferred_deployment,
  executable_deployment_identity, empty,
}
use jetsonfabric.Deployment.Manager.Load.{insert_active}
use jetsonfabric.Deployment.Manager.Operations.{require_identity}
use jetsonfabric.Deployment.Manager.Routing.{
  runs_on, faults, route, worker_of, deployment_for, is_managed, expected_identity,
  validate_stage_deployment, stage_success,
}
use jetsonfabric.Deployment.Manager.Admission.{route-ne-faults, route_managed, route_unmanaged}
use jetsonfabric.Protocol.Message.{StageRequest, default_request}
use jetsonfabric.Tests.Resident.{manager_open, digest, active_first, parts, whole}

abbrev to_first : StageRequest
to_first = record default_request {
  deployment_id = "prod";
  deployment_epoch = 1;
  model_id = "qwen";
  model_sha256 = digest;
}

names_first : is_managed to_first ≡ true
unfolding is_managed string_discrete
names_first = refl

route_managed_example : ((x : ResidentExecution ℕ) × (route to_first active_first ≡ runs_on x)) ↔ (
    executable_deployment_identity (expected_identity to_first) active_first
    ≡ some (expected_identity to_first))
route_managed_example = route_managed to_first active_first names_first

route-ne-faults_example : route to_first active_first ≢ faults
route-ne-faults_example = route-ne-faults to_first active_first

abbrev local : DeploymentIdentity
local = record { deployment_id = "qwen"; epoch = 0; model_id = "qwen"; model_sha256 = "" }

abbrev inserted : String ⊎ Manager ℕ → Manager ℕ
inserted (inl message) = empty
inserted (inr m) = m

abbrev local_manager : Manager ℕ
local_manager = inserted (insert_active "orin-0" local whole parts empty)

abbrev local_worker : ResidentExecution ℕ
local_worker = record { node_name = "orin-0"; model_id = "qwen"; assignment = whole; executor = 7 }

local_runs :
    (is_managed default_request ≡ false)
    × (route default_request local_manager ≡ runs_on local_worker)
unfolding manager_open is_managed insert_active require_identity route worker_of deployment_for
    validate_stage_deployment stage_success preferred_deployment has_active_deployment
local_runs = (refl, refl)

route_unmanaged_example :
    (d : ResidentDeployment ℕ) × (preferred_deployment local_manager ≡ some d)
    × (d.identity.epoch ≡ 0)
    × (d.execution ≡ some local_worker)
route_unmanaged_example =
    route_unmanaged default_request local_manager local_worker local_runs.0 local_runs.1
