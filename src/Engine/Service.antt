-- ===== src/Engine/Service.antt =====
-- runtime/engine/generation_service.cpp and protocol/execution_mode.cpp: which generations a runtime
-- takes, and where the requests of one go. `W` is the state of the program's surroundings, the
-- manager among them; the calls of a stage worker and of the stage transport are arguments.
pub mod Admission
use jetsonfabric.Base.{
  ℕ, ◌+◌, ℤ, pos, ℤ-discrete, Bool, true, false, not, ◌&&◌, ◌||◌, Option, none, some, String, List,
  [], ◌∷◌, length, test, is_some, string_discrete, ltb, ◌==◌, if◌then◌else◌,
}
use jetsonfabric.Deployment.{DeploymentIdentity, identity_discrete}
use jetsonfabric.Deployment.Manager.{
  Manager, ResidentExecution, active_deployment_identity, executable_deployment_identity,
  has_active_deployment,
}
use jetsonfabric.Deployment.Manager.Routing.{route, answered, runs_on, faults}
use jetsonfabric.Pipeline.Generation.{GenerationResult, StageOperation, default_generation}
use jetsonfabric.Pipeline.Generation.Pass.{StageInvoker}
use jetsonfabric.Pipeline.Generation.Run.{Runner, TokenSink}
use jetsonfabric.Pipeline.Generation.Start.{run}
use jetsonfabric.Pipeline.Result.{StageRunResult}
use jetsonfabric.Protocol.Generation.{GenerationStage, GenerationRequest}
use jetsonfabric.Protocol.Message.{StageRequest}

pub data ExecutionMode : Type 0 where
  data_parallel pipeline_parallel tensor_parallel : ExecutionMode

unfoldable pub mode_discrete : Discrete ExecutionMode
mode_discrete = hlevel

-- `none` is the std::invalid_argument.
unfoldable pub parse_execution_mode : String → Option ExecutionMode
parse_execution_mode s =
    if test (string_discrete s "data_parallel")
    then some data_parallel
    else if test (string_discrete s "pipeline_parallel")
    then some pipeline_parallel
    else if test (string_discrete s "tensor_parallel")
    then some tensor_parallel
    else none

unfoldable pub execution_mode_string : ExecutionMode → String
execution_mode_string data_parallel = "data_parallel"
execution_mode_string pipeline_parallel = "pipeline_parallel"
execution_mode_string tensor_parallel = "tensor_parallel"

pub record GenerationService : Type 0 where
  pub node_name : String
  pub execution_mode : ExecutionMode

unfoldable pub service_error : String → String → GenerationResult
service_error code message = record default_generation {
  error_code = code;
  error_message = message;
}

-- `request.stages` is empty, or its first stage is not stage 0 of this node.
unfoldable pub is_foreign : String → List GenerationStage → Bool
is_foreign node_name [] = true
is_foreign node_name (s ∷ stages) =
    not (test (ℤ-discrete s.stage_index (pos 0)))
    || not (test (string_discrete s.node_name node_name))

-- `request.stages.size() != 1 || request.stages.front().stage_count != 1`
unfoldable pub is_split : List GenerationStage → Bool
is_split [] = true
is_split (s ∷ stages) =
    not (length (s ∷ stages) == 1) || not (test (ℤ-discrete s.stage_count (pos 1)))

-- `request.deployment.has_value() && *request.deployment != *selected`
unfoldable pub is_other : Option DeploymentIdentity → DeploymentIdentity → Bool
is_other none selected = false
is_other (some i) selected = not (test (identity_discrete i selected))

unfoldable pub validate_selected :
    GenerationService → GenerationRequest → DeploymentIdentity → Option GenerationResult
unfolding service_error is_foreign is_split is_other
validate_selected s g selected =
    if not (test (string_discrete selected.model_id g.model_id))
    then some (
        service_error "deployment_mismatch"
          "generation model does not match the selected deployment")
    else if ltb 0 selected.epoch && not (is_some g.deployment)
    then some (
        service_error "deployment_identity_required"
          "managed runtime generation requires deployment identity")
    else if is_other g.deployment selected
    then some (
        service_error "deployment_mismatch"
          "generation deployment identity does not match an executable runtime epoch")
    else if is_foreign s.node_name g.stages
    then some (
        service_error "invalid_generation_leader"
          "generation must be sent to the runtime assigned logical stage zero")
    else if test (mode_discrete s.execution_mode tensor_parallel) && is_split g.stages
    then some (
        service_error "invalid_tensor_route"
          "tensor_parallel generation uses one logical runtime stage backed by its device mesh")
    else none

module _ {E : Type 0} where
  unfoldable pub select_deployment : GenerationRequest → Manager E → Option DeploymentIdentity
  select_deployment g m = elim g.deployment [
    | none ↦ active_deployment_identity m
    | some i ↦ executable_deployment_identity i m
  ]

  unfoldable pub validate_request :
      GenerationService
      → GenerationRequest
      → Option DeploymentIdentity
      → Manager E
      → Option GenerationResult
  unfolding validate_selected service_error
  validate_request s g selected m =
      let identity_mismatch = is_some g.deployment && has_active_deployment m in
      if not (test (mode_discrete s.execution_mode pipeline_parallel))
        && not (test (mode_discrete s.execution_mode tensor_parallel))
      then some (
          service_error "invalid_execution_mode"
            "runtime-owned generation requires pipeline_parallel or tensor_parallel mode")
      else elim selected [
        | none ↦ some (
            service_error
              (if identity_mismatch then "deployment_mismatch" else "no_active_deployment")
              (if identity_mismatch
                then "generation deployment identity does not match an executable runtime epoch"
                else "runtime has no executable deployment for the requested epoch"))
        | some i ↦ validate_selected s g i
      ]

  module _ {W : Type 0} (manager_of : W → Manager E)
      (worker_call : ResidentExecution E → StageRequest → StageOperation → W → W × StageRunResult)
      (transport : StageInvoker W) (fault : W → W × StageRunResult) where
    -- Stage 0 is this runtime: the manager routes the request to a worker or answers it.
    unfoldable pub invoke_stage : StageInvoker W
    invoke_stage s q operation w =
        if test (ℤ-discrete s.stage_index (pos 0))
        then elim (route q (manager_of w)) [
          | answered r ↦ (w, r)
          | runs_on x ↦ worker_call x q operation w
          | faults ↦ fault w
        ]
        else transport s q operation w

    unfoldable pub generate :
        GenerationService
        → Option (List ℕ → ℕ → List ℕ)
        → ℕ
        → GenerationRequest
        → Option (TokenSink W)
        → W
        → W × Option GenerationResult
    unfolding invoke_stage select_deployment validate_request
    generate s draft_strategy speculative_max_tokens g sink w =
        elim (validate_request s g (select_deployment g (manager_of w)) (manager_of w)) [
          | some error ↦ (w, some error)
          | none ↦
              run
                (record {
                  invoke_stage = invoke_stage;
                  draft_strategy = draft_strategy;
                  speculative_max_tokens = speculative_max_tokens;
                })
                g sink w
        ]
