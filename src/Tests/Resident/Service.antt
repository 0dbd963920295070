-- ===== src/Tests/Resident/Service.antt =====
-- A generation for the epoch that is active.
use jetsonfabric.Base.{◌≡◌, refl, none, some, pos, [], ◌∷◌, ℤ-discrete}
use jetsonfabric.Deployment.Manager.{executable_deployment_identity}
use jetsonfabric.Engine.Service.{
  GenerationService, pipeline_parallel, mode_discrete, validate_request, validate_selected,
  select_deployment, is_other, is_foreign,
}
use jetsonfabric.Engine.Service.Admission.{generation-Reaches, Reaches}
use jetsonfabric.Pipeline.Generation.{prefill_request, decode_request}
use jetsonfabric.Pipeline.Generation.Checks.{apply_stage}
use jetsonfabric.Pipeline.Generation.Sessions.{close_request, rollback_request}
use jetsonfabric.Protocol.Generation.{GenerationStage, GenerationRequest}
use jetsonfabric.Tests.Resident.{manager_open, active_first, first}

abbrev service : GenerationService
service = record { node_name = "orin-0"; execution_mode = pipeline_parallel }

abbrev leader : GenerationStage
leader = record {
  stage_index = pos 0;
  stage_count = pos 1;
  node_id = "n0";
  node_name = "orin-0";
  api_url = "";
  runtime_url = "";
  layer_start = pos 0;
  layer_end = pos 24;
}

abbrev chat : GenerationRequest
chat = record {
  request_id = "r";
  session_id = "s";
  model_id = "qwen";
  prompt = 104 ∷ 105 ∷ [];
  max_tokens = pos 16;
  deployment = some first;
  stages = leader ∷ [];
}

chat_taken : validate_request service chat (select_deployment chat active_first) active_first ≡ none
unfolding manager_open validate_request validate_selected select_deployment is_other is_foreign
    mode_discrete ℤ-discrete executable_deployment_identity
chat_taken = refl

generation-Reaches_example :
    Reaches service chat active_first (apply_stage leader (prefill_request chat))
    × Reaches service chat active_first (apply_stage leader (decode_request chat 1 (33 ∷ [])))
    × Reaches service chat active_first (close_request chat leader)
    × Reaches service chat active_first (rollback_request chat leader 1)
generation-Reaches_example =
    generation-Reaches service chat active_first chat_taken (λ e. cc) leader 1 (33 ∷ [])
