-- ===== src/Protocol/Generation.antt =====
-- runtime/protocol/generation.hpp: a generation request, its stages and the timings of a stage.
pub mod Decode
pub mod Stages
pub mod Accepted
use jetsonfabric.Base.{ℤ, pos, Bool, false, Option, String, Bytes, List}
use jetsonfabric.Deployment.{DeploymentIdentity}

pub record GenerationStage : Type 0 where
  pub stage_index : ℤ
  pub stage_count : ℤ
  pub node_id : String
  pub node_name : String
  pub api_url : String
  pub runtime_url : String
  pub layer_start : ℤ
  pub layer_end : ℤ

pub record GenerationRequest : Type 0 where
  pub request_id : String
  pub session_id : String
  pub model_id : String
  pub prompt : Bytes
  pub max_tokens : ℤ
  pub deployment : Option DeploymentIdentity
  pub stages : List GenerationStage

pub record GenerationStageTiming : Type 0 where
  pub phase : String
  pub stage_index : ℤ
  pub node_name : String
  pub remote : Bool
  pub calls : ℤ
  pub batch_items : ℤ
  pub max_execution_batch_size : ℤ
  pub verification_items : ℤ
  pub max_verification_width : ℤ
  pub execution_us : ℤ
  pub activation_decode_us : ℤ
  pub activation_encode_us : ℤ
  pub stage_total_us : ℤ
  pub remote_call_us : ℤ
  pub remote_overhead_us : ℤ
  pub bytes_in : ℤ
  pub bytes_out : ℤ

abbrev pub default_timing : GenerationStageTiming
default_timing = record {
  phase = "";
  stage_index = pos 0;
  node_name = "";
  remote = false;
  calls = pos 0;
  batch_items = pos 0;
  max_execution_batch_size = pos 1;
  verification_items = pos 0;
  max_verification_width = pos 1;
  execution_us = pos 0;
  activation_decode_us = pos 0;
  activation_encode_us = pos 0;
  stage_total_us = pos 0;
  remote_call_us = pos 0;
  remote_overhead_us = pos 0;
  bytes_in = pos 0;
  bytes_out = pos 0;
}
