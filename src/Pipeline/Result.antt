-- ===== src/Pipeline/Result.antt =====
-- runtime/pipeline_parallel/stage_result.hpp: what one stage operation returns.
use jetsonfabric.Base.{ℤ, pos, Bool, false, String}
use jetsonfabric.Protocol.Message.{StageResponse, default_response}

pub record StageRunResult : Type 0 where
  pub ok : Bool
  pub status : String
  pub error_code : String
  pub error_message : String
  pub response : StageResponse
  pub remote_call_us : ℤ

abbrev pub default_result : StageRunResult
default_result = record {
  ok = false;
  status = "500 Internal Server Error";
  error_code = "";
  error_message = "";
  response = default_response;
  remote_call_us = pos 0;
}
