-- ===== src/Tests/Frames.antt =====
-- A stage request and a stage response over the wire.
use jetsonfabric.Base.{◌≡◌, refl, pos, Bytes, [], ◌∷◌, ℤ-discrete, string_discrete, arith}
use jetsonfabric.Protocol.Frame.{crc32, frame_metadata, decode_stage_operation, encode_frame_prefix}
use jetsonfabric.Protocol.Control.{validate_stage_operation, validate_stage_operation_name}
use jetsonfabric.Protocol.Stage.{
  put_if, validate_max_tokens, validate_tensor_metadata, validate_deployment_identity,
}
use jetsonfabric.Protocol.Utf8.{is_valid_utf8, complete_utf8_prefix, sequence_width}
use jetsonfabric.Protocol.Json.{Checked, ok, invalid, json_failure}
use jetsonfabric.Protocol.Message.{StageRequest, default_request, StageResponse, default_response}
use jetsonfabric.Protocol.Stage.Request.{request_body, decode_stage_request, encode_stage_request}
use jetsonfabric.Protocol.Stage.Request.Decoded.{decode-encode_stage_request}
use jetsonfabric.Protocol.Stage.Request.RoundTrip as RequestTrip
use jetsonfabric.Protocol.Stage.Response.{
  check_payload, check_widths, response_body, decode_stage_response, encode_stage_response,
}
use jetsonfabric.Protocol.Stage.Response.Decoded.{decode-encode_stage_response}
use jetsonfabric.Protocol.Stage.Response.RoundTrip as ResponseTrip
use jetsonfabric.Tests.Json.{Members, library, library_laws, dump, members_discrete, put}

abbrev bytes_of : Checked Bytes → Bytes
bytes_of (ok s) = s
bytes_of (invalid m) = []
bytes_of json_failure = []

-- The second of two stages gets the token 258.
abbrev token_request : StageRequest
token_request = record default_request {
  session_id = "s";
  request_id = "r";
  model_id = "m";
  phase = "decode";
  decode_step = pos 3;
  stage_count = pos 2;
  layer_end = pos 4;
  payload_kind = "tokens";
  encoding = "";
  dtype = "i32";
  shape = pos 1 ∷ [];
  byte_order = "little";
  layout = "row_major";
  payload = 2 ∷ 1 ∷ 0 ∷ 0 ∷ [];
}

abbrev request_members : Members
request_members =
    frame_metadata (library []) (request_body (library []) token_request "execute")
      token_request.payload (crc32 token_request.payload)

crc_test : crc32 (49 ∷ 50 ∷ 51 ∷ 52 ∷ 53 ∷ 54 ∷ 55 ∷ 56 ∷ 57 ∷ []) ≡ 0xcbf43926
unfolding crc32
crc_test = refl

abbrev request_frame : Bytes
request_frame = bytes_of (encode_stage_request (library request_members) token_request "execute")

request_encodes :
    encode_stage_request (library request_members) token_request "execute" ≡ ok request_frame
unfolding encode_stage_request validate_stage_operation string_discrete ℤ-discrete
    validate_max_tokens validate_tensor_metadata validate_deployment_identity encode_frame_prefix
    dump members_discrete put request_body put_if crc32
request_encodes = refl

decode-encode_stage_request_example :
    (decode_stage_request (library request_members) request_frame
      ≡ ok (RequestTrip.received token_request))
    × (decode_stage_operation (library request_members) request_frame ≡ ok "execute")
decode-encode_stage_request_example =
    decode-encode_stage_request (library request_members) (library_laws request_members)
      token_request "execute" (omega arith) request_encodes

-- An error whose message is no UTF-8.
abbrev error_response : StageResponse
error_response = record default_response {
  session_id = "s";
  request_id = "r";
  model_id = "m";
  bytes_in = pos 12;
  prompt_token_ids = 7 ∷ 8 ∷ [];
  error = "stage_failed";
  message = 255 ∷ 65 ∷ [];
  token_eog = 1 ∷ [];
}

abbrev response_members : Members
response_members =
    frame_metadata (library []) (response_body (library []) error_response) error_response.payload
      (crc32 error_response.payload)

abbrev response_frame : Bytes
response_frame = bytes_of (encode_stage_response (library response_members) error_response)

response_encodes :
    encode_stage_response (library response_members) error_response ≡ ok response_frame
unfolding encode_stage_response validate_stage_operation_name string_discrete check_widths
    check_payload validate_deployment_identity encode_frame_prefix dump members_discrete put put_if
    is_valid_utf8 complete_utf8_prefix sequence_width ℤ-discrete crc32
response_encodes = refl

decode-encode_stage_response_example :
    decode_stage_response (library response_members) response_frame
    ≡ ok (ResponseTrip.received error_response)
decode-encode_stage_response_example =
    decode-encode_stage_response (library response_members) (library_laws response_members)
      error_response (omega arith) response_encodes
