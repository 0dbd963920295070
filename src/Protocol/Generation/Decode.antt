-- ===== src/Protocol/Generation/Decode.antt =====
-- runtime/protocol/generation.cpp: how a generation request is read from JSON, and what is refused.
use jetsonfabric.Base.{
  ℕ, suc, ℤ, pos, ltb_ℤ, leb_ℤ, ℤ-discrete, Bool, true, false, not, ◌&&◌, ◌||◌, Option, none, some,
  String, ◌<>◌, codes, Bytes, List, [], ◌∷◌, length, test, string_discrete, ltb, ◌==◌,
  if◌then◌else◌,
}
use jetsonfabric.Deployment.{DeploymentIdentity}
use jetsonfabric.Protocol.Fields.{int_min, int_max, to_unsigned}
use jetsonfabric.Protocol.Generation.{GenerationStage, GenerationRequest}
use jetsonfabric.Protocol.Stage.{all_hex}
use jetsonfabric.Protocol.Json.{Checked, ok, invalid, json_failure, ◌>>=◌, ◌>>◌, reject_if, Json}

abbrev is_text : String → String → Bool
is_text s t = test (string_discrete s t)

-- `url.rfind("http://", 0) == 0`
unfoldable pub starts_with : Bytes → Bytes → Bool
starts_with s [] = true
starts_with [] (c ∷ cs) = false
starts_with (b ∷ s) (c ∷ cs) = (b == c) && starts_with s cs

unfoldable pub is_http : String → Bool
unfolding starts_with
is_http url = starts_with (codes url) (codes "http://")

unfoldable pub validate_sha256 : String → Checked (Unit {0})
unfolding all_hex
validate_sha256 value = do
  reject_if (not (length (codes value) == 64))
      "model_sha256 must be a 64-character hexadecimal digest"
  reject_if (not (all_hex (codes value))) "model_sha256 must be a 64-character hexadecimal digest"

-- std::set::insert, which tells whether the key is new.
unfoldable pub contains : List String → String → Bool
contains [] id = false
contains (n ∷ ids) id = is_text n id || contains ids id

-- What the loop of `validate_stages` checks of the stage at an index.
unfoldable pub check_placement : ℕ → ℕ → List String → ℤ → GenerationStage → Checked (Unit {0})
unfolding contains is_http
check_placement size index node_ids expected_start stage = do
  reject_if
      (not (test (ℤ-discrete stage.stage_index (pos index)))
        || not (test (ℤ-discrete stage.stage_count (pos size))))
      "generation stages have inconsistent indexes or counts"
  reject_if (contains node_ids stage.node_id) "generation stages must use distinct node IDs"
  reject_if (not (is_http stage.api_url)) "generation stage api_url must use http://"
  reject_if (not (is_text stage.runtime_url "") && not (is_http stage.runtime_url))
      "generation stage runtime_url must use http://"
  reject_if
      (not (test (ℤ-discrete stage.layer_start expected_start))
        || leb_ℤ stage.layer_end stage.layer_start)
      "generation stages must contain contiguous non-empty layer ranges"

unfoldable pub check_placements :
    ℕ → ℕ → List String → ℤ → List GenerationStage → Checked (Unit {0})
unfolding check_placement
check_placements size index node_ids expected_start [] = ok tt
check_placements size index node_ids expected_start (stage ∷ stages) = do
  check_placement size index node_ids expected_start stage
  check_placements size (suc index) (stage.node_id ∷ node_ids) stage.layer_end stages

unfoldable pub validate_stages : List GenerationStage → Checked (Unit {0})
unfolding check_placements
validate_stages stages = do
  reject_if ((length stages == 0) || ltb 64 (length stages))
      "generation requires between 1 and 64 stages"
  check_placements (length stages) 0 [] (pos 0) stages

-- At most 1024 tokens, and 128 if none are asked for.
unfoldable pub limit_tokens : ℤ → ℤ
limit_tokens n =
    let asked = if leb_ℤ n (pos 0) then pos 128 else n in
    if ltb_ℤ (pos 1024) asked then pos 1024 else asked

module _ (json : Json) where
  open json use {
    Value, parse, is_object, is_null, is_string, is_array, is_integer, is_unsigned, find, elements,
    get_string, get_bytes, get_int64,
  }

  unfoldable pub require_field : Value → String → Checked Value
  require_field body key = elim (find body key) [
    | none ↦ invalid (key <> " is required")
    | some v ↦ if is_null v then invalid (key <> " is required") else ok v
  ]

  unfoldable pub require_string : Value → String → Checked String
  unfolding require_field
  require_string body key = do
    value ← require_field body key
    reject_if (not (is_string value)) (key <> " must be a string")
    reject_if (is_text (get_string value) "") (key <> " is required")
    ok (get_string value)

  -- The same, for the prompt, which the program takes as bytes.
  unfoldable pub require_bytes : Value → String → Checked Bytes
  unfolding require_field
  require_bytes body key = do
    value ← require_field body key
    reject_if (not (is_string value)) (key <> " must be a string")
    reject_if (length (get_bytes value) == 0) (key <> " is required")
    ok (get_bytes value)

  unfoldable pub optional_string : Value → String → Checked String
  optional_string body key = elim (find body key) [
    | none ↦ ok ""
    | some v ↦
        if is_null v
        then ok ""
        else if is_string v
        then ok (get_string v)
        else invalid (key <> " must be a string")
  ]

  unfoldable pub int64_of : Value → String → Checked ℤ
  int64_of value complaint =
      if not (is_integer value) && not (is_unsigned value)
      then invalid complaint
      else elim (get_int64 value) [ none ↦ json_failure | some n ↦ ok n ]

  unfoldable pub require_int : Value → String → Checked ℤ
  unfolding require_field int64_of
  require_int body key = do
    value ← require_field body key
    parsed ← int64_of value (key <> " must be an integer")
    reject_if (ltb_ℤ parsed int_min || ltb_ℤ int_max parsed) (key <> " is outside int range")
    ok parsed

  unfoldable pub require_epoch : Value → Checked ℕ
  unfolding require_field int64_of
  require_epoch body = do
    value ← require_field body "epoch"
    parsed ← int64_of value "epoch must be a positive integer"
    reject_if (leb_ℤ parsed (pos 0)) "epoch must be positive"
    ok (to_unsigned parsed)

  unfoldable pub decode_deployment : Value → Checked DeploymentIdentity
  unfolding require_string require_epoch validate_sha256
  decode_deployment body = do
    deployment_id ← require_string body "deployment_id"
    epoch ← require_epoch body
    model_id ← require_string body "model_id"
    model_sha256 ← require_string body "model_sha256"
    validate_sha256 model_sha256
    ok (record {
      deployment_id = deployment_id;
      epoch = epoch;
      model_id = model_id;
      model_sha256 = model_sha256;
    })

  unfoldable pub decode_stage : Value → Checked GenerationStage
  unfolding require_string require_int optional_string
  decode_stage body = do
    reject_if (not (is_object body)) "generation stage must be an object"
    stage_index ← require_int body "stage_index"
    stage_count ← require_int body "stage_count"
    node_id ← require_string body "node_id"
    node_name ← require_string body "node_name"
    api_url ← require_string body "api_url"
    runtime_url ← optional_string body "runtime_url"
    layer_start ← require_int body "layer_start"
    layer_end ← require_int body "layer_end"
    ok (record {
      stage_index = stage_index;
      stage_count = stage_count;
      node_id = node_id;
      node_name = node_name;
      api_url = api_url;
      runtime_url = runtime_url;
      layer_start = layer_start;
      layer_end = layer_end;
    })

  unfoldable pub decode_stages : List Value → Checked (List GenerationStage)
  unfolding decode_stage
  decode_stages [] = ok []
  decode_stages (v ∷ vs) = do stage ← decode_stage v; stages ← decode_stages vs; ok (stage ∷ stages)

  unfoldable pub named_deployment : Value → String → Checked (Option DeploymentIdentity)
  unfolding decode_deployment
  named_deployment v model_id = do
    reject_if (not (is_object v)) "deployment must be an object"
    deployment ← decode_deployment v
    reject_if (not (is_text deployment.model_id model_id))
        "deployment model_id does not match generation model_id"
    ok (some deployment)

  -- The deployment of a request for a model, if it names one.
  unfoldable pub optional_deployment : Value → String → Checked (Option DeploymentIdentity)
  unfolding named_deployment
  optional_deployment body model_id = elim (find body "deployment") [
    | none ↦ ok none
    | some v ↦ if is_null v then ok none else named_deployment v model_id
  ]

  unfoldable pub parse_request : Bytes → Checked Value
  parse_request s = elim (parse s) [
    | none ↦ invalid "generation request body must be valid JSON"
    | some body ↦
        if is_object body then ok body else invalid "generation request body must be an object"
  ]

  unfoldable pub decode_generation_request : Bytes → Checked GenerationRequest
  unfolding parse_request optional_deployment decode_stages
  decode_generation_request body_text = do
    body ← parse_request body_text
    request_id ← require_string body "request_id"
    session_id ← require_string body "session_id"
    model_id ← require_string body "model_id"
    prompt ← require_bytes body "prompt"
    max_tokens ← require_int body "max_tokens"
    deployment ← optional_deployment body model_id
    value ← require_field body "stages"
    reject_if (not (is_array value)) "stages must be an array"
    stages ← decode_stages (elements value)
    validate_stages stages
    ok (record {
      request_id = request_id;
      session_id = session_id;
      model_id = model_id;
      prompt = prompt;
      max_tokens = limit_tokens max_tokens;
      deployment = deployment;
      stages = stages;
    })
