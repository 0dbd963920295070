-- ===== src/Tests/Requests.antt =====
-- A generation request with one stage, from a JSON library that knows one document.
use package.text.Mathlib.Text.{◌==◌ as str_eq}
use jetsonfabric.Base.{
  ◌≡◌, refl, ℤ, pos, ℤ-discrete, string_discrete, Bool, true, false, Option, none, some, String,
  Bytes, List, [], ◌∷◌, if◌then◌else◌,
}
use jetsonfabric.Protocol.Generation.{GenerationRequest}
use jetsonfabric.Protocol.Generation.Accepted.{IsRunnable, decode_generation_request-IsRunnable}
use jetsonfabric.Protocol.Generation.Decode.{
  decode_generation_request, require_bytes, validate_stages, limit_tokens,
}
use jetsonfabric.Protocol.Json.{ok, Json}

data Node : Type 0 where
  document stages stage : Node
  word : String → Node
  bytes : Bytes → Node
  count : ℤ → Node

abbrev member : String → List (String × Node) → Option Node
member k [] = none
member k ((j, v) ∷ m) = if str_eq j k then some v else member k m

abbrev find : Node → String → Option Node
find document k = member k (
    ("request_id", word "r")
    ∷ ("session_id", word "s")
    ∷ ("model_id", word "m")
    ∷ ("prompt", bytes (72 ∷ 105 ∷ []))
    ∷ ("max_tokens", count (pos 5000))
    ∷ ("stages", stages)
    ∷ [])
find stage k = member k (
    ("stage_index", count (pos 0))
    ∷ ("stage_count", count (pos 1))
    ∷ ("node_id", word "n")
    ∷ ("node_name", word "node")
    ∷ ("api_url", word "http://node")
    ∷ ("layer_start", count (pos 0))
    ∷ ("layer_end", count (pos 8))
    ∷ [])
find v k = none

abbrev is_object : Node → Bool
is_object document = true
is_object stage = true
is_object v = false

abbrev is_array : Node → Bool
is_array stages = true
is_array v = false

abbrev is_string : Node → Bool
is_string (word s) = true
is_string (bytes s) = true
is_string v = false

abbrev is_integer : Node → Bool
is_integer (count n) = true
is_integer v = false

abbrev get_string : Node → String
get_string (word s) = s
get_string v = ""

abbrev get_bytes : Node → Bytes
get_bytes (bytes s) = s
get_bytes v = []

abbrev get_int64 : Node → Option ℤ
get_int64 (count n) = some n
get_int64 v = none

abbrev elements : Node → List Node
elements stages = stage ∷ []
elements v = []

abbrev library : Json
library = record {
  Value = Node;
  parse = λ s. some document;
  parse_error = λ s. "";
  is_object = is_object;
  is_null = λ v. false;
  is_string = is_string;
  is_array = is_array;
  is_integer = is_integer;
  is_unsigned = λ v. false;
  find = find;
  elements = elements;
  get_string = get_string;
  get_bytes = get_bytes;
  get_int64 = get_int64;
  get_uint64 = λ v. 0;
  Object = Unit {0};
  empty = tt;
  put = λ b k f. b;
  dump = λ b. none;
}

abbrev request : GenerationRequest
request = record {
  request_id = "r";
  session_id = "s";
  model_id = "m";
  prompt = 72 ∷ 105 ∷ [];
  max_tokens = pos 1024;
  deployment = none;
  stages =
      (record {
        stage_index = pos 0;
        stage_count = pos 1;
        node_id = "n";
        node_name = "node";
        api_url = "http://node";
        runtime_url = "";
        layer_start = pos 0;
        layer_end = pos 8;
      })
      ∷ [];
}

request_decodes : decode_generation_request library [] ≡ ok request
unfolding decode_generation_request string_discrete require_bytes validate_stages ℤ-discrete
    limit_tokens
request_decodes = refl

decode_generation_request-IsRunnable_example : IsRunnable request
decode_generation_request-IsRunnable_example =
    decode_generation_request-IsRunnable library [] request request_decodes
