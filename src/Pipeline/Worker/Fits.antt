-- ===== src/Pipeline/Worker/Fits.antt =====
-- stage_worker.cpp: which requests the worker's check lets through.
use package.text.Mathlib.TextLemmas.{append-eq-nil_iff}
use jetsonfabric.Base.{◌≡◌, ◌≢◌, ◌↔◌, String, ◌<>◌, arith}
use jetsonfabric.Pipeline.Worker.{StageWorker}
use jetsonfabric.Pipeline.Worker.Operations.{validate_request}
use jetsonfabric.Protocol.Message.{StageRequest}

-- The request names a session, a request, a phase and a payload kind, and it is for this worker.
pub record Fits (w : StageWorker) (q : StageRequest) : Type 0 where
  pub session : q.session_id ≢ ""
  pub request : q.request_id ≢ ""
  pub named : q.model_id ≢ ""
  pub model : q.model_id ≡ w.model_id
  pub index : q.stage_index ≡ w.assignment.stage_index
  pub count : q.stage_count ≡ w.assignment.stage_count
  pub start : q.layer_start ≡ w.assignment.layer_start
  pub end : q.layer_end ≡ w.assignment.layer_end
  pub node : q.node_name ≡ w.node_name
  pub phased : q.phase ≢ ""
  pub typed : q.payload_kind ≢ ""

starts : (s t : String) → s ≢ "" → s <> t ≢ ""
starts s t h e = h (append-eq-nil_iff.0 e).0

message_session : ◌≢◌ {A = String} "session_id is required" ""
message_session e = cc

message_request : ◌≢◌ {A = String} "request_id is required" ""
message_request e = cc

message_model : ◌≢◌ {A = String} "model_id is required" ""
message_model e = cc

message_other_model : (s : String) → "request model_id " <> s ≢ ""
message_other_model s = starts "request model_id " s (λ e. cc)

message_index : (s : String) → "request stage_index " <> s ≢ ""
message_index s = starts "request stage_index " s (λ e. cc)

message_count : (s : String) → "request stage_count " <> s ≢ ""
message_count s = starts "request stage_count " s (λ e. cc)

message_layers : (s : String) → "request layer range [" <> s ≢ ""
message_layers s = starts "request layer range [" s (λ e. cc)

message_node : (s : String) → "request node_name " <> s ≢ ""
message_node s = starts "request node_name " s (λ e. cc)

message_phase : ◌≢◌ {A = String} "phase is required" ""
message_phase e = cc

message_kind : ◌≢◌ {A = String} "payload_kind is required" ""
message_kind e = cc

ruleset messages = (
  arith, message_session, message_request, message_model, message_other_model, message_index,
  message_count, message_layers, message_node, message_phase, message_kind,
)

Fits-of_check : (w : StageWorker) (q : StageRequest) → validate_request w q ≡ "" → Fits w q
unfolding validate_request
Fits-of_check w q h = record {
  session = grind messages;
  request = grind messages;
  named = grind messages;
  model = grind messages;
  index = grind messages;
  count = grind messages;
  start = grind messages;
  end = grind messages;
  node = grind messages;
  phased = grind messages;
  typed = grind messages;
}

check_of_Fits : (w : StageWorker) (q : StageRequest) → Fits w q → validate_request w q ≡ ""
unfolding validate_request
check_of_Fits w q f = ground (
  arith, f.session, f.request, f.named, f.model, f.index, f.count, f.start, f.end, f.node, f.phased,
  f.typed,
)

-- The check passes a request exactly when its session, request, model, phase and payload kind are
-- not empty and its model, stage, layers and node are those of the worker.
pub validate_request-Fits :
    (w : StageWorker) (q : StageRequest) → (validate_request w q ≡ "") ↔ Fits w q
validate_request-Fits w q = (Fits-of_check w q, check_of_Fits w q)
