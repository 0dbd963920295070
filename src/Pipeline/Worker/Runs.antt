-- ===== src/Pipeline/Worker/Runs.antt =====
-- stage_worker.cpp: what reaches the executor in a run.
use jetsonfabric.Base.{◌≡◌, ◌⊎◌, inl, inr, refl, ap, ◌∙◌, String, arith, false}
use jetsonfabric.Inference.{
  kind_discrete, PayloadKind.activation, StageInput, Payload, validate_stage_input,
}
use jetsonfabric.Pipeline.Assignment.{validate_stage_assignment}
use jetsonfabric.Pipeline.Result.{StageRunResult}
use jetsonfabric.Pipeline.Worker.{
  bad_request, Fallible, returned, throws_invalid_argument, throws_exception, ActivationCodec,
  StageWorker, to_stage_input,
}
use jetsonfabric.Pipeline.Worker.Fits.{Fits, validate_request-Fits}
use jetsonfabric.Pipeline.Worker.Operations.{
  validate_request, check_request, check_input, decode_input, admit,
}
use jetsonfabric.Protocol.Message.{StageRequest}

-- The input that a worker may pass on for a request: a valid one, of the request's session, at the
-- worker's own stage and layers.
pub record IsAdmitted (w : StageWorker) (q : StageRequest) (i : StageInput) : Type 0 where
  pub assigned : validate_stage_assignment w.assignment ≡ ""
  pub fits : Fits w q
  pub valid : validate_stage_input i ≡ ""
  pub session : i.session_id ≡ q.session_id
  pub model : i.model_id ≡ w.model_id
  pub index : i.position.index ≡ w.assignment.stage_index
  pub count : i.position.count ≡ w.assignment.stage_count
  pub first : i.layers.first ≡ w.assignment.layer_start
  pub last : i.layers.last ≡ w.assignment.layer_end

pub Fallible-cases :
    {A : Type 0} (f : Fallible A)
    → ((a : A) × (f ≡ returned a))
      ⊎ (((what : String) × (f ≡ throws_invalid_argument what))
          ⊎ ((what : String) × (f ≡ throws_exception what)))
Fallible-cases (returned a) = inl (a, refl)
Fallible-cases (throws_invalid_argument what) = inr (inl (what, refl))
Fallible-cases (throws_exception what) = inr (inr (what, refl))

pub Sum-cases : {A B : Type 0} (s : A ⊎ B) → ((a : A) × (s ≡ inl a)) ⊎ ((b : B) × (s ≡ inr b))
Sum-cases (inl a) = inl (a, refl)
Sum-cases (inr b) = inr (b, refl)

check_request_ok :
    (w : StageWorker) (q : StageRequest)
    → (u : Unit {0}) → check_request w q ≡ inr u
    → (validate_stage_assignment w.assignment ≡ "") × (validate_request w q ≡ "")
unfolding check_request
check_request_ok w q u h = ground arith

check_input_ok :
    (i j : StageInput) → check_input i ≡ inr j → (j ≡ i) × (validate_stage_input j ≡ "")
unfolding check_input
check_input_ok i j h = ground arith

decode_input_ok :
    (codec : ActivationCodec) (i j : StageInput)
    → decode_input codec i ≡ inr j
    → (p : Payload) × (j ≡ record i { payload = p }) × (validate_stage_input j ≡ "")
unfolding decode_input
decode_input_ok codec i j h = elim (kind_discrete i.payload.kind activation) [
  | yes e ↦ elim (Fallible-cases (codec.decode i.payload)) [
    | inl (p, d) ↦
        let (same, valid) = check_input_ok (record i { payload = p }) j (ground arith) in
        (p, same, valid)
    | inr (inl (m, d)) ↦ absurd (ground arith)
    | inr (inr (m, d)) ↦ absurd (ground arith)
  ]
  | no n ↦ let (same, valid) = check_input_ok i j (ground arith) in (i.payload, same, valid)
]

to_stage_input_ok :
    (q : StageRequest) (i : StageInput)
    → to_stage_input q ≡ inr i
    → (i.session_id ≡ q.session_id)
      × (i.model_id ≡ q.model_id)
      × (i.position.index ≡ q.stage_index)
      × (i.position.count ≡ q.stage_count)
      × (i.layers.first ≡ q.layer_start)
      × (i.layers.last ≡ q.layer_end)
unfolding to_stage_input
to_stage_input_ok q i h = ground arith

pub admit-IsAdmitted :
    (w : StageWorker) (codec : ActivationCodec) (q : StageRequest) (i : StageInput)
    → admit w codec q ≡ inr i
    → IsAdmitted w q i
unfolding admit
admit-IsAdmitted w codec q i h = elim (Sum-cases (check_request w q)) [
  | inl (r, e) ↦ absurd (ground arith)
  | inr (u, e) ↦ elim (Sum-cases (to_stage_input q)) [
    | inl (what, f) ↦ absurd (ground arith)
    | inr (j, f) ↦
        let (p, same, valid) = decode_input_ok codec j i (ground arith) in
        let (session, model, index, count, first, last) = to_stage_input_ok q j f in
        let (assigned, checked) = check_request_ok w q u e in
        let fits = (validate_request-Fits w q).0 checked in
        record {
          assigned = assigned;
          fits = fits;
          valid = valid;
          session = ap (λ k. k.session_id) same ∙ session;
          model = ap (λ k. k.model_id) same ∙ model ∙ fits.model;
          index = ap (λ k. k.position.index) same ∙ index ∙ fits.index;
          count = ap (λ k. k.position.count) same ∙ count ∙ fits.count;
          first = ap (λ k. k.layers.first) same ∙ first ∙ fits.start;
          last = ap (λ k. k.layers.last) same ∙ last ∙ fits.end;
        }
  ]
]

check_request_refuses :
    (w : StageWorker) (q : StageRequest) (r : StageRunResult)
    → check_request w q ≡ inl r
    → (r.ok ≡ false) × (r.status ≡ "400 Bad Request")
unfolding check_request bad_request
check_request_refuses w q r h = ground arith

check_input_refuses :
    (i : StageInput) (r : StageRunResult)
    → check_input i ≡ inl r
    → (r.ok ≡ false) × (r.status ≡ "400 Bad Request")
unfolding check_input bad_request
check_input_refuses i r h = ground arith

decode_input_refuses :
    (codec : ActivationCodec) (i : StageInput) (r : StageRunResult)
    → decode_input codec i ≡ inl r
    → (r.ok ≡ false) × (r.status ≡ "400 Bad Request")
unfolding decode_input bad_request
decode_input_refuses codec i r h = elim (kind_discrete i.payload.kind activation) [
  | yes e ↦ elim (Fallible-cases (codec.decode i.payload)) [
    | inl (p, d) ↦ ground (arith, check_input_refuses (record i { payload = p }) r)
    | inr (inl (m, d)) ↦ ground arith
    | inr (inr (m, d)) ↦ ground arith
  ]
  | no n ↦ ground (arith, check_input_refuses i r)
]

-- A request that is refused is answered with status 400.
pub admit_refuses :
    (w : StageWorker) (codec : ActivationCodec) (q : StageRequest) (r : StageRunResult)
    → admit w codec q ≡ inl r
    → (r.ok ≡ false) × (r.status ≡ "400 Bad Request")
unfolding admit bad_request
admit_refuses w codec q r h = elim (Sum-cases (check_request w q)) [
  | inl (s, e) ↦ ground (arith, check_request_refuses w q r)
  | inr (u, e) ↦ elim (Sum-cases (to_stage_input q)) [
    | inl (what, f) ↦ ground arith
    | inr (j, f) ↦ ground (arith, decode_input_refuses codec j r)
  ]
]
