-- ===== src/Pipeline/Worker/Answers.antt =====
-- What a run of the stage worker does to the executor, and what its answer holds.
use mathlib.Core.Bool.{true≢false}
use mathlib.Core.Path.{subst, ap₂}
use jetsonfabric.Base.{
  test, string_discrete, Bool, Bool, ◌≡◌, ◌⊎◌, inl, inr, refl, sym, ap, ◌∙◌, pos, true, false,
  arith, length,
}
use jetsonfabric.Inference.{
  ExecutionResult, success, ExecutionResult.error_result, StageInput, StageOutput, Payload,
  PayloadKind, PayloadKind.activation, kind_discrete, kind_string, validate_payload,
}
use jetsonfabric.Pipeline.Result.{StageRunResult}
use jetsonfabric.Pipeline.Worker.{
  Fallible, returned, throws_invalid_argument, throws_exception, Executor, ActivationCodec,
  StageWorker, Readings, StageTimings, stage_error_result, to_stage_response, base_response,
}
use jetsonfabric.Pipeline.Worker.Operations.{
  admit, execution_error, run_success, run_timings, encode_output, finish_run, run,
}
use jetsonfabric.Pipeline.Worker.Runs.{
  IsAdmitted, Fallible-cases, Sum-cases, admit-IsAdmitted, admit_refuses,
}
use jetsonfabric.Protocol.Message.{StageRequest, StageResponse}

-- The payload of a response, as the next stage reads it.
abbrev pub payload_of : PayloadKind → StageResponse → Payload
payload_of k r = record {
  kind = k;
  encoding = r.encoding;
  tensor = record {
    dtype = r.dtype;
    shape = r.shape;
    byte_order = r.byte_order;
    layout = r.layout;
  };
  bytes = r.payload;
}

-- A good answer: it repeats what the request is about, counts the bytes both ways, and carries a
-- payload that passes the payload check.
pub record IsAnswer (q : StageRequest) (r : StageRunResult) : Type 0 where
  pub status : r.status ≡ "200 OK"
  pub session : r.response.session_id ≡ q.session_id
  pub request : r.response.request_id ≡ q.request_id
  pub deployment : r.response.deployment_id ≡ q.deployment_id
  pub epoch : r.response.deployment_epoch ≡ q.deployment_epoch
  pub step : r.response.decode_step ≡ q.decode_step
  pub index : r.response.stage_index ≡ q.stage_index
  pub bytes_in : r.response.bytes_in ≡ pos (length q.payload)
  pub bytes_out : r.response.bytes_out ≡ pos (length r.response.payload)
  pub kind : PayloadKind
  pub named : r.response.payload_kind ≡ kind_string kind
  pub valid : validate_payload (payload_of kind r.response) ≡ ""

run_success-IsAnswer :
    (q : StageRequest) (o : StageOutput) (timings : StageTimings)
    → validate_payload o.payload ≡ ""
    → IsAnswer q (run_success q o timings)
unfolding run_success to_stage_response base_response
run_success-IsAnswer q o timings h = record {
  status = refl;
  session = refl;
  request = refl;
  deployment = refl;
  epoch = refl;
  step = refl;
  index = refl;
  bytes_in = refl;
  bytes_out = refl;
  kind = o.payload.kind;
  named = refl;
  valid = h;
}

-- The encoding ends in an error of the stage, or in a good answer with a valid payload.
encode_cases :
    (codec : ActivationCodec) (q : StageRequest) (t : Readings) (decoded : Bool) (o : StageOutput)
    → ((encode_output codec q t decoded o).ok ≡ false)
      ⊎ ((p : StageOutput) × (timings : StageTimings) × (validate_payload p.payload ≡ "")
          × (encode_output codec q t decoded o ≡ run_success q p timings))
unfolding encode_output stage_error_result
encode_cases codec q t decoded o = elim (string_discrete (validate_payload o.payload) "") [
  | no bad ↦ inl (ground arith)
  | yes ok ↦ elim (kind_discrete o.payload.kind activation) [
    | no other ↦ inr (o, run_timings t decoded false, ok, ground arith)
    | yes act ↦ elim (Fallible-cases (codec.encode o.payload)) [
      | inr (inl (what, e)) ↦ inl (ground arith)
      | inr (inr (what, e)) ↦ inl (ground arith)
      | inl (p, e) ↦ elim (string_discrete (validate_payload p) "") [
        | no bad ↦ inl (ground arith)
        | yes fine ↦ inr (record o { payload = p }, run_timings t decoded true, fine, ground arith)
      ]
    ]
  ]
]

encode_output-IsAnswer :
    (codec : ActivationCodec) (q : StageRequest) (t : Readings) (decoded : Bool) (o : StageOutput)
    → (encode_output codec q t decoded o).ok ≡ true
    → IsAnswer q (encode_output codec q t decoded o)
encode_output-IsAnswer codec q t decoded o h = elim (encode_cases codec q t decoded o) [
  | inl bad ↦ absurd (true≢false (sym h ∙ bad))
  | inr (p, timings, valid, e) ↦ subst (IsAnswer q) (sym e) (run_success-IsAnswer q p timings valid)
]

finish_run_ok :
    (codec : ActivationCodec) (q : StageRequest) (t : Readings) (decoded : Bool)
    (f : Fallible ExecutionResult) (r : StageRunResult)
    → finish_run codec q t decoded f ≡ returned r
    → r.ok ≡ true
    → (o : StageOutput) × (f ≡ returned (success o)) × (encode_output codec q t decoded o ≡ r)
unfolding finish_run execution_error stage_error_result
finish_run_ok codec q t decoded (returned (success o)) r h good = (o, refl, ground arith)
finish_run_ok codec q t decoded (returned (error_result e)) r h good = absurd (ground arith)
finish_run_ok codec q t decoded (throws_invalid_argument what) r h good = absurd (ground arith)
finish_run_ok codec q t decoded (throws_exception what) r h good = absurd (ground arith)

-- For every request, a run of the stage worker either refuses it with status 400 and leaves the
-- executor alone, or calls the executor once, with a valid input of that session at this worker's
-- stage, and leaves it in the state of that call.
pub run_calls :
    {X : Type 0} (executor : Executor X) (w : StageWorker) (codec : ActivationCodec) (t : Readings)
    (q : StageRequest) (x : X)
    → ((r : StageRunResult) × (run executor w codec t q x ≡ (x, returned r))
        × (r.ok ≡ false)
        × (r.status ≡ "400 Bad Request"))
      ⊎ ((i : StageInput) × IsAdmitted w q i
          × ((run executor w codec t q x).0 ≡ (executor.execute i x).0))
unfolding run
run_calls executor w codec t q x = elim (Sum-cases (admit w codec q)) [
  | inl (r, e) ↦
      let (bad, status) = admit_refuses w codec q r e in inl (r, rw (run, e) refl, bad, status)
  | inr (i, e) ↦ inr (i, admit-IsAdmitted w codec q i e, rw (run, e) refl)
]

-- If a run of the stage worker returns a good result, then the executor was called with an admitted
-- input and returned an output, and the result is a good answer to the request.
pub run-IsAnswer :
    {X : Type 0} (executor : Executor X) (w : StageWorker) (codec : ActivationCodec) (t : Readings)
    (q : StageRequest) (x y : X) (r : StageRunResult)
    → run executor w codec t q x ≡ (y, returned r)
    → r.ok ≡ true
    → (i : StageInput) × (o : StageOutput) × IsAdmitted w q i
      × (executor.execute i x ≡ (y, returned (success o)))
      × IsAnswer q r
unfolding run
run-IsAnswer executor w codec t q x y r h good = elim (Sum-cases (admit w codec q)) [
  | inl (s, e) ↦ let (bad, status) = admit_refuses w codec q s e in absurd (ground arith)
  | inr (i, e) ↦
      let paired = rw (run, e) at h in
      let decoded = test (string_discrete q.payload_kind "activation") in
      let (o, there, encoded) =
        finish_run_ok codec q t decoded (executor.execute i x).1 r (ap (λ p. p.1) paired) good in
      (
        i,
        o,
        admit-IsAdmitted w codec q i e,
        ap₂ (λ a b. (a, b)) (ap (λ p. p.0) paired) there,
        subst (IsAnswer q) encoded
            (encode_output-IsAnswer codec q t decoded o (ap (λ s. s.ok) encoded ∙ good)),
      )
]
