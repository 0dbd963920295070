-- ===== src/Protocol/Generation/Accepted.antt =====
-- A generation request that is decoded is fit to run.
use mathlib.Core.Path.{subst}
use jetsonfabric.Base.{
  ap, ◌≡◌, ℤ, pos, leb_ℤ, ltb_ℤ, true, not, Option, none, some, String, codes, Bytes, length, test,
  string_discrete, ◌==◌, arith, Option-cases, Bool-cases, inl, inr,
}
use jetsonfabric.Deployment.{DeploymentIdentity}
use jetsonfabric.Protocol.Generation.{GenerationRequest}
use jetsonfabric.Protocol.Generation.Decode.{
  decode_generation_request, decode_deployment, named_deployment, optional_deployment,
  parse_request, require_string, require_bytes, require_int, require_epoch, require_field,
  decode_stages, validate_stages, validate_sha256, limit_tokens,
}
use jetsonfabric.Protocol.Generation.Stages.{
  IsPipeline, validate_stages-IsPipeline, holds, not_rejected,
}
use jetsonfabric.Protocol.Json.{ok, reject_if, passes, Json}
use jetsonfabric.Protocol.Stage.{all_hex}

-- A deployment that a request for a model may name.
pub record IsDeployable (model_id : String) (d : DeploymentIdentity) : Type 0 where
  pub model : d.model_id ≡ model_id
  pub digest_length : length (codes d.model_sha256) ≡ 64
  pub digest : all_hex (codes d.model_sha256) ≡ true

abbrev pub AllDeployable : String → Option DeploymentIdentity → Type 0
AllDeployable model_id none = Unit {0}
AllDeployable model_id (some d) = IsDeployable model_id d

pub record IsRunnable (r : GenerationRequest) : Type 0 where
  pub at_least_one : ltb_ℤ (pos 0) r.max_tokens ≡ true
  pub at_most : leb_ℤ r.max_tokens (pos 1024) ≡ true
  pub deployable : AllDeployable r.model_id r.deployment
  pub pipeline : IsPipeline r.stages

limit_bounds :
    (n : ℤ) → (ltb_ℤ (pos 0) (limit_tokens n) ≡ true) × (leb_ℤ (limit_tokens n) (pos 1024) ≡ true)
unfolding limit_tokens
limit_bounds n = ground arith

sha256_ok :
    (s : String) → validate_sha256 s ≡ ok tt → (length (codes s) ≡ 64) × (all_hex (codes s) ≡ true)
unfolding validate_sha256
sha256_ok s h =
    let (_, e, g) = passes (reject_if (not (length (codes s) == 64)) _) _ h in
    let a = not_rejected _ _ e in let b = not_rejected _ _ g in (ground arith, ground arith)

ok-inj {ℓ} : {A : Type ℓ} {a b : A} → ok a ≡ ok b → a ≡ b
ok-inj e = cc

module _ (json : Json) where
  deployment_digest :
      (v : json.Value) (d : DeploymentIdentity)
      → decode_deployment json v ≡ ok d
      → (length (codes d.model_sha256) ≡ 64) × (all_hex (codes d.model_sha256) ≡ true)
  unfolding decode_deployment
  deployment_digest v d h =
      let (id, _, h1) = passes (require_string json v "deployment_id") _ h in
      let (n, _, h2) = passes (require_epoch json v) _ h1 in
      let (m, _, h3) = passes (require_string json v "model_id") _ h2 in
      let (s, _, h4) = passes (require_string json v "model_sha256") _ h3 in
      let (_, e, h5) = passes (validate_sha256 s) _ h4 in
      let same : s ≡ d.model_sha256 = ap (λ x. x.model_sha256) (ok-inj h5) in
      subst (λ x. (length (codes x) ≡ 64) × (all_hex (codes x) ≡ true)) same (sha256_ok s e)

  named_ok :
      (v : json.Value) (model_id : String) (d : Option DeploymentIdentity)
      → named_deployment json v model_id ≡ ok d
      → AllDeployable model_id d
  unfolding named_deployment
  named_ok v model_id d h =
      let (_, _, h1) = passes (reject_if (not (json.is_object v)) _) _ h in
      let (c, e, h2) = passes (decode_deployment json v) _ h1 in
      let (_, m, h3) =
        passes (reject_if (not (test (string_discrete c.model_id model_id))) _) _ h2 in
      let same = not_rejected _ _ m in
      let (sized, hex) = deployment_digest v c e in
      subst (AllDeployable model_id) (ok-inj h3) (record {
        model = holds (string_discrete c.model_id model_id) (ground arith);
        digest_length = sized;
        digest = hex;
      })

  no_deployment :
      (model_id : String) (d : Option DeploymentIdentity)
      → ok none ≡ ok d
      → AllDeployable model_id d
  no_deployment model_id d h = subst (AllDeployable model_id) (ok-inj h) tt

  deployment_ok :
      (body : json.Value) (model_id : String) (d : Option DeploymentIdentity)
      → optional_deployment json body model_id ≡ ok d
      → AllDeployable model_id d
  unfolding optional_deployment
  deployment_ok body model_id d h = elim (Option-cases (json.find body "deployment")) [
    | inl e ↦ no_deployment model_id d (rw (e, optional_deployment) at h)
    | inr (v, e) ↦
        let found = rw (e, optional_deployment) at h in
        elim (Bool-cases (json.is_null v)) [
          | inl missing ↦ no_deployment model_id d (rw missing at found)
          | inr given ↦ named_ok v model_id d (rw given at found)
        ]
  ]

  -- A generation request that is decoded asks for 1 to 1024 tokens, names no deployment or one of its own
  -- model with a digest of 64 hexadecimal digits, and has a pipeline of 1 to 64 stages: each at its index
  -- and reached over http, on distinct nodes, over layer ranges that are not empty and follow each
  -- other from layer 0. The JSON library may be any.
  pub decode_generation_request-IsRunnable :
      (body_text : Bytes) (r : GenerationRequest)
      → decode_generation_request json body_text ≡ ok r
      → IsRunnable r
  unfolding decode_generation_request
  decode_generation_request-IsRunnable body_text r h =
      let (body, _, h0) = passes (parse_request json body_text) _ h in
      let (a, _, h1) = passes (require_string json body "request_id") _ h0 in
      let (b, _, h2) = passes (require_string json body "session_id") _ h1 in
      let (model_id, _, h3) = passes (require_string json body "model_id") _ h2 in
      let (c, _, h4) = passes (require_bytes json body "prompt") _ h3 in
      let (n, _, h5) = passes (require_int json body "max_tokens") _ h4 in
      let (d, named, h6) = passes (optional_deployment json body model_id) _ h5 in
      let (v, _, h7) = passes (require_field json body "stages") _ h6 in
      let (_, _, h8) = passes (reject_if (not (json.is_array v)) _) _ h7 in
      let (stages, _, h9) = passes (decode_stages json (json.elements v)) _ h8 in
      let (_, valid, h10) = passes (validate_stages stages) _ h9 in
      subst IsRunnable (ok-inj h10) (record {
        at_least_one = (limit_bounds n).0;
        at_most = (limit_bounds n).1;
        deployable = deployment_ok body model_id d named;
        pipeline = validate_stages-IsPipeline stages valid;
      })
