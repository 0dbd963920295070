-- ===== src/Protocol/Stage/Request/Decoded.antt =====
-- Every request that the sender encodes is the request that the receiver decodes.
use mathlib.Core.Path.{subst}
use jetsonfabric.Base.{◌≡◌, ap, sym, ◌∙◌, ℤ, String, ◌++◌, Bytes, length, arith}
use jetsonfabric.Protocol.Control.{validate_stage_operation, validate_stage_operation_name}
use jetsonfabric.Protocol.Fields.{parse_metadata}
use jetsonfabric.Protocol.Frame.{crc32, encode_frame_prefix, decode_stage_operation}
use jetsonfabric.Protocol.Frame.Decodes.{decode_framed}
use jetsonfabric.Protocol.Json.{ok, passes, Json, JsonLaws, Matches}
use jetsonfabric.Protocol.Message.{StageRequest}
use jetsonfabric.Protocol.Stage.{
  validate_deployment_identity, validate_tensor_metadata, validate_max_tokens,
}
use jetsonfabric.Protocol.Stage.Prefix.{ok-inj, encode-PrefixParts, operation_read, frame_checked}
use jetsonfabric.Protocol.Stage.Request.{
  decode_stage_request, encode_stage_request, encode_stage_request_frame, flatten, request_body,
}
use jetsonfabric.Protocol.Stage.Request.Encoded.{written-AllWritable}
use jetsonfabric.Protocol.Stage.Request.RoundTrip.{IsTyped, received, fields_ok}
use jetsonfabric.Protocol.Stage.Request.Written.{operation_written}

same_tokens : (n m : ℤ) → validate_max_tokens n ≡ ok m → m ≡ n
unfolding validate_max_tokens
same_tokens n m h = ground arith

-- What an encoded request was checked for.
module _ (json : Json) (r : StageRequest) (operation : String) (frame : Bytes) where
  record IsEncoded : Type 0 where
    control : validate_stage_operation operation r.rollback_tokens ≡ ok tt
    tokens : validate_max_tokens r.max_tokens ≡ ok r.max_tokens
    tensor :
        validate_tensor_metadata r.payload_kind r.encoding r.dtype r.shape r.byte_order r.layout
          (length r.payload)
        ≡ ok tt
    identity :
        validate_deployment_identity r.deployment_id r.deployment_epoch r.model_sha256 ≡ ok tt
    prefix : Bytes
    made :
        encode_frame_prefix json (request_body json r operation) r.payload (crc32 r.payload)
        ≡ ok prefix
    whole : prefix ++ r.payload ≡ frame

  encode_parts : encode_stage_request json r operation ≡ ok frame → IsEncoded
  unfolding encode_stage_request encode_stage_request_frame flatten
  encode_parts h =
      let (f, e, g) = passes (encode_stage_request_frame json r operation) _ h in
      let (_, e1, h1) = passes (validate_stage_operation operation r.rollback_tokens) _ e in
      let (t, e2, h2) = passes (validate_max_tokens r.max_tokens) _ h1 in
      let (_, e3, h3) =
        passes
          (validate_tensor_metadata r.payload_kind r.encoding r.dtype r.shape r.byte_order r.layout
            (length r.payload))
          _ h2 in
      let (_, e4, h4) =
        passes (validate_deployment_identity r.deployment_id r.deployment_epoch r.model_sha256) _
          h3 in
      let (p, e5, h5) =
        passes
          (encode_frame_prefix json (request_body json (record r { max_tokens = t }) operation)
            r.payload (crc32 r.payload))
          _ h4 in
      let same = same_tokens r.max_tokens t e2 in
      record {
        control = e1;
        tokens = e2 ∙ ap ok same;
        tensor = e3;
        identity = e4;
        prefix = p;
        made =
            subst
              (λ n.
                encode_frame_prefix json (request_body json (record r { max_tokens = n }) operation)
                  r.payload (crc32 r.payload)
                ≡ ok p)
              same e5;
        whole = ap (flatten json) (ok-inj h5) ∙ ok-inj g;
      }

operation_named :
    (operation : String) (n : ℤ)
    → validate_stage_operation operation n ≡ ok tt
    → validate_stage_operation_name operation ≡ ok tt
unfolding validate_stage_operation
operation_named operation n h =
    let (_, e, _) = passes (validate_stage_operation_name operation) _ h in e

-- A request whose numbers fit the types of their fields is decoded, from the frame that it was
-- encoded to with an operation, as the same request with what describes the frame filled in: the
-- version, the transport, and the size and the checksum of the payload; and the operation
-- decoded from the frame is that operation. The JSON library is any that reads back what it writes.
pub decode-encode_stage_request :
    (json : Json) (laws : JsonLaws json) (r : StageRequest) (operation : String) {frame : Bytes}
    → IsTyped r
    → encode_stage_request json r operation ≡ ok frame
    → (decode_stage_request json frame ≡ ok (received r))
      × (decode_stage_operation json frame ≡ ok operation)
unfolding decode_stage_request parse_metadata
decode-encode_stage_request json laws r operation {frame} typed h =
    let e = encode_parts json r operation frame h in
    let (s, dumped, small, fits, joined) =
      encode-PrefixParts json (request_body json r operation) r.payload e.prefix (crc32 r.payload)
        e.made in
    let some_text = laws.dump_not_empty _ s dumped in
    let (v, parsed, object, matches) =
      laws.dump_parses _ s (written-AllWritable json laws r operation typed fits) dumped in
    (
      subst (λ f. decode_stage_request json f ≡ ok (received r)) (sym joined ∙ e.whole)
          (rw
            (decode_framed s r.payload json v some_text small fits
              (rw (parsed, parse_metadata) (rw object))
              (frame_checked json laws (request_body json r operation) r.payload v matches))
            (fields_ok json laws r operation typed v matches e.identity e.tokens e.tensor)),
      subst (λ f. decode_stage_operation json f ≡ ok operation) (sym joined ∙ e.whole)
          (operation_read json s r.payload v operation some_text small parsed
            (subst (λ o. Matches json o (json.find v "operation"))
              (operation_written json laws r operation) (matches "operation"))
            (operation_named operation r.rollback_tokens e.control)),
    )
