-- ===== src/Protocol/Stage/Response/Decoded.antt =====
-- Every response that a stage encodes is the response that its caller decodes.
use mathlib.Core.Path.{subst}
use jetsonfabric.Base.{◌≡◌, sym, ap, ◌∙◌, ◌++◌, Bytes, length}
use jetsonfabric.Protocol.Control.{validate_stage_operation_name}
use jetsonfabric.Protocol.Fields.{parse_metadata}
use jetsonfabric.Protocol.Frame.{crc32, encode_frame_prefix}
use jetsonfabric.Protocol.Frame.Decodes.{decode_framed}
use jetsonfabric.Protocol.Json.{ok, passes, Json, JsonLaws}
use jetsonfabric.Protocol.Message.{StageResponse}
use jetsonfabric.Protocol.Stage.{validate_deployment_identity}
use jetsonfabric.Protocol.Stage.Prefix.{ok-inj, encode-PrefixParts, frame_checked}
use jetsonfabric.Protocol.Stage.Request.{flatten}
use jetsonfabric.Protocol.Stage.Response.{
  check_widths, check_payload, decode_stage_response, encode_stage_response,
  encode_stage_response_frame, response_body,
}
use jetsonfabric.Protocol.Stage.Response.Encoded.{written-AllWritable}
use jetsonfabric.Protocol.Stage.Response.RoundTrip.{IsTyped, received, fields_ok}

-- What an encoded response was checked for.
module _ (json : Json) (r : StageResponse) (frame : Bytes) where
  record IsEncoded : Type 0 where
    named : validate_stage_operation_name r.operation ≡ ok tt
    widths : check_widths r.execution_batch_size r.verification_width ≡ ok tt
    tensor :
        check_payload r.error r.payload_kind r.encoding r.dtype r.shape r.byte_order r.layout
          (length r.payload)
        ≡ ok tt
    identity :
        validate_deployment_identity r.deployment_id r.deployment_epoch r.model_sha256 ≡ ok tt
    prefix : Bytes
    made : encode_frame_prefix json (response_body json r) r.payload (crc32 r.payload) ≡ ok prefix
    whole : prefix ++ r.payload ≡ frame

  encode_parts : encode_stage_response json r ≡ ok frame → IsEncoded
  unfolding encode_stage_response encode_stage_response_frame flatten
  encode_parts h =
      let (f, e, g) = passes (encode_stage_response_frame json r) _ h in
      let (_, e1, h1) = passes (validate_stage_operation_name r.operation) _ e in
      let (_, e2, h2) = passes (check_widths r.execution_batch_size r.verification_width) _ h1 in
      let (_, e3, h3) =
        passes
          (check_payload r.error r.payload_kind r.encoding r.dtype r.shape r.byte_order r.layout
            (length r.payload))
          _ h2 in
      let (_, e4, h4) =
        passes (validate_deployment_identity r.deployment_id r.deployment_epoch r.model_sha256) _
          h3 in
      let (p, e5, h5) =
        passes (encode_frame_prefix json (response_body json r) r.payload (crc32 r.payload)) _ h4 in
      record {
        named = e1;
        widths = e2;
        tensor = e3;
        identity = e4;
        prefix = p;
        made = e5;
        whole = ap (flatten json) (ok-inj h5) ∙ ok-inj g;
      }

-- A response whose numbers fit the types of their fields, with flags of 0 or 1 and a message of bytes,
-- is decoded, from the frame that it was encoded to, as the same response with what describes
-- the frame filled in: the version, the transport, and the size and the checksum of the payload;
-- its message comes back byte by byte, also where it is no UTF-8. The JSON library is any that reads
-- back what it writes.
pub decode-encode_stage_response :
    (json : Json) (laws : JsonLaws json) (r : StageResponse) {frame : Bytes}
    → IsTyped r
    → encode_stage_response json r ≡ ok frame
    → decode_stage_response json frame ≡ ok (received r)
unfolding decode_stage_response parse_metadata
decode-encode_stage_response json laws r {frame} typed h =
    let e = encode_parts json r frame h in
    let (s, dumped, small, fits, joined) =
      encode-PrefixParts json (response_body json r) r.payload e.prefix (crc32 r.payload) e.made in
    let some_text = laws.dump_not_empty _ s dumped in
    let (v, parsed, object, matches) =
      laws.dump_parses _ s (written-AllWritable json laws r typed fits) dumped in
    subst (λ f. decode_stage_response json f ≡ ok (received r)) (sym joined ∙ e.whole)
      (rw
        (decode_framed s r.payload json v some_text small fits
          (rw (parsed, parse_metadata) (rw object))
          (frame_checked json laws (response_body json r) r.payload v matches))
        (fields_ok json laws r typed v matches e.named e.identity e.widths e.tensor))
