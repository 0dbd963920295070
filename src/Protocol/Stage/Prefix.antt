-- ===== src/Protocol/Stage/Prefix.antt =====
-- The frame around the metadata of a message, whatever the message says.
use mathlib.Core.Path.{subst}
use jetsonfabric.Base.{
  ◌≡◌, refl, ap, sym, ◌∙◌, ◌+◌, ◌≤◌, ◌<◌, ◌≢◌, ◌^◌, ℕ, pos, ℤ-discrete, false, ◌||◌, Option, none,
  some, string_discrete, String, ◌++◌, Bytes, length, ◌==◌, ==_iff, ltb, Bool-cases, Option-cases,
  inl, inr, arith, append_assoc,
}
use jetsonfabric.Inference.{max_payload_bytes}
use jetsonfabric.Protocol.Control.{validate_stage_operation_name}
use jetsonfabric.Protocol.Fields.Reads.{read_int, read_int64, read_u32, read_string}
use jetsonfabric.Protocol.Frame.{
  crc32, encode_frame_prefix, frame_metadata, max_metadata_bytes, header_size,
  decode_stage_operation, operation_member, metadata_operation, check_metadata,
}
use jetsonfabric.Protocol.Frame.Header.{header, metadata_length_back}
use jetsonfabric.Protocol.Frame.Decodes.{framed, length-framed, metadata_of_framed}
use jetsonfabric.Protocol.Json.{
  ok, json_failure, ◌>>◌, reject_if, Json, JsonLaws, Field, Field.text, number, Matches,
}
use jetsonfabric.Protocol.Message.{stage_wire_version, stage_wire_transport}
use jetsonfabric.Protocol.Stage.Optional.{same}

pub ok-inj {ℓ} : {A : Type ℓ} {a b : A} → ok a ≡ ok b → a ≡ b
ok-inj e = cc

failure-ne-ok {ℓ} : {A : Type ℓ} {a : A} → json_failure ≢ ok a
failure-ne-ok e = cc

-- The parts of a metadata prefix that was made.
module _ (json : Json) (object : json.Object) (payload prefix : Bytes) (checksum : ℕ) where
  abbrev pub PrefixParts : Option Bytes → Type 0
  PrefixParts o =
      (s : Bytes) × (o ≡ some s)
      × (length s ≤ max_metadata_bytes)
      × (length payload ≤ max_payload_bytes)
      × (prefix ++ payload ≡ framed s payload)

  sized_parts :
      (s : Bytes)
      → (reject_if
            (ltb max_metadata_bytes (length s) || ltb max_payload_bytes (length payload))
            "stagewire frame is too large"
          >> ok (header (length s) (length payload) ++ s))
        ≡ ok prefix
      → PrefixParts (some s)
  sized_parts s h =
      elim (Bool-cases
        (ltb max_metadata_bytes (length s) || ltb max_payload_bytes (length payload))) [
          | inl large ↦ absurd (ground arith)
          | inr small ↦
              let e : header (length s) (length payload) ++ s ≡ prefix = ok-inj (rw small at h) in
              (
                s,
                refl,
                ground arith,
                ground arith,
                ap (λ x. x ++ payload) (sym e)
                    ∙ append_assoc (header (length s) (length payload)) s payload,
              )
        ]

  pub encode-PrefixParts :
      encode_frame_prefix json object payload checksum ≡ ok prefix
      → PrefixParts (json.dump (frame_metadata json object payload checksum))
  unfolding encode_frame_prefix
  encode-PrefixParts h =
      elim (Option-cases (json.dump (frame_metadata json object payload checksum))) [
        | inl e ↦ absurd (failure-ne-ok (rw (e, encode_frame_prefix) at h))
        | inr (s, e) ↦ rw e (sized_parts s (rw (e, encode_frame_prefix) at h))
      ]

member_read :
    (json : Json) (o : Option json.Value) (operation : String)
    → Matches json (some (text operation)) o
    → operation_member json o ≡ ok operation
unfolding operation_member
member_read json none operation m = absurd m
member_read json (some v) operation m = ground arith

-- The operation is read from the metadata alone, without the checks on the payload.
pub operation_read :
    (json : Json) (s payload : Bytes) (v : json.Value) (operation : String)
    → 0 < length s
    → length s ≤ max_metadata_bytes
    → json.parse s ≡ some v
    → Matches json (some (text operation)) (json.find v "operation")
    → validate_stage_operation_name operation ≡ ok tt
    → decode_stage_operation json (framed s payload) ≡ ok operation
unfolding decode_stage_operation metadata_operation
operation_read json s payload v operation some_text small p m named =
    let long : ltb (length (framed s payload)) header_size ≡ false =
      ground (arith, length-framed s payload) in
    let sized : ((length s == 0) || ltb (length (framed s payload)) (header_size + length s))
        ≡ false =
      ground (arith, length-framed s payload) in
    rw long (
      rw (metadata_length_back (length s) (length payload) (s ++ payload) (omega arith)) (
        rw sized (
          rw (metadata_of_framed s payload) (
            rw (p, metadata_operation)
              (rw (member_read json (json.find v "operation") operation m) (rw named))))))

crc32-lt : (payload : Bytes) → crc32 payload < 2 ^ 32
unfolding crc32
crc32-lt payload = omega arith

-- The members that describe the frame pass the receiver's checks.
module _ (json : Json) (laws : JsonLaws json) (object : json.Object) (payload : Bytes)
    (v : json.Value)
    (m : (k : String)
      → Matches json
          (laws.field (frame_metadata json object payload (crc32 payload)) k)
          (json.find v k)) where
  at :
      (k : String) (f : Field)
      → laws.field (frame_metadata json object payload (crc32 payload)) k ≡ some f
      → Matches json (some f) (json.find v k)
  at k f e = subst (λ o. Matches json o (json.find v k)) e (m k)

  version_at :
      Matches json (some (number (pos stage_wire_version))) (json.find v "protocol_version")
  unfolding frame_metadata
  version_at = at "protocol_version" (number (pos stage_wire_version)) (simp (laws.field-put))

  bytes_at : Matches json (some (number (pos (length payload)))) (json.find v "payload_bytes")
  unfolding frame_metadata
  bytes_at = at "payload_bytes" (number (pos (length payload))) (simp (laws.field-put))

  checksum_at : Matches json (some (number (pos (crc32 payload)))) (json.find v "payload_crc32")
  unfolding frame_metadata
  checksum_at = at "payload_crc32" (number (pos (crc32 payload))) (simp (laws.field-put))

  transport_at : Matches json (some (text stage_wire_transport)) (json.find v "transport")
  unfolding frame_metadata
  transport_at = at "transport" (text stage_wire_transport) (simp (laws.field-put))

  pub frame_checked : check_metadata json v stage_wire_version payload ≡ ok tt
  unfolding check_metadata
  frame_checked = rw (
    read_int json v "protocol_version" (pos stage_wire_version) (pos 0) (omega arith) version_at,
    read_int64 json v "payload_bytes" (pos (length payload)) (pos 0) bytes_at,
    read_u32 json v "payload_crc32" (crc32 payload) 0 (crc32-lt payload) checksum_at,
    read_string json v "transport" stage_wire_transport "" transport_at,
    same ℤ-discrete (pos stage_wire_version),
    same ℤ-discrete (pos (length payload)),
    (==_iff (crc32 payload) _).1 refl,
    same string_discrete stage_wire_transport,
  )
