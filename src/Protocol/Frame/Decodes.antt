-- ===== src/Protocol/Frame/Decodes.antt =====
-- A frame that is put together from a header, metadata and a payload is taken apart into the same.
use jetsonfabric.Base.{
  ◌≡◌, refl, ap, sym, ◌∙◌, ◌+◌, ◌≤◌, ◌<◌, ℕ, false, true, ◌||◌, ◌++◌, Bytes, length, length-append,
  take, drop, arith, ==_iff, ◌==◌, ltb,
}
use jetsonfabric.Inference.{max_payload_bytes}
use jetsonfabric.Protocol.Fields.{parse_metadata}
use jetsonfabric.Protocol.Frame.{
  header_size, max_metadata_bytes, has_magic, read_u32_be, read_u64_be, check_metadata,
  decode_frame, append_u16_be, append_u32_be, append_u64_be,
}
use jetsonfabric.Protocol.Frame.Header.{
  header, drop-add, take-length_append, drop-length_append, version_back, flags_back,
  metadata_length_back, payload_length_back, drop-header, length_frame,
}
use jetsonfabric.Protocol.Json.{ok, Json}

has_magic-header : (m p : ℕ) (rest : Bytes) → has_magic (header m p ++ rest) ≡ true
unfolding has_magic append_u16_be append_u32_be append_u64_be
has_magic-header m p rest = refl

module _ (s payload : Bytes) where
  abbrev pub framed : Bytes
  framed = header (length s) (length payload) ++ (s ++ payload)

  pub length-framed : length framed ≡ header_size + length s + length payload
  length-framed =
      omega
        (arith, length_frame (length s) (length payload) (s ++ payload), length-append s payload)

  pub metadata_of_framed : take (length s) (drop header_size framed) ≡ s
  metadata_of_framed =
      rw (drop-header (length s) (length payload) (s ++ payload)) (take-length_append s payload)

  payload_of_framed : drop (header_size + length s) framed ≡ payload
  payload_of_framed =
      drop-add header_size (length s) framed
      ∙ ap (drop (length s)) (drop-header (length s) (length payload) (s ++ payload))
      ∙ drop-length_append s payload

  module _ (json : Json) (v : json.Value) (some_text : 0 < length s)
      (small : length s ≤ max_metadata_bytes) (fits : length payload ≤ max_payload_bytes) where
    metadata_length : read_u32_be framed 8 ≡ length s
    metadata_length = metadata_length_back (length s) (length payload) (s ++ payload) (omega arith)

    payload_length : read_u64_be framed 12 ≡ length payload
    payload_length = payload_length_back (length s) (length payload) (s ++ payload) (omega arith)

    long_enough : ltb (length framed) header_size ≡ false
    long_enough = ground (arith, length-framed)

    sizes_allowed :
        ((length s == 0)
          || ltb max_metadata_bytes (length s)
          || ltb max_payload_bytes (length payload))
        ≡ false
    sizes_allowed = ground arith

    size_agrees : (header_size + length s + length payload == length framed) ≡ true
    size_agrees = (==_iff _ _).1 (sym length-framed)

    pub decode_framed :
        parse_metadata json s ≡ ok v
        → check_metadata json v 2 payload ≡ ok tt
        → decode_frame json framed ≡ ok (record { metadata = v; payload = payload })
    unfolding decode_frame
    decode_framed p c =
        rw (long_enough, has_magic-header (length s) (length payload) (s ++ payload))
          (rw (version_back (length s) (length payload) (s ++ payload)) (
            rw (flags_back (length s) (length payload) (s ++ payload)) (
              rw (metadata_length, payload_length)
                (rw (sizes_allowed, size_agrees)
                  (rw (metadata_of_framed, payload_of_framed) (rw p (rw c)))))))
