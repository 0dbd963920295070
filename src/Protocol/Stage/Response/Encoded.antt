-- ===== src/Protocol/Stage/Response/Encoded.antt =====
-- The members of an encoded response are in the range of their types.
use jetsonfabric.Base.{◌≤◌, length, arith}
use jetsonfabric.Inference.{max_payload_bytes}
use jetsonfabric.Protocol.Json.{Json, JsonLaws}
use jetsonfabric.Protocol.Message.{StageResponse}
use jetsonfabric.Protocol.Stage.Response.{
  response_identity, response_tensor, response_counts, response_body,
}
use jetsonfabric.Protocol.Stage.Response.Arrays.{AllWithin-writable, AllWithin-mono}
use jetsonfabric.Protocol.Stage.Response.RoundTrip.{IsTyped}
use jetsonfabric.Protocol.Stage.Response.Written.{written}
use jetsonfabric.Protocol.Stage.Writable.{
  AllWritable, writable-put, writable-put_if, writable-empty, int_writable, crc_writable,
  small_writable, frame-AllWritable,
}

module _ (json : Json) (laws : JsonLaws json) (r : StageResponse) (typed : IsTyped r) where
  identity-AllWritable : AllWritable json laws (response_identity json r)
  unfolding response_identity
  identity-AllWritable =
      writable-put json laws _ _ _
        (writable-put json laws _ _ _
          (writable-put json laws _ _ _
            (writable-put json laws _ _ _
              (writable-put json laws _ _ _
                (writable-put json laws _ _ _
                  (writable-put json laws _ _ _
                    (writable-put_if json laws _ _ _ _
                      (writable-put_if json laws _ _ _ _
                        (writable-put_if json laws _ _ _ _
                          (writable-put json laws _ _ _
                            (writable-put json laws _ _ _
                              (writable-put json laws _ _ _
                                (writable-put json laws _ _ _
                                  (writable-put json laws _ _ _ (writable-empty json laws)
                                    (omega arith))
                                  (tt))
                                (tt))
                              (tt))
                            (tt))
                          (tt))
                        (typed.epoch))
                      (tt))
                    (tt))
                  (int_writable r.decode_step typed.step))
                (int_writable r.stage_index typed.index))
              (int_writable r.stage_count typed.count))
            (tt))
          (int_writable r.layer_start typed.first))
        (int_writable r.layer_end typed.last)

  tensor-AllWritable :
      length r.payload ≤ max_payload_bytes → AllWritable json laws (response_tensor json r)
  unfolding response_tensor
  tensor-AllWritable small =
      writable-put json laws _ _ _
        (writable-put json laws _ _ _
          (writable-put json laws _ _ _
            (writable-put_if json laws _ _ _ _
              (writable-put_if json laws _ _ _ _
                (writable-put_if json laws _ _ _ _
                  (writable-put_if json laws _ _ _ _
                    (writable-put_if json laws _ _ _ _
                      (writable-put json laws _ _ _ (identity-AllWritable) (tt)) (tt))
                    (tt))
                  (typed.dims))
                (tt))
              (tt))
            (small_writable r.payload small))
          (crc_writable r.payload))
        (tt)

  counts-AllWritable :
      length r.payload ≤ max_payload_bytes → AllWritable json laws (response_counts json r)
  unfolding response_counts
  counts-AllWritable small =
      writable-put_if json laws _ _ _ _
        (writable-put_if json laws _ _ _ _
          (writable-put_if json laws _ _ _ _
            (writable-put_if json laws _ _ _ _
              (writable-put_if json laws _ _ _ _
                (writable-put_if json laws _ _ _ _
                  (writable-put_if json laws _ _ _ _
                    (writable-put_if json laws _ _ _ _
                      (writable-put_if json laws _ _ _ _
                        (writable-put_if json laws _ _ _ _
                          (writable-put_if json laws _ _ _ _
                            (writable-put_if json laws _ _ _ _
                              (writable-put_if json laws _ _ _ _ (tensor-AllWritable small)
                                (typed.received_bytes))
                              (typed.sent_bytes))
                            (int_writable r.prompt_tokens typed.prompt))
                          (AllWithin-writable r.prompt_token_ids typed.ids))
                        (int_writable r.completion_tokens typed.completion))
                      (int_writable r.execution_batch_size typed.batch))
                    (int_writable r.verification_width typed.width))
                  (int_writable r.latency_ms typed.latency))
                (typed.execution))
              (typed.decoding))
            (typed.encoding_time))
          (typed.total))
        (tt)

  body-AllWritable :
      length r.payload ≤ max_payload_bytes → AllWritable json laws (response_body json r)
  unfolding response_body
  body-AllWritable small =
      writable-put_if json laws _ _ _ _
        (writable-put_if json laws _ _ _ _
          (writable-put_if json laws _ _ _ _
            (writable-put_if json laws _ _ _ _ (counts-AllWritable small) (tt))
            (AllWithin-writable r.message (AllWithin-mono 255 r.message (omega arith) typed.bytes)))
          (AllWithin-writable r.token_text_offsets typed.offsets))
        (AllWithin-writable r.token_eog (AllWithin-mono 1 r.token_eog (omega arith) typed.flags))

  pub written-AllWritable :
      length r.payload ≤ max_payload_bytes → AllWritable json laws (written json laws r)
  written-AllWritable small =
      frame-AllWritable json laws (response_body json r) r.payload (body-AllWritable small) small
