-- ===== src/Protocol/Stage/Request/Encoded.antt =====
-- The members of an encoded request are in the range of their types.
use jetsonfabric.Base.{◌≤◌, String, length, arith}
use jetsonfabric.Inference.{max_payload_bytes}
use jetsonfabric.Protocol.Json.{Json, JsonLaws}
use jetsonfabric.Protocol.Message.{StageRequest}
use jetsonfabric.Protocol.Stage.Request.{request_body, request_identity}
use jetsonfabric.Protocol.Stage.Request.RoundTrip.{IsTyped}
use jetsonfabric.Protocol.Stage.Request.Written.{written}
use jetsonfabric.Protocol.Stage.Writable.{
  AllWritable, writable-put, writable-put_if, writable-empty, int_writable, crc_writable,
  small_writable, frame-AllWritable,
}

module _ (json : Json) (laws : JsonLaws json) (r : StageRequest) (operation : String)
    (typed : IsTyped r) where
  identity-AllWritable : AllWritable json laws (request_identity json r operation)
  unfolding request_identity
  identity-AllWritable =
      writable-put json laws _ _ _
        (writable-put json laws _ _ _
          (writable-put json laws _ _ _
            (writable-put json laws _ _ _
              (writable-put json laws _ _ _
                (writable-put json laws _ _ _
                  (writable-put json laws _ _ _
                    (writable-put_if json laws _ _ _ _
                      (writable-put_if json laws _ _ _ _
                        (writable-put_if json laws _ _ _ _
                          (writable-put json laws _ _ _
                            (writable-put json laws _ _ _
                              (writable-put json laws _ _ _
                                (writable-put json laws _ _ _
                                  (writable-put json laws _ _ _ (writable-empty json laws)
                                    (omega arith))
                                  (tt))
                                (tt))
                              (tt))
                            (tt))
                          (tt))
                        (typed.epoch))
                      (tt))
                    (tt))
                  (int_writable r.decode_step typed.step))
                (int_writable r.stage_index typed.index))
              (int_writable r.stage_count typed.count))
            (tt))
          (int_writable r.layer_start typed.first))
        (int_writable r.layer_end typed.last)

  body-AllWritable :
      length r.payload ≤ max_payload_bytes → AllWritable json laws (request_body json r operation)
  unfolding request_body
  body-AllWritable small =
      writable-put_if json laws _ _ _ _
        (writable-put json laws _ _ _
          (writable-put json laws _ _ _
            (writable-put json laws _ _ _
              (writable-put json laws _ _ _
                (writable-put_if json laws _ _ _ _
                  (writable-put_if json laws _ _ _ _
                    (writable-put_if json laws _ _ _ _
                      (writable-put_if json laws _ _ _ _
                        (writable-put_if json laws _ _ _ _
                          (writable-put json laws _ _ _ (identity-AllWritable) (tt)) (tt))
                        (tt))
                      (typed.dims))
                    (tt))
                  (tt))
                (small_writable r.payload small))
              (crc_writable r.payload))
            (tt))
          (int_writable r.max_tokens typed.tokens))
        (int_writable r.rollback_tokens typed.rollback)

  pub written-AllWritable :
      length r.payload ≤ max_payload_bytes → AllWritable json laws (written json laws r operation)
  written-AllWritable small =
      frame-AllWritable json laws (request_body json r operation) r.payload (body-AllWritable small)
        small
