-- ===== src/Tests/Activations.antt =====
-- Activations as halves.
use jetsonfabric.Activation.Codec.{f16_codec}
use jetsonfabric.Activation.Codec.RoundTrip.{encode-decode_f16}
use jetsonfabric.Activation.Half.{float_to_half}
use jetsonfabric.Activation.Half.Nearest.{Rounds, float_to_half-Rounds}
use jetsonfabric.Base.{◌≡◌, refl, pos, [], ◌∷◌, arith}
use jetsonfabric.Inference.{Payload, activation}
use jetsonfabric.Pipeline.Worker.{returned}

-- Minus 0.1, which no half is equal to.
float_to_half-Rounds_example : Rounds 0xbdcccccd (float_to_half 0xbdcccccd)
float_to_half-Rounds_example = float_to_half-Rounds 0xbdcccccd (omega arith)

-- 1.0, the least subnormal half, and minus infinity.
abbrev halves : Payload
halves = record {
  kind = activation;
  encoding = "";
  tensor = record {
    dtype = "f16";
    shape = pos 3 ∷ [];
    byte_order = "little";
    layout = "row_major";
  };
  bytes = 0 ∷ 60 ∷ 1 ∷ 0 ∷ 0 ∷ 252 ∷ [];
}

encode-decode_f16_example :
    (q : Payload) × (f16_codec.decode halves ≡ returned q) × (f16_codec.encode q ≡ returned halves)
encode-decode_f16_example = encode-decode_f16 halves refl refl (ground arith)
