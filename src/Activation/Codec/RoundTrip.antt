-- ===== src/Activation/Codec/RoundTrip.antt =====
-- Activations in halves survive the codec.
use jetsonfabric.Activation.Codec.{
  with_activation, encode_halves, decode_halves, retyped, f16_encode, f16_decode, f16_codec,
}
use jetsonfabric.Activation.Half.{half_to_float}
use jetsonfabric.Activation.Half.Again.{is_nan, half_again, half_to_float-lt}
use jetsonfabric.Base.{
  ◌≡◌, refl, sym, ◌∙◌, ◌+◌, ◌*◌, ◌/◌, ◌%◌, ◌^◌, ◌<◌, ℕ, true, false, String, Bytes, [], ◌∷◌, length,
  test, string_discrete, arith,
}
use jetsonfabric.Inference.{Payload, PayloadKind.activation, kind_discrete}
use jetsonfabric.Pipeline.Worker.{Fallible, returned}

-- Pairs of bytes that are no not-a-number.
abbrev pub AllNumbers : Bytes → Type 0
AllNumbers (a ∷ b ∷ rest) =
    (a < 256) × (b < 256) × (is_nan (a + b * 2 ^ 8) ≡ false) × AllNumbers rest
AllNumbers (a ∷ []) = ⊥
AllNumbers [] = Unit {0}

word_again :
    (w : ℕ)
    → w < 2 ^ 32
    → w % 256 + w / 2 ^ 8 % 256 * 2 ^ 8 + w / 2 ^ 16 % 256 * 2 ^ 16 + w / 2 ^ 24 % 256 * 2 ^ 24 ≡ w
word_again w h = omega arith

low_again : (a b : ℕ) → a < 256 → b < 256 → (a + b * 2 ^ 8) % 256 ≡ a
low_again a b h k = omega arith

high_again : (a b : ℕ) → a < 256 → b < 256 → (a + b * 2 ^ 8) / 2 ^ 8 % 256 ≡ b
high_again a b h k = omega arith

halves_again : (s : Bytes) → AllNumbers s → encode_halves (decode_halves s) ≡ s
unfolding encode_halves decode_halves
halves_again [] h = refl
halves_again (a ∷ []) h = absurd h
halves_again (a ∷ b ∷ rest) h =
    let v : a + b * 2 ^ 8 < 2 ^ 16 = omega (arith, h.0, h.1) in
    rw (word_again (half_to_float (a + b * 2 ^ 8)) (half_to_float-lt (a + b * 2 ^ 8) v)) (
      rw (half_again (a + b * 2 ^ 8) v h.2)
        (rw (low_again a b h.0 h.1, high_again a b h.0 h.1, halves_again rest h.3) refl))

AllNumbers-even : (s : Bytes) → AllNumbers s → length s % 2 ≡ 0
AllNumbers-even [] h = refl
AllNumbers-even (a ∷ []) h = absurd h
AllNumbers-even (a ∷ b ∷ rest) h = omega (arith, AllNumbers-even rest h.3)

decoded-words : (s : Bytes) → length (decode_halves s) % 4 ≡ 0
unfolding decode_halves
decoded-words [] = refl
decoded-words (a ∷ []) = refl
decoded-words (a ∷ b ∷ rest) = omega (arith, decoded-words rest)

same_text : (s : String) → test (string_discrete s s) ≡ true
same_text s = elim (string_discrete s s) as (λ t. test t ≡ true) [
  | yes _ ↦ refl
  | no n ↦ absurd (n refl)
]

accepted :
    (dtype : String) (p : Payload) (rest : Fallible Payload)
    → p.kind ≡ activation
    → p.tensor.dtype ≡ dtype
    → with_activation dtype p rest ≡ rest
unfolding with_activation kind_discrete
accepted dtype p rest k d = rw (k, d) (rw (same_text dtype))

-- An activation payload of halves, none of which is a not-a-number, is decoded to a payload of floats
-- that the codec encodes to the payload it was decoded from.
pub encode-decode_f16 :
    (p : Payload)
    → p.kind ≡ activation
    → p.tensor.dtype ≡ "f16"
    → AllNumbers p.bytes
    → (q : Payload) × (f16_codec.decode p ≡ returned q) × (f16_codec.encode q ≡ returned p)
unfolding f16_codec f16_encode f16_decode retyped
encode-decode_f16 p k d h = (
  retyped "f32" (decode_halves p.bytes) p,
  accepted "f16" p _ k d ∙ rw (AllNumbers-even p.bytes h),
  accepted "f32" (retyped "f32" (decode_halves p.bytes) p) _ k refl
      ∙ rw (decoded-words p.bytes) (rw (halves_again p.bytes h) (rw (sym d))),
)
