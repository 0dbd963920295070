-- ===== src/Activation/Codec.antt =====
-- runtime/activation/builtin_activation_codecs.cpp and activation_codec_factory.cpp: the codecs that a
-- stage worker uses, and the factory that makes one by its name.
pub mod RoundTrip
use jetsonfabric.Activation.Half.{float_to_half, half_to_float}
use jetsonfabric.Base.{
  ◌≡◌, ◌+◌, ◌*◌, ◌/◌, ◌%◌, ◌^◌, ℕ, Bool, true, false, not, Option, none, some, String, ◌<>◌, Bytes,
  List, [], ◌∷◌, length, test, string_discrete, ◌==◌, is_some, if◌then◌else◌,
}
use jetsonfabric.Inference.{Payload, PayloadKind.activation, kind_discrete}
use jetsonfabric.Pipeline.Worker.{
  ActivationCodec, Fallible, returned, throws_invalid_argument, throws_exception,
}

abbrev is_text : String → String → Bool
is_text s t = test (string_discrete s t)

-- `require_activation` and `require_dtype`, and then the rest of the function.
unfoldable pub with_activation : String → Payload → Fallible Payload → Fallible Payload
with_activation dtype p rest =
    if not (test (kind_discrete p.kind activation))
    then throws_invalid_argument "activation codec requires an activation payload"
    else if not (is_text p.tensor.dtype dtype)
    then throws_invalid_argument
        ("activation codec expected " <> dtype <> " input, got " <> p.tensor.dtype)
    else rest

unfoldable pub f32_codec : ActivationCodec
f32_codec = record {
  encode = λ p. with_activation "f32" p (returned p);
  decode = λ p. with_activation "f32" p (returned p);
}

abbrev pub append_u16 : ℕ → Bytes → Bytes
append_u16 v rest = v % 256 ∷ v / 2 ^ 8 % 256 ∷ rest

abbrev pub append_u32 : ℕ → Bytes → Bytes
append_u32 v rest = v % 256 ∷ v / 2 ^ 8 % 256 ∷ v / 2 ^ 16 % 256 ∷ v / 2 ^ 24 % 256 ∷ rest

-- The loop of F16ActivationCodec::encode, one float a round.
unfoldable pub encode_halves : Bytes → Bytes
encode_halves (a ∷ b ∷ c ∷ d ∷ rest) =
    append_u16 (float_to_half (a + b * 2 ^ 8 + c * 2 ^ 16 + d * 2 ^ 24)) (encode_halves rest)
encode_halves _ = []

-- The loop of F16ActivationCodec::decode, one half a round.
unfoldable pub decode_halves : Bytes → Bytes
decode_halves (a ∷ b ∷ rest) = append_u32 (half_to_float (a + b * 2 ^ 8)) (decode_halves rest)
decode_halves _ = []

unfoldable pub retyped : String → Bytes → Payload → Payload
retyped dtype bytes p = record p { tensor = record p.tensor { dtype = dtype }; bytes = bytes }

unfoldable pub f16_encode : Payload → Fallible Payload
unfolding with_activation retyped encode_halves
f16_encode p = with_activation "f32" p (
    if not (length p.bytes % 4 == 0)
    then throws_invalid_argument "f32 activation byte length must be divisible by four"
    else returned (retyped "f16" (encode_halves p.bytes) p))

unfoldable pub f16_decode : Payload → Fallible Payload
unfolding with_activation retyped decode_halves
f16_decode p = with_activation "f16" p (
    if not (length p.bytes % 2 == 0)
    then throws_invalid_argument "f16 activation byte length must be divisible by two"
    else returned (retyped "f32" (decode_halves p.bytes) p))

unfoldable pub f16_codec : ActivationCodec
f16_codec = record { encode = f16_encode; decode = f16_decode }

-- A codec with its name. What a builder makes is none if it is a null pointer.
pub record NamedCodec : Type 0 where
  pub name : String
  pub codec : ActivationCodec

-- The map of builders, of which a later one never replaces an earlier one.
abbrev pub Builders : Type 0
Builders = List (String × Option NamedCodec)

unfoldable pub find_builder : Builders → String → Option (Option NamedCodec)
find_builder [] name = none
find_builder ((n, b) ∷ builders) name =
    if is_text n name then some b else find_builder builders name

-- `has_builder` is false for a builder without a function.
unfoldable pub register_codec : String → Bool → Option NamedCodec → Builders → Fallible Builders
unfolding find_builder
register_codec name has_builder builder builders =
    if is_text name ""
    then throws_invalid_argument "activation codec name must not be empty"
    else if not has_builder
    then throws_invalid_argument "activation codec builder must not be empty"
    else if is_some (find_builder builders name)
    then throws_invalid_argument "activation codec is already registered"
    else returned ((name, builder) ∷ builders)

unfoldable pub supports : Builders → String → Bool
unfolding find_builder
supports builders name = is_some (find_builder builders name)

unfoldable pub create_codec : Builders → String → Fallible ActivationCodec
unfolding find_builder
create_codec builders name = elim (find_builder builders name) [
  | none ↦ throws_invalid_argument ("unsupported activation encoding: " <> name)
  | some built ↦ elim built [
    | none ↦ throws_exception ("activation codec builder returned null: " <> name)
    | some c ↦
        if not (is_text c.name name)
        then throws_exception
            ("activation codec registered as " <> name <> " returned strategy " <> c.name)
        else returned c.codec
  ]
]

unfoldable pub then_register : String → NamedCodec → Fallible Builders → Fallible Builders
unfolding register_codec
then_register name c (returned builders) = register_codec name true (some c) builders
then_register name c (throws_invalid_argument what) = throws_invalid_argument what
then_register name c (throws_exception what) = throws_exception what

unfoldable pub make_default_activation_codec_factory : Fallible Builders
unfolding then_register
make_default_activation_codec_factory =
    then_register "f16" (record { name = "f16"; codec = f16_codec })
      (then_register "f32" (record { name = "f32"; codec = f32_codec }) (returned []))
