-- ===== src/Transport/MediaType/Grammar/Written.antt =====
-- How the parser of runtime/transport/media_type.cpp reads what the grammar derives.
use jetsonfabric.Base.{
  ◌≡◌, refl, ℕ, zero, suc, ◌+◌, ◌≤◌, ◌<◌, false, Bytes, List, [], ◌∷◌, ◌++◌, some, arith, length,
  length-append,
}
use jetsonfabric.Transport.MediaType.{
  is_token_character, read_parameter, read_parameters, parse_media_type,
}
use jetsonfabric.Transport.MediaType.Grammar.{
  IsSpace, Value, token, quoted, Parameter, IsParameter, AreParameters, MediaType, IsMediaType,
  put_value, put_quoted, put_definition, put_parameters, print, type_name, plain, escaped,
  QuotedByte,
}
use jetsonfabric.Transport.MediaType.Grammar.Scans.{
  Stops, token-Stops, space_not_token, space-Stops, value-Stops, skip_whitespace-IsSpace,
  skip_whitespace-append, require_token-append, consume_self, read_parameter_value-put,
}

stop_at : (c : ℕ) (s : Bytes) → is_token_character c ≡ false → Stops is_token_character (c ∷ s)
stop_at c s h = h

semicolon_stops : is_token_character b';' ≡ false
unfolding is_token_character
semicolon_stops = refl

equals_stops : is_token_character b'=' ≡ false
unfolding is_token_character
equals_stops = refl

slash_stops : is_token_character b'/' ≡ false
unfolding is_token_character
slash_stops = refl

parameters_stop :
    (ps : List Parameter) (behind : Bytes)
    → AreParameters ps
    → IsSpace behind
    → Stops is_token_character (put_parameters ps behind)
parameters_stop [] [] h space = tt
parameters_stop [] (c ∷ s) h space = space_not_token c space.0
parameters_stop (p ∷ ps) behind (h, hs) space =
    space-Stops p.before (b';' ∷ put_definition p (put_parameters ps behind)) h.before_space
      semicolon_stops

read_parameter-put :
    (p : Parameter) (rest : Bytes)
    → IsParameter p
    → Stops is_token_character rest
    → read_parameter (b';' ∷ put_definition p rest) ≡ some rest
unfolding read_parameter
read_parameter-put p rest h stop =
    let value : Bytes = put_value p.value rest in
    let equals : Bytes = b'=' ∷ (p.before_value ++ value) in
    rw
      (
        consume_self b';' (put_definition p rest),
        skip_whitespace-append p.before_name (p.name ++ (p.behind_name ++ equals))
            h.before_name_space (token-Stops p.name (p.behind_name ++ equals) h.name_token),
        require_token-append p.name (p.behind_name ++ equals) h.name_token
            (space-Stops p.behind_name equals h.behind_name_space equals_stops),
        skip_whitespace-append p.behind_name equals h.behind_name_space refl,
        consume_self b'=' (p.before_value ++ value),
        skip_whitespace-append p.before_value value h.before_value_space
            (value-Stops p.value rest h.value_well_formed),
      )
      (read_parameter_value-put p.value rest h.value_well_formed stop)

length-put_quoted : (q : List QuotedByte) (rest : Bytes) → length rest ≤ length (put_quoted q rest)
length-put_quoted [] rest = omega arith
length-put_quoted (plain c ∷ q) rest = omega (arith, length-put_quoted q rest)
length-put_quoted (escaped c ∷ q) rest = omega (arith, length-put_quoted q rest)

length-put_value : (v : Value) (rest : Bytes) → length rest ≤ length (put_value v rest)
length-put_value (token t) rest = omega (arith, length-append t rest)
length-put_value (quoted q) rest = omega (arith, length-put_quoted q rest)

length-behind : (w s : Bytes) (c : ℕ) → length s ≤ length (w ++ c ∷ s)
length-behind w s c = omega (arith, length-append w (c ∷ s))

length-put_definition :
    (p : Parameter) (rest : Bytes) → length rest ≤ length (put_definition p rest)
length-put_definition p rest =
    let value : Bytes = put_value p.value rest in
    let equals : Bytes = b'=' ∷ (p.before_value ++ value) in
    let whole : length (put_definition p rest)
        ≡ length p.before_name + (length p.name + (length p.behind_name + length equals)) =
      rw
        (
          length-append p.before_name (p.name ++ (p.behind_name ++ equals)),
          length-append p.name (p.behind_name ++ equals),
          length-append p.behind_name equals,
        )
        refl in
    omega (arith, whole, length-put_value p.value rest, length-append p.before_value value)

read_parameters-put :
    (fuel : ℕ) (ps : List Parameter) (behind : Bytes)
    → AreParameters ps
    → IsSpace behind
    → length (put_parameters ps behind) < fuel
    → read_parameters fuel (put_parameters ps behind) ≡ some tt
unfolding read_parameters
read_parameters-put zero ps behind h space enough = absurd (omega arith)
read_parameters-put (suc fuel) [] behind h space enough =
    rw (skip_whitespace-IsSpace behind space) refl
read_parameters-put (suc fuel) (p ∷ ps) behind (h, hs) space enough =
    let rest : Bytes = put_parameters ps behind in
    rw
      (
        skip_whitespace-append p.before (b';' ∷ put_definition p rest) h.before_space refl,
        read_parameter-put p rest h (parameters_stop ps behind hs space),
      )
      (read_parameters-put fuel ps behind hs space (
        omega (
          arith,
          length-put_definition p rest,
          length-append p.before (b';' ∷ put_definition p rest),
        )))

pub parse_media_type-print :
    (m : MediaType) → IsMediaType m → parse_media_type (print m) ≡ some (type_name m)
unfolding parse_media_type
parse_media_type-print m h =
    let rest : Bytes = put_parameters m.parameters m.behind in
    let slash : Bytes = b'/' ∷ (m.subtype ++ rest) in
    rw
      (
        skip_whitespace-append m.before (m.kind ++ slash) h.before_space
            (token-Stops m.kind slash h.kind_token),
        require_token-append m.kind slash h.kind_token slash_stops,
        consume_self b'/' (m.subtype ++ rest),
        require_token-append m.subtype rest h.subtype_token
            (parameters_stop m.parameters m.behind h.parameters_well_formed h.behind_space),
        read_parameters-put (length rest + 1) m.parameters m.behind h.parameters_well_formed
            h.behind_space (omega arith),
      )
      refl
