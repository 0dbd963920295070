-- ===== src/Tests/MediaTypes.antt =====
-- Media types, with parameters and without, and the comparison of two of them.
use jetsonfabric.Base.{◌≡◌, refl, ◌↔◌, true, false, Bytes, codes}
use jetsonfabric.Transport.MediaType.{
  matches_media_type, parse_media_type, same_type, same_bytes, require_token, read_token, consume,
  skip_whitespace, read_parameters, read_parameter, read_parameter_value, read_quoted,
  is_token_character, to_lower,
}
use jetsonfabric.Transport.MediaType.Grammar.{Denotes}
use jetsonfabric.Transport.MediaType.Grammar.Matches.{matches_media_type-Denotes}

abbrev json : Bytes
json = codes "application/json"

abbrev json_with_charset : Bytes
json_with_charset = codes " Application/JSON ; Charset = \"utf\\\"8\"; q=1 "

matches_tests :
    (matches_media_type json_with_charset json ≡ true)
    × (matches_media_type (codes "text/plain") json ≡ false)
    × (matches_media_type (codes "application/json;") json ≡ false)
    × (matches_media_type (codes "application/json; charset") json ≡ false)
    × (matches_media_type (codes "application/json; charset=\"utf-8") json ≡ false)
    × (matches_media_type (codes "application/json x") json ≡ false)
unfolding matches_media_type parse_media_type same_type same_bytes require_token read_token consume
    skip_whitespace read_parameters read_parameter read_parameter_value read_quoted
    is_token_character to_lower
matches_tests = (refl, refl, refl, refl, refl, refl)

matches_media_type-Denotes_example :
    (matches_media_type json_with_charset json ≡ true)
    ↔ ((name : Bytes) × Denotes json_with_charset name × Denotes json name)
matches_media_type-Denotes_example = matches_media_type-Denotes json_with_charset json
