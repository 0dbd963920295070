-- ===== src/Transport/MediaType.antt =====
-- runtime/transport/media_type.cpp: the comparison of Content-Type values. The parser's position is
-- the text behind it. The loop takes fuel, one unit a parameter and one for the end; each parameter
-- has a byte at least, so one more than the bytes is enough.
pub mod Grammar
use jetsonfabric.Base.{
  ◌≡◌, refl, ℕ, zero, suc, ◌+◌, Bool, true, false, not, ◌&&◌, ◌||◌, Option, none, some, Bytes, List,
  [], ◌∷◌, ◌++◌, length, ltb, leb, ◌==◌, if◌then◌else◌, test, ℕ_discrete,
}

infixl 1 ◌>>=◌ ◌>>◌
-- `return std::nullopt` at the first step that fails.
abbrev pub ◌>>=◌ {ℓ κ} : {A : Type ℓ} {B : Type κ} → Option A → (A → Option B) → Option B
none >>= rest = none
some value >>= rest = rest value

abbrev pub ◌>>◌ {ℓ} : {B : Type ℓ} → Option (Unit {0}) → Option B → Option B
step >> rest = step >>= λ _. rest

abbrev pub is_empty_text : Bytes → Bool
is_empty_text [] = true
is_empty_text (c ∷ s) = false

abbrev has_byte : ℕ → Bytes → Bool
has_byte c [] = false
has_byte c (b ∷ s) = c == b || has_byte c s

abbrev specials : Bytes
specials =
    b'!' ∷ b'#' ∷ b'$' ∷ b'%' ∷ b'&' ∷ b'\'' ∷ b'*' ∷ b'+' ∷ b'-' ∷ b'.' ∷ b'^' ∷ b'_' ∷ b'`' ∷ b'|'
    ∷ b'~' ∷ []

-- std::isalnum in the C locale, and the other characters of a token.
unfoldable pub is_token_character : ℕ → Bool
is_token_character c =
    leb b'0' c && leb c b'9'
    || leb b'A' c && leb c b'Z'
    || leb b'a' c && leb c b'z'
    || has_byte c specials

-- std::tolower in the C locale.
unfoldable pub to_lower : ℕ → ℕ
to_lower c = if leb b'A' c && leb c b'Z' then c + 32 else c

abbrev pub is_whitespace : ℕ → Bool
is_whitespace c = c == b' ' || c == b'\t'

unfoldable pub skip_whitespace : Bytes → Bytes
skip_whitespace [] = []
skip_whitespace (c ∷ s) = let rest = skip_whitespace s in if is_whitespace c then rest else c ∷ s

unfoldable pub consume : ℕ → Bytes → Option Bytes
consume expected [] = none
consume expected (c ∷ s) = if c == expected then some s else none

-- The token in lower case and what is behind it.
unfoldable pub read_token : Bytes → Bytes × Bytes
read_token [] = ([], [])
read_token (c ∷ s) =
    let (token, rest) = read_token s in
    if is_token_character c then (to_lower c ∷ token, rest) else ([], c ∷ s)

-- `if (read_token().empty()) return std::nullopt;`
unfoldable pub require_token : Bytes → Option (Bytes × Bytes)
require_token s =
    let (token, rest) = read_token s in if is_empty_text token then none else some (token, rest)

abbrev pub is_control : ℕ → Bool
is_control c = ltb c 0x20 && not (c == b'\t') || c == 0x7f

abbrev pub is_refused_escape : ℕ → Bool
is_refused_escape c = c == b'\r' || c == b'\n' || c == 0x7f

-- The loop of read_parameter_value behind the opening quote; the flag says whether the byte before
-- was a backslash.
unfoldable pub read_quoted : (escaped : Bool) → Bytes → Option Bytes
read_quoted escaped [] = none
read_quoted escaped (c ∷ s) =
    let rest = read_quoted (not escaped && c == b'\\') s in
    if escaped
    then if is_refused_escape c then none else rest
    else if c == b'"'
    then some s
    else if c == b'\\'
    then rest
    else if is_control c
    then none
    else rest

unfoldable pub read_parameter_value : Bytes → Option Bytes
read_parameter_value [] = none
read_parameter_value (c ∷ s) =
    if c == b'"' then read_quoted false s else do (token, rest) ← require_token (c ∷ s); some rest

-- A round of the loop behind the test for the end.
unfoldable pub read_parameter : Bytes → Option Bytes
read_parameter s = do
  name ← consume b';' s
  (token, rest) ← require_token (skip_whitespace name)
  value ← consume b'=' (skip_whitespace rest)
  read_parameter_value (skip_whitespace value)

unfoldable pub read_parameters : ℕ → Bytes → Option (Unit {0})
read_parameters zero s = none
read_parameters (suc fuel) s =
    let here = skip_whitespace s in
    let more = read_parameter here >>= read_parameters fuel in
    if is_empty_text here then some tt else more

unfoldable pub parse_media_type : Bytes → Option Bytes
parse_media_type value = do
  (type, slash) ← require_token (skip_whitespace value)
  behind ← consume b'/' slash
  (subtype, rest) ← require_token behind
  read_parameters (length rest + 1) rest
  some (type ++ b'/' ∷ subtype)

-- operator== of std::string, byte by byte.
unfoldable pub same_bytes : Bytes → Bytes → Bool
same_bytes [] [] = true
same_bytes (a ∷ s) (b ∷ t) = a == b && same_bytes s t
same_bytes _ _ = false

unfoldable pub same_type : Option Bytes → Option Bytes → Bool
same_type (some actual) (some expected) = same_bytes actual expected
same_type _ _ = false

unfoldable pub matches_media_type : Bytes → Bytes → Bool
matches_media_type value expected = same_type (parse_media_type value) (parse_media_type expected)
