-- ===== src/Transport/MediaType/Grammar.antt =====
-- The grammar of a Content-Type value, apart from the parser of runtime/transport/media_type.cpp:
-- its parts as data, and how they are written.
pub mod Scans
pub mod Written
pub mod Sound
pub mod Matches
use jetsonfabric.Base.{◌≡◌, ◌≢◌, ℕ, true, false, Bool, Bytes, List, [], ◌∷◌, ◌++◌, map}
use jetsonfabric.Transport.MediaType.{
  is_token_character, is_whitespace, is_control, is_refused_escape, to_lower,
}

abbrev pub All : (ℕ → Bool) → Bytes → Type 0
All p [] = Unit {0}
All p (c ∷ s) = (p c ≡ true) × All p s

abbrev pub IsToken : Bytes → Type 0
IsToken [] = ⊥
IsToken (c ∷ s) = (is_token_character c ≡ true) × All is_token_character s

abbrev pub IsSpace : Bytes → Type 0
IsSpace = All is_whitespace

-- A byte inside a quoted string, alone or behind a backslash.
pub data QuotedByte : Type 0 where
  plain escaped : ℕ → QuotedByte

abbrev pub IsQuotable : List QuotedByte → Type 0
IsQuotable [] = Unit {0}
IsQuotable (plain c ∷ q) = (c ≢ b'"') × (c ≢ b'\\') × (is_control c ≡ false) × IsQuotable q
IsQuotable (escaped c ∷ q) = (is_refused_escape c ≡ false) × IsQuotable q

pub data Value : Type 0 where
  token : Bytes → Value
  quoted : List QuotedByte → Value

abbrev pub IsValue : Value → Type 0
IsValue (token t) = IsToken t
IsValue (quoted q) = IsQuotable q

pub record Parameter : Type 0 where
  pub before : Bytes
  pub before_name : Bytes
  pub name : Bytes
  pub behind_name : Bytes
  pub before_value : Bytes
  pub value : Value

pub record IsParameter (p : Parameter) : Type 0 where
  pub before_space : IsSpace p.before
  pub before_name_space : IsSpace p.before_name
  pub name_token : IsToken p.name
  pub behind_name_space : IsSpace p.behind_name
  pub before_value_space : IsSpace p.before_value
  pub value_well_formed : IsValue p.value

abbrev pub AreParameters : List Parameter → Type 0
AreParameters [] = Unit {0}
AreParameters (p ∷ ps) = IsParameter p × AreParameters ps

pub record MediaType : Type 0 where
  pub before : Bytes
  pub kind : Bytes
  pub subtype : Bytes
  pub parameters : List Parameter
  pub behind : Bytes

pub record IsMediaType (m : MediaType) : Type 0 where
  pub before_space : IsSpace m.before
  pub kind_token : IsToken m.kind
  pub subtype_token : IsToken m.subtype
  pub parameters_well_formed : AreParameters m.parameters
  pub behind_space : IsSpace m.behind

-- Each part is written before the rest of the text.
abbrev pub put_quoted : List QuotedByte → Bytes → Bytes
put_quoted [] rest = b'"' ∷ rest
put_quoted (plain c ∷ q) rest = c ∷ put_quoted q rest
put_quoted (escaped c ∷ q) rest = b'\\' ∷ c ∷ put_quoted q rest

abbrev pub put_value : Value → Bytes → Bytes
put_value (token t) rest = t ++ rest
put_value (quoted q) rest = b'"' ∷ put_quoted q rest

abbrev pub put_definition : Parameter → Bytes → Bytes
put_definition p rest =
    p.before_name
    ++ (p.name ++ (p.behind_name ++ b'=' ∷ (p.before_value ++ put_value p.value rest)))

abbrev pub put_parameters : List Parameter → Bytes → Bytes
put_parameters [] rest = rest
put_parameters (p ∷ ps) rest = p.before ++ b';' ∷ put_definition p (put_parameters ps rest)

abbrev pub print : MediaType → Bytes
print m = m.before ++ (m.kind ++ b'/' ∷ (m.subtype ++ put_parameters m.parameters m.behind))

abbrev pub type_name : MediaType → Bytes
type_name m = map to_lower m.kind ++ b'/' ∷ map to_lower m.subtype

-- A value that the grammar derives, and the name of its type in lower case.
abbrev pub Denotes : Bytes → Bytes → Type 0
Denotes value name = (m : MediaType) × IsMediaType m × (value ≡ print m) × (name ≡ type_name m)
