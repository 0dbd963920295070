-- ===== src/Protocol/Json.antt =====
-- What the messages use of the JSON library, which is not part of the repository, as a record of
-- operations, with the documented behaviour that round trips rely on; and the results of code that
-- throws std::invalid_argument.
use package.text.Mathlib.Text.{◌==◌ as str_eq}
use jetsonfabric.Base.{
  ◌≡◌, refl, ◌<◌, ◌^◌, ℕ, ℤ, pos, negsuc, Bool, true, false, Option, none, some, String, Bytes,
  List, [], ◌∷◌, if◌then◌else◌, length,
}

-- `invalid` is a std::invalid_argument with its message, `json_failure` an exception of the library.
pub data Checked {ℓ} (A : Type ℓ) : Type ℓ where
  ok : A → Checked A
  invalid : String → Checked A
  json_failure : Checked A

infixl 5 ◌>>=◌ ◌>>◌
abbrev pub ◌>>=◌ {ℓ κ} : {A : Type ℓ} {B : Type κ} → Checked A → (A → Checked B) → Checked B
json_failure >>= rest = json_failure
invalid what >>= rest = invalid what
ok value >>= rest = rest value

abbrev pub ◌>>◌ {ℓ} : {B : Type ℓ} → Checked (Unit {0}) → Checked B → Checked B
check >> rest = check >>= λ _. rest

-- A step that did not throw has a value, from which the rest went on.
abbrev pub Passes {ℓ κ} : {A : Type ℓ} {B : Type κ} → Checked A → (A → Checked B) → B → Type (ℓ ⊔ κ)
Passes {A} step rest result = (value : A) × (step ≡ ok value) × (rest value ≡ ok result)

pub passes {ℓ κ} :
    {A : Type ℓ} {B : Type κ} (step : Checked A) (rest : A → Checked B) {result : B}
    → (step >>= rest) ≡ ok result
    → Passes step rest result
passes json_failure rest done = absurd (cc)
passes (invalid what) rest done = absurd (cc)
passes (ok value) rest done = (value, refl, done)

-- `if (bad) throw std::invalid_argument(message);`
abbrev pub reject_if : Bool → String → Checked (Unit {0})
reject_if true message = invalid message
reject_if false message = ok tt

-- What the program assigns to a member of an object. `raw` is a std::string taken as its bytes.
pub data Field : Type 0 where
  text : String → Field
  raw : Bytes → Field
  number : ℤ → Field
  natural : ℕ → Field
  numbers : List ℤ → Field

pub record Json : Type 1 where
  pub Value : Type 0
  -- `none` is the parse error.
  pub parse : Bytes → Option Value
  -- What its exception says.
  pub parse_error : Bytes → String
  pub is_object : Value → Bool
  pub is_null : Value → Bool
  pub is_string : Value → Bool
  pub is_array : Value → Bool
  pub is_integer : Value → Bool
  pub is_unsigned : Value → Bool
  pub find : Value → String → Option Value
  pub elements : Value → List Value
  pub get_string : Value → String
  pub get_bytes : Value → Bytes
  -- `none` is an exception of the library.
  pub get_int64 : Value → Option ℤ
  pub get_uint64 : Value → ℕ
  pub Object : Type 0
  pub empty : Object
  -- `body[key] = field`
  pub put : Object → String → Field → Object
  pub dump : Object → Option Bytes

abbrev pub Is-Int64 : ℤ → Type 0
Is-Int64 (pos n) = n < 2 ^ 63
Is-Int64 (negsuc n) = n < 2 ^ 63

abbrev pub All-Int64 : List ℤ → Type 0
All-Int64 [] = Unit {0}
All-Int64 (n ∷ ns) = Is-Int64 n × All-Int64 ns

-- The fields whose numbers are in the range of the types that they come from.
abbrev pub Is-Writable : Field → Type 0
Is-Writable (text s) = Unit {0}
Is-Writable (raw s) = Unit {0}
Is-Writable (number n) = Is-Int64 n
Is-Writable (natural n) = n < 2 ^ 64
Is-Writable (numbers ns) = All-Int64 ns

module _ (json : Json) where
  open json use {
    Value, parse, is_object, is_null, is_string, is_array, is_integer, is_unsigned, find, elements,
    get_string, get_bytes, get_int64, get_uint64, Object, empty, put, dump,
  }

  abbrev pub Holds-number : ℤ → Value → Type 0
  Holds-number n v = (is_null v ≡ false) × (is_integer v ≡ true) × (get_int64 v ≡ some n)

  abbrev pub Hold-numbers : List ℤ → List Value → Type 0
  Hold-numbers [] [] = Unit {0}
  Hold-numbers [] (v ∷ vs) = ⊥
  Hold-numbers (n ∷ ns) [] = ⊥
  Hold-numbers (n ∷ ns) (v ∷ vs) = Holds-number n v × Hold-numbers ns vs

  -- How a value that was written reads.
  abbrev pub Holds : Field → Value → Type 0
  Holds (text s) v = (is_null v ≡ false) × (is_string v ≡ true) × (get_string v ≡ s)
  Holds (raw s) v = (is_null v ≡ false) × (is_string v ≡ true) × (get_bytes v ≡ s)
  Holds (number n) v = Holds-number n v
  Holds (natural n) v = (is_null v ≡ false) × (is_unsigned v ≡ true) × (get_uint64 v ≡ n)
  Holds (numbers ns) v = (is_null v ≡ false) × (is_array v ≡ true) × Hold-numbers ns (elements v)

  abbrev pub Matches : Option Field → Option Value → Type 0
  Matches none none = Unit {0}
  Matches none (some v) = ⊥
  Matches (some f) none = ⊥
  Matches (some f) (some v) = Holds f v

  -- The text of an object is not empty, and parses to an object with the same members.
  pub record JsonLaws : Type 0 where
    pub field : Object → String → Option Field
    pub field-empty : (k : String) → field empty k ≡ none
    pub field-put :
        (b : Object) (j : String) (f : Field) (k : String)
        → field (put b j f) k ≡ (if str_eq j k then some f else field b k)
    pub dump_not_empty : (b : Object) (s : Bytes) → dump b ≡ some s → 0 < length s
    pub dump_parses :
        (b : Object) (s : Bytes)
        → ((k : String) (f : Field) → field b k ≡ some f → Is-Writable f)
        → dump b ≡ some s
        → (v : Value) × (parse s ≡ some v)
          × (is_object v ≡ true)
          × ((k : String) → Matches (field b k) (find v k))
