-- ===== src/Tests/Json.antt =====
-- A JSON library that can write one object, so that the laws of the messages' library can hold.
use package.text.Mathlib.Text.{◌==◌ as str_eq}
use package.text.Mathlib.TextEquality.{eq_iff}
use jetsonfabric.Base.{
  ◌≡◌, refl, ℕ, ℤ, ℤ-discrete, ℕ_discrete, string_discrete, Bool, true, false, Option, none, some,
  String, Bytes, List, [], ◌∷◌, map, if◌then◌else◌, arith,
}
use jetsonfabric.Protocol.Json.{
  Json, JsonLaws, Field, Field.text, raw, number, natural, numbers, Matches, Holds, Hold-numbers,
}

pub data Value : Type 0 where
  object : List (String × Field) → Value
  leaf : Field → Value
  item : ℤ → Value

abbrev pub Members : Type 0
Members = List (String × Field)

unfoldable pub lookup : Members → String → Option Field
lookup [] k = none
lookup ((j, f) ∷ m) k = if str_eq j k then some f else lookup m k

unfoldable pub put : Members → String → Field → Members
put [] k f = (k, f) ∷ []
put ((j, g) ∷ m) k f = if str_eq j k then (k, f) ∷ m else (j, g) ∷ put m k f

lookup-put :
    (b : Members) (j : String) (f : Field) (k : String)
    → lookup (put b j f) k ≡ (if str_eq j k then some f else lookup b k)
unfolding lookup put
lookup-put [] j f k = refl
lookup-put ((i, g) ∷ m) j f k =
    ground (arith, eq_iff i j, eq_iff i k, eq_iff j k, lookup-put m j f k)

unfoldable pub members_discrete : Discrete Members
members_discrete = hlevel (string_discrete, ℕ_discrete, ℤ-discrete)

abbrev find : Value → String → Option Value
find (object m) k = elim (lookup m k) [ none ↦ none | some f ↦ some (leaf f) ]
find v k = none

abbrev is_object : Value → Bool
is_object (object m) = true
is_object v = false

abbrev is_string : Value → Bool
is_string (leaf (text s)) = true
is_string (leaf (raw s)) = true
is_string v = false

abbrev is_array : Value → Bool
is_array (leaf (numbers ns)) = true
is_array v = false

abbrev is_integer : Value → Bool
is_integer (leaf (number n)) = true
is_integer (item n) = true
is_integer v = false

abbrev is_unsigned : Value → Bool
is_unsigned (leaf (natural n)) = true
is_unsigned v = false

abbrev elements : Value → List Value
elements (leaf (numbers ns)) = map item ns
elements v = []

abbrev get_string : Value → String
get_string (leaf (text s)) = s
get_string v = ""

abbrev get_bytes : Value → Bytes
get_bytes (leaf (raw s)) = s
get_bytes v = []

abbrev get_int64 : Value → Option ℤ
get_int64 (leaf (number n)) = some n
get_int64 (item n) = some n
get_int64 v = none

abbrev get_uint64 : Value → ℕ
get_uint64 (leaf (natural n)) = n
get_uint64 v = 0

module _ (known : Members) where
  -- The text of the known object is the byte 1.
  unfoldable pub parse : Bytes → Option Value
  parse [] = none
  parse (c ∷ s) = some (object known)

  unfoldable pub dump : Members → Option Bytes
  dump b = elim (members_discrete b known) [ yes e ↦ some (1 ∷ []) | no n ↦ none ]

  abbrev pub library : Json
  library = record {
    Value = Value;
    parse = parse;
    parse_error = λ s. "syntax error";
    is_object = is_object;
    is_null = λ v. false;
    is_string = is_string;
    is_array = is_array;
    is_integer = is_integer;
    is_unsigned = is_unsigned;
    find = find;
    elements = elements;
    get_string = get_string;
    get_bytes = get_bytes;
    get_int64 = get_int64;
    get_uint64 = get_uint64;
    Object = Members;
    empty = [];
    put = put;
    dump = dump;
  }

  items_hold : (ns : List ℤ) → Hold-numbers library ns (map item ns)
  items_hold [] = tt
  items_hold (n ∷ ns) = ((refl, refl, refl), items_hold ns)

  leaf-Holds : (f : Field) → Holds library f (leaf f)
  leaf-Holds (text s) = (refl, refl, refl)
  leaf-Holds (raw s) = (refl, refl, refl)
  leaf-Holds (number n) = (refl, refl, refl)
  leaf-Holds (natural n) = (refl, refl, refl)
  leaf-Holds (numbers ns) = (refl, refl, items_hold ns)

  leaf_matches :
      (o : Option Field) → Matches library o (elim o [ none ↦ none | some f ↦ some (leaf f) ])
  leaf_matches none = tt
  leaf_matches (some f) = leaf-Holds f

  dumped : (b : Members) (s : Bytes) → dump b ≡ some s → (b ≡ known) × (s ≡ 1 ∷ [])
  unfolding dump
  dumped b s =
      elim (members_discrete b known)
        as (λ d.
          (elim d [ yes e ↦ some (1 ∷ []) | no n ↦ none ]) ≡ some s → (b ≡ known) × (s ≡ 1 ∷ [])) [
            | yes e ↦ λ h. (e, cc)
            | no n ↦ λ h. absurd (cc)
          ]

  pub library_laws : JsonLaws library
  unfolding lookup parse
  library_laws = record {
    field = lookup;
    field-empty = λ k. refl;
    field-put = lookup-put;
    dump_not_empty = λ b s h. rw ((dumped b s h).1) (omega arith);
    dump_parses = λ b s w h. (
      object known,
      rw ((dumped b s h).1),
      refl,
      λ k. rw ((dumped b s h).0) (leaf_matches (lookup known k)),
    );
  }
