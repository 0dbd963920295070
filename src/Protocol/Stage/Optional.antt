-- ===== src/Protocol/Stage/Optional.antt =====
-- What is read of a member that the sender leaves out where it has its default value.
use jetsonfabric.Base.{
  ◌≡◌, refl, ap, sym, ◌∙◌, ℕ, ℤ, ℤ-discrete, true, not, none, some, String, List, [], ◌∷◌, test,
  string_discrete, Bool-cases, inl, inr, if◌then◌else◌,
}
use jetsonfabric.Protocol.Fields.{
  extract_int, extract_int64, extract_string, extract_u64, extract_shape,
}
use jetsonfabric.Protocol.Fields.Reads.{
  Is-Int, read_int, no_int, read_int64, no_int64, read_string, no_string, read_u64, no_u64,
  read_shape, no_shape,
}
use jetsonfabric.Protocol.Json.{ok, Json, Field.text, number, natural, numbers, Matches}
use jetsonfabric.Protocol.Stage.{is_text, shape_is_empty}

-- A member that is left out where it is the default.
module _ (json : Json) (body : json.Value) (key : String) where
  open json use {find}

  pub optional_string :
      (s : String)
      → Matches json (if not (is_text s "") then some (text s) else none) (find body key)
      → extract_string json body key "" ≡ ok s
  optional_string s m =
      elim (string_discrete s "")
          as (λ d.
            Matches json (if not (test d) then some (text s) else none) (find body key)
            → extract_string json body key "" ≡ ok s) [
              | yes e ↦ λ m. no_string json body key "" m ∙ ap ok (sym e)
              | no n ↦ λ m. read_string json body key s "" m
            ]
        m

  pub optional_int :
      (n d : ℤ)
      → Is-Int n
      → Matches json (if not (test (ℤ-discrete n d)) then some (number n) else none) (find body key)
      → extract_int json body key d ≡ ok n
  optional_int n d i m =
      elim (ℤ-discrete n d)
          as (λ t.
            Matches json (if not (test t) then some (number n) else none) (find body key)
            → extract_int json body key d ≡ ok n) [
              | yes e ↦ λ m. no_int json body key d m ∙ ap ok (sym e)
              | no _ ↦ λ m. read_int json body key n d i m
            ]
        m

  pub optional_int64 :
      (n d : ℤ)
      → Matches json (if not (test (ℤ-discrete n d)) then some (number n) else none) (find body key)
      → extract_int64 json body key d ≡ ok n
  optional_int64 n d m =
      elim (ℤ-discrete n d)
          as (λ t.
            Matches json (if not (test t) then some (number n) else none) (find body key)
            → extract_int64 json body key d ≡ ok n) [
              | yes e ↦ λ m. no_int64 json body key d m ∙ ap ok (sym e)
              | no _ ↦ λ m. read_int64 json body key n d m
            ]
        m

pub optional_shape :
    (json : Json) (body : json.Value) (ns : List ℤ)
    → Matches json
        (if not (shape_is_empty ns) then some (numbers ns) else none)
        (json.find body "shape")
    → extract_shape json body ≡ ok ns
unfolding shape_is_empty
optional_shape json body [] m = no_shape json body m
optional_shape json body (n ∷ ns) m = read_shape json body (n ∷ ns) m

pub same {ℓ} : {A : Type ℓ} (d : Discrete A) (x : A) → test (d x x) ≡ true
same d x = elim (d x x) as (λ t. test t ≡ true) [ yes _ ↦ refl | no n ↦ absurd (n refl) ]

-- A member that is left out of a request without a deployment.
module _ (json : Json) (body : json.Value) (key : String) (d : String) where
  open json use {find}

  pub managed_string :
      (s : String)
      → (is_text d "" ≡ true → s ≡ "")
      → Matches json (if not (is_text d "") then some (text s) else none) (find body key)
      → extract_string json body key "" ≡ ok s
  managed_string s e m = elim (Bool-cases (is_text d "")) [
    | inl t ↦ no_string json body key "" (rw t at m) ∙ ap ok (sym (e t))
    | inr f ↦ read_string json body key s "" (rw f at m)
  ]

  pub managed_natural :
      (n : ℕ)
      → (is_text d "" ≡ true → n ≡ 0)
      → Matches json (if not (is_text d "") then some (natural n) else none) (find body key)
      → extract_u64 json body key 0 ≡ ok n
  managed_natural n e m = elim (Bool-cases (is_text d "")) [
    | inl t ↦ no_u64 json body key 0 (rw t at m) ∙ ap ok (sym (e t))
    | inr f ↦ read_u64 json body key n 0 (rw f at m)
  ]
