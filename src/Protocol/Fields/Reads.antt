-- ===== src/Protocol/Fields/Reads.antt =====
-- What is read back of a member that was written, and of one that was left out.
use jetsonfabric.Base.{
  ◌≡◌, refl, ◌^◌, ◌<◌, ℕ, ℤ, pos, negsuc, ltb_ℤ, false, ◌||◌, Option, none, some, String, List, [],
  ◌∷◌, arith,
}
use jetsonfabric.Protocol.Fields.{
  int_min, int_max, optional_field, json_int64_value, extract_int, extract_int64, extract_u32,
  extract_u64, extract_string, extract_shape, shape_elements,
}
use jetsonfabric.Protocol.Json.{
  ok, Json, Field, Field.text, raw, number, natural, numbers, Matches, Holds, Holds-number,
  Hold-numbers,
}

abbrev pub Is-Int : ℤ → Type 0
Is-Int (pos n) = n < 2 ^ 31
Is-Int (negsuc n) = n < 2 ^ 31

module _ (json : Json) where
  open json use {Value, find, is_null, is_integer, is_string, get_int64}

  -- A member that is there, and a member that was left out.
  pub present :
      (body : Value) (key : String) (f : Field) (o : Option Value)
      → find body key ≡ o
      → Matches json (some f) o
      → (v : Value) × (optional_field json body key ≡ some v) × Holds json f v
  unfolding optional_field
  present body key f none e m = absurd m
  present body key (text s) (some v) e m = (v, ground arith, m)
  present body key (raw s) (some v) e m = (v, ground arith, m)
  present body key (number n) (some v) e m = (v, ground arith, m)
  present body key (natural n) (some v) e m = (v, ground arith, m)
  present body key (numbers ns) (some v) e m = (v, ground arith, m)

  pub absent :
      (body : Value) (key : String) (o : Option Value)
      → find body key ≡ o
      → Matches json none o
      → optional_field json body key ≡ none
  unfolding optional_field
  absent body key none e m = ground arith
  absent body key (some v) e m = absurd m

  pub int64_of :
      (v : Value) (key : String) (n : ℤ)
      → Holds-number json n v
      → json_int64_value json v key ≡ ok n
  unfolding json_int64_value
  int64_of v key n h = ground arith

  in_int : (n : ℤ) → Is-Int n → (ltb_ℤ n int_min || ltb_ℤ int_max n) ≡ false
  in_int (pos n) h = ground arith
  in_int (negsuc n) h = ground arith

  module _ (body : Value) (key : String) where
    pub read_string :
        (s d : String)
        → Matches json (some (text s)) (find body key)
        → extract_string json body key d ≡ ok s
    unfolding extract_string
    read_string s d m =
        let (v, e, h) = present body key (text s) (find body key) refl m in
        rw (e, extract_string) (ground arith)

    pub no_string :
        (d : String) → Matches json none (find body key) → extract_string json body key d ≡ ok d
    unfolding extract_string
    no_string d m = rw (absent body key (find body key) refl m, extract_string)

    pub read_int64 :
        (n d : ℤ)
        → Matches json (some (number n)) (find body key)
        → extract_int64 json body key d ≡ ok n
    unfolding extract_int64
    read_int64 n d m =
        let (v, e, h) = present body key (number n) (find body key) refl m in
        rw (e, extract_int64) (int64_of v key n h)

    pub no_int64 :
        (d : ℤ) → Matches json none (find body key) → extract_int64 json body key d ≡ ok d
    unfolding extract_int64
    no_int64 d m = rw (absent body key (find body key) refl m, extract_int64)

    pub read_int :
        (n d : ℤ)
        → Is-Int n
        → Matches json (some (number n)) (find body key)
        → extract_int json body key d ≡ ok n
    unfolding extract_int
    read_int n d i m =
        let (v, e, h) = present body key (number n) (find body key) refl m in
        rw (e, extract_int) (rw (int64_of v key n h) (rw (in_int n i)))

    pub no_int : (d : ℤ) → Matches json none (find body key) → extract_int json body key d ≡ ok d
    unfolding extract_int
    no_int d m = rw (absent body key (find body key) refl m, extract_int)

    pub read_u32 :
        (n d : ℕ)
        → n < 2 ^ 32
        → Matches json (some (number (pos n))) (find body key)
        → extract_u32 json body key d ≡ ok n
    unfolding extract_u32
    read_u32 n d i m = rw (read_int64 (pos n) (pos d) m) (ground arith)

    pub read_u64 :
        (n d : ℕ)
        → Matches json (some (natural n)) (find body key)
        → extract_u64 json body key d ≡ ok n
    unfolding extract_u64
    read_u64 n d m =
        let (v, e, h) = present body key (natural n) (find body key) refl m in
        rw (e, extract_u64) (ground arith)

    pub no_u64 : (d : ℕ) → Matches json none (find body key) → extract_u64 json body key d ≡ ok d
    unfolding extract_u64
    no_u64 d m = rw (absent body key (find body key) refl m, extract_u64)

  shape_back :
      (ns : List ℤ) (vs : List Value) → Hold-numbers json ns vs → shape_elements json vs ≡ ok ns
  unfolding shape_elements
  shape_back [] [] h = refl
  shape_back [] (v ∷ vs) h = absurd h
  shape_back (n ∷ ns) [] h = absurd h
  shape_back (n ∷ ns) (v ∷ vs) h = rw (int64_of v "shape" n h.0) (rw (shape_back ns vs h.1))

  pub read_shape :
      (body : Value) (ns : List ℤ)
      → Matches json (some (numbers ns)) (find body "shape")
      → extract_shape json body ≡ ok ns
  unfolding extract_shape
  read_shape body ns m =
      let (v, e, h) = present body "shape" (numbers ns) (find body "shape") refl m in
      rw (e, extract_shape) (rw h.1 (shape_back ns _ h.2))

  pub no_shape :
      (body : Value) → Matches json none (find body "shape") → extract_shape json body ≡ ok []
  unfolding extract_shape
  no_shape body m = rw (absent body "shape" (find body "shape") refl m, extract_shape)
