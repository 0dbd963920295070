-- ===== src/Protocol/Stage/Response/Arrays.antt =====
-- The arrays of numbers of a response, and its message, which is a text or an array of bytes.
use jetsonfabric.Base.{
  ◌≡◌, refl, ◌^◌, ◌-◌, ◌≤◌, ℕ, pos, ltb_ℤ, Bool, true, false, not, ◌&&◌, ◌||◌, none, some, String,
  Bytes, List, [], ◌∷◌, map, ltb, if◌then◌else◌, arith,
}
use jetsonfabric.Protocol.Fields.{
  unsigned_elements, extract_unsigned_array, extract_byte_string, extract_bytes, to_unsigned,
}
use jetsonfabric.Protocol.Fields.Reads.{present, absent, int64_of}
use jetsonfabric.Protocol.Json.{ok, Json, raw, numbers, Matches, Hold-numbers, All-Int64}
use jetsonfabric.Protocol.Stage.Response.{is_nil, decode_message}

abbrev pub AllWithin : ℕ → List ℕ → Type 0
AllWithin maximum [] = Unit {0}
AllWithin maximum (n ∷ ns) = (n ≤ maximum) × AllWithin maximum ns

pub AllWithin-writable : (ns : List ℕ) → AllWithin (2 ^ 32 - 1) ns → All-Int64 (map pos ns)
AllWithin-writable [] h = tt
AllWithin-writable (n ∷ ns) h = (omega arith, AllWithin-writable ns h.1)

pub AllWithin-mono :
    (m : ℕ) (ns : List ℕ) → m ≤ 2 ^ 32 - 1 → AllWithin m ns → AllWithin (2 ^ 32 - 1) ns
AllWithin-mono m [] l h = tt
AllWithin-mono m (n ∷ ns) l h = (omega arith, AllWithin-mono m ns l h.1)

module _ (json : Json) where
  open json use {Value, find}

  elements_back :
      (key complaint : String) (maximum : ℕ) (ns : List ℕ) (vs : List Value)
      → AllWithin maximum ns
      → Hold-numbers json (map pos ns) vs
      → unsigned_elements json key complaint maximum vs ≡ ok ns
  unfolding unsigned_elements
  elements_back key complaint maximum [] [] w h = refl
  elements_back key complaint maximum [] (v ∷ vs) w h = absurd h
  elements_back key complaint maximum (n ∷ ns) [] w h = absurd h
  elements_back key complaint maximum (n ∷ ns) (v ∷ vs) w h =
      let small : (ltb_ℤ (pos n) (pos 0) || ltb maximum (to_unsigned (pos n))) ≡ false =
        ground arith in
      rw (int64_of json v key (pos n) h.0)
        (rw small (rw (elements_back key complaint maximum ns vs w.1 h.1)))

  pub optional_unsigned :
      (body : Value) (key : String) (maximum : ℕ) (ns : List ℕ)
      → AllWithin maximum ns
      → Matches json (if not (is_nil ns) then some (numbers (map pos ns)) else none) (find body key)
      → extract_unsigned_array json body key maximum ≡ ok ns
  unfolding extract_unsigned_array is_nil
  optional_unsigned body key maximum [] w m =
      rw (absent json body key (find body key) refl m, extract_unsigned_array)
  optional_unsigned body key maximum (n ∷ ns) w m =
      let (v, e, h) = present json body key (numbers (map pos (n ∷ ns))) (find body key) refl m in
      rw (e, extract_unsigned_array)
        (rw h.1 (elements_back key _ maximum (n ∷ ns) (json.elements v) w h.2))

  read_bytes :
      (body : Value) (s : Bytes)
      → Matches json (some (raw s)) (find body "message")
      → extract_bytes json body "message" [] ≡ ok s
  unfolding extract_bytes
  read_bytes body s m =
      let (v, e, h) = present json body "message" (raw s) (find body "message") refl m in
      rw (e, extract_bytes) (ground arith)

  no_bytes :
      (body : Value)
      → Matches json none (find body "message")
      → extract_bytes json body "message" [] ≡ ok []
  unfolding extract_bytes
  no_bytes body m = rw (absent json body "message" (find body "message") refl m, extract_bytes)

  byte_string_back :
      (body : Value) (s : Bytes)
      → AllWithin 255 s
      → Matches json (some (numbers (map pos s))) (find body "message_bytes")
      → extract_byte_string json body "message_bytes" ≡ ok s
  unfolding extract_byte_string
  byte_string_back body s w m =
      let (v, e, h) =
        present json body "message_bytes" (numbers (map pos s)) (find body "message_bytes") refl
          m in
      rw (e, extract_byte_string)
        (rw h.1 (elements_back "message_bytes" _ 255 s (json.elements v) w h.2))

  no_byte_string :
      (body : Value)
      → Matches json none (find body "message_bytes")
      → extract_byte_string json body "message_bytes" ≡ ok []
  unfolding extract_byte_string
  no_byte_string body m =
      rw (absent json body "message_bytes" (find body "message_bytes") refl m, extract_byte_string)

  -- The message comes back whether it was written as text or as bytes.
  pub message_back :
      (body : Value) (s : Bytes) (is_text : Bool)
      → AllWithin 255 s
      → Matches json
          (if not (is_nil s) && is_text then some (raw s) else none)
          (find body "message")
      → Matches json
          (if not (is_nil s) && not is_text then some (numbers (map pos s)) else none)
          (find body "message_bytes")
      → decode_message json body ≡ ok s
  unfolding decode_message is_nil
  message_back body [] t w m b = rw (no_byte_string body b) (no_bytes body m)
  message_back body (c ∷ s) true w m b = rw (no_byte_string body b) (read_bytes body (c ∷ s) m)
  message_back body (c ∷ s) false w m b = rw (byte_string_back body (c ∷ s) w b)
