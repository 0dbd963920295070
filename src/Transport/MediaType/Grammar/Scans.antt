-- ===== src/Transport/MediaType/Grammar/Scans.antt =====
-- How the scanners of media_type.cpp read a text that begins with what they look for.
use jetsonfabric.Base.{
  ◌≡◌, refl, ℕ, true, false, Bool, Bytes, List, [], ◌∷◌, ◌++◌, map, some, arith, ◌==◌, ==_iff,
  Bool-cases, inl, inr,
}
use jetsonfabric.Transport.MediaType.{
  is_token_character, is_whitespace, to_lower, skip_whitespace, read_token, require_token, consume,
  read_quoted, read_parameter_value,
}
use jetsonfabric.Transport.MediaType.Grammar.{
  All, IsToken, IsSpace, QuotedByte, plain, escaped, IsQuotable, Value, token, quoted, IsValue,
  put_quoted, put_value,
}

-- The text is at its end or at a byte that fails the test.
abbrev pub Stops : (ℕ → Bool) → Bytes → Type 0
Stops p [] = Unit {0}
Stops p (c ∷ s) = p c ≡ false

pub space_not_token : (c : ℕ) → is_whitespace c ≡ true → is_token_character c ≡ false
unfolding is_token_character
space_not_token c h = elim (Bool-cases (c == b' ')) [
  | inl e ↦ rw ((==_iff c b' ').0 e) refl
  | inr e ↦ rw ((==_iff c b'\t').0 (rw e at h)) refl
]

token_not_space : (c : ℕ) → is_token_character c ≡ true → is_whitespace c ≡ false
token_not_space c h = elim (Bool-cases (is_whitespace c)) [
  | inl e ↦ absurd (ground (arith, space_not_token c e))
  | inr e ↦ e
]

pub token-Stops : (t s : Bytes) → IsToken t → Stops is_whitespace (t ++ s)
token-Stops [] s h = absurd h
token-Stops (c ∷ t) s h = token_not_space c h.0

pub space-Stops :
    (w s : Bytes) → IsSpace w → Stops is_token_character s → Stops is_token_character (w ++ s)
space-Stops [] s h stop = stop
space-Stops (c ∷ w) s h stop = space_not_token c h.0

stop_skipped : (s : Bytes) → Stops is_whitespace s → skip_whitespace s ≡ s
unfolding skip_whitespace
stop_skipped [] h = refl
stop_skipped (c ∷ s) h = rw h refl

pub skip_whitespace-append :
    (w s : Bytes) → IsSpace w → Stops is_whitespace s → skip_whitespace (w ++ s) ≡ s
unfolding skip_whitespace
skip_whitespace-append [] s h stop = stop_skipped s stop
skip_whitespace-append (c ∷ w) s h stop = rw h.0 (skip_whitespace-append w s h.1 stop)

pub skip_whitespace-IsSpace : (w : Bytes) → IsSpace w → skip_whitespace w ≡ []
unfolding skip_whitespace
skip_whitespace-IsSpace [] h = refl
skip_whitespace-IsSpace (c ∷ w) h = rw h.0 (skip_whitespace-IsSpace w h.1)

stop_read : (s : Bytes) → Stops is_token_character s → read_token s ≡ ([], s)
unfolding read_token
stop_read [] h = refl
stop_read (c ∷ s) h = rw h refl

read_token-append :
    (t s : Bytes)
    → All is_token_character t
    → Stops is_token_character s
    → read_token (t ++ s) ≡ (map to_lower t, s)
unfolding read_token
read_token-append [] s h stop = stop_read s stop
read_token-append (c ∷ t) s h stop = rw (h.0, read_token-append t s h.1 stop) refl

pub require_token-append :
    (t s : Bytes)
    → IsToken t
    → Stops is_token_character s
    → require_token (t ++ s) ≡ some (map to_lower t, s)
unfolding require_token
require_token-append [] s h stop = absurd h
require_token-append (c ∷ t) s h stop = rw (read_token-append (c ∷ t) s h stop) refl

pub consume_self : (c : ℕ) (s : Bytes) → consume c (c ∷ s) ≡ some s
unfolding consume
consume_self c s = rw ((==_iff c c).1 refl) refl

read_quoted-put :
    (q : List QuotedByte) (rest : Bytes)
    → IsQuotable q
    → read_quoted false (put_quoted q rest) ≡ some rest
unfolding read_quoted
read_quoted-put [] rest h = refl
read_quoted-put (plain c ∷ q) rest (p, r, s, t) =
    ground (arith, ==_iff c b'"', ==_iff c b'\\', read_quoted-put q rest t)
read_quoted-put (escaped c ∷ q) rest h = rw h.0 (read_quoted-put q rest h.1)

quote_stops : is_token_character b'"' ≡ false
unfolding is_token_character
quote_stops = refl

token_not_quote : (c : ℕ) → is_token_character c ≡ true → (c == b'"') ≡ false
token_not_quote c h = elim (Bool-cases (c == b'"')) [
  | inl e ↦ absurd (ground (arith, quote_stops, (==_iff c b'"').0 e))
  | inr e ↦ e
]

pub read_parameter_value-put :
    (v : Value) (rest : Bytes)
    → IsValue v
    → Stops is_token_character rest
    → read_parameter_value (put_value v rest) ≡ some rest
unfolding read_parameter_value
read_parameter_value-put (token []) rest h stop = absurd h
read_parameter_value-put (token (c ∷ t)) rest h stop =
    rw (token_not_quote c h.0) (rw (require_token-append (c ∷ t) rest h stop) refl)
read_parameter_value-put (quoted q) rest h stop = read_quoted-put q rest h

pub value-Stops : (v : Value) (rest : Bytes) → IsValue v → Stops is_whitespace (put_value v rest)
value-Stops (token t) rest h = token-Stops t rest h
value-Stops (quoted q) rest h = refl
