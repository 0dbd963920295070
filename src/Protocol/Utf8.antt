-- ===== src/Protocol/Utf8.antt =====
-- runtime/protocol/utf8.cpp: how much of a byte string is whole UTF-8 sequences. The loop takes fuel,
-- one unit a sequence; `(v & 0xc0) == 0x80` of a byte is `v / 64 == 2`.
pub mod WellFormed
pub mod Accepts
use jetsonfabric.Base.{
  ◌≡◌, refl, ℕ, zero, suc, ◌+◌, ◌/◌, Bool, true, false, not, ◌&&◌, ◌||◌, Option, none, some, Bytes,
  List, [], ◌∷◌, drop, length, ltb, leb, ◌==◌, if◌then◌else◌,
}

unfoldable pub is_continuation : ℕ → Bool
is_continuation v = v / 64 == 2

-- `none` is the std::invalid_argument.
unfoldable pub sequence_width : ℕ → Option ℕ
sequence_width lead =
    if leb lead 0x7f
    then some 1
    else if leb 0xc2 lead && leb lead 0xdf
    then some 2
    else if leb 0xe0 lead && leb lead 0xef
    then some 3
    else if leb 0xf0 lead && leb lead 0xf4
    then some 4
    else none

unfoldable pub all_continuations : ℕ → Bytes → Bool
unfolding is_continuation
all_continuations zero s = true
all_continuations (suc n) [] = false
all_continuations (suc n) (b ∷ s) = is_continuation b && all_continuations n s

-- The second byte decides on overlong forms, surrogates and the upper bound.
unfoldable pub second_allowed : ℕ → Bytes → Bool
second_allowed lead [] = false
second_allowed lead (second ∷ s) = not (
    lead == 0xe0 && ltb second 0xa0
    || lead == 0xed && ltb 0x9f second
    || lead == 0xf0 && ltb second 0x90
    || lead == 0xf4 && ltb 0x8f second)

-- The bytes behind the lead; the caller has checked that there are enough.
unfoldable pub validate_sequence : ℕ → Bytes → ℕ → Bool
unfolding all_continuations second_allowed
validate_sequence lead rest zero = true
validate_sequence lead rest (suc n) = all_continuations n rest && second_allowed lead rest

-- `malformed` is the exception; `out_of_fuel` is no result of the program.
pub data Prefix : Type 0 where
  complete : ℕ → Prefix
  malformed out_of_fuel : Prefix

unfoldable pub prefix_from : ℕ → Bytes → ℕ → Prefix
prefix_from fuel [] offset = complete offset
prefix_from zero (lead ∷ rest) offset = out_of_fuel
prefix_from (suc fuel) (lead ∷ rest) offset = elim (sequence_width lead) [
  | none ↦ malformed
  | some width ↦
      let more = prefix_from fuel (drop width (lead ∷ rest)) (offset + width) in
      if ltb (length (lead ∷ rest)) width
      then complete offset
      else if ltb 1 width && not (validate_sequence lead rest width)
      then malformed
      else more
]

-- A sequence has a byte at least, so the length is fuel enough.
unfoldable pub complete_utf8_prefix : Bytes → Prefix
unfolding prefix_from
complete_utf8_prefix value = prefix_from (length value) value 0

unfoldable pub is_valid_utf8 : Bytes → Bool
is_valid_utf8 value = elim (complete_utf8_prefix value) [
  | complete n ↦ n == length value
  | malformed ↦ false
  | out_of_fuel ↦ false
]
