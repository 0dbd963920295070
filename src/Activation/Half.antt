-- ===== src/Activation/Half.antt =====
-- runtime/activation/builtin_activation_codecs.cpp: float_to_half and half_to_float. A float is its
-- 32 bits and a half its 16 bits. `x >> k` is `x / 2 ^ k`, a mask of the low bits is a remainder,
-- and an `|` of bits that lie apart is a sum. `half_exponent` is `exponent - 112`, so the code's tests
-- of it are tests of `exponent` against 112 more.
pub mod Nearest
pub mod Again
use jetsonfabric.Base.{
  ◌≡◌, refl, ◌+◌, ◌-◌, ◌*◌, ◌/◌, ◌%◌, ◌^◌, ℕ, zero, suc, Bool, ◌&&◌, ◌||◌, ltb, leb, ◌==◌,
  if◌then◌else◌,
}

-- `mantissa >> shift`, one more if what is cut off is more than half a unit, or half a unit at an odd
-- quotient.
unfoldable pub round_shift : ℕ → ℕ → ℕ
round_shift shift mantissa =
    let quotient = mantissa / 2 ^ shift in
    let remainder = mantissa % 2 ^ shift in
    let halfway = 2 ^ (shift - 1) in
    if ltb halfway remainder || (remainder == halfway) && (quotient % 2 == 1)
    then quotient + 1
    else quotient

-- The branch for half_exponent <= 0.
unfoldable pub to_subnormal : ℕ → ℕ → ℕ → ℕ
unfolding round_shift
to_subnormal sign exponent mantissa =
    if ltb exponent 102
    then sign
    else sign + round_shift (14 + 112 - exponent) (mantissa + 0x800000)

-- The branch of a normal half, whose mantissa may be rounded up into the next exponent.
unfoldable pub to_normal : ℕ → ℕ → ℕ → ℕ
unfolding round_shift
to_normal sign exponent mantissa =
    let half_mantissa = round_shift 13 mantissa in
    if half_mantissa == 0x400
    then if leb 31 (exponent + 1 - 112) then sign + 0x7c00 else sign + (exponent + 1 - 112) * 2 ^ 10
    else sign + (exponent - 112) * 2 ^ 10 + half_mantissa

-- `payload | 0x200` of a payload below 2^10 sets its ninth bit.
unfoldable pub float_to_half : ℕ → ℕ
unfolding to_subnormal to_normal
float_to_half bits =
    let sign = bits / 2 ^ 31 % 2 * 0x8000 in
    let exponent = bits / 2 ^ 23 % 256 in
    let mantissa = bits % 2 ^ 23 in
    if exponent == 0xff
    then if mantissa == 0
      then sign + 0x7c00
      else sign + 0x7c00 + (mantissa / 2 ^ 13 % 0x200 + 0x200)
    else if leb (31 + 112) exponent
    then sign + 0x7c00
    else if leb exponent 112
    then to_subnormal sign exponent mantissa
    else to_normal sign exponent mantissa

-- The loop that shifts a mantissa up to its tenth bit. The exponent is kept with its bias of 127; ten
-- rounds are enough for a mantissa that is not 0.
unfoldable pub normalize : ℕ → ℕ → ℕ → ℕ × ℕ
normalize zero mantissa exponent = (mantissa, exponent)
normalize (suc rounds) mantissa exponent =
    let more = normalize rounds (mantissa * 2) (exponent - 1) in
    if mantissa / 2 ^ 10 % 2 == 0 then more else (mantissa, exponent)

unfoldable pub from_subnormal : ℕ → ℕ → ℕ
unfolding normalize
from_subnormal sign mantissa =
    let (normalized, exponent) = normalize 10 mantissa (127 - 14) in
    sign + exponent * 2 ^ 23 + normalized % 2 ^ 10 * 2 ^ 13

unfoldable pub half_to_float : ℕ → ℕ
unfolding from_subnormal
half_to_float value =
    let sign = value / 2 ^ 15 % 2 * 2 ^ 31 in
    let exponent = value / 2 ^ 10 % 32 in
    let mantissa = value % 2 ^ 10 in
    if exponent == 0
    then if mantissa == 0 then sign else from_subnormal sign mantissa
    else if exponent == 0x1f
    then sign + 0x7f800000 + mantissa * 2 ^ 13
    else sign + (exponent + (127 - 15)) * 2 ^ 23 + mantissa * 2 ^ 13

-- 1.0, 65504, 2^-24 and a rounding up to infinity.
half_tests :
    (float_to_half 0x3f800000 ≡ 0x3c00)
    × (float_to_half 0x477fe000 ≡ 0x7bff)
    × (float_to_half 0x33800000 ≡ 1)
    × (float_to_half 0x477ff000 ≡ 0x7c00)
    × (half_to_float 0x8001 ≡ 0xb3800000)
unfolding float_to_half half_to_float
half_tests = (refl, refl, refl, refl, refl)
