-- ===== src/Activation/Half/Nearest.antt =====
-- Floats are rounded to the nearest half.
use native.Mathlib.Nat.{pow-le-pow_right}
use jetsonfabric.Base.{
  ◌∙◌, leb, ◌≡◌, ◌≢◌, ◌+◌, ◌-◌, ◌*◌, ◌/◌, ◌%◌, ◌^◌, ◌≤◌, ◌<◌, ℕ, zero, suc, ◌&&◌, ◌||◌, ltb, ◌==◌,
  if◌then◌else◌, arith,
}
use jetsonfabric.Activation.Half.{to_subnormal, float_to_half, to_normal, round_shift, to_normal}

-- `n` units of 2w come nearest to `m`: they are w away at most, and if so then `n` is even.
abbrev pub Nearest : ℕ → ℕ → ℕ → Type 0
Nearest n w m =
    (n * (2 * w) ≤ m + w)
    × (m ≤ n * (2 * w) + w)
    × (n * (2 * w) ≡ m + w → n % 2 ≡ 0)
    × (m ≡ n * (2 * w) + w → n % 2 ≡ 0)

abbrev rounded : ℕ → ℕ → ℕ → ℕ
rounded w q r = if ltb w r || (r == w) && (q % 2 == 1) then q + 1 else q

Nearest-of : (w m q r : ℕ) → 0 < w → m ≡ q * (2 * w) + r → r < 2 * w → Nearest (rounded w q r) w m
Nearest-of w m q r p e h =
    let s : (q + 1) * (2 * w) ≡ q * (2 * w) + 2 * w = grind arith in
    (ground arith, ground arith, λ t. ground arith, λ t. ground arith)

two_pow : (s : ℕ) → 2 ^ suc s ≡ 2 * 2 ^ s
two_pow s = omega arith

pow_pos : (s : ℕ) → 0 < 2 ^ s
pow_pos zero = omega arith
pow_pos (suc s) = omega (arith, pow_pos s, two_pow s)

parts : (m d : ℕ) → 0 < d → (m ≡ m / d * d + m % d) × (m % d < d)
parts m d h = grind arith

shift_Nearest : (s m : ℕ) → Nearest (round_shift (suc s) m) (2 ^ s) m
unfolding round_shift
shift_Nearest s m =
    let (e, l) = parts m (2 * 2 ^ s) (omega (arith, pow_pos s)) in
    let one : suc s - 1 ≡ s = omega arith in
    rw (two_pow s, one) (Nearest-of (2 ^ s) m (m / (2 * 2 ^ s)) (m % (2 * 2 ^ s)) (pow_pos s) e l)

abbrev pub exponent_of : ℕ → ℕ
exponent_of bits = bits / 2 ^ 23 % 256

-- The magnitude of a float, counted in units of the last place of a half that has its exponent: a
-- subnormal half for the exponents up to 112, a normal one above.
pub record Rounds (bits half : ℕ) : Type 0 where
  pub sign : half / 2 ^ 15 ≡ bits / 2 ^ 31
  pub vanishes : exponent_of bits < 102 → half % 2 ^ 15 ≡ 0
  pub subnormal :
      102 ≤ exponent_of bits
      → exponent_of bits ≤ 112
      → Nearest (half % 2 ^ 15) (2 ^ (125 - exponent_of bits)) (bits % 2 ^ 23 + 2 ^ 23)
  pub normal :
      112 < exponent_of bits
      → exponent_of bits ≤ 142
      → Nearest (half % 2 ^ 15) (2 ^ 12) (bits % 2 ^ 31 - 112 * 2 ^ 23)
  pub overflows : 142 < exponent_of bits → exponent_of bits < 255 → half % 2 ^ 15 ≡ 0x7c00
  pub infinity : exponent_of bits ≡ 255 → bits % 2 ^ 23 ≡ 0 → half % 2 ^ 15 ≡ 0x7c00
  pub not_a_number : exponent_of bits ≡ 255 → bits % 2 ^ 23 ≢ 0 → 0x7c00 < half % 2 ^ 15

round_13-le : (m : ℕ) → m < 2 ^ 23 → round_shift 13 m ≤ 1024
round_13-le m h = let n = shift_Nearest 12 m in omega (arith, n.0)

-- A normal result, carry and overflow included, is one number.
to_normal_sum :
    (sign e m : ℕ)
    → 112 < e
    → e ≤ 142
    → to_normal sign e m ≡ sign + ((e - 112) * 2 ^ 10 + round_shift 13 m)
unfolding to_normal
to_normal_sum sign e m h k = ground arith

normal_Nearest :
    (e m : ℕ)
    → 112 < e
    → Nearest ((e - 112) * 2 ^ 10 + round_shift 13 m) (2 ^ 12) (e * 2 ^ 23 + m - 112 * 2 ^ 23)
normal_Nearest e m h =
    let n = shift_Nearest 12 m in
    (
      omega (arith, n.0),
      omega (arith, n.1),
      λ t. let u = n.2 (omega arith) in omega (arith, u),
      λ t. let u = n.3 (omega arith) in omega (arith, u),
    )

small_quotient : (q w m : ℕ) → 2 ^ 13 ≤ w → m < 2 ^ 24 → q * (2 * w) ≤ m + w → q < 2 ^ 15
small_quotient q w m h l n = grind arith

pow_large : (s : ℕ) → 13 ≤ s → 2 ^ 13 ≤ 2 ^ s
pow_large s h = pow-le-pow_right (omega arith) h

-- Where a sign is put in front of a magnitude, both can be read off again.
module _ (bits magnitude : ℕ) (word : bits < 2 ^ 32) (small : magnitude < 2 ^ 15) where
  sign_back : (bits / 2 ^ 31 % 2 * 0x8000 + magnitude) / 2 ^ 15 ≡ bits / 2 ^ 31
  sign_back = omega arith

  magnitude_back : (bits / 2 ^ 31 % 2 * 0x8000 + magnitude) % 2 ^ 15 ≡ magnitude
  magnitude_back = omega arith

-- The magnitude that the code computes.
magnitude_of : ℕ → ℕ → ℕ
magnitude_of e m =
    if e == 0xff
    then if m == 0 then 0x7c00 else 0x7c00 + (m / 2 ^ 13 % 0x200 + 0x200)
    else if leb (31 + 112) e
    then 0x7c00
    else if ltb e 102
    then 0
    else if leb e 112
    then round_shift (14 + 112 - e) (m + 0x800000)
    else (e - 112) * 2 ^ 10 + round_shift 13 m

float_to_half_parts :
    (bits : ℕ)
    → float_to_half bits
      ≡ bits / 2 ^ 31 % 2 * 0x8000 + magnitude_of (exponent_of bits) (bits % 2 ^ 23)
unfolding float_to_half magnitude_of to_subnormal
float_to_half_parts bits =
    ground (arith, to_normal_sum (bits / 2 ^ 31 % 2 * 0x8000) (exponent_of bits) (bits % 2 ^ 23))

subnormal_Nearest :
    (e m : ℕ)
    → 102 ≤ e
    → e ≤ 112
    → Nearest (round_shift (14 + 112 - e) (m + 0x800000)) (2 ^ (125 - e)) (m + 2 ^ 23)
subnormal_Nearest e m h k =
    let s : 14 + 112 - e ≡ suc (125 - e) = omega arith in
    rw s (shift_Nearest (125 - e) (m + 2 ^ 23))

subnormal_small :
    (e m : ℕ) → 102 ≤ e → e ≤ 112 → m < 2 ^ 23 → round_shift (14 + 112 - e) (m + 0x800000) < 2 ^ 15
subnormal_small e m h k l =
    small_quotient _ (2 ^ (125 - e)) (m + 2 ^ 23) (pow_large (125 - e) (omega arith)) (omega arith)
      (subnormal_Nearest e m h k).0

magnitude-lt : (e m : ℕ) → m < 2 ^ 23 → magnitude_of e m < 2 ^ 15
unfolding magnitude_of
magnitude-lt e m h = ground (arith, subnormal_small e m, round_13-le m h)

module _ (bits : ℕ) (word : bits < 2 ^ 32) where
  half_magnitude : float_to_half bits % 2 ^ 15 ≡ magnitude_of (exponent_of bits) (bits % 2 ^ 23)
  half_magnitude =
      rw (float_to_half_parts bits)
        (magnitude_back bits _ word (magnitude-lt (exponent_of bits) (bits % 2 ^ 23) (omega arith)))

  half_sign : float_to_half bits / 2 ^ 15 ≡ bits / 2 ^ 31
  half_sign =
      rw (float_to_half_parts bits)
        (sign_back bits _ word (magnitude-lt (exponent_of bits) (bits % 2 ^ 23) (omega arith)))

  -- The bits of a float are converted to the nearest half, ties to the even one, with its sign: in
  -- the range of the subnormal halves and in that of the normal ones, where a carry may reach
  -- infinity. A smaller magnitude becomes zero, a larger one and infinity become infinity, and
  -- what is not a number is still none.
  pub float_to_half-Rounds : Rounds bits (float_to_half bits)
  unfolding magnitude_of
  float_to_half-Rounds = record {
    sign = half_sign;
    vanishes = λ h. half_magnitude ∙ ground arith;
    subnormal = λ h k.
        let e : magnitude_of (exponent_of bits) (bits % 2 ^ 23)
            ≡ round_shift (14 + 112 - exponent_of bits) (bits % 2 ^ 23 + 0x800000) =
          ground arith in
        rw (half_magnitude ∙ e) (subnormal_Nearest (exponent_of bits) (bits % 2 ^ 23) h k);
    normal = λ h k.
        let e : magnitude_of (exponent_of bits) (bits % 2 ^ 23)
            ≡ (exponent_of bits - 112) * 2 ^ 10 + round_shift 13 (bits % 2 ^ 23) =
          ground arith in
        let m : bits % 2 ^ 31 ≡ exponent_of bits * 2 ^ 23 + bits % 2 ^ 23 = omega arith in
        rw (half_magnitude ∙ e, m) (normal_Nearest (exponent_of bits) (bits % 2 ^ 23) h);
    overflows = λ h k. half_magnitude ∙ ground arith;
    infinity = λ h k. half_magnitude ∙ ground arith;
    not_a_number = λ h k. rw half_magnitude (ground arith);
  }
