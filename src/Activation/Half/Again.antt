-- ===== src/Activation/Half/Again.antt =====
-- Halves survive the way to a float and back.
use jetsonfabric.Base.{
  ==_iff, false, arith, ◌<◌, ◌≡◌, refl, ◌/◌, ◌%◌, ◌^◌, ℕ, zero, suc, Bool, true, ◌&&◌, ◌||◌, ltb,
  ◌==◌,
}
use jetsonfabric.Activation.Half.{float_to_half, half_to_float}

all_below : ℕ → (ℕ → Bool) → Bool
all_below zero p = true
all_below (suc n) p = p n && all_below n p

-- Not a number: the largest exponent, with a mantissa.
abbrev pub is_nan : ℕ → Bool
is_nan h = (h / 2 ^ 10 % 32 == 31) && ltb 0 (h % 2 ^ 10)

abbrev survives : ℕ → Bool
survives h = ltb (half_to_float h) (2 ^ 32) && (is_nan h || (float_to_half (half_to_float h) == h))

-- By evaluation at each of the 65536 halves.
all_halves : all_below 65536 survives ≡ true
unfolding all_below float_to_half half_to_float
all_halves = refl

all_below_sound : (n : ℕ) (p : ℕ → Bool) (x : ℕ) → all_below n p ≡ true → x < n → p x ≡ true
unfolding all_below
all_below_sound zero p x h l = absurd (omega arith)
all_below_sound (suc n) p x h l = ground (arith, all_below_sound n p x)

module _ (h : ℕ) (half : h < 2 ^ 16) where
  checked : survives h ≡ true
  checked = all_below_sound 65536 survives h all_halves half

  -- A half that is a number comes back from its float.
  pub half_again : is_nan h ≡ false → float_to_half (half_to_float h) ≡ h
  half_again n = let t = checked in (==_iff _ _).0 (ground arith)

  pub half_to_float-lt : half_to_float h < 2 ^ 32
  half_to_float-lt = let t = checked in ground arith
