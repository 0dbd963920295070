-- ===== src/Inference/Shape.antt =====
-- What the payload check accepts, against the product of the dimensions with no bound on it.
use native.Mathlib.Nat.{le-div_iff_mul-le, mul_assoc}
use jetsonfabric.Base.{
  ℕ, zero, suc, ◌*◌, ◌/◌, ◌%◌, ◌^◌, ◌≤◌, ◌<◌, ◌≡◌, ◌∙◌, ℤ, pos, negsuc, false, some, List, [], ◌∷◌,
  arith, ltb, Bool-cases, inl, inr,
}
use jetsonfabric.Inference.{count_elements, max_payload_bytes}

-- The number of elements of a tensor with these dimensions.
abbrev pub product : List ℤ → ℕ
product [] = 1
product (negsuc n ∷ s) = 0
product (pos n ∷ s) = n * product s

abbrev pub Positive : List ℤ → Type 0
Positive [] = Unit {0}
Positive (negsuc n ∷ s) = ⊥
Positive (pos n ∷ s) = (0 < n) × Positive s

pub product_pos : (s : List ℤ) → Positive s → 0 < product s
product_pos [] h = omega arith
product_pos (negsuc n ∷ s) h = elim h [ ]
product_pos (pos n ∷ s) h = grind (arith, product_pos s h.1)

-- The overflow test of the code is exact.
pub fits_of_test :
    (c d : ℕ) → ltb (max_payload_bytes / suc d) c ≡ false → c * suc d ≤ max_payload_bytes
fits_of_test c d h = (le-div_iff_mul-le {k = suc d} {x = c} (omega arith)).0 (ground arith)

pub test_of_fits :
    (c d : ℕ) → c * suc d ≤ max_payload_bytes → ltb (max_payload_bytes / suc d) c ≡ false
test_of_fits c d h =
    let le : c ≤ max_payload_bytes / suc d =
      (le-div_iff_mul-le {k = suc d} {x = c} (omega arith)).1 h in
    ground arith

pub no_wrap : (c d : ℕ) → c * d ≤ max_payload_bytes → c * d % 2 ^ 64 ≡ c * d
no_wrap c d h = omega arith

pub count_sound :
    (s : List ℤ) (c r : ℕ)
    → c ≤ max_payload_bytes
    → count_elements s c ≡ some r
    → Positive s × (r ≡ c * product s) × (r ≤ max_payload_bytes)
unfolding count_elements
count_sound [] c r h e = ground arith
count_sound (negsuc n ∷ s) c r h e = absurd (ground arith)
count_sound (pos zero ∷ s) c r h e = absurd (ground arith)
count_sound (pos (suc n) ∷ s) c r h e = elim (Bool-cases (ltb (max_payload_bytes / suc n) c)) [
  | inl over ↦ absurd (ground arith)
  | inr fits ↦
      let le = fits_of_test c n fits in
      let (all, total, bound) =
        count_sound s (c * suc n) r le (ground (arith, no_wrap c (suc n) le)) in
      ((omega arith, all), total ∙ mul_assoc c (suc n) (product s), bound)
]

pub count_complete :
    (s : List ℤ) (c : ℕ)
    → Positive s
    → c * product s ≤ max_payload_bytes
    → count_elements s c ≡ some (c * product s)
unfolding count_elements
count_complete [] c h b = ground arith
count_complete (negsuc n ∷ s) c h b = elim h [ ]
count_complete (pos zero ∷ s) c h b = absurd (omega arith)
count_complete (pos (suc n) ∷ s) c h b =
    let whole : c * suc n * product s ≤ max_payload_bytes =
      rw (mul_assoc c (suc n) (product s)) b in
    let le : c * suc n ≤ max_payload_bytes = grind (arith, product_pos s h.1) in
    ground (
      arith,
      test_of_fits c n le,
      no_wrap c (suc n) le,
      count_complete s (c * suc n) h.1 whole,
      mul_assoc c (suc n) (product s),
    )
