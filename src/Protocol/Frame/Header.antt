-- ===== src/Protocol/Frame/Header.antt =====
-- The big-endian numbers of the header, and where the parts of a frame stand.
use jetsonfabric.Base.{
  ◌≡◌, refl, ap, sym, ◌∙◌, ◌+◌, ◌^◌, ◌<◌, ℕ, zero, suc, List, [], ◌∷◌, ◌++◌, Bytes, length, take,
  drop, arith,
}
use jetsonfabric.Protocol.Frame.{
  read_u16_be, read_u32_be, read_u64_be, append_u16_be, append_u32_be, append_u64_be, magic,
}

module _ {ℓ} {A : Type ℓ} where
  drop-nil : (n : ℕ) → drop {A = A} n [] ≡ []
  drop-nil zero = refl
  drop-nil (suc n) = refl

  pub drop-add : (n m : ℕ) (xs : List A) → drop (n + m) xs ≡ drop m (drop n xs)
  drop-add zero m xs = let e : 0 + m ≡ m = omega arith in rw e refl
  drop-add (suc n) m [] = drop-nil (suc n + m) ∙ sym (drop-nil m)
  drop-add (suc n) m (x ∷ xs) =
      let e : suc n + m ≡ suc (n + m) = omega arith in rw e (drop-add n m xs)

  pub take-length_append : (xs ys : List A) → take (length xs) (xs ++ ys) ≡ xs
  take-length_append [] ys = refl
  take-length_append (x ∷ xs) ys = ap (λ zs. x ∷ zs) (take-length_append xs ys)

  pub drop-length_append : (xs ys : List A) → drop (length xs) (xs ++ ys) ≡ ys
  drop-length_append [] ys = refl
  drop-length_append (x ∷ xs) ys = drop-length_append xs ys

-- The 20 bytes of a header, the lengths as they are written.
abbrev pub header : ℕ → ℕ → Bytes
header metadata_length payload_length =
    append_u64_be (append_u32_be (append_u16_be (append_u16_be magic 2) 0) metadata_length)
      payload_length

module _ (m p : ℕ) (rest : Bytes) where
  pub version_back : read_u16_be (header m p ++ rest) 4 ≡ 2
  unfolding read_u16_be append_u16_be append_u32_be append_u64_be
  version_back = omega arith

  pub flags_back : read_u16_be (header m p ++ rest) 6 ≡ 0
  unfolding read_u16_be append_u16_be append_u32_be append_u64_be
  flags_back = omega arith

  pub metadata_length_back : m < 2 ^ 32 → read_u32_be (header m p ++ rest) 8 ≡ m
  unfolding read_u32_be append_u16_be append_u32_be append_u64_be
  metadata_length_back h = omega arith

  pub payload_length_back : p < 2 ^ 32 → read_u64_be (header m p ++ rest) 12 ≡ p
  unfolding read_u64_be append_u16_be append_u32_be append_u64_be
  payload_length_back h = omega arith

  pub drop-header : drop 20 (header m p ++ rest) ≡ rest
  unfolding append_u16_be append_u32_be append_u64_be
  drop-header = refl

  pub length_frame : length (header m p ++ rest) ≡ 20 + length rest
  unfolding append_u16_be append_u32_be append_u64_be
  length_frame = omega arith
