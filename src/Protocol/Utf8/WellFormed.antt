-- ===== src/Protocol/Utf8/WellFormed.antt =====
-- The scanner against the table of well-formed byte sequences of the Unicode standard.
use jetsonfabric.Base.{
  ℕ, zero, suc, ◌+◌, ◌≤◌, ◌<◌, ◌≡◌, ◌≢◌, ◌∙◌, ◌⊎◌, inl, inr, refl, sym, ap, ◌&&◌, not, true, false,
  none, some, Bytes, [], ◌∷◌, ◌++◌, length, arith, Option-cases, Bool-cases, ltb, drop,
}
use jetsonfabric.Protocol.Utf8.{
  complete_utf8_prefix, is_continuation, sequence_width, validate_sequence, complete, malformed,
  out_of_fuel, prefix_from,
}

abbrev pub In : ℕ → ℕ → ℕ → Type 0
In lo hi b = (lo ≤ b) × (b ≤ hi)

-- The second byte that may follow a lead byte of three or four.
abbrev pub Second3 : ℕ → ℕ → Type 0
Second3 a b = (In 0x80 0xbf b) × (a ≡ 0xe0 → 0xa0 ≤ b) × (a ≡ 0xed → b ≤ 0x9f)

abbrev pub Second4 : ℕ → ℕ → Type 0
Second4 a b = (In 0x80 0xbf b) × (a ≡ 0xf0 → 0x90 ≤ b) × (a ≡ 0xf4 → b ≤ 0x8f)

-- Well-formed UTF-8, sequence by sequence (table 3-7 of the standard).
pub data WellFormed : Bytes → Type 0 where
  done : WellFormed []
  one : (a : ℕ) {s : Bytes} → a ≤ 0x7f → WellFormed s → WellFormed (a ∷ s)
  two :
      (a b : ℕ) {s : Bytes}
      → In 0xc2 0xdf a
      → In 0x80 0xbf b
      → WellFormed s
      → WellFormed (a ∷ b ∷ s)
  three :
      (a b c : ℕ) {s : Bytes}
      → In 0xe0 0xef a
      → Second3 a b
      → In 0x80 0xbf c
      → WellFormed s
      → WellFormed (a ∷ b ∷ c ∷ s)
  four :
      (a b c d : ℕ) {s : Bytes}
      → In 0xf0 0xf4 a
      → Second4 a b
      → In 0x80 0xbf c
      → In 0x80 0xbf d
      → WellFormed s
      → WellFormed (a ∷ b ∷ c ∷ d ∷ s)

-- What may be left over: nothing, or the start of a sequence whose other bytes are still to come.
pub data Cut : Bytes → Type 0 where
  whole : Cut []
  begun : (a : ℕ) (t : Bytes) (w : ℕ) → sequence_width a ≡ some w → length (a ∷ t) < w → Cut (a ∷ t)

-- What a scan that stops at `n` has read, and what it has left.
abbrev pub Split : Bytes → ℕ → ℕ → Type 0
Split s offset n =
    (front : Bytes) × (back : Bytes) × (s ≡ front ++ back)
    × WellFormed front
    × (n ≡ offset + length front)
    × Cut back

width_cases :
    (a w : ℕ)
    → sequence_width a ≡ some w
    → ((w ≡ 1) × (a ≤ 0x7f))
      ⊎ (((w ≡ 2) × In 0xc2 0xdf a) ⊎ (((w ≡ 3) × In 0xe0 0xef a) ⊎ ((w ≡ 4) × In 0xf0 0xf4 a)))
unfolding sequence_width
width_cases a w h = ground arith

complete_inj : {n m : ℕ} → complete n ≡ complete m → n ≡ m
complete_inj e = cc

bad_prefix : {n : ℕ} → malformed ≢ complete n
bad_prefix e = cc

bad_fuel : {n : ℕ} → out_of_fuel ≢ complete n
bad_fuel e = cc

run_cases :
    (fuel : ℕ) (a : ℕ) (s : Bytes) (offset n w : ℕ)
    → sequence_width a ≡ some w
    → prefix_from (suc fuel) (a ∷ s) offset ≡ complete n
    → ((ltb (length (a ∷ s)) w ≡ true) × (n ≡ offset))
      ⊎ ((ltb (length (a ∷ s)) w ≡ false)
          × ((ltb 1 w && not (validate_sequence a s w)) ≡ false)
          × (prefix_from fuel (drop w (a ∷ s)) (offset + w) ≡ complete n))
unfolding prefix_from
run_cases fuel a s offset n w hw h = elim (Bool-cases (ltb (length (a ∷ s)) w)) [
  | inl short ↦ inl (short, complete_inj (sym (rw (prefix_from, hw, short) at h)))
  | inr long ↦ elim (Bool-cases (ltb 1 w && not (validate_sequence a s w))) [
    | inl bad ↦ absurd (bad_prefix (rw (prefix_from, hw, long, bad) at h))
    | inr good ↦ inr (long, good, rw (prefix_from, hw, long, good) at h)
  ]
]

bad_width :
    (fuel : ℕ) (a : ℕ) (s : Bytes) (offset : ℕ)
    → sequence_width a ≡ none
    → prefix_from (suc fuel) (a ∷ s) offset ≡ malformed
unfolding prefix_from
bad_width fuel a s offset h = rw (prefix_from, h) refl

two_bytes : (a b : ℕ) (s : Bytes) → (not (validate_sequence a (b ∷ s) 2)) ≡ false → In 0x80 0xbf b
unfolding validate_sequence is_continuation
two_bytes a b s h = ground arith

three_bytes :
    (a b c : ℕ) (s : Bytes)
    → In 0xe0 0xef a
    → (not (validate_sequence a (b ∷ c ∷ s) 3)) ≡ false
    → Second3 a b × In 0x80 0xbf c
unfolding validate_sequence is_continuation
three_bytes a b c s ha h = ground arith

four_bytes :
    (a b c d : ℕ) (s : Bytes)
    → In 0xf0 0xf4 a
    → (not (validate_sequence a (b ∷ c ∷ d ∷ s) 4)) ≡ false
    → Second4 a b × In 0x80 0xbf c × In 0x80 0xbf d
unfolding validate_sequence is_continuation
four_bytes a b c d s ha h = ground arith

put_one :
    (a : ℕ) (s : Bytes) (offset n : ℕ)
    → a ≤ 0x7f
    → ltb (length (a ∷ s)) 1 ≡ false
    → Split (drop 1 (a ∷ s)) (offset + 1) n
    → Split (a ∷ s) offset n
put_one a s offset n ha long (front, back, e, wf, en, short) =
    (a ∷ front, back, ap (λ t. a ∷ t) e, one a ha wf, omega arith, short)

put_two :
    (a : ℕ) (s : Bytes) (offset n : ℕ)
    → In 0xc2 0xdf a
    → ltb (length (a ∷ s)) 2 ≡ false
    → not (validate_sequence a s 2) ≡ false
    → Split (drop 2 (a ∷ s)) (offset + 2) n
    → Split (a ∷ s) offset n
put_two a [] offset n ha long good more = absurd (ground arith)
put_two a (b ∷ s) offset n ha long good (front, back, e, wf, en, short) = (
  a ∷ b ∷ front,
  back,
  ap (λ t. a ∷ b ∷ t) e,
  two a b ha (two_bytes a b s good) wf,
  omega arith,
  short,
)

put_three :
    (a : ℕ) (s : Bytes) (offset n : ℕ)
    → In 0xe0 0xef a
    → ltb (length (a ∷ s)) 3 ≡ false
    → not (validate_sequence a s 3) ≡ false
    → Split (drop 3 (a ∷ s)) (offset + 3) n
    → Split (a ∷ s) offset n
put_three a [] offset n ha long good more = absurd (ground arith)
put_three a (b ∷ []) offset n ha long good more = absurd (ground arith)
put_three a (b ∷ c ∷ s) offset n ha long good (front, back, e, wf, en, short) = (
  a ∷ b ∷ c ∷ front,
  back,
  ap (λ t. a ∷ b ∷ c ∷ t) e,
  let (hb, hc) = three_bytes a b c s ha good in three a b c ha hb hc wf,
  omega arith,
  short,
)

put_four :
    (a : ℕ) (s : Bytes) (offset n : ℕ)
    → In 0xf0 0xf4 a
    → ltb (length (a ∷ s)) 4 ≡ false
    → not (validate_sequence a s 4) ≡ false
    → Split (drop 4 (a ∷ s)) (offset + 4) n
    → Split (a ∷ s) offset n
put_four a [] offset n ha long good more = absurd (ground arith)
put_four a (b ∷ []) offset n ha long good more = absurd (ground arith)
put_four a (b ∷ c ∷ []) offset n ha long good more = absurd (ground arith)
put_four a (b ∷ c ∷ d ∷ s) offset n ha long good (front, back, e, wf, en, short) = (
  a ∷ b ∷ c ∷ d ∷ front,
  back,
  ap (λ t. a ∷ b ∷ c ∷ d ∷ t) e,
  let (hb, hc, hd) = four_bytes a b c d s ha good in four a b c d ha hb hc hd wf,
  omega arith,
  short,
)

extend :
    (a : ℕ) (s : Bytes) (w offset n : ℕ)
    → ((w ≡ 1) × (a ≤ 0x7f))
      ⊎ (((w ≡ 2) × In 0xc2 0xdf a) ⊎ (((w ≡ 3) × In 0xe0 0xef a) ⊎ ((w ≡ 4) × In 0xf0 0xf4 a)))
    → ltb (length (a ∷ s)) w ≡ false
    → (ltb 1 w && not (validate_sequence a s w)) ≡ false
    → Split (drop w (a ∷ s)) (offset + w) n
    → Split (a ∷ s) offset n
extend a s w offset n (inl (e, ha)) long good more =
    put_one a s offset n ha (rw e at long) (rw e at more)
extend a s w offset n (inr (inl (e, ha))) long good more =
    put_two a s offset n ha (rw e at long) (rw e at good) (rw e at more)
extend a s w offset n (inr (inr (inl (e, ha)))) long good more =
    put_three a s offset n ha (rw e at long) (rw e at good) (rw e at more)
extend a s w offset n (inr (inr (inr (e, ha)))) long good more =
    put_four a s offset n ha (rw e at long) (rw e at good) (rw e at more)

complete_start : {offset n : ℕ} → offset ≡ n → n ≡ offset + 0
complete_start e = omega arith

sound :
    (fuel : ℕ) (s : Bytes) (offset n : ℕ)
    → prefix_from fuel s offset ≡ complete n
    → Split s offset n
unfolding prefix_from
sound fuel [] offset n h = ([], [], refl, done, complete_start (complete_inj h), whole)
sound zero (a ∷ s) offset n h = absurd (bad_fuel h)
sound (suc fuel) (a ∷ s) offset n h = elim (Option-cases (sequence_width a)) [
  | inl bad ↦ absurd (bad_prefix (sym (bad_width fuel a s offset bad) ∙ h))
  | inr (w, hw) ↦ elim (run_cases fuel a s offset n w hw h) [
    | inl (short, e) ↦ ([], a ∷ s, refl, done, omega arith, begun a s w hw (ground arith))
    | inr (long, good, more) ↦
        extend a s w offset n (width_cases a w hw) long good
          (sound fuel (drop w (a ∷ s)) (offset + w) n more)
  ]
]

-- If the scan of a byte string returns n, then the first n bytes are well-formed sequences, and
-- what is left is nothing or starts with the lead of a sequence that is cut short.
pub complete_utf8_prefix-Split :
    (s : Bytes) (n : ℕ) → complete_utf8_prefix s ≡ complete n → Split s 0 n
unfolding complete_utf8_prefix
complete_utf8_prefix-Split s n h = sound (length s) s 0 n h
