-- ===== src/Protocol/Utf8/Accepts.antt =====
-- The scanner (utf8.cpp) on well-formed byte strings, and is_valid_utf8.
use jetsonfabric.Base.{
  length-append, ◌↔◌, append-nil, ℕ, zero, suc, ◌+◌, ◌≤◌, ◌≡◌, ◌∙◌, refl, ap, true, Bytes, [], ◌∷◌,
  length, arith,
}
use jetsonfabric.Protocol.Utf8.WellFormed.{
  WellFormed, done, one, two, three, four, Split, In, Second3, Second4, complete_utf8_prefix-Split,
}
use jetsonfabric.Protocol.Utf8.{
  Prefix, is_valid_utf8, complete_utf8_prefix, is_continuation, sequence_width, validate_sequence,
  complete, malformed, out_of_fuel, prefix_from,
}

run_one :
    (fuel a : ℕ) (s : Bytes) (offset : ℕ)
    → a ≤ 0x7f
    → prefix_from (suc fuel) (a ∷ s) offset ≡ prefix_from fuel s (offset + 1)
unfolding prefix_from sequence_width
run_one fuel a s offset ha = ground arith

run_two :
    (fuel a b : ℕ) (s : Bytes) (offset : ℕ)
    → In 0xc2 0xdf a
    → In 0x80 0xbf b
    → prefix_from (suc fuel) (a ∷ b ∷ s) offset ≡ prefix_from fuel s (offset + 2)
unfolding prefix_from sequence_width validate_sequence is_continuation
run_two fuel a b s offset ha hb = ground arith

run_three :
    (fuel a b c : ℕ) (s : Bytes) (offset : ℕ)
    → In 0xe0 0xef a
    → Second3 a b
    → In 0x80 0xbf c
    → prefix_from (suc fuel) (a ∷ b ∷ c ∷ s) offset ≡ prefix_from fuel s (offset + 3)
unfolding prefix_from sequence_width validate_sequence is_continuation
run_three fuel a b c s offset ha hb hc = ground arith

run_four :
    (fuel a b c d : ℕ) (s : Bytes) (offset : ℕ)
    → In 0xf0 0xf4 a
    → Second4 a b
    → In 0x80 0xbf c
    → In 0x80 0xbf d
    → prefix_from (suc fuel) (a ∷ b ∷ c ∷ d ∷ s) offset ≡ prefix_from fuel s (offset + 4)
unfolding prefix_from sequence_width validate_sequence is_continuation
run_four fuel a b c d s offset ha hb hc hd = ground arith

accepts :
    (fuel : ℕ) {s : Bytes} (offset : ℕ)
    → WellFormed s
    → length s ≤ fuel
    → prefix_from fuel s offset ≡ complete (offset + length s)
unfolding prefix_from
accepts fuel offset done f = ap complete (omega arith)
accepts zero offset (one a {s} ha wf) f = absurd (omega arith)
accepts zero offset (two a b {s} ha hb wf) f = absurd (omega arith)
accepts zero offset (three a b c {s} ha hb hc wf) f = absurd (omega arith)
accepts zero offset (four a b c d {s} ha hb hc hd wf) f = absurd (omega arith)
accepts (suc fuel) offset (one a {s} ha wf) f =
    run_one fuel a s offset ha
    ∙ accepts fuel (offset + 1) wf (omega arith)
    ∙ ap complete (omega arith)
accepts (suc fuel) offset (two a b {s} ha hb wf) f =
    run_two fuel a b s offset ha hb
    ∙ accepts fuel (offset + 2) wf (omega arith)
    ∙ ap complete (omega arith)
accepts (suc fuel) offset (three a b c {s} ha hb hc wf) f =
    run_three fuel a b c s offset ha hb hc
    ∙ accepts fuel (offset + 3) wf (omega arith)
    ∙ ap complete (omega arith)
accepts (suc fuel) offset (four a b c d {s} ha hb hc hd wf) f =
    run_four fuel a b c d s offset ha hb hc hd
    ∙ accepts fuel (offset + 4) wf (omega arith)
    ∙ ap complete (omega arith)

valid_of :
    (s : Bytes) (p : Prefix)
    → complete_utf8_prefix s ≡ p
    → is_valid_utf8 s ≡ true
    → complete_utf8_prefix s ≡ complete (length s)
unfolding is_valid_utf8
valid_of s (complete n) e h = e ∙ ap complete (ground arith)
valid_of s malformed e h = absurd (ground arith)
valid_of s out_of_fuel e h = absurd (ground arith)

of_whole : (s : Bytes) → complete_utf8_prefix s ≡ complete (length s) → is_valid_utf8 s ≡ true
unfolding is_valid_utf8
of_whole s e = ground arith

all_read : (s : Bytes) → Split s 0 (length s) → WellFormed s
all_read s (front, [], e, wf, en, cut) = rw (e, append-nil front) wf
all_read s (front, b ∷ back, e, wf, en, cut) =
    absurd (grind (arith, length-append {A = ℕ} front (b ∷ back), ap length e))

-- is_valid_utf8 accepts a byte string exactly when it is well-formed UTF-8 by the table of the
-- Unicode standard.
pub is_valid_utf8-WellFormed : (s : Bytes) → (is_valid_utf8 s ≡ true) ↔ WellFormed s
unfolding is_valid_utf8 complete_utf8_prefix
is_valid_utf8-WellFormed s = (
  λ h. all_read s (complete_utf8_prefix-Split s (length s) (valid_of s _ refl h)),
  λ wf. of_whole s (accepts (length s) 0 wf (omega arith) ∙ ap complete (omega arith)),
)
