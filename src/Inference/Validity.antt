-- ===== src/Inference/Validity.antt =====
-- The payload check of stage.cpp against a description of a tensor payload.
use package.text.Mathlib.TextLemmas.{append-eq-nil_iff}
use jetsonfabric.Base.{
  ℕ, zero, suc, ◌*◌, ◌/◌, ◌≤◌, ◌<◌, ◌≡◌, ◌≢◌, refl, ap, Option, none, some, String, ◌<>◌, [], arith,
  length, ltb, Bool-cases, inl, inr, ◌↔◌, string_discrete,
}
use jetsonfabric.Inference.{
  Payload, PayloadKind.text, PayloadKind.sampled_token, PayloadKind.sampled_tokens, count_elements,
  dtype_width, max_payload_bytes, validate_payload, validate_tensor, validate_size, kind_discrete,
}
use jetsonfabric.Inference.Shape.{
  product, Positive, count_sound, count_complete, no_wrap, fits_of_test, test_of_fits,
}

-- A tensor payload whose bytes are the elements of its shape, at most 512 MiB of them.
pub record IsTensor (p : Payload) : Type 0 where
  pub plain : p.encoding ≡ ""
  pub typed : 0 < dtype_width p.tensor.dtype
  pub shaped : p.tensor.shape ≢ []
  pub order : p.tensor.byte_order ≡ "little"
  pub rows : p.tensor.layout ≡ "row_major"
  pub positive : Positive p.tensor.shape
  pub sized : product p.tensor.shape * dtype_width p.tensor.dtype ≡ length p.bytes
  pub bounded : length p.bytes ≤ max_payload_bytes
  pub one_token : p.kind ≡ sampled_token → product p.tensor.shape ≡ 1
  pub many_tokens : p.kind ≡ sampled_tokens → 2 ≤ product p.tensor.shape

abbrev Sized : Payload → ℕ → ℕ → Type 0
Sized p w c =
    (c * w ≡ length p.bytes)
    × (length p.bytes ≤ max_payload_bytes)
    × (p.kind ≡ sampled_token → c ≡ 1)
    × (p.kind ≡ sampled_tokens → 2 ≤ c)

-- The messages are not empty.
bad_length : ◌≢◌ {A = String} "tensor shape and dtype do not match payload length" ""
bad_length e = cc

bad_token : ◌≢◌ {A = String} "sampled_token payload must contain exactly one element" ""
bad_token e = cc

bad_tokens : ◌≢◌ {A = String} "sampled_tokens payload must contain at least two elements" ""
bad_tokens e = cc

bad_encoding : ◌≢◌ {A = String} "tensor payload must not declare text encoding" ""
bad_encoding e = cc

bad_dtype : ◌≢◌ {A = String} "tensor payload requires dtype and shape" ""
bad_dtype e = cc

bad_layout : ◌≢◌ {A = String} "tensor payload requires little byte order and row_major layout" ""
bad_layout e = cc

bad_shape : ◌≢◌ {A = String} "invalid or oversized tensor shape" ""
bad_shape e = cc

size_sound : (p : Payload) (w c : ℕ) → validate_size p (suc w) c ≡ "" → Sized p (suc w) c
unfolding validate_size kind_discrete
size_sound p w c h = elim (Bool-cases (ltb (max_payload_bytes / suc w) c)) [
  | inl over ↦ absurd (ground (arith, bad_length))
  | inr fits ↦
      let le = fits_of_test c w fits in
      let same = no_wrap c (suc w) le in
      (
        ground (arith, bad_length),
        ground (arith, bad_length),
        λ k. ground (arith, bad_length, bad_token),
        λ k. ground (arith, bad_length, bad_token, bad_tokens),
      )
]

size_complete : (p : Payload) (w c : ℕ) → Sized p (suc w) c → validate_size p (suc w) c ≡ ""
unfolding validate_size kind_discrete
size_complete p w c h =
    let le : c * suc w ≤ max_payload_bytes = omega arith in
    ground (arith, test_of_fits c w le, no_wrap c (suc w) le, h.2, h.3)

message-ne-nil : (t : String) → "unsupported tensor dtype: " <> t ≢ ""
message-ne-nil t e = cc (append-eq-nil_iff.0 e).0

width_pos : (t : String) → 0 < dtype_width t → t ≢ ""
width_pos t h e = absurd (omega (arith, none_width, ap dtype_width e))
  where
    none_width : dtype_width "" ≡ 0
    none_width = unfold dtype_width string_discrete in refl

IsTensor-sound_from :
    (p : Payload) (w : ℕ) (o : Option ℕ)
    → dtype_width p.tensor.dtype ≡ w
    → count_elements p.tensor.shape 1 ≡ o
    → validate_tensor p ≡ ""
    → IsTensor p
unfolding validate_tensor
IsTensor-sound_from p zero o e q h =
    absurd (ground (arith, bad_encoding, bad_dtype, bad_layout, message-ne-nil p.tensor.dtype))
IsTensor-sound_from p (suc w) none e q h =
    absurd (ground (arith, bad_encoding, bad_dtype, bad_layout, bad_shape))
IsTensor-sound_from p (suc w) (some c) e q h =
    let (all, total, bound) = count_sound p.tensor.shape 1 c (omega arith) q in
    let checked : validate_size p (suc w) c ≡ "" =
      ground (arith, bad_encoding, bad_dtype, bad_layout) in
    let size = size_sound p w c checked in
    record {
      plain = ground (arith, bad_encoding);
      typed = omega arith;
      shaped = ground (arith, bad_encoding, bad_dtype);
      order = ground (arith, bad_encoding, bad_dtype, bad_layout);
      rows = ground (arith, bad_encoding, bad_dtype, bad_layout);
      positive = all;
      sized = rw e (grind (arith, size.0));
      bounded = size.1;
      one_token = λ k. omega (arith, size.2 k);
      many_tokens = λ k. omega (arith, size.3 k);
    }

tensor_complete_from :
    (p : Payload) (w : ℕ) → dtype_width p.tensor.dtype ≡ w → IsTensor p → validate_tensor p ≡ ""
unfolding validate_tensor
tensor_complete_from p zero e v = absurd (omega (arith, v.typed))
tensor_complete_from p (suc w) e v =
    let whole : product p.tensor.shape * suc w ≡ length p.bytes = rw e at v.sized in
    let small : 1 * product p.tensor.shape ≤ max_payload_bytes = grind (arith, v.bounded) in
    let counted : count_elements p.tensor.shape 1 ≡ some (product p.tensor.shape) =
      ground (arith, count_complete p.tensor.shape 1 v.positive small) in
    let size =
      size_complete p w (product p.tensor.shape) (whole, v.bounded, v.one_token, v.many_tokens) in
    ground (arith, v.shaped, v.plain, v.order, v.rows, width_pos p.tensor.dtype v.typed)

-- A payload that is not text passes the check exactly when its encoding is empty, its dtype is known,
-- its shape has dimensions, all positive, the product of the dimensions times the width of the dtype
-- is the number of bytes, that is at most 512 MiB, and a sampled token or tokens have one element or
-- two at least. The product has no bound here: the check's 64-bit arithmetic loses nothing.
pub validate_payload-IsTensor :
    (p : Payload) → p.kind ≢ text → (validate_payload p ≡ "") ↔ IsTensor p
unfolding validate_payload kind_discrete
validate_payload-IsTensor p h = (
  λ e. IsTensor-sound_from p _ _ refl refl (ground arith),
  λ v. ground (arith, tensor_complete_from p (dtype_width p.tensor.dtype) refl v),
)
