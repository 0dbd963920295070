-- ===== src/Protocol/Stage/Writable.antt =====
-- Every member of the metadata is a value that the JSON library writes and reads back.
use package.text.Mathlib.Text.{◌==◌ as str_eq}
use mathlib.Core.Path.{subst}
use jetsonfabric.Base.{
  ◌≡◌, refl, sym, ◌∙◌, ◌≤◌, ◌≢◌, ℤ, pos, negsuc, Bool, true, false, none, some, String, Bytes,
  length, Bool-cases, inl, inr, arith,
}
use jetsonfabric.Inference.{max_payload_bytes}
use jetsonfabric.Protocol.Fields.Reads.{Is-Int}
use jetsonfabric.Protocol.Frame.{crc32, frame_metadata}
use jetsonfabric.Protocol.Json.{Json, JsonLaws, Field, Is-Int64, Is-Writable}
use jetsonfabric.Protocol.Stage.{put_if}

some-inj {ℓ} : {A : Type ℓ} {a b : A} → some a ≡ some b → a ≡ b
some-inj e = cc

none-ne-some {ℓ} : {A : Type ℓ} {a : A} → none ≢ some a
none-ne-some e = cc

pub int_writable : (n : ℤ) → Is-Int n → Is-Int64 n
int_writable (pos n) h = omega arith
int_writable (negsuc n) h = omega arith

pub crc_writable : (payload : Bytes) → Is-Int64 (pos (crc32 payload))
unfolding crc32
crc_writable payload = omega arith

pub small_writable :
    (payload : Bytes) → length payload ≤ max_payload_bytes → Is-Int64 (pos (length payload))
small_writable payload h = omega arith

module _ (json : Json) (laws : JsonLaws json) where
  open json use {Object, put, empty}
  open laws use {field, field-put, field-empty}

  abbrev pub AllWritable : Object → Type 0
  AllWritable b = (k : String) (f : Field) → field b k ≡ some f → Is-Writable f

  pub writable-put :
      (b : Object) (j : String) (g : Field)
      → AllWritable b
      → Is-Writable g
      → AllWritable (put b j g)
  writable-put b j g h w k f e = elim (Bool-cases (str_eq j k)) [
    | inl t ↦ subst Is-Writable (some-inj (sym (here t) ∙ e)) w
    | inr t ↦ h k f (sym (there t) ∙ e)
  ]
    where
      here : str_eq j k ≡ true → field (put b j g) k ≡ some g
      here t = field-put b j g k ∙ rw t refl

      there : str_eq j k ≡ false → field (put b j g) k ≡ field b k
      there t = field-put b j g k ∙ rw t refl

  pub writable-put_if :
      (c : Bool) (b : Object) (j : String) (g : Field)
      → AllWritable b
      → Is-Writable g
      → AllWritable (put_if json c b j g)
  unfolding put_if
  writable-put_if true b j g h w = writable-put b j g h w
  writable-put_if false b j g h w = h

  pub writable-empty : AllWritable empty
  writable-empty k f e = absurd (none-ne-some (sym (field-empty k) ∙ e))

  -- What the frame adds to the metadata is within range too.
  pub frame-AllWritable :
      (b : Object) (payload : Bytes)
      → AllWritable b
      → length payload ≤ max_payload_bytes
      → AllWritable (frame_metadata json b payload (crc32 payload))
  unfolding frame_metadata
  frame-AllWritable b payload h small =
      writable-put _ _ _
        (writable-put _ _ _
          (writable-put _ _ _ (writable-put b _ _ h (omega arith)) (small_writable payload small))
          (crc_writable payload))
        tt
