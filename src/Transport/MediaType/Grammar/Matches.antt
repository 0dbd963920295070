-- ===== src/Transport/MediaType/Grammar/Matches.antt =====
-- The comparison of runtime/transport/media_type.cpp against the grammar.
use mathlib.Core.Bool.{false≢true}
use jetsonfabric.Base.{
  Bool-cases, ==_iff, ◌==◌, [], ◌∷◌, ◌≡◌, refl, ap, sym, ◌∙◌, ◌↔◌, true, Bytes, Option, some, none,
  inl, inr,
}
use jetsonfabric.Transport.MediaType.{parse_media_type, same_type, same_bytes, matches_media_type}
use jetsonfabric.Transport.MediaType.Grammar.{Denotes}
use jetsonfabric.Transport.MediaType.Grammar.Written.{parse_media_type-print}
use jetsonfabric.Transport.MediaType.Grammar.Sound.{parse_media_type-Denotes}

denoted : {value name : Bytes} → Denotes value name → parse_media_type value ≡ some name
denoted (m, h, printed, named) =
    ap parse_media_type printed ∙ parse_media_type-print m h ∙ ap some (sym named)

same_bytes_refl : (s : Bytes) → same_bytes s s ≡ true
unfolding same_bytes
same_bytes_refl [] = refl
same_bytes_refl (c ∷ s) = rw ((==_iff c c).1 refl) (same_bytes_refl s)

same_bytes-eq : (s t : Bytes) → same_bytes s t ≡ true → s ≡ t
unfolding same_bytes
same_bytes-eq [] [] h = refl
same_bytes-eq [] (b ∷ t) h = absurd (cc)
same_bytes-eq (a ∷ s) [] h = absurd (cc)
same_bytes-eq (a ∷ s) (b ∷ t) h = elim (Bool-cases (a == b)) [
  | inl e ↦ ap (λ x. x ∷ s) ((==_iff a b).0 e) ∙ ap (λ x. b ∷ x) (same_bytes-eq s t (rw e at h))
  | inr e ↦ absurd (false≢true (rw e at h))
]

one_name :
    (a b : Option Bytes) → same_type a b ≡ true → (name : Bytes) × (a ≡ some name) × (b ≡ some name)
unfolding same_type
one_name none b h = absurd (false≢true h)
one_name (some a) none h = absurd (false≢true h)
one_name (some a) (some b) h = (a, refl, ap some (sym (same_bytes-eq a b h)))

-- For all texts `value` and `expected`: matches_media_type says that they match exactly if there is
-- a name such that the grammar derives both texts and the type and the subtype of each, in lower
-- case, are that name. The grammar is a token, a slash and a token, behind optional blanks and
-- before parameters, each a semicolon, a token, an equals sign and a token or a quoted string, with
-- optional blanks around them.
pub matches_media_type-Denotes :
    (value expected : Bytes)
    → (matches_media_type value expected ≡ true)
      ↔ ((name : Bytes) × Denotes value name × Denotes expected name)
unfolding matches_media_type same_type
matches_media_type-Denotes value expected = (
  λ h.
      let (name, a, b) = one_name (parse_media_type value) (parse_media_type expected) h in
      (name, parse_media_type-Denotes value a, parse_media_type-Denotes expected b),
  λ (name, a, b). rw (denoted a, denoted b) (same_bytes_refl name),
)
