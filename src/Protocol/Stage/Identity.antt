-- ===== src/Protocol/Stage/Identity.antt =====
-- The deployment identity of a message that passes its check.
use jetsonfabric.Base.{
  ◌≡◌, ◌≢◌, refl, ℕ, Bool, true, false, ◌&&◌, String, test, string_discrete, ◌==◌, ==_iff,
  if◌then◌else◌, arith,
}
use jetsonfabric.Protocol.Json.{Checked, ok}
use jetsonfabric.Protocol.Stage.{validate_deployment_identity, validate_managed, is_text}

managed_fails :
    (d : String) (e : ℕ) (s : String) → is_text d "" ≡ true → validate_managed d e s ≢ ok tt
unfolding validate_managed
managed_fails d e s t h = ground arith

all_tests :
    (a b c : Bool) (x : Checked (Unit {0}))
    → (if a && b && c then ok tt else x) ≡ ok tt
    → a ≡ true
    → x ≢ ok tt
    → (b ≡ true) × (c ≡ true)
all_tests true true true x h e n = (refl, refl)
all_tests true true false x h e n = absurd (n h)
all_tests true false c x h e n = absurd (n h)
all_tests false b c x h e n = cc

pub text_eq : (s t : String) → is_text s t ≡ true → s ≡ t
text_eq s t = elim (string_discrete s t) as (λ d. test d ≡ true → s ≡ t) [
  | yes e ↦ λ _. e
  | no n ↦ λ h. cc
]

-- A valid identity that names no deployment has no epoch and no digest.
pub unmanaged :
    (d : String) (e : ℕ) (s : String)
    → validate_deployment_identity d e s ≡ ok tt
    → is_text d "" ≡ true
    → (e ≡ 0) × (s ≡ "")
unfolding validate_deployment_identity
unmanaged d e s h t =
    let (zero_epoch, no_digest) =
      all_tests (is_text d "") (e == 0) (is_text s "") (validate_managed d e s) h t
        (managed_fails d e s t) in
    ((==_iff e 0).0 zero_epoch, text_eq s "" no_digest)
