-- ===== src/Deployment/Manager/Map.antt =====
-- Laws of the map of deployments and of the objects behind it, each for every key or address.
use jetsonfabric.Base.{
  ◌≢◌, ℕ, zero, suc, ◌<◌, ◌≡◌, refl, ◌∙◌, none, some, List, [], ◌∷◌, ◌++◌, arith, length, get_elem?,
  set, ite, if_pos, if_neg, ℕ_discrete,
}
use jetsonfabric.Deployment.Manager.{
  DeploymentKey, key_discrete, find_key, emplace, erase, last_key, resident_at, find_exact,
  ResidentDeployment, last_executable, Manager, key_for,
}
use jetsonfabric.Deployment.{DeploymentIdentity}

pub find_key-emplace :
    (k j : DeploymentKey) (a : ℕ) (m : List (DeploymentKey × ℕ))
    → find_key k m ≡ none
    → find_key j (emplace k a m) ≡ ite (key_discrete k j) (some a) (find_key j m)
unfolding find_key emplace
find_key-emplace k j a [] h = refl
find_key-emplace k j a ((i, b) ∷ m) h = ground (arith, find_key-emplace k j a m)

pub find_key-erase :
    (k j : DeploymentKey) (m : List (DeploymentKey × ℕ))
    → find_key j (erase k m) ≡ ite (key_discrete k j) none (find_key j m)
unfolding find_key erase
find_key-erase k j [] = ground arith
find_key-erase k j ((i, b) ∷ m) = ground (arith, find_key-erase k j m)

pub get_elem?-set {ℓ} :
    {A : Type ℓ} (xs : List A) (i j : ℕ) (v w : A)
    → get_elem? xs i ≡ some w
    → get_elem? (set xs i v) j ≡ ite (ℕ_discrete i j) (some v) (get_elem? xs j)
get_elem?-set [] i j v w h = ground arith
get_elem?-set (x ∷ xs) zero zero v w h = ground arith
get_elem?-set (x ∷ xs) zero (suc j) v w h = ground arith
get_elem?-set (x ∷ xs) (suc i) zero v w h = ground arith
get_elem?-set (x ∷ xs) (suc i) (suc j) v w h = ground (arith, get_elem?-set xs i j v w)

pub get_elem?-append_one {ℓ} :
    {A : Type ℓ} (xs : List A) (j : ℕ) (v : A)
    → get_elem? (xs ++ (v ∷ [])) j ≡ ite (ℕ_discrete (length xs) j) (some v) (get_elem? xs j)
get_elem?-append_one [] zero v = ground arith
get_elem?-append_one [] (suc j) v = ground arith
get_elem?-append_one (x ∷ xs) zero v = ground arith
get_elem?-append_one (x ∷ xs) (suc j) v = ground (arith, get_elem?-append_one xs j v)

pub get_elem?-lt {ℓ} :
    {A : Type ℓ} (xs : List A) (i : ℕ) (w : A) → get_elem? xs i ≡ some w → i < length xs
get_elem?-lt [] i w h = ground arith
get_elem?-lt (x ∷ xs) zero w h = omega arith
get_elem?-lt (x ∷ xs) (suc i) w h = omega (arith, get_elem?-lt xs i w h)

pub find_key-emplace_self :
    (k j : DeploymentKey) (a : ℕ) (m : List (DeploymentKey × ℕ))
    → find_key k m ≡ none
    → k ≡ j
    → find_key j (emplace k a m) ≡ some a
find_key-emplace_self k j a m h p =
    find_key-emplace k j a m h ∙ if_pos (key_discrete k j) p (some a) (find_key j m)

pub find_key-emplace_ne :
    (k j : DeploymentKey) (a : ℕ) (m : List (DeploymentKey × ℕ))
    → find_key k m ≡ none
    → k ≢ j
    → find_key j (emplace k a m) ≡ find_key j m
find_key-emplace_ne k j a m h n =
    find_key-emplace k j a m h ∙ if_neg (key_discrete k j) n (some a) (find_key j m)

pub find_key-erase_self :
    (k j : DeploymentKey) (m : List (DeploymentKey × ℕ)) → k ≡ j → find_key j (erase k m) ≡ none
find_key-erase_self k j m p = find_key-erase k j m ∙ if_pos (key_discrete k j) p none (find_key j m)

pub find_key-erase_ne :
    (k j : DeploymentKey) (m : List (DeploymentKey × ℕ))
    → k ≢ j
    → find_key j (erase k m) ≡ find_key j m
find_key-erase_ne k j m n = find_key-erase k j m ∙ if_neg (key_discrete k j) n none (find_key j m)

pub get_elem?-set_at {ℓ} :
    {A : Type ℓ} (xs : List A) (i j : ℕ) (v w : A)
    → get_elem? xs i ≡ some w
    → i ≡ j
    → get_elem? (set xs i v) j ≡ some v
get_elem?-set_at xs i j v w h p =
    get_elem?-set xs i j v w h ∙ if_pos (ℕ_discrete i j) p (some v) (get_elem? xs j)

pub get_elem?-set_off {ℓ} :
    {A : Type ℓ} (xs : List A) (i j : ℕ) (v w : A)
    → get_elem? xs i ≡ some w
    → i ≢ j
    → get_elem? (set xs i v) j ≡ get_elem? xs j
get_elem?-set_off xs i j v w h n =
    get_elem?-set xs i j v w h ∙ if_neg (ℕ_discrete i j) n (some v) (get_elem? xs j)

-- A key that a walk over the map gives is a key of the map.
pub find_key-last_key :
    (m : List (DeploymentKey × ℕ)) (k : DeploymentKey)
    → last_key m ≡ some k
    → (a : ℕ) × (find_key k m ≡ some a)
unfolding last_key find_key
find_key-last_key [] k h = absurd (ground arith)
find_key-last_key ((j, a) ∷ []) k h = (a, ground arith)
find_key-last_key ((j, a) ∷ e ∷ l) k h = elim (key_discrete j k) [
  | yes p ↦ (a, rw (if_pos _ p))
  | no n ↦ let (b, found) = find_key-last_key (e ∷ l) k h in (b, rw (if_neg _ n) found)
]

module _ {E : Type 0} where
  pub find_key-last_executable :
      (objects : List (ResidentDeployment E)) (m : List (DeploymentKey × ℕ)) (k : DeploymentKey)
      → last_executable objects m ≡ some k
      → (a : ℕ) × (find_key k m ≡ some a)
  unfolding last_executable find_key
  find_key-last_executable objects [] k h = absurd (ground arith)
  find_key-last_executable objects ((j, a) ∷ l) k h = elim (key_discrete j k) [
    | yes p ↦ (a, rw (if_pos _ p))
    | no n ↦
        let (b, found) = find_key-last_executable objects l k (ground arith) in
        (b, rw (if_neg _ n) found)
  ]

  -- The lookups, taken apart.
  pub resident_at-some :
      (k : DeploymentKey) (m : Manager E) (a : ℕ) (d : ResidentDeployment E)
      → resident_at k m ≡ some (a, d)
      → (find_key k m.deployments ≡ some a) × (get_elem? m.objects a ≡ some d)
  unfolding resident_at
  resident_at-some k m a d h = ground arith

  pub find_exact-some :
      (i : DeploymentIdentity) (m : Manager E) (a : ℕ) (d : ResidentDeployment E)
      → find_exact i m ≡ some (a, d)
      → (find_key (key_for i) m.deployments ≡ some a)
        × (get_elem? m.objects a ≡ some d)
        × (d.identity ≡ i)
  unfolding find_exact resident_at
  find_exact-some i m a d h = ground arith
