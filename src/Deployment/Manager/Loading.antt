-- ===== src/Deployment/Manager/Loading.antt =====
-- The two sections of a load, the state and the other loads.
use mathlib.Core.Option.{some-injective, none-ne-some}
use jetsonfabric.Base.{
  ℕ, ◌≡◌, ◌≢◌, refl, sym, ap, ◌∙◌, false, Option, none, some, arith, length, get_elem?,
  Option-cases, inl, inr,
}
use jetsonfabric.Deployment.{DeploymentIdentity, ResidentDeploymentState.failed}
use jetsonfabric.Deployment.Manager.{
  DeploymentKey, ResidentDeployment, Manager, key_discrete, key_for, find_key, resident_at, update,
}
use jetsonfabric.Deployment.Manager.Invariant.{Inv, Ends, Fits, Entry, update-Inv}
use jetsonfabric.Deployment.Manager.Load.{
  PendingLoad, BuildOutcome, finish_load, insert_loading, loading_deployment, is_canceled,
}
use jetsonfabric.Deployment.Manager.LoadCases.{finish_rule}
use jetsonfabric.Deployment.Manager.Lookup.{resident_at-eq_some}
use jetsonfabric.Deployment.Manager.Map.{
  find_key-emplace_self, find_key-emplace_ne, get_elem?-append_one, get_elem?-lt, get_elem?-set_off,
}
use jetsonfabric.Deployment.Manager.Pending.{IsPending}

module _ {E : Type 0} where
  -- The lookup misses only where the map has no entry.
  pub find_key_of_absent :
      (k : DeploymentKey) (m : Manager E)
      → Inv m
      → resident_at k m ≡ none
      → find_key k m.deployments ≡ none
  find_key_of_absent k m v h = elim (Option-cases (find_key k m.deployments)) [
    | inl e ↦ e
    | inr (a, e) ↦
        let x = v.entries k a e in
        absurd (none-ne-some _ (sym h ∙ resident_at-eq_some k m a x.0 e x.1))
  ]

  pub get_elem?-insert_old :
      (i : DeploymentIdentity) (m : Manager E) (a : ℕ) (d : ResidentDeployment E)
      → get_elem? m.objects a ≡ some d
      → get_elem? (insert_loading i m).objects a ≡ some d
  unfolding insert_loading
  get_elem?-insert_old i m a d h =
      ground (
        arith,
        get_elem?-append_one m.objects a (loading_deployment i),
        get_elem?-lt m.objects a d h,
      )

  pub get_elem?-insert_new :
      (i : DeploymentIdentity) (m : Manager E)
      → get_elem? (insert_loading i m).objects (length m.objects) ≡ some (loading_deployment i)
  unfolding insert_loading
  get_elem?-insert_new i m =
      ground (arith, get_elem?-append_one m.objects (length m.objects) (loading_deployment i))

  loading-Fits : (i : DeploymentIdentity) → Fits (loading_deployment {E = E} i)
  unfolding loading_deployment
  loading-Fits i = ground arith

get_elem?-update_off :
    {E : Type 0} (a b : ℕ) (d d' : ResidentDeployment E) (m : Manager E)
    → get_elem? m.objects a ≡ some d
    → a ≢ b
    → get_elem? (update a d' m).objects b ≡ get_elem? m.objects b
unfolding update
get_elem?-update_off a b d d' m h n = get_elem?-set_off m.objects a b d' d h n

module _ {E : Type 0} (m : Manager E) (v : Inv m) (i : DeploymentIdentity)
    (absent : resident_at (key_for i) m ≡ none) where
  fresh : find_key (key_for i) m.deployments ≡ none
  fresh = find_key_of_absent (key_for i) m v absent

  deployment_of_loading : (loading_deployment {E = E} i).identity ≡ i
  unfolding loading_deployment
  deployment_of_loading = refl

  insert-entries :
      (k : DeploymentKey) (a : ℕ)
      → find_key k (insert_loading i m).deployments ≡ some a
      → Entry (insert_loading i m) k a
  unfolding insert_loading
  insert-entries k a h = elim (key_discrete (key_for i) k) [
    | yes p ↦
        let here : length m.objects ≡ a = some-injective _ _ (
          sym (find_key-emplace_self (key_for i) k (length m.objects) m.deployments fresh p) ∙ h) in
        (
          loading_deployment i,
          ap (get_elem? (insert_loading i m).objects) (sym here) ∙ get_elem?-insert_new i m,
          ap key_for deployment_of_loading ∙ p,
          loading-Fits i,
        )
    | no n ↦
        let e =
          v.entries k a (
            sym (find_key-emplace_ne (key_for i) k (length m.objects) m.deployments fresh n) ∙ h) in
        (e.0, get_elem?-insert_old i m a e.0 e.1, e.2, e.3)
  ]

  insert-chosen :
      (o : Option DeploymentKey) (k : DeploymentKey)
      → m.preferred ≡ o
      → elim o [ none ↦ some (key_for i) | some j ↦ some j ] ≡ some k
      → (a : ℕ) × (find_key k (insert_loading i m).deployments ≡ some a)
  unfolding insert_loading
  insert-chosen none k e h = (
    length m.objects,
    find_key-emplace_self (key_for i) k (length m.objects) m.deployments fresh
        (some-injective _ _ h),
  )
  insert-chosen (some j) k e h = elim (key_discrete (key_for i) k) [
    | yes p ↦ (
      length m.objects,
      find_key-emplace_self (key_for i) k (length m.objects) m.deployments fresh p,
    )
    | no n ↦
        let (a, q) = v.chosen k (e ∙ h) in
        (a, find_key-emplace_ne (key_for i) k (length m.objects) m.deployments fresh n ∙ q)
  ]

  pub insert-Inv : Inv (insert_loading i m)
  unfolding insert_loading
  insert-Inv = record {
    entries = insert-entries;
    chosen = λ k h. insert-chosen m.preferred k refl h;
  }

module _ {E : Type 0} (p : PendingLoad) (d : ResidentDeployment E) (m : Manager E)
    (live : is_canceled p d m ≡ false) where
  -- A load that was not canceled still holds the object that the map leads to.
  pub not_canceled :
      (find_key (key_for p.identity) m.deployments ≡ some p.address) × (d.cancel_requested ≡ false)
  unfolding is_canceled
  not_canceled = ground arith

module _ {E : Type 0} (m : Manager E) (v : Inv m) (p : PendingLoad) (q : IsPending p m)
    (outcome : BuildOutcome E) where
  -- The second section of a load keeps the state well formed, and never throws.
  pub finish-Inv : Ends (λ n r. Inv n) (finish_load p outcome m)
  unfolding finish_load
  finish-Inv =
      rw (q.1, finish_load)
        (finish_rule (Ends (λ n r. Inv n)) m p q.0 q.2 (λ c. v)
          (λ r live bad.
            update-Inv m v p.address q.0 q.1 (record (q.0) { state = failed }) refl
              (λ f. ground arith))
          (λ d' live rdy runs same held.
            update-Inv m v p.address q.0 q.1 d' same (λ f. ground arith))
          outcome)

  pub finish-IsPending :
      (p' : PendingLoad)
      → p.address ≢ p'.address
      → IsPending p' m
      → Ends (λ n r. IsPending p' n) (finish_load p outcome m)
  unfolding finish_load
  finish-IsPending p' apart q' =
      rw (q.1, finish_load)
        (finish_rule (Ends (λ n r. IsPending p' n)) m p q.0 q.2 (λ c. q') (λ r live bad. away _)
          (λ d' live rdy runs same held. away d') outcome)
    where
      away : (d' : ResidentDeployment E) → IsPending p' (update p.address d' m)
      away d' =
          (q'.0, get_elem?-update_off p.address p'.address q.0 d' m q.1 apart ∙ q'.1, q'.2, q'.3)
