-- ===== src/Deployment/Manager/Lookup.antt =====
-- What a write through the pointer, and the removal of an entry, change in the lookup by key.
use jetsonfabric.Base.{
  ℕ, ◌≡◌, ◌≢◌, refl, sym, ap, ◌∙◌, none, some, arith, get_elem?, inl, inr, Option-cases,
}
use jetsonfabric.Deployment.{DeploymentIdentity}
use jetsonfabric.Deployment.Manager.{
  DeploymentKey, ResidentDeployment, Manager, find_key, key_for, resident_at, update,
  select_preferred_after_erase,
}
use jetsonfabric.Deployment.Manager.Invariant.{Inv, Entry-Fits}
use jetsonfabric.Deployment.Manager.Map.{
  find_key-erase_self, find_key-erase_ne, get_elem?-set_at, get_elem?-set_off,
}
use jetsonfabric.Deployment.Manager.Operations.{drop_entry}

module _ {E : Type 0} where
  pub resident_at-eq_some :
      (k : DeploymentKey) (m : Manager E) (a : ℕ) (d : ResidentDeployment E)
      → find_key k m.deployments ≡ some a
      → get_elem? m.objects a ≡ some d
      → resident_at k m ≡ some (a, d)
  unfolding resident_at
  resident_at-eq_some k m a d h q = ground arith

  pub resident_at-drop_self :
      (i : DeploymentIdentity) (m : Manager E) → resident_at (key_for i) (drop_entry i m) ≡ none
  unfolding resident_at drop_entry select_preferred_after_erase
  resident_at-drop_self i m =
      ground (arith, find_key-erase_self (key_for i) (key_for i) m.deployments refl)

  pub resident_at-drop_ne :
      (i : DeploymentIdentity) (k : DeploymentKey) (m : Manager E)
      → key_for i ≢ k
      → resident_at k (drop_entry i m) ≡ resident_at k m
  unfolding resident_at drop_entry select_preferred_after_erase
  resident_at-drop_ne i k m n = rw (find_key-erase_ne (key_for i) k m.deployments n, resident_at)

module _ {E : Type 0} (m : Manager E) (v : Inv m) (a : ℕ) (d : ResidentDeployment E)
    (there : get_elem? m.objects a ≡ some d) (d' : ResidentDeployment E) where
  pub resident_at-update_self :
      (k : DeploymentKey)
      → find_key k m.deployments ≡ some a
      → resident_at k (update a d' m) ≡ some (a, d')
  unfolding update
  resident_at-update_self k mine =
      resident_at-eq_some k _ a d' mine (get_elem?-set_at m.objects a a d' d there refl)

  -- Two keys never lead to one object, so the lookup of another key does not see the write.
  pub resident_at-update_ne :
      (k : DeploymentKey) → key_for d.identity ≢ k → resident_at k (update a d' m) ≡ resident_at k m
  unfolding update resident_at
  resident_at-update_ne k n = elim (Option-cases (find_key k m.deployments)) [
    | inl e ↦ rw (e, resident_at)
    | inr (b, e) ↦ ground (
      arith,
      get_elem?-set_off m.objects a b d' d there
          (λ p. n (Entry-Fits m v a d there k (e ∙ ap some (sym p))).0),
    )
  ]
