-- ===== src/Deployment/Manager/Invariant.antt =====
-- The well-formedness of the state of model_manager.cpp, and the operations on it.
use mathlib.Core.Option.{some-injective, none-ne-some}
use mathlib.Core.Path.{subst}
use jetsonfabric.Base.{
  ℕ, ◌≡◌, ◌≢◌, refl, sym, ap, ◌∙◌, true, false, Option, none, some, List, arith, get_elem?, set,
  is_some, ℕ_discrete,
}
use jetsonfabric.Deployment.{
  DeploymentIdentity, DeploymentOperationResult, ResidentDeploymentState.ready,
  ResidentDeploymentState.active, ResidentDeploymentState.draining,
  ResidentDeploymentState.unloading,
}
use jetsonfabric.Deployment.Manager.{
  DeploymentKey, ResidentDeployment, Manager, key_discrete, key_for, find_key, erase, find_exact,
  update, last_executable, last_key, select_preferred_after_erase,
}
use jetsonfabric.Deployment.Manager.Map.{
  find_key-erase_self, find_key-erase_ne, get_elem?-set_at, get_elem?-set_off, find_key-last_key,
  find_key-last_executable, find_exact-some,
}
use jetsonfabric.Deployment.Manager.Operations.{
  activate_resident_deployment, drain_resident_deployment, unload_resident_deployment,
  activate_found, unload_found, drop_entry,
}
use jetsonfabric.Deployment.Manager.Cases.{
  activate_rule, drain_rule, unload_rule, activate_cases, drain_cases, unload_cases,
}

module _ {E : Type 0} where
  -- A deployment of the map is not canceled, is never left unloading, has its stage worker from
  -- ready on, and has none while it is loading.
  pub record Fits (d : ResidentDeployment E) : Type 0 where
    pub held : d.cancel_requested ≡ false
    pub settled : d.state ≢ unloading
    pub ready_runs : d.state ≡ ready → is_some d.execution ≡ true
    pub active_runs : d.state ≡ active → is_some d.execution ≡ true
    pub draining_runs : d.state ≡ draining → is_some d.execution ≡ true

  abbrev pub Entry : Manager E → DeploymentKey → ℕ → Type 0
  Entry m k a =
      (d : ResidentDeployment E) × (get_elem? m.objects a ≡ some d)
      × (key_for d.identity ≡ k)
      × Fits d

  pub record Inv (m : Manager E) : Type 0 where
    pub entries : (k : DeploymentKey) (a : ℕ) → find_key k m.deployments ≡ some a → Entry m k a
    pub chosen :
        (k : DeploymentKey) → m.preferred ≡ some k → (a : ℕ) × (find_key k m.deployments ≡ some a)

  -- The outcome of an operation that does not throw and ends in such a state.
  abbrev pub Ends :
      (Manager E → DeploymentOperationResult → Type 0)
      → Option (Manager E × DeploymentOperationResult)
      → Type 0
  Ends P none = ⊥
  Ends P (some (m, r)) = P m r

module _ {E : Type 0} where
  pub of_Ends :
      (P : Manager E → DeploymentOperationResult → Type 0)
      (o : Option (Manager E × DeploymentOperationResult)) (m : Manager E)
      (r : DeploymentOperationResult)
      → o ≡ some (m, r)
      → Ends P o
      → P m r
  of_Ends P o m r e h = subst (Ends P) e h

update-deployments :
    {E : Type 0} (a : ℕ) (d : ResidentDeployment E) (m : Manager E)
    → (update a d m).deployments ≡ m.deployments
unfolding update
update-deployments a d m = refl

module _ {E : Type 0} (m : Manager E) (v : Inv m) (a : ℕ) (d : ResidentDeployment E)
    (there : get_elem? m.objects a ≡ some d) where
  pub Entry-Fits :
      (k : DeploymentKey) → find_key k m.deployments ≡ some a → (key_for d.identity ≡ k) × Fits d
  Entry-Fits k h =
      let e = v.entries k a h in
      subst {A = ResidentDeployment E} (λ x. (key_for x.identity ≡ k) × Fits x)
        (some-injective _ _ (sym e.1 ∙ there)) (e.2, e.3)

  -- A write through the pointer keeps the state well formed if it keeps the identity.
  pub update-Inv :
      (d' : ResidentDeployment E)
      → d'.identity ≡ d.identity
      → (Fits d → Fits d')
      → Inv (update a d' m)
  unfolding update
  update-Inv d' same fits = record {
    entries = λ k b h. elim (ℕ_discrete a b) [
      | yes p ↦
          let (key, fit) = Entry-Fits k (h ∙ ap some (sym p)) in
          (d', get_elem?-set_at m.objects a b d' d there p, ap key_for same ∙ key, fits fit)
      | no n ↦
          let e = v.entries k b h in
          (e.0, get_elem?-set_off m.objects a b d' d there n ∙ e.1, e.2, e.3)
    ];
    chosen = v.chosen;
  }

  -- Dropping the entry of the object that was written leaves the others as they were.
  drop_entry-Inv :
      (d' : ResidentDeployment E)
      → find_key (key_for d.identity) m.deployments ≡ some a
      → Inv (drop_entry d.identity (update a d' m))
  unfolding update drop_entry select_preferred_after_erase
  drop_entry-Inv d' mine = record {
    entries = λ k b h. elim (key_discrete (key_for d.identity) k) [
      | yes p ↦ absurd (gone k b h p)
      | no n ↦
          let e = v.entries k b (kept k b h n) in
          (e.0, get_elem?-set_off m.objects a b d' d there (other k b h n) ∙ e.1, e.2, e.3)
    ];
    chosen = λ k h. pick k (last_executable _ rest) refl h;
  }
    where
      rest : List (DeploymentKey × ℕ)
      rest = erase (key_for d.identity) m.deployments

      gone : (k : DeploymentKey) (b : ℕ) → find_key k rest ≡ some b → key_for d.identity ≡ k → ⊥
      gone k b h p =
          none-ne-some b (sym (find_key-erase_self (key_for d.identity) k m.deployments p) ∙ h)

      kept :
          (k : DeploymentKey) (b : ℕ)
          → find_key k rest ≡ some b
          → key_for d.identity ≢ k
          → find_key k m.deployments ≡ some b
      kept k b h n = sym (find_key-erase_ne (key_for d.identity) k m.deployments n) ∙ h

      other :
          (k : DeploymentKey) (b : ℕ) → find_key k rest ≡ some b → key_for d.identity ≢ k → a ≢ b
      other k b h n p = n (Entry-Fits k (kept k b h n ∙ ap some (sym p))).0

      pick :
          (k : DeploymentKey) (o : Option DeploymentKey)
          → last_executable (set m.objects a d') rest ≡ o
          → elim o [ some j ↦ some j | none ↦ last_key rest ] ≡ some k
          → (b : ℕ) × (find_key k rest ≡ some b)
      pick k none q h = find_key-last_key rest k h
      pick k (some j) q h = find_key-last_executable _ rest k (q ∙ h)

  prefer-Inv :
      find_key (key_for d.identity) m.deployments ≡ some a
      → (n : Manager E) → Inv n
      → n.deployments ≡ m.deployments
      → Inv (record n { preferred = some (key_for d.identity) })
  prefer-Inv mine n w same = record {
    entries = w.entries;
    chosen = λ k h. (
      a,
      ap (λ l. find_key k l) same
          ∙ ap (λ j. find_key j m.deployments) (sym (some-injective _ _ h))
          ∙ mine,
    );
  }

module _ {E : Type 0} (m : Manager E) (v : Inv m) (i : DeploymentIdentity) where
  abbrev InvEnds : Option (Manager E × DeploymentOperationResult) → Type 0
  InvEnds = Ends (λ n r. Inv n)

  -- Activating keeps the state well formed, and never throws.
  pub activate-Inv : Ends (λ n r. Inv n) (activate_resident_deployment i m)
  activate-Inv = activate_rule InvEnds m i (λ r bad. v) (λ gone. v) found
    where
      found :
          (a : ℕ) (d : ResidentDeployment E)
          → find_exact i m ≡ some (a, d)
          → InvEnds (activate_found m a d)
      found a d h =
          let (mine, there, same) = find_exact-some i m a d h in
          let key : find_key (key_for d.identity) m.deployments ≡ some a =
            ap (λ j. find_key (key_for j) m.deployments) same ∙ mine in
          activate_cases InvEnds m a d (λ r bad. v) (λ act. prefer-Inv m v a d there key m v refl)
            (λ rdy runs.
              prefer-Inv m v a d there key (update a (record d { state = active }) m)
                (update-Inv m v a d there (record d { state = active }) refl (λ f. ground arith))
                (update-deployments a _ m))

  -- Draining keeps the state well formed, and never throws.
  pub drain-Inv : Ends (λ n r. Inv n) (drain_resident_deployment i m)
  drain-Inv =
      drain_rule InvEnds m i (λ r bad. v) (λ gone. v)
        λ a d h.
          drain_cases InvEnds m a d (λ r. v)
            (λ act.
              update-Inv m v a d (find_exact-some i m a d h).1 (record d { state = draining }) refl
                (λ f. ground arith))

  -- Unloading keeps the state well formed, and never throws.
  pub unload-Inv : Ends (λ n r. Inv n) (unload_resident_deployment i m)
  unload-Inv = unload_rule InvEnds m i (λ r bad. v) (λ gone. v) found
    where
      found :
          (a : ℕ) (d : ResidentDeployment E)
          → find_exact i m ≡ some (a, d)
          → InvEnds (unload_found m a d)
      found a d h =
          let (mine, there, same) = find_exact-some i m a d h in
          let key : find_key (key_for d.identity) m.deployments ≡ some a =
            ap (λ j. find_key (key_for j) m.deployments) same ∙ mine in
          unload_cases InvEnds m a d (λ r bad. v) (λ load. drop_entry-Inv m v a d there _ key)
            (λ idle quiet. drop_entry-Inv m v a d there _ key)
