-- ===== src/Deployment/Manager/Pending.antt =====
-- A load under way and its object, whatever runs between its two sections.
use mathlib.Core.Option.{some-injective}
use jetsonfabric.Deployment.Manager.{select_preferred_after_erase}
use jetsonfabric.Base.{
  ℕ, ◌≡◌, ◌≢◌, refl, sym, ap, ◌∙◌, true, Option, some, arith, get_elem?, ℕ_discrete,
}
use jetsonfabric.Deployment.{
  DeploymentIdentity, ResidentDeploymentState.loading, ResidentDeploymentState.active,
  ResidentDeploymentState.draining, ResidentDeploymentState.unloading, DeploymentOperationResult,
}
use jetsonfabric.Deployment.Manager.{ResidentDeployment, Manager, update}
use jetsonfabric.Deployment.Manager.Cases.{
  activate_rule, drain_rule, unload_rule, activate_cases, drain_cases, unload_cases,
}
use jetsonfabric.Deployment.Manager.Invariant.{Ends}
use jetsonfabric.Deployment.Manager.Load.{PendingLoad}
use jetsonfabric.Deployment.Manager.Map.{find_exact-some, get_elem?-set_at, get_elem?-set_off}
use jetsonfabric.Deployment.Manager.Operations.{
  activate_resident_deployment, drain_resident_deployment, unload_resident_deployment, drop_entry,
}

module _ {E : Type 0} where
  -- The object that a load under way writes to.
  abbrev pub IsPending : PendingLoad → Manager E → Type 0
  IsPending p m =
      (d : ResidentDeployment E) × (get_elem? m.objects p.address ≡ some d)
      × (d.state ≡ loading)
      × (d.identity ≡ p.identity)

module _ {E : Type 0} (m : Manager E) (a : ℕ) (d : ResidentDeployment E)
    (there : get_elem? m.objects a ≡ some d) (p : PendingLoad) (q : IsPending p m) where
  update-IsPending :
      (d' : ResidentDeployment E)
      → (d.state ≡ loading → (d'.state ≡ loading) × (d'.identity ≡ d.identity))
      → IsPending p (update a d' m)
  unfolding update
  update-IsPending d' keep = elim (ℕ_discrete a p.address) [
    | yes e ↦
        let same : q.0 ≡ d =
          some-injective _ _ (sym q.1 ∙ ap (get_elem? m.objects) (sym e) ∙ there) in
        let (load, mine) = keep (ap (λ x. x.state) (sym same) ∙ q.2) in
        (
          d',
          get_elem?-set_at m.objects a p.address d' d there e,
          load,
          mine ∙ ap (λ x. x.identity) (sym same) ∙ q.3,
        )
    | no n ↦ (q.0, get_elem?-set_off m.objects a p.address d' d there n ∙ q.1, q.2, q.3)
  ]

  -- The object of a load under way is not another object, if that is past loading.
  settled_elsewhere : d.state ≢ loading → a ≢ p.address
  settled_elsewhere n e = n (ap (λ x. x.state) same ∙ q.2)
    where
      same : d ≡ q.0
      same = some-injective _ _ (sym there ∙ ap (get_elem? m.objects) e ∙ q.1)

module _ {E : Type 0} (m : Manager E) (p : PendingLoad) (q : IsPending p m)
    (i : DeploymentIdentity) where
  abbrev Stays : Option (Manager E × DeploymentOperationResult) → Type 0
  Stays = Ends (λ n r. IsPending p n)

  pub activate-IsPending : Ends (λ n r. IsPending p n) (activate_resident_deployment i m)
  activate-IsPending =
      activate_rule Stays m i (λ r bad. q) (λ gone. q)
        λ a d h.
          activate_cases Stays m a d (λ r bad. q) (λ act. q)
            (λ rdy runs.
              update-IsPending m a d (find_exact-some i m a d h).1 p q (record d { state = active })
                (λ load. ground arith))

  pub drain-IsPending : Ends (λ n r. IsPending p n) (drain_resident_deployment i m)
  drain-IsPending =
      drain_rule Stays m i (λ r bad. q) (λ gone. q)
        λ a d h.
          drain_cases Stays m a d (λ r. q)
            (λ act.
              update-IsPending m a d (find_exact-some i m a d h).1 p q
                (record d { state = draining }) (λ load. ground arith))

  pub unload-IsPending : Ends (λ n r. IsPending p n) (unload_resident_deployment i m)
  unfolding drop_entry select_preferred_after_erase
  unload-IsPending =
      unload_rule Stays m i (λ r bad. q) (λ gone. q)
        λ a d h.
          unload_cases Stays m a d (λ r bad. q)
            (λ load.
              update-IsPending m a d (find_exact-some i m a d h).1 p q
                (record d { cancel_requested = true }) (λ l. (l, refl)))
            (λ idle quiet.
              update-IsPending m a d (find_exact-some i m a d h).1 p q
                (record d { state = unloading }) (λ l. absurd (idle l)))
