-- ===== src/Deployment/Manager/System.antt =====
-- The manager under concurrent callers: each locked section is one step, and a step chooses freely
-- among the operations and the loads that are between their two sections.
use jetsonfabric.Base.{◌≡◌, ◌≢◌, sym, Bool, some, List, [], ◌∷◌, String}
use jetsonfabric.Deployment.{DeploymentIdentity, DeploymentOperationResult}
use jetsonfabric.Deployment.Manager.{Manager}
use jetsonfabric.Deployment.Manager.Invariant.{Inv}
use jetsonfabric.Deployment.Manager.Load.{
  PendingLoad, BuildOutcome, started, begin_load, finish_load,
}
use jetsonfabric.Deployment.Manager.Operations.{
  activate_resident_deployment, drain_resident_deployment, unload_resident_deployment,
}
use jetsonfabric.Deployment.Manager.Pending.{IsPending}
use jetsonfabric.Pipeline.Assignment.{StageAssignment}

pub record System (E : Type 0) : Type 0 where
  pub manager : Manager E
  pub loads : List PendingLoad

-- `Takes p l r`: `r` is `l` without one occurrence of `p`.
pub data Takes (p : PendingLoad) : List PendingLoad → List PendingLoad → Type 0 where
  here : (l : List PendingLoad) → Takes p (p ∷ l) l
  there : (q : PendingLoad) {l r : List PendingLoad} → Takes p l r → Takes p (q ∷ l) (q ∷ r)

pub data Step {E : Type 0} (s t : System E) : Type 0 where
  activates :
      (i : DeploymentIdentity) (r : DeploymentOperationResult)
      → activate_resident_deployment i s.manager ≡ some (t.manager, r)
      → t.loads ≡ s.loads
      → Step s t
  drains :
      (i : DeploymentIdentity) (r : DeploymentOperationResult)
      → drain_resident_deployment i s.manager ≡ some (t.manager, r)
      → t.loads ≡ s.loads
      → Step s t
  unloads :
      (i : DeploymentIdentity) (r : DeploymentOperationResult)
      → unload_resident_deployment i s.manager ≡ some (t.manager, r)
      → t.loads ≡ s.loads
      → Step s t
  begins :
      (has_builder : Bool) (node_name : String) (i : DeploymentIdentity)
      (assignment : StageAssignment) (p : PendingLoad)
      → begin_load has_builder node_name i assignment s.manager ≡ (t.manager, started p)
      → t.loads ≡ p ∷ s.loads
      → Step s t
  finishes :
      (p : PendingLoad) (outcome : BuildOutcome E) (r : DeploymentOperationResult)
      → Takes p s.loads t.loads
      → finish_load p outcome s.manager ≡ some (t.manager, r)
      → Step s t

pub data Reach {E : Type 0} (s : System E) : System E → Type 0 where
  start : Reach s s
  next : {t u : System E} → Reach s t → Step t u → Reach s u

abbrev pub ApartFrom : PendingLoad → List PendingLoad → Type 0
ApartFrom p [] = Unit {0}
ApartFrom p (q ∷ l) = (p.address ≢ q.address) × ApartFrom p l

abbrev pub Apart : List PendingLoad → Type 0
Apart [] = Unit {0}
Apart (p ∷ l) = ApartFrom p l × Apart l

Takes-ApartFrom :
    {p : PendingLoad} (q : PendingLoad) {l r : List PendingLoad}
    → Takes p l r
    → ApartFrom q l
    → ApartFrom q r × (q.address ≢ p.address)
Takes-ApartFrom q (here l) h = (h.1, h.0)
Takes-ApartFrom q (there x t) h = let (rest, ne) = Takes-ApartFrom q t h.1 in ((h.0, rest), ne)

pub Takes-Apart : {p : PendingLoad} {l r : List PendingLoad} → Takes p l r → Apart l → Apart r
Takes-Apart (here l) h = h.1
Takes-Apart (there q t) h = ((Takes-ApartFrom q t h.0).0, Takes-Apart t h.1)

module _ {E : Type 0} where
  abbrev pub Pendings : Manager E → List PendingLoad → Type 0
  Pendings m [] = Unit {0}
  Pendings m (p ∷ l) = IsPending p m × Pendings m l

  -- The state is well formed, and each load under way has an object of its own, still loading.
  pub record IsSound (s : System E) : Type 0 where
    pub inv : Inv s.manager
    pub pending : Pendings s.manager s.loads
    pub apart : Apart s.loads

  pub Pendings-map :
      (m n : Manager E) (l : List PendingLoad)
      → ((p : PendingLoad) → IsPending p m → IsPending p n)
      → Pendings m l
      → Pendings n l
  Pendings-map m n [] f h = tt
  Pendings-map m n (p ∷ l) f h = (f p h.0, Pendings-map m n l f h.1)

  pub Takes-IsPending :
      (m : Manager E) {p : PendingLoad} {l r : List PendingLoad}
      → Takes p l r
      → Pendings m l
      → IsPending p m
  Takes-IsPending m (here l) h = h.0
  Takes-IsPending m (there q t) h = Takes-IsPending m t h.1

  -- Where the object of `p` is written, every other load stays pending.
  Pendings-away :
      (m n : Manager E) (p : PendingLoad) (l : List PendingLoad)
      → ((q : PendingLoad) → p.address ≢ q.address → IsPending q m → IsPending q n)
      → ApartFrom p l
      → Pendings m l
      → Pendings n l
  Pendings-away m n p [] f a h = tt
  Pendings-away m n p (q ∷ l) f a h = (f q a.0 h.0, Pendings-away m n p l f a.1 h.1)

  pub Takes-Pendings :
      (m n : Manager E) {p : PendingLoad} {l r : List PendingLoad}
      → Takes p l r
      → ((q : PendingLoad) → p.address ≢ q.address → IsPending q m → IsPending q n)
      → Apart l
      → Pendings m l
      → Pendings n r
  Takes-Pendings m n {p} (here l) f a h = Pendings-away m n p l f a.0 h.1
  Takes-Pendings m n (there q t) f a h =
      (f q (λ e. (Takes-ApartFrom q t a.0).1 (sym e)) h.0, Takes-Pendings m n t f a.1 h.1)
