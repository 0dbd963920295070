-- ===== src/Deployment/Manager/Soundness.antt =====
-- Reachable states of the manager (model_manager.cpp) under concurrent callers.
use mathlib.Core.Path.{subst}
use mathlib.Core.Option.{none-ne-some}
use jetsonfabric.Base.{
  ◌≡◌, ◌≢◌, refl, sym, ap, ◌∙◌, Bool, String, List, [], ◌∷◌, length, get_elem?, arith,
}
use jetsonfabric.Deployment.{DeploymentIdentity}
use jetsonfabric.Deployment.Manager.{find_key, Manager, empty}
use jetsonfabric.Deployment.Manager.Invariant.{of_Ends, Inv, activate-Inv, drain-Inv, unload-Inv}
use jetsonfabric.Deployment.Manager.Load.{
  PendingLoad, BeginLoad, started, begin_load, insert_loading, loading_deployment,
}
use jetsonfabric.Deployment.Manager.LoadCases.{begin_rule}
use jetsonfabric.Deployment.Manager.Loading.{
  insert-Inv, finish-Inv, finish-IsPending, get_elem?-insert_old, get_elem?-insert_new,
}
use jetsonfabric.Deployment.Manager.Map.{get_elem?-lt}
use jetsonfabric.Deployment.Manager.Pending.{
  IsPending, activate-IsPending, drain-IsPending, unload-IsPending,
}
use jetsonfabric.Deployment.Manager.System.{
  System, Step, activates, drains, unloads, begins, finishes, Reach, start, next, Pendings,
  ApartFrom, Apart, IsSound, Pendings-map, Takes-IsPending, Takes-Apart, Takes-Pendings,
}
use jetsonfabric.Pipeline.Assignment.{StageAssignment}

module _ {E : Type 0} (m : Manager E) where
  -- What the first section does when it starts a load.
  abbrev Begun : Manager E × BeginLoad → Type 0
  Begun x =
      (p : PendingLoad)
      → x.1 ≡ started p
      → Inv x.0
        × IsPending p x.0
        × ((q : PendingLoad) → IsPending q m → IsPending q x.0)
        × ((q : PendingLoad) → IsPending q m → p.address ≢ q.address)

module _ {E : Type 0} (m : Manager E) (v : Inv m) where
  begin-Begun :
      (has_builder : Bool) (node_name : String) (i : DeploymentIdentity)
      (assignment : StageAssignment)
      → Begun m (begin_load has_builder node_name i assignment m)
  unfolding loading_deployment
  begin-Begun has_builder node_name i assignment =
      begin_rule (Begun m) m node_name i assignment (λ r bad p e. absurd (cc))
        (λ absent p e.
          let here : length m.objects ≡ p.address = ground arith in
          let mine : i ≡ p.identity = ground arith in
          (
            insert-Inv m v i absent,
            (
              loading_deployment i,
              ap (get_elem? (insert_loading i m).objects) (sym here) ∙ get_elem?-insert_new i m,
              refl,
              mine,
            ),
            λ q h. (h.0, get_elem?-insert_old i m q.address h.0 h.1, h.2, h.3),
            λ q h same. absurd (omega (arith, get_elem?-lt m.objects q.address h.0 h.1)),
          ))
        has_builder

  Begun-ApartFrom :
      (p : PendingLoad) (l : List PendingLoad)
      → ((q : PendingLoad) → IsPending q m → p.address ≢ q.address)
      → Pendings m l
      → ApartFrom p l
  Begun-ApartFrom p [] f h = tt
  Begun-ApartFrom p (q ∷ l) f h = (f q h.0, Begun-ApartFrom p l f h.1)

module _ {E : Type 0} {t : System E} where
  keeps :
      (l : List PendingLoad)
      → t.loads ≡ l
      → Inv t.manager
      → Pendings t.manager l
      → Apart l
      → IsSound t
  keeps l e v h a = record {
    inv = v;
    pending = subst (Pendings t.manager) (sym e) h;
    apart = subst Apart (sym e) a;
  }

module _ {E : Type 0} {s t : System E} where
  -- Every step of every caller keeps the state sound.
  pub Step-IsSound : Step s t → IsSound s → IsSound t
  Step-IsSound (activates i r e l) v =
      keeps s.loads l (of_Ends _ _ _ r e (activate-Inv s.manager v.inv i))
        (Pendings-map s.manager t.manager s.loads
          (λ p q. of_Ends _ _ _ r e (activate-IsPending s.manager p q i)) v.pending)
        v.apart
  Step-IsSound (drains i r e l) v =
      keeps s.loads l (of_Ends _ _ _ r e (drain-Inv s.manager v.inv i))
        (Pendings-map s.manager t.manager s.loads
          (λ p q. of_Ends _ _ _ r e (drain-IsPending s.manager p q i)) v.pending)
        v.apart
  Step-IsSound (unloads i r e l) v =
      keeps s.loads l (of_Ends _ _ _ r e (unload-Inv s.manager v.inv i))
        (Pendings-map s.manager t.manager s.loads
          (λ p q. of_Ends _ _ _ r e (unload-IsPending s.manager p q i)) v.pending)
        v.apart
  Step-IsSound (begins b n i a p e l) v =
      let (inv, pending, olds, apart) =
        subst (Begun s.manager) e (begin-Begun s.manager v.inv b n i a) p refl in
      keeps (p ∷ s.loads) l inv (pending, Pendings-map s.manager t.manager s.loads olds v.pending)
        (Begun-ApartFrom s.manager v.inv p s.loads apart v.pending, v.apart)
  Step-IsSound (finishes p outcome r takes e) v =
      let mine = Takes-IsPending s.manager takes v.pending in
      record {
        inv = of_Ends _ _ _ r e (finish-Inv s.manager v.inv p mine outcome);
        pending =
            Takes-Pendings s.manager t.manager takes
              (λ q ne h. of_Ends _ _ _ r e (finish-IsPending s.manager v.inv p mine outcome q ne h))
              v.apart v.pending;
        apart = Takes-Apart takes v.apart;
      }

abbrev pub idle : (E : Type 0) → System E
idle E = record { manager = empty; loads = [] }

idle-IsSound : (E : Type 0) → IsSound (idle E)
unfolding empty find_key
idle-IsSound E = record {
  inv = record {
    entries = λ k a h. absurd (none-ne-some a h);
    chosen = λ k h. absurd (none-ne-some k h);
  };
  pending = tt;
  apart = tt;
}

-- In every state that an idle runtime reaches by locked sections of load, activate, drain and
-- unload, in any order and with any number of loads under way, each entry of the map has an object
-- of its key that is not canceled, not unloading, with a stage worker if it is ready, active or
-- draining; the preferred key is resident; and the loads under way have objects of their own.
pub Reach-IsSound : {E : Type 0} {t : System E} → Reach (idle E) t → IsSound t
Reach-IsSound {E} start = idle-IsSound E
Reach-IsSound (next r st) = Step-IsSound st (Reach-IsSound r)
