-- ===== src/Deployment/Manager.antt =====
-- The state of runtime/deployment/model_manager.cpp (`ModelManager::Impl`) and its private helpers.
-- A resident deployment is a shared object: the map holds its address, and a load that is under
-- way keeps the address too, also after the map has dropped it. `E` is the type of the executors
-- that an engine builder makes; `mutex_` makes each locked section one step.
pub mod Operations
pub mod Cases
pub mod Map
pub mod Invariant
pub mod Lookup
pub mod LoadCases
pub mod Pending
pub mod Loading
pub mod System
pub mod Soundness
pub mod Steps
pub mod Epochs
pub mod Effects
pub mod Routing
pub mod Admission
pub mod Isolation
pub mod Lifecycle
pub mod Load
use mathlib.Core.Option
use jetsonfabric.Base.{
  ℕ, ◌&&◌, ◌||◌, Bool, true, false, Option, none, some, String, List, [], ◌∷◌, length, get_elem?,
  set, test, ite, if◌then◌else◌, string_discrete, ℕ_discrete, ltb, ltb_string,
}
use jetsonfabric.Deployment.{
  DeploymentIdentity, DeploymentStatus, ModelResidency, ResidentDeploymentState,
  ResidentDeploymentState.active, ResidentDeploymentState.draining, identity_discrete,
  state_discrete,
}
use jetsonfabric.Pipeline.Assignment.{StageAssignment}

-- What the engine builder returns; the unique_ptr to the executor may be null.
pub record InferenceEngineParts (E : Type 0) : Type 0 where
  pub executor : Option E
  pub model_residency : Option ModelResidency
  pub execution_assignment : Option StageAssignment

-- The stage worker over the executor, by the values that it was made from.
pub record ResidentExecution (E : Type 0) : Type 0 where
  pub node_name : String
  pub model_id : String
  pub assignment : StageAssignment
  pub executor : E

pub record ResidentDeployment (E : Type 0) : Type 0 where
  pub identity : DeploymentIdentity
  pub state : ResidentDeploymentState
  pub cancel_requested : Bool
  pub model_residency : Option ModelResidency
  pub execution : Option (ResidentExecution E)

abbrev pub DeploymentKey : Type 0
DeploymentKey = String × ℕ

unfoldable pub key_discrete : Discrete DeploymentKey
key_discrete = hlevel (string_discrete, ℕ_discrete)

-- `objects` are the resident deployments made so far, by address; `deployments` is the map.
pub record Manager (E : Type 0) : Type 0 where
  pub objects : List (ResidentDeployment E)
  pub deployments : List (DeploymentKey × ℕ)
  pub preferred : Option DeploymentKey

unfoldable pub empty : {E : Type 0} → Manager E
empty = record { objects = []; deployments = []; preferred = none }

unfoldable pub key_for : DeploymentIdentity → DeploymentKey
key_for i = (i.deployment_id, i.epoch)

-- std::map over pairs: find, emplace (which keeps an entry that is there) and erase.
unfoldable pub find_key : DeploymentKey → List (DeploymentKey × ℕ) → Option ℕ
find_key k [] = none
find_key k ((j, a) ∷ m) = ite (key_discrete j k) (some a) (find_key k m)

-- operator< of std::pair<std::string, std::uint64_t>
unfoldable pub key_lt : DeploymentKey → DeploymentKey → Bool
key_lt (s, n) (t, m) = ltb_string s t || (test (string_discrete s t) && ltb n m)

unfoldable pub emplace : DeploymentKey → ℕ → List (DeploymentKey × ℕ) → List (DeploymentKey × ℕ)
emplace k a [] = (k, a) ∷ []
emplace k a ((j, b) ∷ m) =
    ite (key_discrete j k) ((j, b) ∷ m)
      (if key_lt k j then (k, a) ∷ (j, b) ∷ m else (j, b) ∷ emplace k a m)

unfoldable pub erase : DeploymentKey → List (DeploymentKey × ℕ) → List (DeploymentKey × ℕ)
erase k [] = []
erase k ((j, a) ∷ m) = ite (key_discrete j k) (erase k m) ((j, a) ∷ erase k m)

unfoldable pub last_key : List (DeploymentKey × ℕ) → Option DeploymentKey
last_key [] = none
last_key ((k, a) ∷ []) = some k
last_key (e ∷ f ∷ l) = last_key (f ∷ l)

module _ {E : Type 0} where
  unfoldable pub is_executable : ResidentDeployment E → Bool
  is_executable d = elim d.execution [
    | none ↦ false
    | some x ↦ test (state_discrete d.state active) || test (state_discrete d.state draining)
  ]

  -- The object that a key leads to, with its address.
  unfoldable pub resident_at : DeploymentKey → Manager E → Option (ℕ × ResidentDeployment E)
  resident_at k m = elim (find_key k m.deployments) [
    | none ↦ none
    | some a ↦ elim (get_elem? m.objects a) [ none ↦ none | some r ↦ some (a, r) ]
  ]

  unfoldable pub find_exact : DeploymentIdentity → Manager E → Option (ℕ × ResidentDeployment E)
  unfolding key_for
  find_exact i m = elim (resident_at (key_for i) m) [
    | none ↦ none
    | some (a, r) ↦ ite (identity_discrete r.identity i) (some (a, r)) none
  ]

  unfoldable pub preferred_deployment : Manager E → Option (ResidentDeployment E)
  preferred_deployment m = elim m.preferred [
    | none ↦ none
    | some k ↦ elim (resident_at k m) [ none ↦ none | some (a, r) ↦ some r ]
  ]

  -- A write through the shared pointer.
  unfoldable pub update : ℕ → ResidentDeployment E → Manager E → Manager E
  update a r m = record m { objects = set m.objects a r }

  -- The loop of `has_active_deployment_locked`.
  unfoldable pub any_executable : List (ResidentDeployment E) → List (DeploymentKey × ℕ) → Bool
  any_executable objects [] = false
  any_executable objects ((k, a) ∷ l) =
      elim (get_elem? objects a) [ none ↦ false | some r ↦ is_executable r ]
      || any_executable objects l

  unfoldable pub has_active_deployment : Manager E → Bool
  has_active_deployment m = any_executable m.objects m.deployments

  unfoldable pub has_resident_deployment : Manager E → Bool
  has_resident_deployment m = elim m.deployments [ [] ↦ false | x ∷ l ↦ true ]

  unfoldable pub resident_deployment_count : Manager E → ℕ
  resident_deployment_count m = length m.deployments

  unfoldable pub resident_deployment_identity : Manager E → Option DeploymentIdentity
  resident_deployment_identity m = Option.map (λ d. d.identity) (preferred_deployment m)

  unfoldable pub resident_deployment_state : Manager E → Option ResidentDeploymentState
  resident_deployment_state m = Option.map (λ d. d.state) (preferred_deployment m)

  unfoldable pub status_for : Option (ResidentDeployment E) → DeploymentStatus
  status_for none = record {
    resident = false;
    is_active = false;
    state = none;
    identity = none;
    model_residency = none;
  }
  status_for (some d) = record {
    resident = true;
    is_active = is_executable d;
    state = some d.state;
    identity = some d.identity;
    model_residency = d.model_residency;
  }

  unfoldable pub deployment_status : Manager E → DeploymentStatus
  deployment_status m = status_for (preferred_deployment m)

  unfoldable pub deployment_status_of : DeploymentIdentity → Manager E → DeploymentStatus
  deployment_status_of i m =
      status_for (elim (find_exact i m) [ none ↦ none | some (a, r) ↦ some r ])

  -- The reverse walk of `select_preferred_after_erase`: the last executable entry of the list.
  unfoldable pub last_executable :
      List (ResidentDeployment E) → List (DeploymentKey × ℕ) → Option DeploymentKey
  last_executable objects [] = none
  last_executable objects ((k, a) ∷ l) = elim (last_executable objects l) [
    | some j ↦ some j
    | none ↦ elim (get_elem? objects a) [
      | none ↦ none
      | some r ↦ if is_executable r then some k else none
    ]
  ]

  unfoldable pub select_preferred_after_erase : Manager E → Manager E
  unfolding last_key
  select_preferred_after_erase m = record m {
    preferred = elim (last_executable m.objects m.deployments) [
      | some k ↦ some k
      | none ↦ last_key m.deployments
    ];
  }

  unfoldable pub active_deployment_identity : Manager E → Option DeploymentIdentity
  active_deployment_identity m = elim (preferred_deployment m) [
    | none ↦ none
    | some d ↦ if is_executable d then some d.identity else none
  ]

  unfoldable pub executable_deployment_identity :
      DeploymentIdentity → Manager E → Option DeploymentIdentity
  executable_deployment_identity i m = elim (find_exact i m) [
    | none ↦ none
    | some (a, r) ↦ if is_executable r then some r.identity else none
  ]

  unfoldable pub active_deployment_id : Manager E → String
  active_deployment_id m = elim (active_deployment_identity m) [
    | none ↦ ""
    | some i ↦ i.deployment_id
  ]

  unfoldable pub active_model_id : Manager E → String
  active_model_id m = elim (active_deployment_identity m) [ none ↦ "" | some i ↦ i.model_id ]
