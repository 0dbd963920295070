-- ===== src/Deployment/Manager/Operations.antt =====
-- The operations of `ModelManager::Impl` that change its state (model_manager.cpp). Each returns the
-- new state and its result; `none` is the std::logic_error of `transition`, which none of them
-- catches but the load. A load is two locked sections with the engine builder between them.
use jetsonfabric.Base.{
  ℕ, ◌&&◌, ◌||◌, Bool, true, false, not, Option, none, some, String, Bytes, codes, [], ◌∷◌, length,
  test, is_some, if◌then◌else◌, string_discrete, leb, ◌==◌,
}
use jetsonfabric.Deployment.{
  DeploymentIdentity, DeploymentOperationResult, ResidentDeploymentState,
  ResidentDeploymentState.loading, ResidentDeploymentState.ready, ResidentDeploymentState.active,
  ResidentDeploymentState.draining, ResidentDeploymentState.unloading,
  ResidentDeploymentState.failed, state_discrete, is_valid_resident_deployment_transition,
}
use jetsonfabric.Deployment.Manager.{
  ResidentDeployment, Manager, key_for, erase, find_exact, update, select_preferred_after_erase,
}

unfoldable pub operation_success :
    String → DeploymentIdentity → Option ResidentDeploymentState → DeploymentOperationResult
operation_success status identity state = record {
  ok = true;
  status = status;
  error_code = "";
  error_message = "";
  identity = some identity;
  state = state;
}

unfoldable pub operation_error :
    String
    → String
    → String
    → Option DeploymentIdentity
    → Option ResidentDeploymentState
    → DeploymentOperationResult
operation_error status code message identity state = record {
  ok = false;
  status = status;
  error_code = code;
  error_message = message;
  identity = identity;
  state = state;
}

-- std::isxdigit
unfoldable pub is_xdigit : ℕ → Bool
is_xdigit c = leb b'0' c && leb c b'9' || leb b'a' c && leb c b'f' || leb b'A' c && leb c b'F'

unfoldable pub all_xdigits : Bytes → Bool
unfolding is_xdigit
all_xdigits [] = true
all_xdigits (c ∷ s) = is_xdigit c && all_xdigits s

-- The message of the std::invalid_argument that is thrown, if any.
unfoldable pub require_identity : DeploymentIdentity → Option String
require_identity i =
    if test (string_discrete i.deployment_id "")
    then some "deployment_id is required"
    else if test (string_discrete i.model_id "")
    then some "model_id is required"
    else none

unfoldable pub require_managed_identity : DeploymentIdentity → Option String
unfolding require_identity
require_managed_identity i = elim (require_identity i) [
  | some message ↦ some message
  | none ↦
      if i.epoch == 0
      then some "deployment epoch must be positive"
      else if not (length (codes i.model_sha256) == 64)
      then some "model_sha256 must be a 64-character hexadecimal digest"
      else if all_xdigits (codes i.model_sha256)
      then none
      else some "model_sha256 must be a 64-character hexadecimal digest"
]

unfoldable pub invalid_identity : String → DeploymentOperationResult
invalid_identity message =
    operation_error "400 Bad Request" "invalid_deployment_identity" message none none

unfoldable pub deployment_not_found : DeploymentIdentity → DeploymentOperationResult
deployment_not_found i =
    operation_error "409 Conflict" "deployment_not_found"
      "runtime has no resident deployment matching the expected identity" (some i) none

module _ {E : Type 0} where
  unfoldable pub transition :
      ResidentDeployment E → ResidentDeploymentState → Option (ResidentDeployment E)
  transition d next =
      if is_valid_resident_deployment_transition (some d.state) (some next)
      then some (record d { state = next })
      else none

  unfoldable pub transitioning_error : ResidentDeployment E → DeploymentOperationResult
  transitioning_error d =
      operation_error "503 Service Unavailable" "deployment_transitioning"
        "resident deployment is transitioning" (some d.identity) (some d.state)

  unfoldable pub invalid_state_error : ResidentDeployment E → DeploymentOperationResult
  invalid_state_error d =
      operation_error "500 Internal Server Error" "invalid_deployment_state"
        "ready deployment is missing execution components" (some d.identity) (some d.state)

  unfoldable pub canceled_load : ResidentDeployment E → DeploymentOperationResult
  canceled_load d =
      operation_error "409 Conflict" "deployment_load_canceled"
        "deployment load was canceled before it became resident" (some d.identity) (some loading)

  abbrev is_in : ResidentDeployment E → ResidentDeploymentState → Bool
  is_in d s = test (state_discrete d.state s)

  -- The part of `activate_resident_deployment` behind the lookup.
  unfoldable pub activate_found :
      Manager E → ℕ → ResidentDeployment E → Option (Manager E × DeploymentOperationResult)
  activate_found m a d =
      if is_in d active
      then some (
        record m { preferred = some (key_for d.identity) },
        operation_success "200 OK" d.identity (some d.state),
      )
      else if is_in d loading || is_in d draining || is_in d unloading
      then some (m, transitioning_error d)
      else if is_in d failed
      then some (
        m,
        operation_error "409 Conflict" "deployment_failed"
            "failed deployment must be unloaded before activation" (some d.identity) (some d.state),
      )
      else if not (is_in d ready) || not (is_some d.execution)
      then some (m, invalid_state_error d)
      else elim (transition d active) [
        | none ↦ none
        | some d' ↦ some (
          record (update a d' m) { preferred = some (key_for d'.identity) },
          operation_success "200 OK" d'.identity (some d'.state),
        )
      ]

  unfoldable pub activate_resident_deployment :
      DeploymentIdentity → Manager E → Option (Manager E × DeploymentOperationResult)
  activate_resident_deployment i m = elim (require_managed_identity i) [
    | some message ↦ some (m, invalid_identity message)
    | none ↦ elim (find_exact i m) [
      | none ↦ some (m, deployment_not_found i)
      | some (a, d) ↦ activate_found m a d
    ]
  ]

  unfoldable pub drain_found :
      Manager E → ℕ → ResidentDeployment E → Option (Manager E × DeploymentOperationResult)
  drain_found m a d =
      if is_in d loading
      then some (m, operation_success "200 OK" d.identity (some d.state))
      else if is_in d unloading
      then some (m, transitioning_error d)
      else if is_in d active
      then elim (transition d draining) [
        | none ↦ none
        | some d' ↦ some (update a d' m, operation_success "200 OK" d'.identity (some d'.state))
      ]
      else some (m, operation_success "200 OK" d.identity (some d.state))

  unfoldable pub drain_resident_deployment :
      DeploymentIdentity → Manager E → Option (Manager E × DeploymentOperationResult)
  drain_resident_deployment i m = elim (require_managed_identity i) [
    | some message ↦ some (m, invalid_identity message)
    | none ↦ elim (find_exact i m) [
      | none ↦ some (m, operation_success "200 OK" i none)
      | some (a, d) ↦ drain_found m a d
    ]
  ]

  unfoldable pub drop_entry : DeploymentIdentity → Manager E → Manager E
  drop_entry i m =
      select_preferred_after_erase (record m { deployments = erase (key_for i) m.deployments })

  unfoldable pub unload_found :
      Manager E → ℕ → ResidentDeployment E → Option (Manager E × DeploymentOperationResult)
  unload_found m a d =
      if is_in d loading
      then some (
        drop_entry d.identity (update a (record d { cancel_requested = true }) m),
        operation_success "200 OK" d.identity none,
      )
      else if is_in d unloading
      then some (m, transitioning_error d)
      else if is_in d active
      then some (
        m,
        operation_error "409 Conflict" "deployment_not_draining"
            "active deployment must enter draining state before unload" (some d.identity)
            (some d.state),
      )
      else elim (transition d unloading) [
        | none ↦ none
        | some d' ↦
            some (drop_entry d.identity (update a d' m), operation_success "200 OK" d.identity none)
      ]

  unfoldable pub unload_resident_deployment :
      DeploymentIdentity → Manager E → Option (Manager E × DeploymentOperationResult)
  unload_resident_deployment i m = elim (require_managed_identity i) [
    | some message ↦ some (m, invalid_identity message)
    | none ↦ elim (find_exact i m) [
      | none ↦ some (m, operation_success "200 OK" i none)
      | some (a, d) ↦ unload_found m a d
    ]
  ]
