-- ===== src/Deployment.antt =====
-- runtime/deployment/deployment.hpp: identities, states and the transition table of a resident
-- deployment, and the results of the operations on it.
pub mod Manager
use jetsonfabric.Base.{
  ℕ, ◌≡◌, ◌||◌, Bool, true, false, Option, none, some, String, ℤ, pos, ℤ-discrete, string_discrete,
  ℕ_discrete, test, ite,
}

pub data ResidentDeploymentState : Type 0 where
  loading ready active draining unloading failed : ResidentDeploymentState

unfoldable pub resident_deployment_state_string : ResidentDeploymentState → String
resident_deployment_state_string loading = "loading"
resident_deployment_state_string ready = "ready"
resident_deployment_state_string active = "active"
resident_deployment_state_string draining = "draining"
resident_deployment_state_string unloading = "unloading"
resident_deployment_state_string failed = "failed"

unfoldable pub state_discrete : Discrete ResidentDeploymentState
state_discrete = hlevel

abbrev is_state : ResidentDeploymentState → ResidentDeploymentState → Bool
is_state a b = test (state_discrete a b)

-- The switch on a resident state, and the cases of no deployment on either side.
unfoldable pub is_valid_resident_deployment_transition :
    Option ResidentDeploymentState → Option ResidentDeploymentState → Bool
unfolding state_discrete
is_valid_resident_deployment_transition none none = false
is_valid_resident_deployment_transition none (some to) = is_state to loading
is_valid_resident_deployment_transition (some from) none = is_state from unloading
is_valid_resident_deployment_transition (some loading) (some to) =
    is_state to ready || is_state to failed
is_valid_resident_deployment_transition (some ready) (some to) =
    is_state to active || is_state to unloading || is_state to failed
is_valid_resident_deployment_transition (some active) (some to) =
    is_state to draining || is_state to failed
is_valid_resident_deployment_transition (some draining) (some to) =
    is_state to unloading || is_state to failed
is_valid_resident_deployment_transition (some unloading) (some to) = is_state to failed
is_valid_resident_deployment_transition (some failed) (some to) = is_state to unloading

pub record DeploymentIdentity : Type 0 where
  pub deployment_id : String
  pub epoch : ℕ
  pub model_id : String
  pub model_sha256 : String

-- The defaulted operator==.
unfoldable pub identity_discrete : Discrete DeploymentIdentity
identity_discrete = hlevel (string_discrete, ℕ_discrete)

pub record ModelResidency : Type 0 where
  pub layer_start : ℤ
  pub layer_end : ℤ
  pub layer_count : ℤ
  pub resident_weight_bytes : ℕ
  pub total_weight_bytes : ℕ
  pub resident_tensor_count : ℕ

unfoldable pub partitioned : ModelResidency → Bool
partitioned r =
    ite (ℤ-discrete r.layer_start (pos 0)) false true
    || ite (ℤ-discrete r.layer_end r.layer_count) false true

pub record DeploymentStatus : Type 0 where
  pub resident : Bool
  pub is_active : Bool
  pub state : Option ResidentDeploymentState
  pub identity : Option DeploymentIdentity
  pub model_residency : Option ModelResidency

pub record DeploymentOperationResult : Type 0 where
  pub ok : Bool
  pub status : String
  pub error_code : String
  pub error_message : String
  pub identity : Option DeploymentIdentity
  pub state : Option ResidentDeploymentState
