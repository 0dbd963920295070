-- ===== src/Deployment/Manager/Load.antt =====
-- `ModelManager::Impl::load_resident_deployment`, and the constructors' `insert_active`. The load
-- takes the lock twice: `begin_load` up to the builder's call, `finish_load` with what it gave.
use jetsonfabric.Base.{
  ℕ, ◌||◌, Bool, true, false, not, Option, none, some, String, [], ◌∷◌, ◌++◌, length, get_elem?,
  test, if◌then◌else◌, string_discrete, ℕ_discrete, ◌⊎◌, inl, inr,
}
use jetsonfabric.Deployment.{
  DeploymentIdentity, DeploymentOperationResult, ResidentDeploymentState.loading,
  ResidentDeploymentState.ready, ResidentDeploymentState.active, ResidentDeploymentState.failed,
}
use jetsonfabric.Deployment.Manager.{
  InferenceEngineParts, ResidentExecution, ResidentDeployment, Manager, key_for, find_key, emplace,
  resident_at, update,
}
use jetsonfabric.Deployment.Manager.Operations.{
  operation_success, operation_error, require_identity, require_managed_identity, invalid_identity,
  transition, canceled_load,
}
use jetsonfabric.Pipeline.Assignment.{StageAssignment, validate_stage_assignment}

-- A load between its two locked sections: what its thread holds.
pub record PendingLoad : Type 0 where
  pub address : ℕ
  pub identity : DeploymentIdentity
  pub node_name : String
  pub assignment : StageAssignment

-- How the call of the engine builder ends.
pub data BuildOutcome (E : Type 0) : Type 0 where
  built : InferenceEngineParts E → BuildOutcome E
  throws_invalid_argument : String → BuildOutcome E
  throws_exception : String → BuildOutcome E

-- The first section ends the operation, or leaves a load under way.
pub data BeginLoad : Type 0 where
  refused : DeploymentOperationResult → BeginLoad
  started : PendingLoad → BeginLoad

abbrev pub value_or {ℓ} : {A : Type ℓ} → Option A → A → A
value_or none d = d
value_or (some a) d = a

module _ {E : Type 0} where
  -- The resident deployment that `make_shared` makes.
  unfoldable pub loading_deployment : DeploymentIdentity → ResidentDeployment E
  loading_deployment i = record {
    identity = i;
    state = loading;
    cancel_requested = false;
    model_residency = none;
    execution = none;
  }

  unfoldable pub insert_loading : DeploymentIdentity → Manager E → Manager E
  unfolding loading_deployment
  insert_loading i m = record {
    objects = m.objects ++ (loading_deployment i ∷ []);
    deployments = emplace (key_for i) (length m.objects) m.deployments;
    preferred = elim m.preferred [ none ↦ some (key_for i) | some k ↦ some k ];
  }

  unfoldable pub begin_managed :
      String → DeploymentIdentity → StageAssignment → Manager E → Manager E × BeginLoad
  begin_managed node_name i assignment m = elim (resident_at (key_for i) m) [
    | some (a, d) ↦ (
      m,
      refused (
          operation_error "409 Conflict" "resident_deployment_exists"
            "runtime already has this resident deployment identity" (some d.identity)
            (some d.state)),
    )
    | none ↦ (
      insert_loading i m,
      started (record {
        address = length m.objects;
        identity = i;
        node_name = node_name;
        assignment = assignment;
      }),
    )
  ]

  -- The flag says whether the caller gave a builder.
  unfoldable pub begin_load :
      Bool → String → DeploymentIdentity → StageAssignment → Manager E → Manager E × BeginLoad
  begin_load has_builder node_name i assignment m =
      if not has_builder
      then (
        m,
        refused (
            operation_error "400 Bad Request" "invalid_engine_builder"
              "deployment load requires an engine builder" none none),
      )
      else if not (test (string_discrete (validate_stage_assignment assignment) ""))
      then (
        m,
        refused (
            operation_error "400 Bad Request" "invalid_stage_assignment"
              (validate_stage_assignment assignment) none none),
      )
      else elim (require_managed_identity i) [
        | some message ↦ (m, refused (invalid_identity message))
        | none ↦ begin_managed node_name i assignment m
      ]

  -- `resident->cancel_requested || find_key(key) != resident`
  unfoldable pub is_canceled : PendingLoad → ResidentDeployment E → Manager E → Bool
  is_canceled p d m = d.cancel_requested || elim (find_key (key_for p.identity) m.deployments) [
    | none ↦ true
    | some a ↦ not (test (ℕ_discrete a p.address))
  ]

  -- A catch block: `code` tells the two apart.
  unfoldable pub fail_load :
      PendingLoad
      → ResidentDeployment E
      → String
      → String
      → String
      → Manager E
      → Option (Manager E × DeploymentOperationResult)
  fail_load p d status code message m =
      if is_canceled p d m then some (m, canceled_load d) else elim (transition d failed) [
        | none ↦ none
        | some d' ↦ some (
          update p.address d' m,
          operation_error status code message (some d'.identity) (some failed),
        )
      ]

  abbrev pub fail_invalid :
      PendingLoad
      → ResidentDeployment E
      → String
      → Manager E
      → Option (Manager E × DeploymentOperationResult)
  fail_invalid p d = fail_load p d "400 Bad Request" "invalid_engine_config"

  abbrev pub fail_other :
      PendingLoad
      → ResidentDeployment E
      → String
      → Manager E
      → Option (Manager E × DeploymentOperationResult)
  fail_other p d = fail_load p d "500 Internal Server Error" "deployment_load_failed"

  -- The end of the try block. If `transition` threw, the handler would see the fields set before.
  unfoldable pub install :
      PendingLoad
      → ResidentDeployment E
      → InferenceEngineParts E
      → E
      → Manager E
      → Option (Manager E × DeploymentOperationResult)
  install p d parts executor m =
      if is_canceled p d m
      then some (m, canceled_load d)
      else let execution : ResidentExecution E = record {
        node_name = p.node_name;
        model_id = d.identity.model_id;
        assignment = value_or parts.execution_assignment p.assignment;
        executor = executor;
      } in
        let loaded : ResidentDeployment E = record d {
          model_residency = parts.model_residency;
          execution = some execution;
        } in
        elim (transition loaded ready) [
          | none ↦
              fail_other p loaded "invalid resident deployment transition"
                (update p.address loaded m)
          | some d' ↦
              some (update p.address d' m, operation_success "200 OK" d'.identity (some ready))
        ]

  unfoldable pub finish_found :
      PendingLoad
      → ResidentDeployment E
      → BuildOutcome E
      → Manager E
      → Option (Manager E × DeploymentOperationResult)
  finish_found p d (throws_invalid_argument message) m = fail_invalid p d message m
  finish_found p d (throws_exception message) m = fail_other p d message m
  finish_found p d (built parts) m = elim parts.executor [
    | none ↦ fail_invalid p d "model manager requires an inference executor" m
    | some executor ↦ install p d parts executor m
  ]

  -- The thread's pointer is never null: a read outside the objects made so far is no run of it.
  unfoldable pub finish_load :
      PendingLoad → BuildOutcome E → Manager E → Option (Manager E × DeploymentOperationResult)
  finish_load p outcome m = elim (get_elem? m.objects p.address) [
    | none ↦ none
    | some d ↦ finish_found p d outcome m
  ]

  -- `insert_active`, which the constructors call on an empty state; an error is what is thrown.
  unfoldable pub insert_active :
      String
      → DeploymentIdentity
      → StageAssignment
      → InferenceEngineParts E
      → Manager E
      → String ⊎ Manager E
  insert_active node_name i assignment parts m = elim (require_identity i) [
    | some message ↦ inl message
    | none ↦ elim parts.executor [
      | none ↦ inl "model manager requires an inference executor"
      | some executor ↦ inr (record {
        objects = m.objects ++ (active_deployment executor ∷ []);
        deployments = emplace (key_for i) (length m.objects) m.deployments;
        preferred = some (key_for i);
      })
    ]
  ]
    where
      active_deployment : E → ResidentDeployment E
      active_deployment executor = record {
        identity = i;
        state = active;
        cancel_requested = false;
        model_residency = parts.model_residency;
        execution = some (record {
          node_name = node_name;
          model_id = i.model_id;
          assignment = value_or parts.execution_assignment assignment;
          executor = executor;
        });
      }
