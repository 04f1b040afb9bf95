-- ===== src/Service/Rollback.antt =====
-- deployment_service.py, `rollback`: an earlier version of the agent takes the deployment's place.
use open_simple_agent.Base.{some}
use open_simple_agent.Service.{M, ◌>>◌}
use open_simple_agent.Service.Snapshots.{rollback_snapshot}
use open_simple_agent.Service.Interfaces.{Ownership, ProviderApi, ProviderAnswer, AgentDefinition}
use open_simple_agent.Service.Owned.{
  Stores, find_record, find_agent, change_provider, assert_owned, persist, owned_operation,
  observed_row,
}
use open_simple_agent.Service.Operations.{Surroundings, spec_for, new_record, prepare, read_stores}
use open_simple_agent.Base.{Option}
use open_simple_agent.Base.Same.{nat_eq, option_eq, pair_eq}
use open_simple_agent.Base.Text.{Text, text_eq}
use open_simple_agent.Catalog.{AgentRecord}
use open_simple_agent.Deployment.{Deployment}
use open_simple_agent.Lease.{OperationLease}
use open_simple_agent.Repository.Deployments.{DeploymentRecord}
use open_simple_agent.Service.{
  agent_gone, deployment_not_found, from_result, provider_lacks, pure, raise, require,
  rollback_failed, unable_to_stop, ◌>>=◌,
}
use open_simple_agent.Service.Interfaces.{answered, broken, unknown_deployment}
use open_simple_agent.Service.Operations.{deployment_resource}
use open_simple_agent.Repository.Deployments.{RecordStore}

module _ (O : Ownership) (P : ProviderApi) (R : RecordStore) where
  -- the first `try`: a `KeyError` and a lost lease are raised as they are
  unfoldable pub stopped_for_rollback : OperationLease → ProviderAnswer → M (Stores O P) Deployment
  stopped_for_rollback lease (answered d) = assert_owned O P R lease >> pure d
  stopped_for_rollback lease unknown_deployment = raise provider_lacks
  stopped_for_rollback lease broken = raise unable_to_stop

  -- the second `try`
  unfoldable pub started_for_rollback : OperationLease → ProviderAnswer → M (Stores O P) Deployment
  started_for_rollback lease (answered d) = assert_owned O P R lease >> pure d
  started_for_rollback lease unknown_deployment = raise rollback_failed
  started_for_rollback lease broken = raise rollback_failed

  -- from the snapshot on
  unfoldable pub replace_deployment :
      Surroundings
      → DeploymentRecord
      → AgentRecord AgentDefinition
      → Text
      → AgentDefinition
      → OperationLease
      → M (Stores O P) DeploymentRecord
  replace_deployment c stored agent target definition lease = do
    (bundle_path, port) ← prepare O P R c agent (some target) definition
    _ ← assert_owned O P R lease
    answer ←
        change_provider O P R
          (λ p. P.deploy p (spec_for c stored.agent_id target bundle_path port lease))
    deployment ← started_for_rollback lease answer
    s ← read_stores O P R
    let replacement = new_record c stored.agent_id agent target port s.clock deployment
    _ ← persist O P R replacement lease
    pure replacement

  unfoldable pub rollback_under :
      Surroundings
      → Text
      → Option Text
      → DeploymentRecord
      → OperationLease
      → M (Stores O P) DeploymentRecord
  rollback_under c deployment_id to_version stored lease = do
    _ ← assert_owned O P R lease
    found ← find_agent O P R stored.agent_id
    agent ← require found agent_gone
    (target, definition) ← from_result (rollback_snapshot agent to_version)
    answer ← change_provider O P R (λ p. P.stop p deployment_id)
    halted ← stopped_for_rollback lease answer
    _ ← persist O P R (observed_row stored halted) lease
    replace_deployment c (observed_row stored halted) agent target definition lease

  unfoldable pub rollback : Surroundings → Text → Option Text → M (Stores O P) DeploymentRecord
  rollback c deployment_id to_version = do
    first ← find_record O P R deployment_id
    _ ← require first (deployment_not_found deployment_id)
    again ← find_record O P R deployment_id
    stored ← require again (deployment_not_found deployment_id)
    owned_operation O P R stored.tenant_id (deployment_resource deployment_id) c.operation_id
        (rollback_under c deployment_id to_version stored)
