-- ===== src/Service/Fencing.antt =====
-- Every operation of the service keeps to the fence, and returns only what a released lease covers.
use open_simple_agent.Service.{M, World}
use open_simple_agent.Service.Interfaces.{Ownership, ProviderApi, ProviderAnswer, AgentDefinition}
use open_simple_agent.Service.Traces.{Phase, Trace, Runs, idle, held, fresh}
use open_simple_agent.Service.Owned.{
  Stores, find_record, find_agent, find_rows, observe, owned_operation, observed_row,
}
use open_simple_agent.Service.Operations.{
  Surroundings, deploy, deploy_under, launch, prepare, read_stores, reconcile_resources,
  find_running, if_running, stop, restart, change_under,
}
use open_simple_agent.Service.Rollback.{
  rollback, rollback_under, replace_deployment, stopped_for_rollback, started_for_rollback,
}
use open_simple_agent.Service.Interfaces.{answered, broken, unknown_deployment}
use open_simple_agent.Service.Operations.{is_candidate}
use open_simple_agent.Service.Operations.{deployable, deployment_resource}
use open_simple_agent.Base.{Bool-cases, List, Option, [], inl, inr, none, some, ◌∷◌}
use open_simple_agent.Base.Text.{Text}
use open_simple_agent.Catalog.{AgentRecord}
use open_simple_agent.Deployment.{is_running}
use open_simple_agent.Lease.{OperationLease}
use open_simple_agent.Repository.Deployments.{DeploymentRecord, postgres}
use open_simple_agent.Service.{deployment_not_found, provider_failed, require, ◌>>=◌}
use open_simple_agent.Service.Leased.{
  Protected, assert_owned-Runs, change_provider-Runs, deployment_of-Runs, owned_operation-Runs,
  persist-Runs, refresh_status_owned-Runs,
}
use open_simple_agent.Service.References.{bundle_version, export_bundle}
use open_simple_agent.Service.Settings.{deployment_port}
use open_simple_agent.Service.Traces.{
  bind-Runs, from_result-Runs, passes-Runs, pure-Runs, quiet-Runs, raise-Runs, require-Runs,
}
use open_simple_agent.Base.Result.{Result, raised, returned}
use open_simple_agent.Service.{
  ServiceError, agent_gone, from_result, provider_lacks, rollback_failed, unable_to_stop,
}
use open_simple_agent.Service.Snapshots.{rollback_snapshot}
use open_simple_agent.Service.Traces.{Ends-idle}
use open_simple_agent.Service.Commands.{
  Operation, deploying, perform, restarting, rolling_back, stopping,
}

module _ (O : Ownership) (P : ProviderApi) where
  if_running-Runs :
      {lease : OperationLease} {rest : M (Stores O P) (Option DeploymentRecord)}
      (row : DeploymentRecord) (answer : ProviderAnswer)
      → Runs (held lease) rest (λ _. held lease) (held lease)
      → Runs (held lease) (if_running O P postgres row rest answer) (λ _. held lease) (held lease)
  if_running-Runs row unknown_deployment run = run
  if_running-Runs row broken run = raise-Runs provider_failed
  if_running-Runs {lease} row (answered d) run = elim (Bool-cases (is_running d.status)) [
    | inl runs ↦ rw runs (pure-Runs (λ _. held lease) _)
    | inr not_it ↦ rw not_it run
  ]

  find_running-Runs :
      (lease : OperationLease) (version : Text) (rows : List DeploymentRecord)
      → Runs (held lease) (find_running O P postgres version rows) (λ _. held lease) (held lease)
  unfolding find_running observe
  find_running-Runs lease version [] = pure-Runs (λ _. held lease) none
  find_running-Runs lease version (row ∷ rows) =
      let rest = find_running-Runs lease version rows in
      elim (Bool-cases (is_candidate version row)) [
        | inr not_it ↦ rw not_it rest
        | inl candidate ↦
            rw candidate (bind-Runs (quiet-Runs _) (λ answer. if_running-Runs row answer rest))
      ]

  read_stores-Runs : (p e : Phase) → Runs p (read_stores O P postgres) (λ _. p) e
  unfolding read_stores
  read_stores-Runs p e = record { follow = λ w t. t }

  prepare-Runs :
      (c : Surroundings) (agent : AgentRecord AgentDefinition) (version : Option Text)
      (definition : AgentDefinition) (lease : OperationLease)
      → Runs
          (held lease)
          (prepare O P postgres c agent version definition)
          (λ _. held lease)
          (held lease)
  unfolding prepare reconcile_resources
  prepare-Runs c agent version definition lease = bind-Runs (quiet-Runs _) (λ _.
      bind-Runs (read_stores-Runs _ _) (λ s.
        bind-Runs
          (from_result-Runs (
            export_bundle c.writer (s.defined agent.tenant_id) definition agent.name
              (bundle_version version agent.current_version)))
          (λ _.
            bind-Runs (from_result-Runs (deployment_port c.env c.free_port))
              (λ port. pure-Runs (λ _. held lease) (c.bundle_path, port)))))

  launch-Runs :
      (c : Surroundings) (agent_id : Text) (agent : AgentRecord AgentDefinition)
      (definition : AgentDefinition) (lease : OperationLease) (found : Option DeploymentRecord)
      → Runs
          (held lease)
          (launch O P postgres c agent_id agent definition lease found)
          (λ _. held lease)
          (held lease)
  unfolding launch
  launch-Runs c agent_id agent definition lease (some row) = pure-Runs (λ _. held lease) row
  launch-Runs c agent_id agent definition lease none =
      bind-Runs (prepare-Runs c agent none definition lease) (λ (bundle_path, port).
        bind-Runs (assert_owned-Runs O P lease) (λ _.
          bind-Runs (change_provider-Runs O P lease _) (λ answer.
            bind-Runs (deployment_of-Runs answer) (λ deployment.
              bind-Runs (assert_owned-Runs O P lease) (λ _. bind-Runs (read_stores-Runs _ _) (λ s.
                bind-Runs (passes-Runs (persist-Runs O P _ lease))
                  (λ _. pure-Runs (λ _. held lease) _)))))))

  deploy-Runs :
      (c : Surroundings) (agent_id : Text)
      → Runs idle (deploy O P postgres c agent_id) (λ _. idle) idle
  unfolding deploy deploy_under find_agent find_rows
  deploy-Runs c agent_id = bind-Runs (quiet-Runs _) (λ found.
      bind-Runs (require-Runs found _) (λ agent.
        bind-Runs (from_result-Runs (deployable agent)) (λ definition.
          owned_operation-Runs O P agent.tenant_id _ _ (λ lease. bind-Runs (quiet-Runs _) (λ rows.
            bind-Runs (find_running-Runs lease _ rows)
              (λ found. launch-Runs c agent_id agent definition lease found))))))

  change_under-Runs :
      (ask : P.State → P.State × ProviderAnswer) (deployment_id : Text)
      → Protected O P (change_under O P postgres ask deployment_id)
  unfolding change_under
  change_under-Runs ask deployment_id lease = bind-Runs (assert_owned-Runs O P lease) (λ _.
      bind-Runs (change_provider-Runs O P lease ask) (λ answer.
        bind-Runs (deployment_of-Runs answer) (λ _.
          bind-Runs (assert_owned-Runs O P lease)
            (λ _. passes-Runs (refresh_status_owned-Runs O P deployment_id lease)))))

  -- an operation on a stored deployment
  stored-Runs :
      {body : DeploymentRecord → OperationLease → M (Stores O P) DeploymentRecord}
      (c : Surroundings) (deployment_id : Text)
      → ((row : DeploymentRecord) → Protected O P (body row))
      → Runs idle
          (find_record O P postgres deployment_id >>= λ stored.
            (require stored (deployment_not_found deployment_id) >>= λ row.
            owned_operation O P postgres row.tenant_id
              (deployment_resource deployment_id)
              c.operation_id
              (body row)))
          (λ _. idle)
          idle
  unfolding find_record
  stored-Runs c deployment_id run = bind-Runs (quiet-Runs _) (λ stored.
      bind-Runs (require-Runs stored _)
        (λ row. owned_operation-Runs O P row.tenant_id _ _ (run row)))

  stop-Runs :
      (c : Surroundings) (deployment_id : Text)
      → Runs idle (stop O P postgres c deployment_id) (λ _. idle) idle
  unfolding stop
  stop-Runs c deployment_id = stored-Runs c deployment_id (λ row. change_under-Runs _ deployment_id)

  restart-Runs :
      (c : Surroundings) (deployment_id : Text)
      → Runs idle (restart O P postgres c deployment_id) (λ _. idle) idle
  unfolding restart
  restart-Runs c deployment_id =
      stored-Runs c deployment_id (λ row. change_under-Runs _ deployment_id)

  stopped_for_rollback-Runs :
      (lease : OperationLease) (answer : ProviderAnswer)
      → Runs
          (held lease)
          (stopped_for_rollback O P postgres lease answer)
          (λ _. held lease)
          (held lease)
  unfolding stopped_for_rollback
  stopped_for_rollback-Runs lease (answered d) =
      bind-Runs (assert_owned-Runs O P lease) (λ _. passes-Runs (pure-Runs (λ _. held lease) d))
  stopped_for_rollback-Runs lease unknown_deployment = raise-Runs provider_lacks
  stopped_for_rollback-Runs lease broken = raise-Runs unable_to_stop

  started_for_rollback-Runs :
      (lease : OperationLease) (answer : ProviderAnswer)
      → Runs
          (held lease)
          (started_for_rollback O P postgres lease answer)
          (λ _. held lease)
          (held lease)
  unfolding started_for_rollback
  started_for_rollback-Runs lease (answered d) =
      bind-Runs (assert_owned-Runs O P lease) (λ _. passes-Runs (pure-Runs (λ _. held lease) d))
  started_for_rollback-Runs lease unknown_deployment = raise-Runs rollback_failed
  started_for_rollback-Runs lease broken = raise-Runs rollback_failed

  replace_deployment-Runs :
      (c : Surroundings) (stored : DeploymentRecord) (agent : AgentRecord AgentDefinition)
      (target : Text) (definition : AgentDefinition)
      → Protected O P (replace_deployment O P postgres c stored agent target definition)
  unfolding replace_deployment
  replace_deployment-Runs c stored agent target definition lease =
      bind-Runs (prepare-Runs c agent (some target) definition lease) (λ (bundle_path, port).
        bind-Runs (assert_owned-Runs O P lease) (λ _.
          bind-Runs (change_provider-Runs O P lease _) (λ answer.
            bind-Runs (started_for_rollback-Runs lease answer) (λ deployment.
              bind-Runs (read_stores-Runs _ _)
                (λ s. bind-Runs (persist-Runs O P _ lease) (λ _. pure-Runs (λ _. held lease) _))))))

  rollback_under-Runs :
      (c : Surroundings) (deployment_id : Text) (to_version : Option Text)
      (stored : DeploymentRecord)
      → Protected O P (rollback_under O P postgres c deployment_id to_version stored)
  unfolding rollback_under find_agent
  rollback_under-Runs c deployment_id to_version stored lease =
      bind-Runs (assert_owned-Runs O P lease) (λ _. bind-Runs (quiet-Runs _) (λ found.
        bind-Runs (require_fresh found) (λ agent.
          bind-Runs (snapshot_fresh (rollback_snapshot agent to_version)) (λ (target, definition).
            bind-Runs (change_provider-Runs O P lease _) (λ answer.
              bind-Runs (stopped_for_rollback-Runs lease answer) (λ halted.
                bind-Runs (persist-Runs O P (observed_row stored halted) lease) (λ _.
                  replace_deployment-Runs c (observed_row stored halted) agent target definition
                    lease)))))))
    where
      require_fresh :
          {A : Type 0} (found : Option A)
          → Runs {S = Stores O P}
              (fresh lease)
              (require found agent_gone)
              (λ _. fresh lease)
              (held lease)
      require_fresh none = passes-Runs (raise-Runs agent_gone)
      require_fresh (some a) = pure-Runs (λ _. fresh lease) a

      snapshot_fresh :
          {A : Type 0} (found : Result ServiceError A)
          → Runs {S = Stores O P} (fresh lease) (from_result found) (λ _. fresh lease) (held lease)
      snapshot_fresh (raised x) = passes-Runs (raise-Runs x)
      snapshot_fresh (returned a) = pure-Runs (λ _. fresh lease) a

  rollback-Runs :
      (c : Surroundings) (deployment_id : Text) (to_version : Option Text)
      → Runs idle (rollback O P postgres c deployment_id to_version) (λ _. idle) idle
  unfolding rollback find_record
  rollback-Runs c deployment_id to_version = bind-Runs (quiet-Runs _) (λ first.
      bind-Runs (require-Runs first _)
        (λ _. stored-Runs c deployment_id (rollback_under-Runs c deployment_id to_version)))

perform-Runs :
    (O : Ownership) (P : ProviderApi) (c : Surroundings) (op : Operation)
    → Runs idle (perform O P postgres c op) (λ _. idle) idle
unfolding perform
perform-Runs O P c (deploying agent_id) = deploy-Runs O P c agent_id
perform-Runs O P c (stopping deployment_id) = stop-Runs O P c deployment_id
perform-Runs O P c (restarting deployment_id) = restart-Runs O P c deployment_id
perform-Runs O P c (rolling_back deployment_id to_version) =
    rollback-Runs O P c deployment_id to_version

-- Whatever other workers do before each call of an operation, and however it ends: the worker's log
-- still shows that each of its leases has been released, that the provider was changed only right
-- after a check that found the lease current, and that a record in PostgreSQL was written only right
-- after such a check and while the lease was current.
pub fenced_operation :
    (O : Ownership) (P : ProviderApi) (c : Surroundings) (op : Operation) (w : World (Stores O P))
    → Trace w.log idle
    → Trace (perform O P postgres c op w).0.log idle
fenced_operation O P c op w t =
    Ends-idle (perform O P postgres c op w) ((perform-Runs O P c op).follow w t)
