-- ===== src/Service/Operations.antt =====
-- deployment_service.py: the operations of `DeploymentService`, but for `rollback`.
pub mod Specs
unfoldable pub use Specs.*
use mathlib.Core.List.{map}
use open_simple_agent.Catalog.{active}
use open_simple_agent.Service.{M, provider_failed, provider_lacks, ServiceError}
use open_simple_agent.Service.Interfaces.{Ownership, ProviderApi, ProviderAnswer, AgentDefinition}
use open_simple_agent.Service.Owned.{
  Stores, find_record, find_agent, find_rows, observe, change_provider, assert_owned, persist, save,
  owned_operation, refresh_status_owned, observed_row, deployment_of,
}
use open_simple_agent.Base.{
  Bool, List, Option, [], if◌then◌else◌, none, not, some, suc, zero, ℕ, ◌&&◌, ◌++◌, ◌+◌, ◌∷◌,
}
use open_simple_agent.Base.Clock.{Time, seconds}
use open_simple_agent.Base.Result.{Result, raised, returned}
use open_simple_agent.Base.Same.{nat_eq, option_eq, pair_eq, ◌==◌}
use open_simple_agent.Base.Text.{Text, text, text_eq}
use open_simple_agent.Catalog.{AgentRecord, same_status}
use open_simple_agent.Deployment.{Deployment, DeploymentSpec, is_running}
use open_simple_agent.Lease.{OperationLease}
use open_simple_agent.Repository.Deployments.{DeploymentRecord}
use open_simple_agent.Service.{
  agent_not_found, call, deployment_not_found, external_agent, from_result, no_definition,
  not_active, pure, raise, require, ◌>>=◌,
}
use open_simple_agent.Service.Interfaces.{answered, broken, unknown_deployment}
use open_simple_agent.Service.References.{bundle_version, export_bundle}
use open_simple_agent.Service.Settings.{
  command_template, deployment_port, public_invoke_url, runtime_env,
}
use open_simple_agent.Repository.Deployments.{RecordStore}

module _ (O : Ownership) (P : ProviderApi) (R : RecordStore) where
  -- what the status of a candidate says: it is the one, or the loop goes on
  abbrev pub if_running :
      DeploymentRecord
      → M (Stores O P) (Option DeploymentRecord)
      → ProviderAnswer
      → M (Stores O P) (Option DeploymentRecord)
  if_running row rest (answered d) = if is_running d.status then pure (some row) else rest
  if_running row rest unknown_deployment = rest
  if_running row rest broken = raise provider_failed

  -- the loop of `deploy` over the rows of the agent
  unfoldable pub find_running :
      Text → List DeploymentRecord → M (Stores O P) (Option DeploymentRecord)
  find_running version [] = pure none
  find_running version (row ∷ rows) =
      let rest = find_running version rows in
      if is_candidate version row
      then (observe O P R (λ p. P.status p row.deployment_id) >>= if_running row rest)
      else rest

  -- `_reconcile_resources` and `_export_bundle`, with the port of the deployment
  abbrev pub reconciled : Stores O P → Option Text → Stores O P
  reconciled s tenant_id = elim s.stored_resources [
    | none ↦ s
    | some stored ↦ record s {
      defined = λ tenant. if tenant == tenant_id then stored tenant else s.defined tenant;
    }
  ]

  unfoldable pub reconcile_resources : Option Text → M (Stores O P) (Unit {0})
  reconcile_resources tenant_id = call (λ s. (reconciled s tenant_id, tt)) (λ _. [])

  -- the catalogs and the clock, read between two calls
  unfoldable pub read_stores : M (Stores O P) (Stores O P)
  read_stores w = (w, returned w.shared)

  -- the path of the bundle and the port; nothing here reads the files of the bundle again
  unfoldable pub prepare :
      Surroundings
      → AgentRecord AgentDefinition
      → Option Text
      → AgentDefinition
      → M (Stores O P) (Text × ℕ)
  prepare c agent version definition = do
    _ ← reconcile_resources agent.tenant_id
    s ← read_stores
    files ← from_result (
        export_bundle c.writer (s.defined agent.tenant_id) definition agent.name
          (bundle_version version agent.current_version))
    port ← from_result (deployment_port c.env c.free_port)
    pure (c.bundle_path, port)

  -- the part of `deploy` after the search for a running deployment
  unfoldable pub launch :
      Surroundings
      → Text
      → AgentRecord AgentDefinition
      → AgentDefinition
      → OperationLease
      → Option DeploymentRecord
      → M (Stores O P) DeploymentRecord
  launch c agent_id agent definition lease (some row) = pure row
  launch c agent_id agent definition lease none = do
    (bundle_path, port) ← prepare c agent none definition
    _ ← assert_owned O P R lease
    answer ←
        change_provider O P R
          (λ p. P.deploy p (spec_for c agent_id agent.current_version bundle_path port lease))
    deployment ← deployment_of answer
    _ ← assert_owned O P R lease
    s ← read_stores
    let row = new_record c agent_id agent agent.current_version port s.clock deployment
    _ ← persist O P R row lease
    pure row

  unfoldable pub deploy_under :
      Surroundings
      → Text
      → AgentRecord AgentDefinition
      → AgentDefinition
      → OperationLease
      → M (Stores O P) DeploymentRecord
  deploy_under c agent_id agent definition lease = do
    rows ← find_rows O P R agent_id
    found ← find_running agent.current_version rows
    launch c agent_id agent definition lease found

  unfoldable pub deploy : Surroundings → Text → M (Stores O P) DeploymentRecord
  deploy c agent_id = do
    found ← find_agent O P R agent_id
    agent ← require found (agent_not_found agent_id)
    definition ← from_result (deployable agent)
    owned_operation O P R agent.tenant_id (agent_resource agent_id) c.operation_id
        (deploy_under c agent_id agent definition)

  unfoldable pub status : Text → M (Stores O P) DeploymentRecord
  status deployment_id = do
    answer ← observe O P R (λ p. P.status p deployment_id)
    observed ← deployment_of answer
    stored ← find_record O P R deployment_id
    row ← require stored (deployment_not_found deployment_id)
    _ ← save O P R (observed_row row observed)
    pure (observed_row row observed)

  -- the loop of `reconcile_provider_state`, with the number of records so far
  unfoldable pub reconcile_found : Option DeploymentRecord → Deployment → ℕ → M (Stores O P) ℕ
  reconcile_found none observed count = pure count
  reconcile_found (some row) observed count = do
    _ ← save O P R (observed_row row observed)
    pure (count + 1)

  unfoldable pub reconcile_each : List Deployment → ℕ → M (Stores O P) ℕ
  reconcile_each [] count = pure count
  reconcile_each (observed ∷ rest) count = do
    stored ← find_record O P R observed.deployment_id
    count' ← reconcile_found stored observed count
    reconcile_each rest count'

  unfoldable pub reconcile_provider_state : M (Stores O P) ℕ
  reconcile_provider_state = do
    observed ←
        call (λ s. let (p, ds) = P.list_deployments s.provider in (record s { provider = p }, ds))
          (λ _. [])
    reconcile_each observed 0

  unfoldable pub get_record : Text → M (Stores O P) (Option DeploymentRecord)
  get_record deployment_id = find_record O P R deployment_id

  -- `stop` and `restart`: one change of the provider, and the status that follows
  unfoldable pub change_under :
      (P.State → P.State × ProviderAnswer) → Text → OperationLease → M (Stores O P) DeploymentRecord
  change_under ask deployment_id lease = do
    _ ← assert_owned O P R lease
    answer ← change_provider O P R ask
    _ ← deployment_of answer
    _ ← assert_owned O P R lease
    refresh_status_owned O P R deployment_id lease

  unfoldable pub stop : Surroundings → Text → M (Stores O P) DeploymentRecord
  stop c deployment_id = do
    stored ← find_record O P R deployment_id
    row ← require stored (deployment_not_found deployment_id)
    owned_operation O P R row.tenant_id (deployment_resource deployment_id) c.operation_id
        (change_under (λ p. P.stop p deployment_id) deployment_id)

  unfoldable pub restart : Surroundings → Text → M (Stores O P) DeploymentRecord
  restart c deployment_id = do
    stored ← find_record O P R deployment_id
    row ← require stored (deployment_not_found deployment_id)
    owned_operation O P R row.tenant_id (deployment_resource deployment_id) c.operation_id
        (change_under (λ p. P.restart p deployment_id) deployment_id)

  -- `await provider_logs(deployment_id, tail)`
  unfoldable pub call_logs :
      (P.State → Text → ℕ → P.State × Option (List Text))
      → Text
      → ℕ
      → M (Stores O P) (Option (List Text))
  call_logs provider_logs deployment_id tail =
      call
        (λ s.
          let (p, lines) = provider_logs s.provider deployment_id tail in
          (record s { provider = p }, lines))
        (λ _. [])

  -- `bounded_text` of `observability.py` is a parameter
  unfoldable pub logs : (Text → Text) → Text → ℕ → M (Stores O P) (List Text)
  logs bounded_text deployment_id tail = do
    stored ← find_record O P R deployment_id
    _ ← require stored (deployment_not_found deployment_id)
    elim P.logs [
      | none ↦ pure []
      | some provider_logs ↦ call_logs provider_logs deployment_id tail >>= λ captured.
          (require captured provider_lacks >>= λ lines. pure (map bounded_text lines))
    ]
