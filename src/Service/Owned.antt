-- ===== src/Service/Owned.antt =====
-- deployment_service.py: `_owned_operation` and the calls that it protects. The initial check of the
-- event `lost` is left out: it stands behind no pause that would let the heartbeat set it.
use open_simple_agent.Base.Dict.{get}
use open_simple_agent.Base.Result.{Result}
use open_simple_agent.Service.{
  ◌>>◌, M, World, Entry, acquired, checked, provider_changed, persisted, released,
}
use open_simple_agent.Service.Interfaces.{
  Ownership, ProviderApi, ProviderAnswer, Shared, AgentDefinition,
}
use open_simple_agent.Base.{Bool, List, Option, [], false, none, some, true, ◌∷◌}
use open_simple_agent.Base.Same.{nat_eq, option_eq, pair_eq}
use open_simple_agent.Base.Text.{Text, text_eq}
use open_simple_agent.Catalog.{AgentRecord}
use open_simple_agent.Deployment.{Deployment}
use open_simple_agent.Lease.{OperationLease}
use open_simple_agent.Repository.Deployments.{
  DeploymentRecord, list_for_agent, upsert, upsert_if_owned,
}
use open_simple_agent.Service.{
  ServiceError, call, deployment_not_found, from_result, guard, operation_busy, operation_lost,
  provider_failed, provider_lacks, pure, raise, require, ◌>>=◌,
}
use open_simple_agent.Service.Interfaces.{answered, broken, unknown_deployment}
use open_simple_agent.Repository.Deployments.{RecordStore}

abbrev pub Stores : Ownership → ProviderApi → Type 0
Stores O P = Shared O.State P.State

abbrev pub acquired_note : Option OperationLease → List Entry
acquired_note none = []
acquired_note (some lease) = acquired lease ∷ []

-- a refused write leaves no trace
abbrev pub persisted_note : DeploymentRecord → OperationLease → Bool × Bool → List Entry
persisted_note row lease (current, false) = []
persisted_note row lease (current, true) = persisted row lease current ∷ []

-- how `await self._provider.…` ends
abbrev pub deployment_of : {S : Type 0} → ProviderAnswer → M S Deployment
deployment_of (answered d) = pure d
deployment_of unknown_deployment = raise provider_lacks
deployment_of broken = raise provider_failed

-- `stored.status = observed.status.value; stored.detail = observed.error or ""`
abbrev pub observed_row : DeploymentRecord → Deployment → DeploymentRecord
observed_row row d = record row { status = d.status; detail = d.error }

module _ (O : Ownership) (P : ProviderApi) (R : RecordStore) where
  -- `await self._records.get(deployment_id)`
  unfoldable pub find_record : Text → M (Stores O P) (Option DeploymentRecord)
  find_record deployment_id = call (λ s. (s, get s.records deployment_id)) (λ _. [])

  -- `await self._agents.get(agent_id)`
  unfoldable pub find_agent : Text → M (Stores O P) (Option (AgentRecord AgentDefinition))
  find_agent agent_id = call (λ s. (s, get s.agents agent_id)) (λ _. [])

  unfoldable pub find_rows : Text → M (Stores O P) (List DeploymentRecord)
  find_rows agent_id = call (λ s. (s, list_for_agent R s.records agent_id)) (λ _. [])

  -- a call of the provider that only looks
  unfoldable pub observe : (P.State → P.State × ProviderAnswer) → M (Stores O P) ProviderAnswer
  observe ask = call (λ s. let (p, a) = ask s.provider in (record s { provider = p }, a)) (λ _. [])

  -- a call of the provider that starts or stops something
  unfoldable pub change_provider :
      (P.State → P.State × ProviderAnswer) → M (Stores O P) ProviderAnswer
  change_provider ask =
      call (λ s. let (p, a) = ask s.provider in (record s { provider = p }, a))
        (λ _. provider_changed ∷ [])

  unfoldable pub acquire_lease : Option Text → Text → Text → M (Stores O P) (Option OperationLease)
  acquire_lease tenant_id resource_id operation_id =
      call
        (λ s.
          let (o, lease) = O.acquire s.ownership tenant_id resource_id operation_id s.clock in
          (record s { ownership = o }, lease))
        acquired_note

  unfoldable pub release_lease : OperationLease → M (Stores O P) Bool
  release_lease lease =
      call
        (λ s.
          let (o, accepted) = O.release s.ownership lease s.clock in
          (record s { ownership = o }, accepted))
        (λ accepted. released lease accepted ∷ [])

  unfoldable pub ask_owned : OperationLease → M (Stores O P) Bool
  ask_owned lease =
      call (λ s. (s, O.is_current s.ownership lease s.clock))
        (λ current. checked lease current ∷ [])

  -- `_assert_owned`
  unfoldable pub assert_owned : OperationLease → M (Stores O P) (Unit {0})
  assert_owned lease = ask_owned lease >>= λ current. guard current operation_lost

  -- `await self._records.upsert_if_owned(record, lease)`, with whether the lease was current
  unfoldable pub save_owned : DeploymentRecord → OperationLease → M (Stores O P) (Bool × Bool)
  save_owned row lease =
      call
        (λ s.
          let current = O.is_current s.ownership lease s.clock in
          let (rows, written) = upsert_if_owned R s.records row current in
          (record s { records = rows }, (current, written)))
        (persisted_note row lease)

  -- `_persist`
  unfoldable pub persist : DeploymentRecord → OperationLease → M (Stores O P) (Unit {0})
  persist row lease =
      assert_owned lease
      >> (save_owned row lease >>= λ (current, written). guard written operation_lost)

  -- `await self._records.upsert(record)`, under no lease
  unfoldable pub save : DeploymentRecord → M (Stores O P) (Unit {0})
  save row = call (λ s. (record s { records = upsert R s.records row }, tt)) (λ _. [])

  -- `finally`: the lease is released, and where that is refused the outcome is an error
  unfoldable pub settle :
      {A : Type 0}
      → OperationLease
      → World (Stores O P) × Result ServiceError A
      → World (Stores O P) × Result ServiceError A
  settle lease (w, outcome) =
      (release_lease lease >>= λ accepted. (guard accepted operation_lost >> from_result outcome)) w

  unfoldable pub under_lease :
      {A : Type 0} → (OperationLease → M (Stores O P) A) → Option OperationLease → M (Stores O P) A
  under_lease body none = raise operation_busy
  under_lease body (some lease) = λ w. settle lease ((assert_owned lease >> body lease) w)

  -- `async with self._owned_operation(resource_id, tenant_id, …) as lease: body`
  unfoldable pub owned_operation :
      {A : Type 0}
      → Option Text
      → Text
      → Text
      → (OperationLease → M (Stores O P) A)
      → M (Stores O P) A
  owned_operation tenant_id resource_id operation_id body =
      acquire_lease tenant_id resource_id operation_id >>= under_lease body

  -- `_refresh_status_owned`
  unfoldable pub refresh_status_owned : Text → OperationLease → M (Stores O P) DeploymentRecord
  refresh_status_owned deployment_id lease = do
    answer ← observe (λ p. P.status p deployment_id)
    observed ← deployment_of answer
    _ ← assert_owned lease
    stored ← find_record deployment_id
    row ← require stored (deployment_not_found deployment_id)
    _ ← persist (observed_row row observed) lease
    pure (observed_row row observed)
