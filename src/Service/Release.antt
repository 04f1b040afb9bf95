-- ===== src/Service/Release.antt =====
-- A result of an operation stands only where its lease has been given back in time.
use open_simple_agent.Service.{M, World, Entry, ServiceError, call, ◌>>=◌}
use open_simple_agent.Service.Commands.{
  Operation, perform, deploying, stopping, restarting, rolling_back,
}
use open_simple_agent.Service.Interfaces.{Ownership, ProviderApi}
use open_simple_agent.Service.Owned.{Stores, settle, under_lease, owned_operation, release_lease}
use open_simple_agent.Service.Operations.{Surroundings, deploy, stop, restart}
use open_simple_agent.Service.Rollback.{rollback}
use open_simple_agent.Base.{Bool-cases, List, Option, inl, inr, none, refl, some, true, ◌∷◌, ◌≡◌}
use open_simple_agent.Base.Result.{Result, raised, returned}
use open_simple_agent.Base.Text.{Text}
use open_simple_agent.Lease.{OperationLease}
use open_simple_agent.Repository.Deployments.{DeploymentRecord, RecordStore}
use open_simple_agent.Service.{awaited, proceed, released}
use open_simple_agent.Service.{agent_not_found, deployment_not_found, from_result, require}
use open_simple_agent.Service.Operations.{
  change_under, deploy_under, deployable, deployment_resource,
}
use open_simple_agent.Service.Owned.{acquire_lease, find_agent, find_record}
use open_simple_agent.Service.Rollback.{rollback_under}

-- the newest entry is an accepted release
abbrev pub IsReleased : List Entry → Type 0
IsReleased log = (lease : OperationLease) × (rest : List Entry) × (log ≡ released lease true ∷ rest)

abbrev pub ReleasedIf : {S A : Type 0} → World S × Result ServiceError A → Type 0
ReleasedIf {A} x = (a : A) → x.1 ≡ returned a → IsReleased x.0.log

-- a coroutine that returns only after an accepted release
pub record Releases {S A : Type 0} (m : M S A) : Type 0 where
  pub at_end : (w : World S) → ReleasedIf (m w)

module _ {S : Type 0} where
  proceed-Releases :
      {A B : Type 0} (k : A → M S B) (x : World S × Result ServiceError A)
      → ((a : A) → Releases (k a))
      → ReleasedIf (proceed x k)
  proceed-Releases k (w, raised e) next b h = cc
  proceed-Releases k (w, returned a) next b h = (next a).at_end w b h

  -- the last part of a coroutine decides
  bind-Releases :
      {A B : Type 0} (m : M S A) {k : A → M S B} → ((a : A) → Releases (k a)) → Releases (m >>= k)
  bind-Releases m {k} next = record { at_end = λ w. proceed-Releases k (m w) next }

module _ (O : Ownership) (P : ProviderApi) (R : RecordStore) where
  settle_released :
      {A : Type 0} (lease : OperationLease) (x : World (Stores O P) × Result ServiceError A)
      → ReleasedIf (settle O P R lease x)
  unfolding settle release_lease call
  settle_released lease (w, outcome) a h =
      elim (Bool-cases (O.release (awaited w).shared.ownership lease (awaited w).shared.clock).1) [
        | inl accepted ↦ (lease, w.log, rw accepted refl)
        | inr refused ↦ absurd (cc (rw refused at h))
      ]

  under_lease-Releases :
      {A : Type 0} (body : OperationLease → M (Stores O P) A) (got : Option OperationLease)
      → Releases (under_lease O P R body got)
  unfolding under_lease
  under_lease-Releases body none = record { at_end = λ w a h. cc }
  under_lease-Releases body (some lease) = record { at_end = λ w. settle_released lease _ }

  owned_operation-Releases :
      {A : Type 0} (body : OperationLease → M (Stores O P) A) (tenant_id : Option Text)
      (resource_id operation_id : Text)
      → Releases (owned_operation O P R tenant_id resource_id operation_id body)
  unfolding owned_operation
  owned_operation-Releases body tenant_id resource_id operation_id =
      bind-Releases (acquire_lease O P R tenant_id resource_id operation_id)
        (λ got. under_lease-Releases body got)

  -- an operation on a stored deployment
  stored-Releases :
      (body : DeploymentRecord → OperationLease → M (Stores O P) DeploymentRecord)
      (c : Surroundings) (deployment_id : Text)
      → Releases (
          find_record O P R deployment_id >>= λ stored.
          (require stored (deployment_not_found deployment_id) >>= λ row.
          owned_operation O P R row.tenant_id
            (deployment_resource deployment_id)
            c.operation_id
            (body row)))
  stored-Releases body c deployment_id = bind-Releases (find_record O P R deployment_id) (λ stored.
      bind-Releases (require stored (deployment_not_found deployment_id))
        (λ row. owned_operation-Releases (body row) row.tenant_id _ _))

  perform-Releases : (c : Surroundings) (op : Operation) → Releases (perform O P R c op)
  unfolding perform deploy stop restart rollback
  perform-Releases c (deploying agent_id) = bind-Releases (find_agent O P R agent_id) (λ found.
      bind-Releases (require found (agent_not_found agent_id)) (λ agent.
        bind-Releases (from_result (deployable agent)) (λ definition.
          owned_operation-Releases (deploy_under O P R c agent_id agent definition) agent.tenant_id
            _ _)))
  perform-Releases c (stopping deployment_id) =
      stored-Releases (λ row. change_under O P R (λ p. P.stop p deployment_id) deployment_id) c
        deployment_id
  perform-Releases c (restarting deployment_id) =
      stored-Releases (λ row. change_under O P R (λ p. P.restart p deployment_id) deployment_id) c
        deployment_id
  perform-Releases c (rolling_back deployment_id to_version) =
      bind-Releases (find_record O P R deployment_id) (λ first.
        bind-Releases (require first (deployment_not_found deployment_id))
          (λ _. stored-Releases (rollback_under O P R c deployment_id to_version) c deployment_id))

-- Whatever the others do, an operation that returns a record has given its lease back last of all, and
-- the store accepted that: where the store refuses the release, no record is returned.
pub returned_released :
    (O : Ownership) (P : ProviderApi) (R : RecordStore) (c : Surroundings) (op : Operation)
    (w : World (Stores O P)) (row : DeploymentRecord)
    → (perform O P R c op w).1 ≡ returned row
    → (lease : OperationLease) × (rest : List Entry) × ((perform O P R c op w).0.log
        ≡ released lease true ∷ rest)
returned_released O P R c op w row h = (perform-Releases O P R c op).at_end w row h
