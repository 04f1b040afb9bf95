-- ===== src/Service/Interfaces.antt =====
-- What the service is given: the ownership store of `deployment_ownership.py` and a provider of
-- `deployment.py`, each with its own state.
use open_simple_agent.Base.{Bool, List, Option, ℕ}
use open_simple_agent.Base.Clock.{Time}
use open_simple_agent.Base.Text.{Text}
use open_simple_agent.Catalog.Records.{Catalog}
use open_simple_agent.Deployment.{Deployment, DeploymentSpec}
use open_simple_agent.Lease.{OperationLease}
use open_simple_agent.Repository.Deployments.{Records}
use open_simple_agent.Service.{ResourceKind}

-- `memory: MemoryAssignment` and the other references of `AgentDefinition.spec`
pub record AgentDefinition : Type 0 where
  pub model : Option Text
  pub tools : List Text
  pub skills : List Text
  pub mcps : List Text
  pub memory_enabled : Bool
  pub memory_policy : Option Text

-- `DeploymentOperationOwnershipStore`
pub record Ownership : Type 1 where
  pub State : Type 0
  pub acquire : State → Option Text → Text → Text → Time → State × Option OperationLease
  pub is_current : State → OperationLease → Time → Bool
  pub release : State → OperationLease → Time → State × Bool

-- how a call of the provider ends: a deployment, `KeyError`, or another exception
pub data ProviderAnswer : Type 0 where
  answered : (deployment : Deployment) → ProviderAnswer
  unknown_deployment : ProviderAnswer
  broken : ProviderAnswer

-- `DeploymentProvider`; `logs` is not there for every provider, and `none` is its `KeyError`
pub record ProviderApi : Type 1 where
  pub State : Type 0
  pub deploy : State → DeploymentSpec → State × ProviderAnswer
  pub restart : State → Text → State × ProviderAnswer
  pub stop : State → Text → State × ProviderAnswer
  pub status : State → Text → State × ProviderAnswer
  pub logs : Option (State → Text → ℕ → State × Option (List Text))
  pub list_deployments : State → State × List Deployment

-- The stores that the service shares with other workers, and the clock. `defined` is the contents
-- of the tenants' resource catalogs, each definition as the text of its `model_dump`, and
-- `stored_resources` what the repository of resources would bring there.
pub record Shared (O P : Type 0) : Type 0 where
  pub ownership : O
  pub provider : P
  pub agents : Catalog AgentDefinition
  pub records : Records
  pub defined : Option Text → ResourceKind → Text → Option Text
  pub stored_resources : Option (Option Text → ResourceKind → Text → Option Text)
  pub clock : Time
