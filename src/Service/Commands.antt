-- ===== src/Service/Commands.antt =====
-- deployment_service.py: the operations that change deployments, as values.
use open_simple_agent.Service.{M}
use open_simple_agent.Service.Interfaces.{Ownership, ProviderApi}
use open_simple_agent.Service.Owned.{Stores}
use open_simple_agent.Service.Operations.{Surroundings, deploy, stop, restart}
use open_simple_agent.Service.Rollback.{rollback}
use open_simple_agent.Base.{Option}
use open_simple_agent.Base.Text.{Text}
use open_simple_agent.Repository.Deployments.{DeploymentRecord, RecordStore}

-- the operations that change deployments
pub data Operation : Type 0 where
  deploying : (agent_id : Text) → Operation
  stopping restarting : (deployment_id : Text) → Operation
  rolling_back : (deployment_id : Text) (to_version : Option Text) → Operation

unfoldable pub perform :
    (O : Ownership) (P : ProviderApi) (R : RecordStore)
    → Surroundings
    → Operation
    → M (Stores O P) DeploymentRecord
perform O P R c (deploying agent_id) = deploy O P R c agent_id
perform O P R c (stopping deployment_id) = stop O P R c deployment_id
perform O P R c (restarting deployment_id) = restart O P R c deployment_id
perform O P R c (rolling_back deployment_id to_version) = rollback O P R c deployment_id to_version
