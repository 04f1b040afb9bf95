-- ===== src/Service/Operations/Specs.antt =====
-- deployment_service.py: what the operations compute between their calls: the guards of `deploy`, the
-- `DeploymentSpec` and the record of a new deployment.
use open_simple_agent.Catalog.{active}
use open_simple_agent.Base.{
  Bool, List, Option, if◌then◌else◌, none, not, some, suc, zero, ℕ, ◌&&◌, ◌++◌,
}
use open_simple_agent.Base.Clock.{Time, seconds}
use open_simple_agent.Base.Result.{Result, raised, returned}
use open_simple_agent.Base.Same.{nat_eq, option_eq, pair_eq, ◌==◌}
use open_simple_agent.Base.Text.{Text, text, text_eq}
use open_simple_agent.Catalog.{AgentRecord, same_status}
use open_simple_agent.Deployment.{Deployment, DeploymentSpec, is_running}
use open_simple_agent.Lease.{OperationLease}
use open_simple_agent.Repository.Deployments.{DeploymentRecord}
use open_simple_agent.Service.{ServiceError, external_agent, no_definition, not_active}
use open_simple_agent.Service.Interfaces.{AgentDefinition}
use open_simple_agent.Service.References.{BundleWriter}
use open_simple_agent.Service.Settings.{command_template, public_invoke_url, runtime_env}

-- What an operation takes from outside: the UUIDs that it draws, the port that the system picks, the
-- environment, the path and the writer of the bundle, and Python's formatting and splitting of texts.
pub record Surroundings : Type 0 where
  pub operation_id : Text
  pub bundle_path : Text
  pub writer : BundleWriter
  pub free_port : ℕ
  pub env : Text → Option Text
  pub health_url : ℕ → Text
  pub split_command : Text → Text → ℕ → List Text
  pub format_url : Text → Text → Text → Text → ℕ → Text

-- `DEFAULT_HEALTH_TIMEOUT_SECONDS`
abbrev pub default_health_timeout : Time
default_health_timeout = seconds 20

unfoldable pub agent_resource : Text → Text
agent_resource agent_id = text "agent:" ++ agent_id

unfoldable pub deployment_resource : Text → Text
deployment_resource deployment_id = text "deployment:" ++ deployment_id

-- the `DeploymentSpec` for one version of an agent
unfoldable pub spec_for : Surroundings → Text → Text → Text → ℕ → OperationLease → DeploymentSpec
spec_for c agent_id version bundle_path port lease = record {
  agent_id = agent_id;
  command = c.split_command (command_template c.env) bundle_path port;
  env = runtime_env c.env;
  health_check_url = some (c.health_url port);
  startup_timeout = default_health_timeout;
  label = version;
  identity = agent_id ++ (text ":" ++ version);
  port = some port;
  operation_id = some lease.operation_id;
  fencing_epoch = some lease.fencing_epoch;
}

-- `deployment.port or port`
abbrev pub port_or : Option ℕ → ℕ → ℕ
port_or none port = port
port_or (some zero) port = port
port_or (some (suc n)) port = suc n

-- the record of a new deployment; `now` is the clock at its creation
unfoldable pub new_record :
    Surroundings
    → Text
    → AgentRecord AgentDefinition
    → Text
    → ℕ
    → Time
    → Deployment
    → DeploymentRecord
new_record c agent_id agent version port now d = record {
  deployment_id = d.deployment_id;
  agent_id = agent_id;
  tenant_id = agent.tenant_id;
  agent_name = agent.name;
  version = version;
  status = d.status;
  detail = d.error;
  invoke_url =
      public_invoke_url c.env c.format_url d.deployment_id agent_id version (port_or d.port port);
  created_at = now;
  updated_at = now;
}

-- the guards of `deploy`
unfoldable pub deployable : AgentRecord AgentDefinition → Result ServiceError AgentDefinition
deployable agent = elim agent.definition [
  | none ↦ raised no_definition
  | some definition ↦
      if not (same_status agent.status active)
      then raised not_active
      else if agent.agent_type == text "external"
      then raised external_agent
      else returned definition
]

-- `existing.version != record.current_version or existing.status != "running"` does not hold
abbrev pub is_candidate : Text → DeploymentRecord → Bool
is_candidate version row = row.version == version && is_running row.status
