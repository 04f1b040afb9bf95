-- ===== src/Deployment/Local/Tables.antt =====
-- deployment.py: the tables of `LocalDeploymentProvider`, and what `_deploy` looks up and records.
use open_simple_agent.Base.Dict.{get, put}
use open_simple_agent.Base.{
  Bool, List, Option, [], false, if◌then◌else◌, none, not, some, ℕ, ◌&&◌, ◌||◌, ◌∷◌,
}
use open_simple_agent.Base.Dict.{Dict}
use open_simple_agent.Base.Same.{nat_eq, option_eq, pair_eq, ◌==◌}
use open_simple_agent.Base.Text.{Text, is_empty, text_eq, texts_same}
use open_simple_agent.Deployment.{Deployment, DeploymentSpec, is_running, starting}

pub record Provider : Type 0 where
  pub log_lines : ℕ
  pub specs : Dict Text DeploymentSpec
  pub deployments : Dict Text Deployment
  pub processes : Dict Text ℕ
  pub logs : Dict Text (List Text)
  pub stop_markers : List Text

pub data ProviderError : Type 0 where
  deployment_not_found : (deployment_id : Text) → ProviderError
  -- `subprocess.TimeoutExpired` after a kill
  process_survives : (pid : ℕ) → ProviderError

-- what `Popen` does
pub data Spawn : Type 0 where
  spawn_error : (message : Text) → Spawn
  spawned : (pid : ℕ) → Spawn

-- how a process that is alive reacts to `terminate`, and then to `kill`
pub data Reaction : Type 0 where
  exits_on_terminate exits_on_kill survives : Reaction

-- the signals that were sent
pub data Signal : Type 0 where
  terminate kill : (pid : ℕ) → Signal

-- `(spec.identity and existing.identity == spec.identity) or (not spec.identity and …)`
abbrev pub same_target : DeploymentSpec → DeploymentSpec → Bool
same_target spec existing =
    (not (is_empty spec.identity) && existing.identity == spec.identity)
    || (is_empty spec.identity && texts_same existing.command spec.command)

abbrev pub spec_matches : DeploymentSpec → Option DeploymentSpec → Bool
spec_matches spec none = false
spec_matches spec (some existing) = same_target spec existing

-- the test of the loop at the head of `_deploy`
abbrev pub is_reusable : Provider → DeploymentSpec → Deployment → Bool
is_reusable p spec d =
    d.agent_id == spec.agent_id
    && is_running d.status
    && spec_matches spec (get p.specs d.deployment_id)

-- the first deployment that passes
abbrev pub first_reusable : Provider → DeploymentSpec → List Deployment → Option Deployment
first_reusable p spec [] = none
first_reusable p spec (d ∷ ds) = if is_reusable p spec d then some d else first_reusable p spec ds

abbrev pub new_deployment : DeploymentSpec → Text → Deployment
new_deployment spec new_id = record {
  deployment_id = new_id;
  agent_id = spec.agent_id;
  status = starting;
  pid = none;
  error = none;
  label = spec.label;
  health_check_url = spec.health_check_url;
  port = spec.port;
}

-- how far a call of `_deploy` has come at its `await`: it has returned, or a process starts
pub data Flight : Type 0 where
  landed : (deployment : Deployment) → Flight
  airborne : (deployment : Deployment) (pid : ℕ) → Flight

-- the state once the logs of a new deployment are set up
abbrev pub with_logs : Provider → Text → Provider
with_logs p new_id = record p { logs = put p.logs new_id [] }

abbrev pub record_deployment : Provider → DeploymentSpec → Deployment → Provider
record_deployment p spec d = record p {
  deployments = put p.deployments d.deployment_id d;
  specs = put p.specs d.deployment_id spec;
}
