-- ===== src/Service/Tests.antt =====
-- Concrete runs of the service on the lease store in memory, and the theorems at concrete inputs.
use open_simple_agent.Repository.Agents
use open_simple_agent.Repository.Agents.{agent_row, create}
use open_simple_agent.Repository.Rows.{Wire, Database}
use open_simple_agent.Service.External.{external_forgotten}
use open_simple_agent.Service.{external_agent}
use open_simple_agent.Base.Dict.{get, put}
use open_simple_agent.Lease.Memory
use open_simple_agent.Lease.Memory.{Store}
use open_simple_agent.Catalog.{active, AgentRecord, AgentVersion}
use open_simple_agent.Deployment.{Deployment, running}
use open_simple_agent.Repository.Deployments.{DeploymentRecord, postgres, list_for_agent}
use open_simple_agent.Service.{World, Entry, ServiceError, ResourceKind, call}
use open_simple_agent.Service.Interfaces.{Ownership, ProviderApi, AgentDefinition}
use open_simple_agent.Service.Owned.{Stores}
use open_simple_agent.Service.Operations.{Surroundings}
use open_simple_agent.Service.Commands.{perform, deploying}
use open_simple_agent.Service.Traces.{Trace, idle, nothing}
use open_simple_agent.Service.Fencing.{fenced_operation}
use open_simple_agent.Service.Release.{returned_released}
use open_simple_agent.Service.Guards.{deploy_refused, rollback_snapshot_found}
use open_simple_agent.Service.References.{BundleWriter, Files, export_bundle, wanted}
use open_simple_agent.Service.Bundles.{IsWritten, export_bundle_cases}
use open_simple_agent.Service.Settings.{
  StandsFor, create_deployment_provider, deployment_port, env_or, local_processes, port_from_cases,
  shared_not_local,
}
use open_simple_agent.Service.Snapshots.{rollback_snapshot, rollback_target}
use mathlib.Core.List.{Mem}
use open_simple_agent.Service.Operations.{
  deploy, deploy_under, deployable, agent_resource, find_running, launch,
}
use open_simple_agent.Service.Owned.{
  find_agent, find_rows, owned_operation, acquire_lease, under_lease, settle, release_lease,
  assert_owned, ask_owned, observe,
}
use open_simple_agent.Lease.{scope}
use open_simple_agent.Base.{
  List, Option, [], false, inr, none, refl, some, true, ℕ, ◌+◌, ◌∷◌, ◌≡◌, ◌⊎◌,
}
use open_simple_agent.Base.Int.{strip}
use open_simple_agent.Base.Lists.{any}
use open_simple_agent.Base.Result.{raised, returned}
use open_simple_agent.Base.Same.{nat_eq, option_eq, pair_eq, ◌==◌}
use open_simple_agent.Base.Text.{Text, text, text_eq, text_same}
use open_simple_agent.Lease.{OperationLease}
use open_simple_agent.Service.{missing_reference, released}
use open_simple_agent.Service.Interfaces.{answered}
use open_simple_agent.Base.{if◌then◌else◌, ◌≢◌}
use open_simple_agent.Service.Settings.{
  create_kubernetes, create_named, kubernetes_cluster, positive_env_int,
}
use open_simple_agent.Base.Int.{parse_int}
use open_simple_agent.Service.{bad_port}
use open_simple_agent.Service.Settings.{StandsFor, env_or}
use open_simple_agent.Base.{◌++◌}

abbrev leases : Ownership
leases = record {
  State = Store;
  acquire = Memory.acquire;
  is_current = Memory.is_current;
  release = Memory.release;
}

abbrev echo : Deployment
echo = record {
  deployment_id = text "d1";
  agent_id = text "a";
  status = running;
  pid = some 7;
  error = none;
  label = text "1";
  health_check_url = none;
  port = some 8001;
}

-- a provider that runs one deployment, and counts the calls that change it
abbrev one_runner : ProviderApi
one_runner = record {
  State = ℕ;
  deploy = λ n spec. (n + 1, answered echo);
  restart = λ n id. (n + 1, answered echo);
  stop = λ n id. (n + 1, answered echo);
  status = λ n id. (n, answered echo);
  logs = none;
  list_deployments = λ n. (n, echo ∷ []);
}

abbrev echo_definition : AgentDefinition
echo_definition = record {
  model = some (text "m");
  tools = text "t" ∷ text "s" ∷ [];
  skills = [];
  mcps = [];
  memory_enabled = false;
  memory_policy = none;
}

abbrev version_named : Text → Option AgentDefinition → AgentVersion AgentDefinition
version_named name definition = record {
  version_id = text "v";
  version = name;
  definition = definition;
  created_at = 1;
  created_by = text "u";
  change_summary = text "";
}

abbrev echo_agent : AgentRecord AgentDefinition
echo_agent = record {
  agent_id = text "a";
  name = text "echo";
  description = text "";
  status = active;
  definition = some echo_definition;
  versions = version_named (text "0") (some echo_definition) ∷ version_named (text "1") none ∷ [];
  current_version = text "1";
  skills = [];
  runtime = text "adk";
  endpoint = none;
  agent_type = text "managed";
  tenant_id = none;
  labels = [];
  created_at = 1;
  updated_at = 1;
}

abbrev all_defined : Option Text → ResourceKind → Text → Option Text
all_defined tenant kind name = some name

abbrev start_with : AgentRecord AgentDefinition → World (Stores leases one_runner)
start_with agent = record {
  shared = record {
    ownership = record { owner_id = text "w1"; lease_seconds = 30; entries = [] };
    provider = 0;
    agents = (text "a", agent) ∷ [];
    records = [];
    defined = all_defined;
    stored_resources = none;
    clock = 1000;
  };
  schedule = [];
  log = [];
}

abbrev blank : Text → Option Text
blank name = none

abbrev plain_writer : BundleWriter
plain_writer = record {
  agent_yaml = λ d. text "agent";
  bundle_yaml = λ name version. name ++ version;
  resource_yaml = λ kind spec. spec;
  file_name = λ name. name;
}

abbrev around : Surroundings
around = record {
  operation_id = text "op-1";
  bundle_path = text "/b";
  writer = plain_writer;
  free_port = 8001;
  env = blank;
  health_url = λ port. text "h";
  split_command = λ template path port. template ∷ path ∷ [];
  format_url = λ template d a v port. template;
}

fenced_operation_example :
    Trace
      (perform leases one_runner postgres around
        (deploying (text "a"))
        (start_with echo_agent)).0.log
      idle
fenced_operation_example =
    fenced_operation leases one_runner around (deploying (text "a")) (start_with echo_agent) nothing

abbrev echo_row : DeploymentRecord
echo_row = record {
  deployment_id = text "d1";
  agent_id = text "a";
  tenant_id = none;
  agent_name = text "echo";
  version = text "1";
  status = running;
  detail = none;
  invoke_url = none;
  created_at = 1000;
  updated_at = 1000;
}

-- the agent's version runs already
abbrev running_world : World (Stores leases one_runner)
running_world = record (start_with echo_agent) {
  shared = record (start_with echo_agent).shared { records = (text "d1", echo_row) ∷ [] };
}

echo_reused :
    (perform leases one_runner postgres around (deploying (text "a")) running_world).1
    ≡ returned echo_row
unfolding perform deploy deploy_under deployable agent_resource find_running launch find_agent
    find_rows owned_operation acquire_lease under_lease settle release_lease assert_owned ask_owned
    observe call get put text_same list_for_agent Memory.acquire Memory.release Memory.matches
    Memory.is_current Memory.lease_of scope
echo_reused = refl

returned_released_example :
    (lease : OperationLease) × (rest : List Entry) × ((perform leases one_runner postgres around
        (deploying (text "a"))
        running_world).0.log
      ≡ released lease true ∷ rest)
returned_released_example =
    returned_released leases one_runner postgres around (deploying (text "a")) running_world
      echo_row echo_reused

abbrev outside_agent : AgentRecord AgentDefinition
outside_agent = record echo_agent { agent_type = text "external" }

outside_known : get (start_with outside_agent).shared.agents (text "a") ≡ some outside_agent
unfolding get text_same
outside_known = refl

outside_external : (text "external" == text "external") ≡ true
unfolding text_same
outside_external = refl

deploy_refused_example :
    (e : ServiceError) × (deploy leases one_runner postgres around
        (text "a")
        (start_with outside_agent)
      ≡ (start_with outside_agent, raised e))
deploy_refused_example =
    deploy_refused leases one_runner postgres around (text "a") (start_with outside_agent)
      {agent = outside_agent} outside_known (inr (inr outside_external))

rolls_to_first : rollback_snapshot echo_agent none ≡ returned (text "0", echo_definition)
unfolding rollback_snapshot rollback_target text_same
rolls_to_first = refl

rollback_snapshot_found_example :
    ((v : AgentVersion AgentDefinition) × Mem v echo_agent.versions
      × (v.version ≡ text "0")
      × (v.definition ≡ some echo_definition))
    × (◌≡◌ {A = Option Text} none none → (text "0" == text "1") ≡ false)
    × ((version : Text) → none ≡ some version → text "0" ≡ version)
rollback_snapshot_found_example =
    rollback_snapshot_found echo_agent none {target = text "0"} {d = echo_definition} rolls_to_first

export_bundle_cases_example :
    let lookup = λ (kind : ResourceKind) (name : Text). all_defined none kind name in
    let bundle = export_bundle plain_writer lookup echo_definition (text "echo") (text "1") in
    ((files : Files) × (bundle ≡ returned files)
      × (get files ([], text "agent.yaml") ≡ some (text "agent"))
      × (get files ([], text "bundle.yaml") ≡ some (text "echo1"))
      × ((kind : ResourceKind) (n : Text)
          → any (λ m. m == n) (wanted echo_definition kind) ≡ true
          → IsWritten plain_writer lookup files kind n))
    ⊎ ((kind : ResourceKind) × (n : Text) × (bundle ≡ raised (missing_reference kind n))
        × (lookup kind n ≡ none)
        × (any (λ m. m == n) (wanted echo_definition kind) ≡ true))
export_bundle_cases_example =
    export_bundle_cases plain_writer (λ kind name. all_defined none kind name) (λ a c e. e)
      echo_definition (text "echo") (text "1")

abbrev ported : Text → Option Text
ported name = if name == text "OSA_DEPLOY_PORT" then some (text "8080") else none

port_given : deployment_port ported 8001 ≡ returned 8080
unfolding deployment_port strip parse_int text_same
port_given = refl

port_from_cases_example :
    let configured = strip (env_or ported (text "OSA_DEPLOY_PORT") []) in
    ((configured ≡ []) × (deployment_port ported 8001 ≡ returned 8001))
    ⊎ ((configured ≢ [])
        × ((n : ℕ) × ((deployment_port ported 8001 ≡ returned n)
              × StandsFor n (parse_int configured))))
    ⊎ ((configured ≢ [])
        × (deployment_port ported 8001 ≡ raised bad_port)
        × ((n : ℕ) → StandsFor n (parse_int configured) → ⊥))
port_from_cases_example = port_from_cases ported 8001

abbrev cluster_env : Text → Option Text
cluster_env name =
    if name == text "OSA_DEPLOY_PROVIDER"
    then some (text "Kubernetes")
    else if name == text "OSA_KUBERNETES_IMAGE"
    then some (text "osa:1")
    else none

cluster_chosen :
    create_deployment_provider true cluster_env
    ≡ returned (kubernetes_cluster (text "osa:1") (text "default") 1 (text "kubectl") 60)
unfolding create_deployment_provider create_named create_kubernetes positive_env_int strip text_same
cluster_chosen = refl

shared_not_local_example :
    kubernetes_cluster (text "osa:1") (text "default") 1 (text "kubectl") 60 ≢ local_processes
shared_not_local_example = shared_not_local cluster_env cluster_chosen

abbrev plain : Wire AgentDefinition
plain = record {
  Json = AgentDefinition;
  dump = λ d. d;
  load = λ d. d;
  load-dump = λ d. refl;
  show = λ n. n ∷ [];
}

abbrev vacant : Database AgentDefinition
vacant = record { agents = []; versions = []; next_id = 1 }

abbrev with_outside : Database AgentDefinition
with_outside = record vacant { agents = (text "a", agent_row plain outside_agent) ∷ [] }

outside_created : create plain vacant outside_agent ≡ (with_outside, returned outside_agent)
unfolding create get put agent_row
outside_created = refl

external_forgotten_example :
    (deployable outside_agent ≡ raised external_agent)
    × ((r' : AgentRecord AgentDefinition) × (Agents.get plain with_outside (text "a") ≡ some r')
        × (deployable r' ≡ returned echo_definition))
external_forgotten_example =
    external_forgotten plain vacant with_outside outside_agent {d = echo_definition} outside_created
      refl refl refl outside_external
