-- ===== src/Deployment/Local.antt =====
-- deployment.py: `LocalDeploymentProvider`. The operating system is an argument: whether it starts
-- a process, what `poll` and the wait of `_await_startup` find, and how a process reacts to a
-- signal. `deploy` waits in the middle, so it is two functions with the rest of a flight between
-- them; the deploy lock lets one deployment be in flight. Locks, threads and the reading of a
-- process's output are not modelled; `logs` has what was read.
pub mod Tables
pub use Tables.*
use open_simple_agent.Base.Dict.{get, put, erase}
use open_simple_agent.Base.Int.{ℤ, pos, negsuc}
use open_simple_agent.Base.{
  Bool, List, Option, [], false, if◌then◌else◌, is_some, none, not, or_default, some, true, ℕ, ◌&&◌,
  ◌||◌, ◌∷◌,
}
use open_simple_agent.Base.Dict.{Dict, values}
use open_simple_agent.Base.Result.{Result, raised, returned}
use open_simple_agent.Base.Same.{nat_eq, option_eq, pair_eq, ◌==◌}
use open_simple_agent.Base.Text.{Text, is_empty, text_eq}
use open_simple_agent.Deployment.{
  Deployment, DeploymentSpec, exited, exited_during_startup, spawn_failed, starting,
  startup_elapsed, stopped,
}
use open_simple_agent.Base.{◌++◌, ◌-◌}
use open_simple_agent.Base.Lists.{drop, length}
use open_simple_agent.Base.Text.{texts_same}
use open_simple_agent.Deployment.{failed, is_live, is_running, running}

unfoldable pub launch : Provider → DeploymentSpec → Text → Spawn → Provider × Flight
launch p spec new_id (spawn_error message) =
    let d : Deployment = record (new_deployment spec new_id) {
      status = failed;
      error = some (spawn_failed message);
    } in
    (record_deployment (with_logs p new_id) spec d, landed d)
launch p spec new_id (spawned pid) =
    let d : Deployment = record (new_deployment spec new_id) { pid = some pid } in
    let started = record_deployment (with_logs p new_id) spec d in
    (record started { processes = put started.processes new_id pid }, airborne d pid)

unfoldable pub begin_found :
    Provider → DeploymentSpec → Text → Spawn → Option Deployment → Provider × Flight
begin_found p spec new_id spawn none = launch p spec new_id spawn
begin_found p spec new_id spawn (some d) = (p, landed d)

-- `_deploy` up to its `await`; `new_id` is the fresh UUID
unfoldable pub begin_deploy : Provider → DeploymentSpec → Text → Spawn → Provider × Flight
unfolding begin_found
begin_deploy p spec new_id spawn =
    begin_found p spec new_id spawn (first_reusable p spec (values p.deployments))

-- a change of the shared object `deployment`
abbrev pub change_found : Provider → Text → (Deployment → Deployment) → Option Deployment → Provider
change_found p deployment_id change none = p
change_found p deployment_id change (some d) = record p {
  deployments = put p.deployments deployment_id (change d);
}

abbrev pub with_deployment : Provider → Text → (Deployment → Deployment) → Provider
with_deployment p deployment_id change =
    change_found p deployment_id change (get p.deployments deployment_id)

-- `_reap`: the process is forgotten, and terminated if it is alive
unfoldable pub reap : Provider → Text → Bool → Provider × List Signal
reap p deployment_id alive = (
  record p { processes = erase p.processes deployment_id },
  elim (get p.processes deployment_id) [
    | none ↦ []
    | some pid ↦ if alive then terminate pid ∷ [] else []
  ],
)

-- the error of a failed start, which keeps an older one
abbrev pub failed_start : Option ℕ → Deployment → Deployment
failed_start exit_code d = record d {
  status = failed;
  error = elim d.error [
    | none ↦ (elim exit_code [
      | none ↦ some startup_elapsed
      | some code ↦ some (exited_during_startup code)
    ])
    | some fault ↦ some fault
  ];
}

-- `_deploy` after its `await`: `probe_ok` is the answer of the wait, `exit_code` what `poll` finds
unfoldable pub finish_deploy : Provider → Text → Bool → Option ℕ → Provider × List Signal
finish_deploy p deployment_id probe_ok exit_code =
    if probe_ok && not (is_some exit_code)
    then (with_deployment p deployment_id (λ d. record d { status = running }), [])
    else reap (with_deployment p deployment_id (failed_start exit_code)) deployment_id
        (not (is_some exit_code))

-- the process of a deployment that is stopped: the signals, and whether it ended
unfoldable pub stop_process : Option ℕ → Bool → Reaction → List Signal × Bool
stop_process none alive reaction = ([], true)
stop_process (some pid) false reaction = ([], true)
stop_process (some pid) true exits_on_terminate = (terminate pid ∷ [], true)
stop_process (some pid) true exits_on_kill = (terminate pid ∷ kill pid ∷ [], true)
stop_process (some pid) true survives = (terminate pid ∷ kill pid ∷ [], false)

-- `stop` once the process has been taken out
abbrev pub stop_marked : Provider → Text → Provider
stop_marked p deployment_id = record p {
  stop_markers = deployment_id ∷ p.stop_markers;
  processes = erase p.processes deployment_id;
}

abbrev pub stopped_deployment : Deployment → Deployment
stopped_deployment d = record d { status = stopped; error = none }

unfoldable pub stop_found :
    Provider
    → Text
    → Bool
    → Reaction
    → Option Deployment
    → (Provider × List Signal) × Result ProviderError Deployment
stop_found p deployment_id alive reaction none =
    ((p, []), raised (deployment_not_found deployment_id))
stop_found p deployment_id alive reaction (some d) =
    let process = get p.processes deployment_id in
    let (signals, ended) = stop_process process alive reaction in
    let marked = stop_marked p deployment_id in
    let halted : Provider = record marked {
      deployments = put marked.deployments deployment_id (stopped_deployment d);
    } in
    if ended
    then ((halted, signals), returned (stopped_deployment d))
    else ((marked, signals), raised (process_survives (or_default process 0)))

unfoldable pub stop :
    Provider → Text → Bool → Reaction → (Provider × List Signal) × Result ProviderError Deployment
unfolding stop_found
stop p deployment_id alive reaction =
    stop_found p deployment_id alive reaction (get p.deployments deployment_id)

-- `status`: a running deployment whose process has exited has failed
unfoldable pub status_found :
    Provider → Text → Option ℕ → Option Deployment → Provider × Result ProviderError Deployment
status_found p deployment_id exit_code none = (p, raised (deployment_not_found deployment_id))
status_found p deployment_id exit_code (some d) =
    let code = or_default exit_code 0 in
    let d' : Deployment = record d { status = failed; error = some (exited code) } in
    if is_some (get p.processes deployment_id) && is_running d.status && is_some exit_code
    then (
      record p {
        deployments = put p.deployments deployment_id d';
        processes = erase p.processes deployment_id;
      },
      returned d',
    )
    else (p, returned d)

unfoldable pub status : Provider → Text → Option ℕ → Provider × Result ProviderError Deployment
unfolding status_found
status p deployment_id exit_code =
    status_found p deployment_id exit_code (get p.deployments deployment_id)

-- the status under this key is `RUNNING` or `STARTING`
abbrev pub is_live_in : Provider → Text → Bool
is_live_in p deployment_id = elim (get p.deployments deployment_id) [
  | none ↦ false
  | some d ↦ is_live d.status
]

-- the last `n` of a list
abbrev pub keep_last : {A : Type 0} → ℕ → List A → List A
keep_last n xs = drop (length xs - n) xs

-- `lines[-tail:] if tail > 0 else []`
abbrev pub last_lines : ℤ → List Text → List Text
last_lines (pos n) lines = keep_last n lines
last_lines (negsuc n) lines = []

-- `logs`: up to `tail` lines, the oldest first; a bound below one gives none
unfoldable pub logs : Provider → Text → ℤ → Result ProviderError (List Text)
logs p deployment_id tail = elim (get p.deployments deployment_id) [
  | none ↦ raised (deployment_not_found deployment_id)
  | some d ↦ returned (last_lines tail (or_default (get p.logs deployment_id) []))
]

abbrev pub drain_found : Provider → Text → Text → Option (List Text) → Provider
drain_found p deployment_id line none = p
drain_found p deployment_id line (some lines) = record p {
  logs = put p.logs deployment_id (keep_last p.log_lines (lines ++ (line ∷ [])));
}

-- `_drain_stream`: a line that was read goes into the bounded buffer
unfoldable pub drain_line : Provider → Text → Text → Provider
drain_line p deployment_id line = drain_found p deployment_id line (get p.logs deployment_id)

abbrev pub move_found : {V : Type 0} → Dict Text V → Text → Text → Option V → Dict Text V
move_found store new_id deployment_id none = store
move_found store new_id deployment_id (some value) = put (erase store new_id) deployment_id value

-- `store[deployment_id] = store.pop(new_id)`, if it is there
unfoldable pub move_key : {V : Type 0} → Dict Text V → Text → Text → Dict Text V
move_key store new_id deployment_id = move_found store new_id deployment_id (get store new_id)

-- `restart` after its deploy: the new deployment takes the old identity
unfoldable pub rekey : Provider → Text → Text → Provider
rekey p new_id deployment_id =
    let moved : Provider = record p {
      deployments = move_key p.deployments new_id deployment_id;
      specs = move_key p.specs new_id deployment_id;
      processes = move_key p.processes new_id deployment_id;
      logs = move_key p.logs new_id deployment_id;
    } in
    if new_id == deployment_id
    then p
    else with_deployment moved deployment_id (λ d. record d { deployment_id = deployment_id })

-- `shutdown`: every deployment that starts or runs is stopped; `alive` and `reactions` tell of the
-- processes. A process that survives its kill ends the loop with its error.
unfoldable pub shutdown :
    Provider
    → List Text
    → (Text → Bool)
    → (Text → Reaction)
    → Provider × Result ProviderError (Unit {0})
shutdown p [] alive reactions = (p, returned tt)
shutdown p (deployment_id ∷ rest) alive reactions =
    let ((p', signals), result) =
      stop p deployment_id (alive deployment_id) (reactions deployment_id) in
    let after_stop : Provider × Result ProviderError (Unit {0}) = elim result [
      | raised e ↦ (p', raised e)
      | returned d ↦ shutdown p' rest alive reactions
    ] in
    let skipped = shutdown p rest alive reactions in
    if is_live_in p deployment_id then after_stop else skipped

abbrev pub land : Provider → Flight → Bool → Option ℕ → Provider × Text
land p (landed d) probe_ok exit_code = (p, d.deployment_id)
land p (airborne d pid) probe_ok exit_code =
    ((finish_deploy p d.deployment_id probe_ok exit_code).0, d.deployment_id)

-- all of `deploy`, if nothing else happens during its wait: the state and the deployment's key
unfoldable pub deploy : Provider → DeploymentSpec → Text → Spawn → Bool → Option ℕ → Provider × Text
deploy p spec new_id spawn probe_ok exit_code =
    let (begun, flight) = begin_deploy p spec new_id spawn in land begun flight probe_ok exit_code

-- `restart` when its `_deploy` has begun: a deployment that was found takes the old identity at once
unfoldable pub restart_begun : Provider × Flight → Text → Provider
restart_begun (p, landed d) deployment_id = rekey p d.deployment_id deployment_id
restart_begun (p, airborne d pid) deployment_id = p

-- `restart` when its `_deploy` ends, after whatever happened during the wait
unfoldable pub restart_finished : Provider → Text → Text → Bool → Option ℕ → Provider
restart_finished p new_id deployment_id probe_ok exit_code =
    rekey (finish_deploy p new_id probe_ok exit_code).0 new_id deployment_id

-- what a restart meets: the process and the reaction of `stop`, and the answers of `deploy`
pub record Circumstances : Type 0 where
  pub alive : Bool
  pub reaction : Reaction
  pub new_id : Text
  pub spawn : Spawn
  pub probe_ok : Bool
  pub exit_code : Option ℕ

-- the deployment under a key, as the result of a call
abbrev pub require_deployment : Text → Option Deployment → Result ProviderError Deployment
require_deployment deployment_id none = raised (deployment_not_found deployment_id)
require_deployment deployment_id (some d) = returned d

-- `restart` after its `stop`
unfoldable pub redeploy :
    Provider
    → Text
    → DeploymentSpec
    → Circumstances
    → Result ProviderError Deployment
    → Provider × Result ProviderError Deployment
redeploy p deployment_id spec c (raised e) = (p, raised e)
redeploy p deployment_id spec c (returned d) =
    let (p', key) = deploy p spec c.new_id c.spawn c.probe_ok c.exit_code in
    let p'' = rekey p' key deployment_id in
    (p'', require_deployment deployment_id (get p''.deployments deployment_id))

unfoldable pub restart_found :
    Provider
    → Text
    → Circumstances
    → Option Deployment
    → Option DeploymentSpec
    → Provider × Result ProviderError Deployment
restart_found p deployment_id c (some d) (some spec) =
    let ((p', signals), result) = stop p deployment_id c.alive c.reaction in
    redeploy p' deployment_id spec c result
restart_found p deployment_id c (some d) none = (p, raised (deployment_not_found deployment_id))
restart_found p deployment_id c none spec = (p, raised (deployment_not_found deployment_id))

-- all of `restart`, if nothing else happens between its `stop` and its end
unfoldable pub restart :
    Provider → Text → Circumstances → Provider × Result ProviderError Deployment
unfolding restart_found
restart p deployment_id c =
    restart_found p deployment_id c (get p.deployments deployment_id) (get p.specs deployment_id)
