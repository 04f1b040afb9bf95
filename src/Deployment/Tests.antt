-- ===== src/Deployment/Tests.antt =====
-- Concrete runs of the local provider, and the theorems at concrete inputs.
use open_simple_agent.Base.Dict.{put}
use open_simple_agent.Base.Dict.{get}
use open_simple_agent.Deployment.{Deployment, DeploymentSpec, running, stopped}
use open_simple_agent.Deployment.Startup.{Round, await_startup, await_startup_total}
use open_simple_agent.Deployment.Local.{
  Provider, begin_deploy, begin_found, stop, stop_found, stop_process, landed, redeploy,
  Circumstances, spawned, exits_on_terminate, same_target, spec_matches, status,
}
use open_simple_agent.Deployment.Tracking.{AllTracked}
use open_simple_agent.Deployment.Interleavings.{held_processes}
use open_simple_agent.Deployment.Calls.{
  after, at_start, restart_begins, restart_finishes, restart_stops, restarts_now, stops,
}
use open_simple_agent.Deployment.Running.{no_twin, restart_takes_twin, stop_ends, Signalled}
use open_simple_agent.Base.{
  Bool, Option, [], arith, false, is_some, none, refl, some, true, ℕ, ◌+◌, ◌∷◌, ◌≡◌,
}
use open_simple_agent.Base.Result.{raised, returned}
use open_simple_agent.Base.Same.{nat_eq, option_eq, pair_eq}
use open_simple_agent.Base.Text.{Text, text, text_eq, text_same}
use open_simple_agent.Deployment.{is_running}
use open_simple_agent.Deployment.Local.{deployment_not_found, launch}
use open_simple_agent.Deployment.Running.{Signalled}
use open_simple_agent.Base.{Bool-cases, inl, inr}
use open_simple_agent.Base.Same.{◌==◌}
use open_simple_agent.Deployment.Local.{restart_begun, restart_finished}

-- a process without a URL, seen once each microsecond
abbrev steady : ℕ → Round
steady k = record { clock = 5 + k; has_exited = false; is_healthy = false }

await_startup_total_example :
    (answer : Bool) × (await_startup steady 5 10 none ≡ some answer)
    × (answer ≡ true
        → (k : ℕ) × ((steady k).has_exited ≡ false)
          × (is_some {A = Text} none ≡ true → (steady k).is_healthy ≡ true))
await_startup_total_example = await_startup_total steady 5 10 none (λ k. omega arith)

abbrev echo_spec : DeploymentSpec
echo_spec = record {
  agent_id = text "a";
  command = text "run" ∷ [];
  env = [];
  health_check_url = none;
  startup_timeout = 10;
  label = text "1";
  identity = text "a:1";
  port = some 8001;
  operation_id = none;
  fencing_epoch = none;
}

abbrev echo : Deployment
echo = record {
  deployment_id = text "d1";
  agent_id = text "a";
  status = running;
  pid = some 7;
  error = none;
  label = text "1";
  health_check_url = none;
  port = some 8001;
}

abbrev unused : Provider
unused = record {
  log_lines = 200;
  specs = [];
  deployments = [];
  processes = [];
  logs = [];
  stop_markers = [];
}

abbrev busy : Provider
busy = record {
  log_lines = 200;
  specs = (text "d1", echo_spec) ∷ [];
  deployments = (text "d1", echo) ∷ [];
  processes = (text "d1", 7) ∷ [];
  logs = (text "d1", []) ∷ [];
  stop_markers = [];
}

echo_known : get busy.deployments (text "d1") ≡ some echo
unfolding get text_same
echo_known = refl

echo_spec_known : get busy.specs (text "d1") ≡ some echo_spec
unfolding get text_same
echo_spec_known = refl

echo_target : same_target echo_spec echo_spec ≡ true
unfolding text_same
echo_target = refl

no_twin_example :
    (d' : Deployment) × (begin_deploy busy echo_spec (text "d2") (spawned 8) ≡ (busy, landed d'))
    × (is_running d'.status ≡ true)
    × (d'.agent_id ≡ text "a")
    × (spec_matches echo_spec (get busy.specs d'.deployment_id) ≡ true)
no_twin_example =
    no_twin busy echo_spec (text "d1") (text "d2") (spawned 8) {d = echo} {existing = echo_spec}
      echo_known refl refl echo_spec_known echo_target

abbrev again : Circumstances
again = record {
  alive = true;
  reaction = exits_on_terminate;
  new_id = text "d2";
  spawn = spawned 8;
  probe_ok = true;
  exit_code = none;
}

lands_on_echo : begin_deploy busy echo_spec (text "d2") (spawned 8) ≡ (busy, landed echo)
unfolding begin_deploy begin_found get text_same
lands_on_echo = refl

restart_takes_twin_example :
    let q = redeploy busy (text "d0") echo_spec again (returned echo) in
    (q.1 ≡ returned (record echo { deployment_id = text "d0" }))
    × ((exit_code : Option ℕ)
        → (status q.0 (text "d1") exit_code).1 ≡ raised (deployment_not_found (text "d1")))
unfolding text_same
restart_takes_twin_example =
    restart_takes_twin busy (text "d0") echo_spec again echo {twin = echo} lands_on_echo echo_known
      refl

abbrev halted_echo : Deployment
halted_echo = record echo { status = stopped }

echo_stops : (stop busy (text "d1") true exits_on_terminate).1 ≡ returned halted_echo
unfolding stop stop_found stop_process get text_same
echo_stops = refl

stop_ends_example :
    let q = stop busy (text "d1") true exits_on_terminate in
    (get q.0.0.deployments (text "d1") ≡ some halted_echo)
    × (stopped ≡ stopped)
    × (halted_echo.error ≡ none)
    × (get q.0.0.processes (text "d1") ≡ none)
    × ((pid : ℕ)
        → get busy.processes (text "d1") ≡ some pid
        → true ≡ true
        → Signalled exits_on_terminate pid q.0.1)
stop_ends_example = stop_ends busy (text "d1") true exits_on_terminate {d' = halted_echo} echo_stops

-- a restart of `d1`, with a stop of the new deployment during its wait
abbrev halted_one : Provider
halted_one = (stop busy (text "d1") true exits_on_terminate).0.0

abbrev started_again : Provider
started_again = (begin_deploy halted_one echo_spec (text "d2") (spawned 8)).0

one_restarts : restarts_now (text "d1" ∷ []) (text "d1") ≡ true
unfolding text_same
one_restarts = refl

two_rests : restarts_now (text "d1" ∷ []) (text "d2") ≡ false
unfolding text_same
two_rests = refl

one_stops : (stop busy (text "d1") true exits_on_terminate).1 ≡ returned halted_echo
unfolding stop stop_found stop_process get text_same
one_stops = refl

new_unknown : get halted_one.deployments (text "d2") ≡ none
unfolding stop stop_found stop_process get put text_same
new_unknown = refl

busy-AllTracked : AllTracked busy
unfolding get
busy-AllTracked k = elim (Bool-cases (text "d1" == k)) [
  | inl same ↦ rw same refl
  | inr other ↦ rw other refl
]

held_processes_example : AllTracked (
    restart_finished
      (stop
        (restart_begun (begin_deploy halted_one echo_spec (text "d2") (spawned 8)) (text "d1"))
        (text "d2")
        true
        exits_on_terminate).0.0
      (text "d2")
      (text "d1")
      false
      none)
unfolding begin_deploy text_same stop get stop_process put launch
held_processes_example =
    held_processes {y = record { provider = busy; restarting = [] }}
      (after
        (after
          (after (after at_start (restart_stops (text "d1") true exits_on_terminate refl one_stops))
            (restart_begins (text "d1") echo_spec (text "d2") (spawned 8) one_restarts
              (new_unknown, two_rests)))
          (stops (text "d2") true exits_on_terminate))
        (restart_finishes (text "d1") (text "d2") false none one_restarts))
      refl busy-AllTracked
