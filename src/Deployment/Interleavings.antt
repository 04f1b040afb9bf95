-- ===== src/Deployment/Interleavings.antt =====
-- What every interleaving of calls keeps, also during the waits of deployments and of restarts.
use open_simple_agent.Deployment.Calls.{
  IsFresh, Reach, Step, System, after, at_start, begins, drains, ended, finishes, observes,
  restart_begins, restart_finishes, restart_stops, restarts_now, still_restarting, stops,
}
use open_simple_agent.Base.Dict.{get}
use open_simple_agent.Deployment.{Deployment, DeploymentSpec}
use open_simple_agent.Deployment.Local.{
  Provider, begin_deploy, finish_deploy, stop, stop_found, status, status_found, stop_process,
  drain_line, drain_found, rekey, move_key, restart_begun, restart_finished, Flight,
}
use open_simple_agent.Deployment.Restarts.{
  begin_none, finish_none, get-move_found, reap_none, rekey-AllTracked, stop_gone,
}
use open_simple_agent.Deployment.Tracking.{
  AllTracked, begin_deploy-AllTracked, change_processes, finish_deploy-AllTracked,
  status_found-AllTracked, stop_found-AllTracked,
}
use open_simple_agent.Base.{
  Bool, Bool-cases, List, Option, [], ap, arith, false, if◌then◌else◌, inl, inr, is_some, none,
  refl, some, true, ℕ, ◌&&◌, ◌∙◌, ◌∷◌, ◌≡◌,
}
use open_simple_agent.Base.Dict.{different_sym}
use open_simple_agent.Base.Result.{returned}
use open_simple_agent.Base.Same.{nat_eq, option_eq, pair_eq, ◌==◌}
use open_simple_agent.Base.Text.{Text, text_eq, text_same_iff}
use open_simple_agent.Deployment.{is_running}
use open_simple_agent.Deployment.Local.Tables.{Reaction, Spawn, airborne, landed}

-- no process is held for a deployment that restarts
abbrev NoneHeld : Provider → List Text → Type 0
NoneHeld p restarting = (k : Text) → restarts_now restarting k ≡ true → get p.processes k ≡ none

abbrev IsSteady : System → Type 0
IsSteady y = AllTracked y.provider × NoneHeld y.provider y.restarting

ended_still :
    (restarting : List Text) (deployment_id k : Text)
    → restarts_now (ended restarting deployment_id) k ≡ true
    → (restarts_now restarting k ≡ true) × ((deployment_id == k) ≡ false)
ended_still [] deployment_id k h = cc
ended_still (j ∷ js) deployment_id k h = elim (Bool-cases (j == deployment_id)) [
  | inl same ↦
      let (inside, apart) = ended_still js deployment_id k (rw same at h) in
      (ground (arith, inside), apart)
  | inr other ↦ elim (Bool-cases (j == k)) [
    | inl this ↦
        (rw this refl, different_sym k deployment_id (rw ((text_same_iff j k).0 this) at other))
    | inr not_it ↦
        let (inside, apart) = ended_still js deployment_id k (rw (other, not_it) at h) in
        (rw not_it inside, apart)
  ]
]

drained_same :
    (p : Provider) (j line : Text) (found : Option (List Text)) (restarting : List Text)
    → AllTracked p × NoneHeld p restarting
    → AllTracked (drain_found p j line found) × NoneHeld (drain_found p j line found) restarting
drained_same p j line none restarting h = h
drained_same p j line (some lines) restarting h = h

stop_none :
    (p : Provider) (j k : Text) (alive : Bool) (reaction : Reaction) (found : Option Deployment)
    → get p.processes k ≡ none
    → get (stop_found p j alive reaction found).0.0.processes k ≡ none
unfolding stop_found
stop_none p j k alive reaction none gone = gone
stop_none p j k alive reaction (some d) gone =
    elim (Bool-cases (stop_process (get p.processes j) alive reaction).1) [
      | inl ends ↦ rw ends (reap_none p.processes j k gone)
      | inr lives ↦ rw lives (reap_none p.processes j k gone)
    ]

status_none :
    (p : Provider) (j k : Text) (exit_code : Option ℕ) (found : Option Deployment)
    → get p.processes k ≡ none
    → get (status_found p j exit_code found).0.processes k ≡ none
unfolding status_found
status_none p j k exit_code none gone = gone
status_none p j k exit_code (some d) gone =
    elim (Bool-cases (is_some (get p.processes j) && is_running d.status && is_some exit_code)) [
      | inl over ↦ rw over (reap_none p.processes j k gone)
      | inr same ↦ rw same gone
    ]

rekey-none :
    (p : Provider) (new_id old k : Text)
    → (old == k) ≡ false
    → get p.processes k ≡ none
    → get (rekey p new_id old).processes k ≡ none
unfolding rekey move_key
rekey-none p new_id old k apart gone = elim (Bool-cases (new_id == old)) [
  | inl same ↦ rw same gone
  | inr other ↦
      let moved : Provider = record p {
        deployments = move_key p.deployments new_id old;
        specs = move_key p.specs new_id old;
        processes = move_key p.processes new_id old;
        logs = move_key p.logs new_id old;
      } in
      let brought : get (move_key p.processes new_id old) k
          ≡ (if new_id == k then none else get p.processes k) =
        get-move_found p.processes new_id old k (get p.processes new_id) refl other
        ∙ rw apart refl in
      rw
        (
          other,
          change_processes moved old (λ d. record d { deployment_id = old })
              (get moved.deployments old),
        )
        (brought ∙ rw gone (ground arith))
]

rekey-IsSteady :
    (p : Provider) (new_id old : Text) (restarting : List Text)
    → restarts_now restarting old ≡ true
    → AllTracked p × NoneHeld p restarting
    → AllTracked (rekey p new_id old) × NoneHeld (rekey p new_id old) (ended restarting old)
rekey-IsSteady p new_id old restarting known (tracked, held) = (
  rekey-AllTracked p new_id old (held old known) tracked,
  λ k h.
      let (inside, apart) = ended_still restarting old k h in
      rekey-none p new_id old k apart (held k inside),
)

begin-IsSteady :
    (y : System) (spec : DeploymentSpec) (new_id : Text) (spawn : Spawn)
    → IsFresh y new_id
    → IsSteady y
    → AllTracked (begin_deploy y.provider spec new_id spawn).0
      × NoneHeld (begin_deploy y.provider spec new_id spawn).0 y.restarting
unfolding begin_deploy
begin-IsSteady y spec new_id spawn (fresh, unused) (tracked, held) = (
  begin_deploy-AllTracked y.provider spec new_id spawn fresh tracked,
  λ k h.
      let other : (new_id == k) ≡ false = elim (Bool-cases (new_id == k)) [
        | inr apart ↦ apart
        | inl same ↦
            absurd
              (cc (h, unused, ap (restarts_now y.restarting) ((text_same_iff new_id k).0 same)))
      ] in
      begin_none y.provider spec new_id k spawn _ other (held k h),
)

begun-IsSteady :
    (p : Provider) (flight : Flight) (old : Text) (restarting : List Text)
    → restarts_now restarting old ≡ true
    → AllTracked p × NoneHeld p restarting
    → AllTracked (restart_begun (p, flight) old)
      × NoneHeld (restart_begun (p, flight) old) (still_restarting flight restarting old)
unfolding restart_begun
begun-IsSteady p (landed d) old restarting known h =
    rekey-IsSteady p d.deployment_id old restarting known h
begun-IsSteady p (airborne d pid) old restarting known h = h

stop-IsSteady :
    (y : System) (j : Text) (alive : Bool) (reaction : Reaction)
    → IsSteady y
    → AllTracked (stop y.provider j alive reaction).0.0
      × NoneHeld (stop y.provider j alive reaction).0.0 y.restarting
unfolding stop
stop-IsSteady y j alive reaction (tracked, held) = (
  stop_found-AllTracked y.provider j alive reaction (get y.provider.deployments j) tracked,
  λ k h. stop_none y.provider j k alive reaction (get y.provider.deployments j) (held k h),
)

stopped_gone :
    (p : Provider) (j : Text) (alive : Bool) (reaction : Reaction) (found : Option Deployment)
    {halted : Deployment}
    → (stop_found p j alive reaction found).1 ≡ returned halted
    → get (stop_found p j alive reaction found).0.0.processes j ≡ none
unfolding stop_found
stopped_gone p j alive reaction none done = cc
stopped_gone p j alive reaction (some d) done = stop_gone p j alive reaction d

finish-IsSteady :
    (y : System) (j : Text) (probe_ok : Bool) (exit_code : Option ℕ)
    → IsSteady y
    → AllTracked (finish_deploy y.provider j probe_ok exit_code).0
      × NoneHeld (finish_deploy y.provider j probe_ok exit_code).0 y.restarting
finish-IsSteady y j probe_ok exit_code (tracked, held) = (
  finish_deploy-AllTracked y.provider j probe_ok exit_code tracked,
  λ k h. finish_none y.provider j k probe_ok exit_code (held k h),
)

Step-IsSteady : {y z : System} → Step y z → IsSteady y → IsSteady z
unfolding stop status drain_line restart_finished
Step-IsSteady {y} (begins spec new_id spawn fresh) h = begin-IsSteady y spec new_id spawn fresh h
Step-IsSteady {y} (finishes j probe_ok exit_code) h = finish-IsSteady y j probe_ok exit_code h
Step-IsSteady {y} (stops j alive reaction) h = stop-IsSteady y j alive reaction h
Step-IsSteady {y} (observes j exit_code) (tracked, held) = (
  status_found-AllTracked y.provider j exit_code (get y.provider.deployments j) tracked,
  λ k h. status_none y.provider j k exit_code (get y.provider.deployments j) (held k h),
)
Step-IsSteady {y} (drains j line) h =
    drained_same y.provider j line (get y.provider.logs j) y.restarting h
Step-IsSteady {y} (restart_stops j alive reaction idle done) h =
    let (tracked, held) = stop-IsSteady y j alive reaction h in
    (
      tracked,
      λ k inside. elim (Bool-cases (j == k)) [
        | inl same ↦
            rw (← (text_same_iff j k).0 same)
              (stopped_gone y.provider j alive reaction (get y.provider.deployments j) done)
        | inr other ↦ held k (rw other at inside)
      ],
    )
Step-IsSteady {y} (restart_begins j spec new_id spawn known fresh) h =
    let begun = begin_deploy y.provider spec new_id spawn in
    begun-IsSteady begun.0 begun.1 j y.restarting known (begin-IsSteady y spec new_id spawn fresh h)
Step-IsSteady {y} (restart_finishes j new_id probe_ok exit_code known) h =
    rekey-IsSteady (finish_deploy y.provider new_id probe_ok exit_code).0 new_id j y.restarting
      known (finish-IsSteady y new_id probe_ok exit_code h)

Reach-IsSteady : {y z : System} → Reach y z → IsSteady y → IsSteady z
Reach-IsSteady at_start h = h
Reach-IsSteady (after r st) h = Step-IsSteady st (Reach-IsSteady r h)

-- From a provider without restarts under way, whatever is called in whatever order, also between the
-- parts of a restart, a process that the provider holds belongs to a deployment that it knows and
-- reports as starting or running. A deployment is not restarted twice at a time here.
pub held_processes :
    {y z : System} → Reach y z → y.restarting ≡ [] → AllTracked y.provider → AllTracked z.provider
held_processes {y} r idle h = (Reach-IsSteady r (h, λ k inside. absurd (cc (rw idle at inside)))).0
