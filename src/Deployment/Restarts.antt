-- ===== src/Deployment/Restarts.antt =====
-- Restarts of the local provider: what becomes of the processes, and of the identity.
use open_simple_agent.Base.Dict.{get, erase}
use open_simple_agent.Deployment.{Deployment, DeploymentSpec, running}
use open_simple_agent.Deployment.Local.{
  Provider, launch, finish_deploy, stop_found, reap, rekey, move_key, stop_process,
}
use open_simple_agent.Base.{Option, false, if◌then◌else◌, is_some, none, refl, some, ◌≡◌}
use open_simple_agent.Base.Dict.{Dict, get-erase, get-put}
use open_simple_agent.Base.Same.{nat_eq, option_eq, pair_eq, ◌==◌}
use open_simple_agent.Base.Text.{Text, text_eq}
use open_simple_agent.Deployment.Local.{move_found}
use open_simple_agent.Base.{Bool, Bool-cases, inl, inr, not, true, ℕ, ◌&&◌}
use open_simple_agent.Base.Text.{text_same_iff}
use open_simple_agent.Deployment.Local.{Spawn, begin_found, failed_start, spawn_error, spawned}
use open_simple_agent.Deployment.Tracking.{AllTracked, change_processes, changed_live, is_tracked}
use open_simple_agent.Base.Same.{same_refl}
use open_simple_agent.Deployment.Local.{Reaction}

pub get-move_found :
    {V : Type 0} (store : Dict Text V) (new_id old k : Text) (found : Option V)
    → get store new_id ≡ found
    → (new_id == old) ≡ false
    → get (move_found store new_id old found) k ≡ (
        if old == k
        then (if is_some found then found else get store old)
        else if new_id == k
        then none
        else get store k)
get-move_found store new_id old k none e other = elim (Bool-cases (old == k)) [
  | inl same ↦ rw (same, (text_same_iff old k).0 same) refl
  | inr apart ↦ elim (Bool-cases (new_id == k)) [
    | inl same ↦ rw (apart, same) (rw ((text_same_iff new_id k).0 same) at e)
    | inr apart' ↦ rw (apart, apart') refl
  ]
]
get-move_found store new_id old k (some v) e other =
    rw (get-put (erase store new_id) old k v, get-erase store new_id k) refl

-- The moved key brings its process and its deployment along.
moved_tracked :
    (process new_process : Option ℕ) (d new_d : Option Deployment)
    → process ≡ none
    → is_tracked new_process new_d ≡ true
    → is_tracked
        (if is_some new_process then new_process else process)
        (if is_some new_d then new_d else d)
      ≡ true
moved_tracked process none d new_d gone h = rw gone refl
moved_tracked process (some pid) d (some new) gone h = h
moved_tracked process (some pid) d none gone h = cc

move_key-AllTracked :
    (p : Provider) (new_id old k : Text)
    → (new_id == old) ≡ false
    → get p.processes old ≡ none
    → AllTracked p
    → is_tracked
        (get (move_key p.processes new_id old) k)
        (get (move_key p.deployments new_id old) k)
      ≡ true
unfolding move_key
move_key-AllTracked p new_id old k other gone h =
    rw
      (
        get-move_found p.processes new_id old k (get p.processes new_id) refl other,
        get-move_found p.deployments new_id old k (get p.deployments new_id) refl other,
      )
      (elim (Bool-cases (old == k)) [
        | inl same ↦ rw same (
            moved_tracked (get p.processes old) (get p.processes new_id) (get p.deployments old)
              (get p.deployments new_id) gone (h new_id))
        | inr apart ↦ elim (Bool-cases (new_id == k)) [
          | inl same ↦ rw (apart, same) refl
          | inr apart' ↦ rw (apart, apart') (h k)
        ]
      ])

pub rekey-AllTracked :
    (p : Provider) (new_id old : Text)
    → get p.processes old ≡ none
    → AllTracked p
    → AllTracked (rekey p new_id old)
unfolding rekey
rekey-AllTracked p new_id old gone h = elim (Bool-cases (new_id == old)) [
  | inl same ↦ rw same h
  | inr other ↦
      let moved : Provider = record p {
        deployments = move_key p.deployments new_id old;
        specs = move_key p.specs new_id old;
        processes = move_key p.processes new_id old;
        logs = move_key p.logs new_id old;
      } in
      rw other (
        changed_live moved old (λ d. record d { deployment_id = old }) (get moved.deployments old)
          (λ d live. live) refl (λ k. move_key-AllTracked p new_id old k other gone h))
]

pub reap_none :
    (processes : Dict Text ℕ) (j old : Text)
    → get processes old ≡ none
    → get (erase processes j) old ≡ none
reap_none processes j old gone = elim (Bool-cases (j == old)) [
  | inl same ↦ rw (get-erase processes j old, same) refl
  | inr other ↦ rw (get-erase processes j old, other) gone
]

pub finish_none :
    (p : Provider) (j old : Text) (probe_ok : Bool) (exit_code : Option ℕ)
    → get p.processes old ≡ none
    → get (finish_deploy p j probe_ok exit_code).0.processes old ≡ none
unfolding finish_deploy reap
finish_none p j old probe_ok exit_code gone =
    elim (Bool-cases (probe_ok && not (is_some exit_code))) [
      | inl up ↦
          rw (up, change_processes p j (λ d. record d { status = running }) (get p.deployments j))
            gone
      | inr down ↦
          rw (down, change_processes p j (failed_start exit_code) (get p.deployments j))
            (reap_none p.processes j old gone)
    ]

pub begin_none :
    (p : Provider) (spec : DeploymentSpec) (new_id old : Text) (spawn : Spawn)
    (d : Option Deployment)
    → (new_id == old) ≡ false
    → get p.processes old ≡ none
    → get (begin_found p spec new_id spawn d).0.processes old ≡ none
unfolding begin_found launch
begin_none p spec new_id old (spawn_error message) none other gone = gone
begin_none p spec new_id old (spawned pid) none other gone =
    rw (get-put p.processes new_id old pid, other) gone
begin_none p spec new_id old spawn (some d) other gone = gone

pub stop_gone :
    (p : Provider) (old : Text) (alive : Bool) (reaction : Reaction) (d : Deployment)
    → get (stop_found p old alive reaction (some d)).0.0.processes old ≡ none
unfolding stop_found
stop_gone p old alive reaction d =
    elim (Bool-cases (stop_process (get p.processes old) alive reaction).1) [
      | inl ended ↦ rw (ended, get-erase p.processes old old, same_refl old) refl
      | inr lives ↦ rw (lives, get-erase p.processes old old, same_refl old) refl
    ]
