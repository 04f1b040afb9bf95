-- ===== src/Deployment/Tracking.antt =====
-- A deployment that is reported as stopped or failed has no process that the provider still holds.
use open_simple_agent.Base.Dict.{get, put, erase}
use open_simple_agent.Deployment.{Deployment, DeploymentSpec, is_live, running, is_running}
use open_simple_agent.Deployment.Local.{
  Provider, begin_deploy, launch, finish_deploy, stop_found, status_found, reap, stop_process,
}
use open_simple_agent.Base.{
  Bool, Bool-cases, Option, arith, false, inl, inr, none, refl, some, true, ℕ, ◌≡◌,
}
use open_simple_agent.Base.Dict.{Dict, get-erase, get-put}
use open_simple_agent.Base.Same.{nat_eq, option_eq, pair_eq, ◌==◌}
use open_simple_agent.Base.Text.{Text, text_eq, text_same_iff}
use open_simple_agent.Deployment.Local.{Spawn, spawn_error, spawned}
use open_simple_agent.Base.{is_some, not, ◌&&◌}
use open_simple_agent.Deployment.Local.{
  Reaction, begin_found, change_found, failed_start, stopped_deployment,
}

-- what is known of the process and the deployment under one key
abbrev pub is_tracked : Option ℕ → Option Deployment → Bool
is_tracked none d = true
is_tracked (some pid) none = false
is_tracked (some pid) (some d) = is_live d.status

abbrev pub AllTracked : Provider → Type 0
AllTracked p = (k : Text) → is_tracked (get p.processes k) (get p.deployments k) ≡ true

untracked : (process : Option ℕ) → is_tracked process none ≡ true → process ≡ none
untracked none h = refl
untracked (some pid) h = cc

launch-AllTracked :
    (p : Provider) (spec : DeploymentSpec) (new_id : Text) (spawn : Spawn)
    → get p.deployments new_id ≡ none
    → AllTracked p
    → AllTracked (launch p spec new_id spawn).0
unfolding launch
launch-AllTracked p spec new_id (spawn_error message) fresh h k =
    let gone = untracked (get p.processes new_id) (rw (← fresh) (h new_id)) in
    elim (Bool-cases (new_id == k)) [
      | inl same ↦ let here : new_id ≡ k = (text_same_iff new_id k).0 same in rw (← here, gone) refl
      | inr other ↦ rw (get-put p.deployments new_id k _, other) (h k)
    ]
launch-AllTracked p spec new_id (spawned pid) fresh h k =
    rw (get-put p.deployments new_id k _, get-put p.processes new_id k pid) (ground (arith, h k))

pub begin_found-AllTracked :
    (p : Provider) (spec : DeploymentSpec) (new_id : Text) (spawn : Spawn) (d : Option Deployment)
    → get p.deployments new_id ≡ none
    → AllTracked p
    → AllTracked (begin_found p spec new_id spawn d).0
unfolding begin_found
begin_found-AllTracked p spec new_id spawn none fresh h =
    launch-AllTracked p spec new_id spawn fresh h
begin_found-AllTracked p spec new_id spawn (some d) fresh h = h

pub begin_deploy-AllTracked :
    (p : Provider) (spec : DeploymentSpec) (new_id : Text) (spawn : Spawn)
    → get p.deployments new_id ≡ none
    → AllTracked p
    → AllTracked (begin_deploy p spec new_id spawn).0
unfolding begin_deploy
begin_deploy-AllTracked p spec new_id spawn fresh h =
    begin_found-AllTracked p spec new_id spawn _ fresh h

-- an entry whose process is forgotten
erase-AllTracked :
    (p : Provider) (deployment_id : Text) (deployments : Dict Text Deployment)
    → ((k : Text) → (deployment_id == k) ≡ false → get deployments k ≡ get p.deployments k)
    → AllTracked p
    → (k : Text) → is_tracked (get (erase p.processes deployment_id) k) (get deployments k) ≡ true
erase-AllTracked p deployment_id deployments others h k = elim (Bool-cases (deployment_id == k)) [
  | inl same ↦ rw (get-erase p.processes deployment_id k, same) refl
  | inr other ↦ rw (get-erase p.processes deployment_id k, other, others k other) (h k)
]

pub put_others :
    (d : Dict Text Deployment) (j : Text) (v : Deployment) (k : Text)
    → (j == k) ≡ false
    → get (put d j v) k ≡ get d k
put_others d j v k other = rw (get-put d j k v, other) refl

changed_others :
    (p : Provider) (j : Text) (change : Deployment → Deployment) (found : Option Deployment)
    (k : Text)
    → (j == k) ≡ false
    → get (change_found p j change found).deployments k ≡ get p.deployments k
changed_others p j change none k other = refl
changed_others p j change (some d) k other = put_others p.deployments j (change d) k other

-- A change that makes a deployment run, or leaves its status, keeps the invariant.
pub changed_live :
    (p : Provider) (j : Text) (change : Deployment → Deployment) (found : Option Deployment)
    → ((d : Deployment) → is_live d.status ≡ true → is_live (change d).status ≡ true)
    → get p.deployments j ≡ found
    → AllTracked p
    → AllTracked (change_found p j change found)
changed_live p j change none keeps e h k = h k
changed_live p j change (some d) keeps e h k = elim (Bool-cases (j == k)) [
  | inr other ↦ rw (get-put p.deployments j k (change d), other) (h k)
  | inl same ↦
      let here : j ≡ k = (text_same_iff j k).0 same in
      rw (get-put p.deployments j k (change d), same, ← here)
        (still_tracked (get p.processes j) d (rw e at (h j)) (keeps d))
]
  where
    still_tracked :
        (process : Option ℕ) (d : Deployment)
        → is_tracked process (some d) ≡ true
        → (is_live d.status ≡ true → is_live (change d).status ≡ true)
        → is_tracked process (some (change d)) ≡ true
    still_tracked none d t keep = refl
    still_tracked (some pid) d t keep = keep t

pub change_processes :
    (p : Provider) (j : Text) (change : Deployment → Deployment) (found : Option Deployment)
    → (change_found p j change found).processes ≡ p.processes
change_processes p j change none = refl
change_processes p j change (some d) = refl

pub finish_deploy-AllTracked :
    (p : Provider) (j : Text) (probe_ok : Bool) (exit_code : Option ℕ)
    → AllTracked p
    → AllTracked (finish_deploy p j probe_ok exit_code).0
unfolding finish_deploy reap
finish_deploy-AllTracked p j probe_ok exit_code h =
    elim (Bool-cases (probe_ok && not (is_some exit_code))) [
      | inl up ↦ rw up (
          changed_live p j (λ d. record d { status = running }) (get p.deployments j)
            (λ d live. refl) refl h)
      | inr down ↦
          rw (down, change_processes p j (failed_start exit_code) (get p.deployments j))
            (erase-AllTracked p j _
              (changed_others p j (failed_start exit_code) (get p.deployments j)) h)
    ]

pub stop_found-AllTracked :
    (p : Provider) (j : Text) (alive : Bool) (reaction : Reaction) (found : Option Deployment)
    → AllTracked p
    → AllTracked (stop_found p j alive reaction found).0.0
unfolding stop_found
stop_found-AllTracked p j alive reaction none h = h
stop_found-AllTracked p j alive reaction (some d) h =
    elim (Bool-cases (stop_process (get p.processes j) alive reaction).1) [
      | inl ended ↦
          rw ended (erase-AllTracked p j _ (put_others p.deployments j (stopped_deployment d)) h)
      | inr alive_still ↦ rw alive_still (erase-AllTracked p j _ (λ k other. refl) h)
    ]

pub status_found-AllTracked :
    (p : Provider) (j : Text) (exit_code : Option ℕ) (found : Option Deployment)
    → AllTracked p
    → AllTracked (status_found p j exit_code found).0
unfolding status_found
status_found-AllTracked p j exit_code none h = h
status_found-AllTracked p j exit_code (some d) h =
    elim (Bool-cases (is_some (get p.processes j) && is_running d.status && is_some exit_code)) [
      | inl gone ↦ rw gone (erase-AllTracked p j _ (put_others p.deployments j _) h)
      | inr same ↦ rw same h
    ]
