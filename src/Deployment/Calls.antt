-- ===== src/Deployment/Calls.antt =====
-- deployment.py, `LocalDeploymentProvider` over time: its calls in any order. A deployment is two steps
-- and a restart is three, since they wait for the deploy lock and for the start of the process; no
-- other call waits. The specification that a restart deploys, and the deployment that it ends on, are
-- any here.
use open_simple_agent.Base.Dict.{get}
use open_simple_agent.Deployment.{Deployment, DeploymentSpec}
use open_simple_agent.Deployment.Local.{
  Provider, begin_deploy, finish_deploy, stop, status, drain_line, restart_begun, restart_finished,
  Flight,
}
use open_simple_agent.Base.{Bool, List, Option, false, none, not, true, ℕ, ◌∷◌, ◌≡◌}
use open_simple_agent.Base.Lists.{any, filter}
use open_simple_agent.Base.Result.{returned}
use open_simple_agent.Base.Same.{nat_eq, option_eq, pair_eq, ◌==◌}
use open_simple_agent.Base.Text.{Text, text_eq}
use open_simple_agent.Deployment.Local.Tables.{Reaction, Spawn, airborne, landed}

-- the provider, and the deployments whose restart has stopped them and has not ended
pub record System : Type 0 where
  pub provider : Provider
  pub restarting : List Text

abbrev pub restarts_now : List Text → Text → Bool
restarts_now restarting k = any (λ j. j == k) restarting

abbrev pub IsFresh : System → Text → Type 0
IsFresh y new_id =
    (get y.provider.deployments new_id ≡ none) × (restarts_now y.restarting new_id ≡ false)

abbrev pub ended : List Text → Text → List Text
ended restarting deployment_id = filter (λ j. not (j == deployment_id)) restarting

-- the restarts that go on when a deploy of one has begun
abbrev pub still_restarting : Flight → List Text → Text → List Text
still_restarting (landed d) restarting deployment_id = ended restarting deployment_id
still_restarting (airborne d pid) restarting deployment_id = restarting

-- One call, one half of a deployment, or one part of a restart: its stop, the begin of its deploy, and
-- the end of its deploy. A UUID that is drawn is fresh, and a deployment that restarts is not
-- restarted again before that has ended.
pub data Step (y : System) : System → Type 0 where
  begins :
      (spec : DeploymentSpec) (new_id : Text) (spawn : Spawn)
      → IsFresh y new_id
      → Step y (record y { provider = (begin_deploy y.provider spec new_id spawn).0 })
  finishes :
      (deployment_id : Text) (probe_ok : Bool) (exit_code : Option ℕ)
      → Step y
          (record y { provider = (finish_deploy y.provider deployment_id probe_ok exit_code).0 })
  stops :
      (deployment_id : Text) (alive : Bool) (reaction : Reaction)
      → Step y (record y { provider = (stop y.provider deployment_id alive reaction).0.0 })
  observes :
      (deployment_id : Text) (exit_code : Option ℕ)
      → Step y (record y { provider = (status y.provider deployment_id exit_code).0 })
  drains :
      (deployment_id line : Text)
      → Step y (record y { provider = drain_line y.provider deployment_id line })
  restart_stops :
      (deployment_id : Text) (alive : Bool) (reaction : Reaction) {halted : Deployment}
      → restarts_now y.restarting deployment_id ≡ false
      → (stop y.provider deployment_id alive reaction).1 ≡ returned halted
      → Step y (record {
        provider = (stop y.provider deployment_id alive reaction).0.0;
        restarting = deployment_id ∷ y.restarting;
      })
  restart_begins :
      (deployment_id : Text) (spec : DeploymentSpec) (new_id : Text) (spawn : Spawn)
      → restarts_now y.restarting deployment_id ≡ true
      → IsFresh y new_id
      → Step y (record {
        provider = restart_begun (begin_deploy y.provider spec new_id spawn) deployment_id;
        restarting =
            still_restarting
              (begin_deploy y.provider spec new_id spawn).1
              y.restarting
              deployment_id;
      })
  restart_finishes :
      (deployment_id new_id : Text) (probe_ok : Bool) (exit_code : Option ℕ)
      → restarts_now y.restarting deployment_id ≡ true
      → Step y (record {
        provider = restart_finished y.provider new_id deployment_id probe_ok exit_code;
        restarting = ended y.restarting deployment_id;
      })

pub data Reach (y : System) : System → Type 0 where
  at_start : Reach y y
  after : {z v : System} → Reach y z → Step z v → Reach y v
