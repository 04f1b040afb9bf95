-- ===== src/Deployment.antt =====
-- control-plane/backend/src/osa/control_plane/backend/deployment.py: what a deployment provider
-- starts and reports. `Deployment.Local` has the provider of local processes, `Deployment.Startup`
-- its wait for a healthy process. Messages of errors are constructors; times are microseconds.
pub mod Startup
pub mod Local
pub mod Running
pub mod Calls
pub mod Interleavings
pub mod Tracking
pub mod Restarts
mod Tests
use open_simple_agent.Base.{Bool, List, Option, false, true, ℕ}
use open_simple_agent.Base.Clock.{Time}
use open_simple_agent.Base.Dict.{Dict}
use open_simple_agent.Base.Same.{nat_eq, option_eq, pair_eq}
use open_simple_agent.Base.Text.{Text, text_eq}

abbrev pub default_log_lines : ℕ
default_log_lines = 200

pub data DeploymentStatus : Type 0 where
  starting running stopped failed : DeploymentStatus

pub data Fault : Type 0 where
  spawn_failed : (message : Text) → Fault
  exited_during_startup exited : (code : ℕ) → Fault
  startup_elapsed : Fault

pub record DeploymentSpec : Type 0 where
  pub agent_id : Text
  pub command : List Text
  pub env : Dict Text Text
  pub health_check_url : Option Text
  pub startup_timeout : Time
  pub label : Text
  pub identity : Text
  pub port : Option ℕ
  pub operation_id : Option Text
  pub fencing_epoch : Option ℕ

pub record Deployment : Type 0 where
  pub deployment_id : Text
  pub agent_id : Text
  pub status : DeploymentStatus
  pub pid : Option ℕ
  pub error : Option Fault
  pub label : Text
  pub health_check_url : Option Text
  pub port : Option ℕ

abbrev pub is_running : DeploymentStatus → Bool
is_running running = true
is_running _ = false

-- `deployment.status in (RUNNING, STARTING)`
abbrev pub is_live : DeploymentStatus → Bool
is_live running = true
is_live starting = true
is_live _ = false
