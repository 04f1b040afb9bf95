-- ===== src/Lease.antt =====
-- control-plane/backend/src/osa/control_plane/backend/deployment_ownership.py: leases with fencing
-- epochs for the mutating operations on a deployment. This file has the lease, the settings and
-- the errors; `Lease.Memory` and `Lease.Postgres` have the two stores. Times are microseconds.
pub mod Memory
pub mod Postgres
pub mod Steps
pub mod Fencing
pub mod Agreement
pub mod Settings
mod Tests
use open_simple_agent.Base.{
  ℕ, ◌+◌, ◌*◌, Option, none, some, ltb, if◌then◌else◌, or_default, Bool, true, false,
}
use open_simple_agent.Base.Text.{Text, text, or_else}
use open_simple_agent.Base.Int.{ℤ, pos, negsuc, parse_int}
use open_simple_agent.Base.Clock.{Time}
use open_simple_agent.Base.Result.{Result, raised, returned}

abbrev pub default_lease_seconds : ℕ
default_lease_seconds = 30

abbrev pub min_lease_seconds : ℕ
min_lease_seconds = 5

pub record OperationLease : Type 0 where
  pub tenant_id : Option Text
  pub resource_id : Text
  pub operation_id : Text
  pub owner_id : Text
  pub fencing_epoch : ℕ
  pub attempt : ℕ
  pub lease_expires_at : Time

-- deployment_errors.py, with the messages as constructors
pub data DeploymentError : Type 0 where
  not_an_integer lease_too_short row_unreadable : DeploymentError

-- the key of a store: the scope of the tenant, and the resource
abbrev pub Key : Type 0
Key = Text × Text

-- `tenant_id or ""`
unfoldable pub scope : Option Text → Text
scope tenant_id = or_else tenant_id (text "")

abbrev pub key_of : OperationLease → Key
key_of lease = (scope lease.tenant_id, lease.resource_id)

unfoldable pub validate_lease_seconds : ℤ → Result DeploymentError ℕ
validate_lease_seconds (pos n) =
    if ltb n min_lease_seconds then raised lease_too_short else returned n
validate_lease_seconds (negsuc n) = raised lease_too_short

-- the argument is the environment's `OSA_DEPLOYMENT_OPERATION_LEASE_SECONDS`
unfoldable pub lease_seconds_from_env : Option Text → Result DeploymentError ℕ
unfolding validate_lease_seconds
lease_seconds_from_env none = returned default_lease_seconds
lease_seconds_from_env (some raw) = elim (parse_int raw) [
  | none ↦ raised not_an_integer
  | some value ↦ validate_lease_seconds value
]
