-- ===== src/Lease/Postgres.antt =====
-- deployment_ownership.py: the store in PostgreSQL. A method is one transaction that locks the row,
-- so it is one step; `now` is the database's `now()`. The table is a parameter.
use open_simple_agent.Base.{ℕ, ◌+◌, Option, none, some, ltb, if◌then◌else◌, Bool, true, false, ◌&&◌}
use open_simple_agent.Base.Same.{◌==◌}
use open_simple_agent.Base.Text.{Text, text}
use open_simple_agent.Base.Table.{Table}
use open_simple_agent.Lease.{OperationLease, Key, key_of, scope, row_unreadable}
use open_simple_agent.Base.Same.{nat_eq, option_eq, pair_eq}
use open_simple_agent.Base.Text.{text_eq}
use open_simple_agent.Base.Clock.{Time, seconds}
use open_simple_agent.Base.Result.{Result, raised, returned}
use open_simple_agent.Lease.{DeploymentError}

-- the texts "active" and "released" of the column `state`
pub data RowState : Type 0 where
  active released : RowState

pub record OwnerRow : Type 0 where
  pub operation_id : Text
  pub owner_id : Text
  pub fencing_epoch : ℕ
  pub attempt : ℕ
  pub state : RowState
  pub last_outcome : Option Text
  pub lease_expires_at : Time
  pub heartbeat_at : Option Time
  pub created_at : Time
  pub updated_at : Time

-- the worker's own settings; the rows are shared
pub record Worker : Type 0 where
  pub owner_id : Text
  pub lease_seconds : ℕ

abbrev pub is_active : RowState → Bool
is_active active = true
is_active released = false

-- 1970-01-01, in microseconds from `datetime.min`
abbrev pub unix_epoch : Time
unix_epoch = 62135596800000000

abbrev pub seed_row : Time → OwnerRow
seed_row now = record {
  operation_id = text "";
  owner_id = text "";
  fencing_epoch = 0;
  attempt = 0;
  state = released;
  last_outcome = none;
  lease_expires_at = unix_epoch;
  heartbeat_at = none;
  created_at = now;
  updated_at = now;
}

abbrev pub claim_row : Worker → OwnerRow → Text → Time → OwnerRow
claim_row w row operation_id now = record row {
  operation_id = operation_id;
  owner_id = w.owner_id;
  fencing_epoch = row.fencing_epoch + 1;
  attempt = row.attempt + 1;
  state = active;
  last_outcome = none;
  lease_expires_at = now + seconds w.lease_seconds;
  heartbeat_at = some now;
  updated_at = now;
}

abbrev pub row_lease : Option Text → Text → OwnerRow → OperationLease
row_lease tenant_id resource_id row = record {
  tenant_id = tenant_id;
  resource_id = resource_id;
  operation_id = row.operation_id;
  owner_id = row.owner_id;
  fencing_epoch = row.fencing_epoch;
  attempt = row.attempt;
  lease_expires_at = row.lease_expires_at;
}

unfoldable pub row_matches : OwnerRow → OperationLease → Time → Bool
row_matches row lease now =
    is_active row.state
    && row.operation_id == lease.operation_id
    && row.owner_id == lease.owner_id
    && row.fencing_epoch == lease.fencing_epoch
    && ltb now row.lease_expires_at

-- the `WHERE` of the release, which does not ask for the expiry
unfoldable pub row_releasable : OwnerRow → OperationLease → Bool
row_releasable row lease =
    row.operation_id == lease.operation_id
    && row.owner_id == lease.owner_id
    && row.fencing_epoch == lease.fencing_epoch
    && is_active row.state

-- `row is not None and _row_matches(row, lease, …)`
abbrev pub current_row : Option OwnerRow → OperationLease → Time → Bool
current_row none lease now = false
current_row (some row) lease now = row_matches row lease now

module _ (table : Table Key OwnerRow) where
  open table use {State, select, write}

  -- `INSERT … ON CONFLICT DO NOTHING`
  unfoldable pub seed : State → Key → Time → State
  seed t key now = elim (select t key) [ none ↦ write t key (seed_row now) | some _ ↦ t ]

  -- the part of `acquire` after the row has been read
  unfoldable pub claim_locked :
      Worker
      → State
      → Option Text
      → Text
      → Text
      → Time
      → Option OwnerRow
      → State × Result DeploymentError (Option OperationLease)
  claim_locked w t tenant_id resource_id operation_id now none = (t, raised row_unreadable)
  claim_locked w t tenant_id resource_id operation_id now (some row) =
      let row' = claim_row w row operation_id now in
      if is_active row.state && ltb now row.lease_expires_at then (t, returned none) else (
        write t (scope tenant_id, resource_id) row',
        returned (some (row_lease tenant_id resource_id row')),
      )

  unfoldable pub acquire :
      Worker
      → State
      → Option Text
      → Text
      → Text
      → Time
      → State × Result DeploymentError (Option OperationLease)
  unfolding claim_locked seed
  acquire w t tenant_id resource_id operation_id now =
      let key : Key = (scope tenant_id, resource_id) in
      let seeded = seed t key now in
      claim_locked w seeded tenant_id resource_id operation_id now (select seeded key)

  unfoldable pub heartbeat_locked :
      Worker → State → OperationLease → Time → Option OwnerRow → State × Bool
  heartbeat_locked w t lease now none = (t, false)
  heartbeat_locked w t lease now (some row) =
      if row_matches row lease now
      then (
        write t (key_of lease) (record row {
          lease_expires_at = now + seconds w.lease_seconds;
          heartbeat_at = some now;
          updated_at = now;
        }),
        true,
      )
      else (t, false)

  unfoldable pub heartbeat : Worker → State → OperationLease → Time → State × Bool
  unfolding heartbeat_locked
  heartbeat w t lease now = heartbeat_locked w t lease now (select t (key_of lease))

  unfoldable pub is_current : State → OperationLease → Time → Bool
  is_current t lease now = current_row (select t (key_of lease)) lease now

  unfoldable pub release_locked :
      State → OperationLease → Text → Time → Option OwnerRow → State × Bool
  release_locked t lease outcome now none = (t, false)
  release_locked t lease outcome now (some row) =
      if row_releasable row lease
      then (
        write t (key_of lease) (record row {
          state = released;
          last_outcome = some outcome;
          lease_expires_at = now;
          updated_at = now;
        }),
        true,
      )
      else (t, false)

  unfoldable pub release : State → OperationLease → Text → Time → State × Bool
  unfolding release_locked
  release t lease outcome now = release_locked t lease outcome now (select t (key_of lease))
