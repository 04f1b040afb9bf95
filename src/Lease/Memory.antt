-- ===== src/Lease/Memory.antt =====
-- deployment_ownership.py: the store in memory of one process. Each method runs under the store's
-- lock, so it is one step; `now` is the clock that it reads.
use open_simple_agent.Base.{ℕ, ◌+◌, Option, none, some, ltb, if◌then◌else◌, Bool, true, false, ◌&&◌}
use open_simple_agent.Base.Same.{◌==◌}
use open_simple_agent.Base.Text.{Text}
use open_simple_agent.Base.Dict
use open_simple_agent.Base.Dict.{Dict}
use open_simple_agent.Lease.{OperationLease, Key, key_of, scope}
use open_simple_agent.Base.Same.{nat_eq, option_eq, pair_eq}
use open_simple_agent.Base.Text.{text_eq}
use open_simple_agent.Base.Clock.{Time, seconds}

pub record LeaseEntry : Type 0 where
  pub operation_id : Text
  pub owner_id : Text
  pub fencing_epoch : ℕ
  pub attempt : ℕ
  pub lease_expires_at : Time
  pub active : Bool

pub record Store : Type 0 where
  pub owner_id : Text
  pub lease_seconds : ℕ
  pub entries : Dict Key LeaseEntry

unfoldable pub lease_of : Option Text → Text → LeaseEntry → OperationLease
lease_of tenant_id resource_id entry = record {
  tenant_id = tenant_id;
  resource_id = resource_id;
  operation_id = entry.operation_id;
  owner_id = entry.owner_id;
  fencing_epoch = entry.fencing_epoch;
  attempt = entry.attempt;
  lease_expires_at = entry.lease_expires_at;
}

unfoldable pub matches : Option LeaseEntry → OperationLease → Time → Bool
matches none lease now = false
matches (some entry) lease now =
    entry.active
    && entry.operation_id == lease.operation_id
    && entry.owner_id == lease.owner_id
    && entry.fencing_epoch == lease.fencing_epoch
    && ltb now entry.lease_expires_at

-- `existing is not None and existing.active and existing.lease_expires_at > now`
abbrev pub is_held : Option LeaseEntry → Time → Bool
is_held none now = false
is_held (some entry) now = entry.active && ltb now entry.lease_expires_at

-- `existing.fencing_epoch if existing is not None else 0`
abbrev pub epoch_of : Option LeaseEntry → ℕ
epoch_of none = 0
epoch_of (some entry) = entry.fencing_epoch

abbrev pub attempt_of : Option LeaseEntry → ℕ
attempt_of none = 0
attempt_of (some entry) = entry.attempt

-- the entry that a successful `acquire` writes
abbrev pub claim : Store → Option LeaseEntry → Text → Time → LeaseEntry
claim s existing operation_id now = record {
  operation_id = operation_id;
  owner_id = s.owner_id;
  fencing_epoch = epoch_of existing + 1;
  attempt = attempt_of existing + 1;
  lease_expires_at = now + seconds s.lease_seconds;
  active = true;
}

abbrev pub look : Store → Key → Option LeaseEntry
look s key = Dict.get s.entries key

abbrev pub save : Store → Key → LeaseEntry → Store
save s key entry = record s { entries = Dict.put s.entries key entry }

unfoldable pub acquire : Store → Option Text → Text → Text → Time → Store × Option OperationLease
acquire s tenant_id resource_id operation_id now =
    let key : Key = (scope tenant_id, resource_id) in
    let existing = look s key in
    let entry = claim s existing operation_id now in
    if is_held existing now
    then (s, none)
    else (save s key entry, some (lease_of tenant_id resource_id entry))

-- `entry.lease_expires_at = now + timedelta(seconds=self._lease_seconds)` on the matched entry
abbrev pub renew : Store → Key → Option LeaseEntry → Time → Store
renew s key none now = s
renew s key (some entry) now =
    save s key (record entry { lease_expires_at = now + seconds s.lease_seconds })

unfoldable pub heartbeat : Store → OperationLease → Time → Store × Bool
heartbeat s lease now =
    let existing = look s (key_of lease) in
    if matches existing lease now then (renew s (key_of lease) existing now, true) else (s, false)

unfoldable pub is_current : Store → OperationLease → Time → Bool
is_current s lease now = matches (look s (key_of lease)) lease now

-- `entry.active = False` on the matched entry
abbrev pub deactivate : Store → Key → Option LeaseEntry → Store
deactivate s key none = s
deactivate s key (some entry) = save s key (record entry { active = false })

unfoldable pub release : Store → OperationLease → Time → Store × Bool
release s lease now =
    let existing = look s (key_of lease) in
    if matches existing lease now then (deactivate s (key_of lease) existing, true) else (s, false)
