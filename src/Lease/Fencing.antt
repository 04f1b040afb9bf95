-- ===== src/Lease/Fencing.antt =====
-- What a lease of `Lease.Memory` guarantees: one holder at a time, and no effect once another
-- worker has taken over.
use open_simple_agent.Lease.Memory.{acquire, heartbeat, is_current, release, matches}
use open_simple_agent.Base.{
  Bool-cases, Option, Option-cases, arith, false, inl, inr, none, refl, some, true, ◌+◌, ◌<◌, ◌≡◌,
}
use open_simple_agent.Base.Same.{same_refl}
use open_simple_agent.Base.Text.{Text}
use open_simple_agent.Lease.{OperationLease, key_of, scope}
use open_simple_agent.Lease.Memory.{LeaseEntry, Store, epoch_of, is_held, lease_of, look}
use open_simple_agent.Lease.Steps.{epoch}
use open_simple_agent.Base.{ap}
use open_simple_agent.Base.Same.{nat_eq, option_eq, pair_eq}
use open_simple_agent.Base.Text.{text_eq}
use open_simple_agent.Lease.{Key}
use open_simple_agent.Lease.Memory.{claim, save}
use open_simple_agent.Base.Clock.{Time, seconds}
use open_simple_agent.Lease.Steps.{Reach, epoch-Reach, look-save_self}
use open_simple_agent.Base.Text.{text_same_iff}

-- A lease matches only an entry of its own epoch.
matches-epoch :
    (entry : Option LeaseEntry) (lease : OperationLease) (now : Time)
    → matches entry lease now ≡ true
    → epoch_of entry ≡ lease.fencing_epoch
unfolding matches
matches-epoch none lease now h = cc
matches-epoch (some entry) lease now h = ground arith

matches-stale :
    (entry : Option LeaseEntry) (lease : OperationLease) (now : Time)
    → lease.fencing_epoch < epoch_of entry
    → matches entry lease now ≡ false
matches-stale entry lease now h = elim (Bool-cases (matches entry lease now)) [
  | inl yes_it_does ↦ absurd (omega (arith, matches-epoch entry lease now yes_it_does))
  | inr no_match ↦ no_match
]

matches-fields :
    (entry : Option LeaseEntry) (lease : OperationLease) (now : Time)
    → matches entry lease now ≡ true
    → (e : LeaseEntry) × (entry ≡ some e)
      × (e.operation_id ≡ lease.operation_id)
      × (e.owner_id ≡ lease.owner_id)
      × (e.fencing_epoch ≡ lease.fencing_epoch)
unfolding matches
matches-fields none lease now h = cc
matches-fields (some e) lease now h = (
  e,
  refl,
  ground (arith, text_same_iff e.operation_id lease.operation_id),
  ground (arith, text_same_iff e.owner_id lease.owner_id),
  ground arith,
)

matches-is_held :
    (entry : Option LeaseEntry) (lease : OperationLease) (now : Time)
    → matches entry lease now ≡ true
    → is_held entry now ≡ true
unfolding matches
matches-is_held none lease now h = cc
matches-is_held (some entry) lease now h = ground arith

-- While a lease is current, `acquire` on its tenant and resource returns `none` and changes nothing.
pub acquire_busy :
    (s : Store) (lease : OperationLease) (operation_id : Text) (now : Time)
    → is_current s lease now ≡ true
    → acquire s lease.tenant_id lease.resource_id operation_id now ≡ (s, none)
unfolding acquire is_current
acquire_busy s lease operation_id now h = rw (matches-is_held (look s (key_of lease)) lease now h)

-- `acquire` returns `none` only if some lease on that tenant and resource is current.
pub acquire-none_held :
    (s : Store) (tenant_id : Option Text) (resource_id operation_id : Text) (now : Time)
    → (acquire s tenant_id resource_id operation_id now).1 ≡ none
    → (lease : OperationLease) × (key_of lease ≡ (scope tenant_id, resource_id))
      × (is_current s lease now ≡ true)
unfolding acquire is_current matches lease_of scope
acquire-none_held s tenant_id resource_id operation_id now h =
    elim (Option-cases (look s (scope tenant_id, resource_id))) [
      | inl missing ↦ ground arith
      | inr (entry, found) ↦ (
        lease_of tenant_id resource_id entry,
        refl,
        rw found (ground (arith, same_refl entry.operation_id, same_refl entry.owner_id)),
      )
    ]

module _ (s : Store) (tenant_id : Option Text) (resource_id operation_id : Text) (now : Time) where
  abbrev target : Key
  target = (scope tenant_id, resource_id)

  abbrev entry : LeaseEntry
  entry = claim s (look s target) operation_id now

  acquire_free :
      is_held (look s target) now ≡ false
      → acquire s tenant_id resource_id operation_id now
        ≡ (save s target entry, some (lease_of tenant_id resource_id entry))
  unfolding acquire
  acquire_free free = rw free

  -- A successful `acquire` saves the new entry, and returns its lease.
  pub acquire_inv :
      {lease : OperationLease}
      → (acquire s tenant_id resource_id operation_id now).1 ≡ some lease
      → ((acquire s tenant_id resource_id operation_id now).0 ≡ save s target entry)
        × (lease ≡ lease_of tenant_id resource_id entry)
  unfolding acquire
  acquire_inv h = elim (Bool-cases (is_held (look s target) now)) [
    | inl held ↦ ground arith
    | inr free ↦ (rw free, ground arith)
  ]

  -- The lease that `acquire` returns is for the given tenant and resource, is current until it
  -- expires, and has the epoch after that of the entry before it.
  pub acquire_current :
      (later : Time) {lease : OperationLease}
      → (acquire s tenant_id resource_id operation_id now).1 ≡ some lease
      → later < now + seconds s.lease_seconds
      → (is_current (acquire s tenant_id resource_id operation_id now).0 lease later ≡ true)
        × (key_of lease ≡ target)
        × (lease.fencing_epoch ≡ epoch s target + 1)
        × (lease.lease_expires_at ≡ now + seconds s.lease_seconds)
  unfolding is_current matches lease_of
  acquire_current later h before =
      let (saved, issued) = acquire_inv h in
      rw (saved, issued, look-save_self s target entry)
        (ground (arith, same_refl operation_id, same_refl s.owner_id))

  pub epoch-acquired :
      {lease : OperationLease}
      → (acquire s tenant_id resource_id operation_id now).1 ≡ some lease
      → (lease.fencing_epoch ≡ epoch s target + 1)
        × (epoch (acquire s tenant_id resource_id operation_id now).0 target ≡ lease.fencing_epoch)
        × (key_of lease ≡ target)
  unfolding lease_of
  epoch-acquired h =
      let (saved, issued) = acquire_inv h in
      rw (saved, issued, look-save_self s target entry) (refl, refl, refl)

-- A lease below the epoch of its key is not current, and neither its heartbeat nor its release
-- changes anything.
pub stale_lease :
    (s : Store) (lease : OperationLease) (now : Time)
    → lease.fencing_epoch < epoch s (key_of lease)
    → (is_current s lease now ≡ false)
      × (heartbeat s lease now ≡ (s, false))
      × (release s lease now ≡ (s, false))
unfolding is_current heartbeat release
stale_lease s lease now h =
    let no_match = matches-stale (look s (key_of lease)) lease now h in
    (no_match, rw no_match, rw no_match)

-- Once another acquisition has been granted for the same tenant and resource, whatever happened
-- before and happens after, the earlier lease has a lower epoch, is never current again, and its
-- heartbeats and releases are refused with no effect.
pub superseded_lease :
    (s : Store) (tenant_id : Option Text) (resource_id operation_id : Text) (now : Time)
    {first : OperationLease}
    → (acquire s tenant_id resource_id operation_id now).1 ≡ some first
    → {t : Store} → Reach (acquire s tenant_id resource_id operation_id now).0 t
    → (operation_id' : Text) (now' : Time) {second : OperationLease}
    → (acquire t tenant_id resource_id operation_id' now').1 ≡ some second
    → {u : Store} → Reach (acquire t tenant_id resource_id operation_id' now').0 u
    → (later : Time)
    → (first.fencing_epoch < second.fencing_epoch)
      × (is_current u first later ≡ false)
      × (heartbeat u first later ≡ (u, false))
      × (release u first later ≡ (u, false))
superseded_lease s tenant_id resource_id operation_id now {first} h {t} r operation_id' now'
      {second} h' {u} r' later =
    let key : Key = (scope tenant_id, resource_id) in
    let a = epoch-acquired s tenant_id resource_id operation_id now h in
    let b = epoch-acquired t tenant_id resource_id operation_id' now' h' in
    let below : first.fencing_epoch < second.fencing_epoch =
      omega (arith, a.1, b.0, epoch-Reach r key) in
    let stale : first.fencing_epoch < epoch u (key_of first) =
      rw a.2 (omega (arith, b.1, epoch-Reach r' key, below)) in
    let (c, d, e) = stale_lease u first later stale in (below, c, d, e)

-- Two leases on one tenant and resource that are current at once have the same operation, owner
-- and epoch.
pub current_unique :
    (s : Store) (a b : OperationLease) (now now' : Time)
    → key_of a ≡ key_of b
    → is_current s a now ≡ true
    → is_current s b now' ≡ true
    → (a.operation_id ≡ b.operation_id)
      × (a.owner_id ≡ b.owner_id)
      × (a.fencing_epoch ≡ b.fencing_epoch)
unfolding is_current
current_unique s a b now now' same ha hb =
    let (e, found, eo, ew, ef) = matches-fields (look s (key_of a)) a now ha in
    let (e', found', eo', ew', ef') = matches-fields (look s (key_of b)) b now' hb in
    let one : e ≡ e' = cc (found, found', ap (λ (k : Key). look s k) same) in
    (cc (one, eo, eo'), cc (one, ew, ew'), cc (one, ef, ef'))
