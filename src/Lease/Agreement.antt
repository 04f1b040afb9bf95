-- ===== src/Lease/Agreement.antt =====
-- The two stores of deployment_ownership.py implement one contract: seen through the claim on each
-- key, they return the same results and stay in agreement.
use open_simple_agent.Lease.Memory
use open_simple_agent.Lease.Memory.{Store, LeaseEntry, look, save, claim, is_held, lease_of}
use open_simple_agent.Lease.Postgres
use open_simple_agent.Lease.Postgres.{
  OwnerRow, Worker, is_active, seed_row, claim_row, claim_locked, heartbeat_locked, release_locked,
  row_matches, row_releasable,
}
use open_simple_agent.Base.{Option, arith, if◌then◌else◌, ltb, none, some, ℕ, ◌&&◌, ◌≡◌}
use open_simple_agent.Base.Text.{Text}
use open_simple_agent.Lease.{OperationLease}
use open_simple_agent.Base.Same.{nat_eq, option_eq, pair_eq}
use open_simple_agent.Base.Table.{Table}
use open_simple_agent.Base.Text.{text_eq}
use open_simple_agent.Lease.{Key, scope}
use open_simple_agent.Lease.Memory.{attempt_of, epoch_of}
use open_simple_agent.Lease.Steps.{look-save}
use open_simple_agent.Base.{Bool-cases, Option-cases, false, inl, inr, refl, true}
use open_simple_agent.Base.Same.{◌==◌}
use open_simple_agent.Base.{ap, sym, ◌∙◌}
use open_simple_agent.Base.Same.{same_refl}
use open_simple_agent.Lease.{key_of}
use open_simple_agent.Base.{◌≤◌}
use open_simple_agent.Base.Clock.{Time}
use open_simple_agent.Base.Result.{returned}

-- What a key promises: who holds it, under which epoch, and until when. A released key is held
-- until `none`, whatever its expiry column says.
pub record Claim : Type 0 where
  pub operation_id : Text
  pub owner_id : Text
  pub fencing_epoch : ℕ
  pub attempt : ℕ
  pub held_until : Option Time

abbrev pub entry_view : Option LeaseEntry → Option Claim
entry_view none = none
entry_view (some e) = some (record {
  operation_id = e.operation_id;
  owner_id = e.owner_id;
  fencing_epoch = e.fencing_epoch;
  attempt = e.attempt;
  held_until = if e.active then some e.lease_expires_at else none;
})

abbrev pub row_view : Option OwnerRow → Option Claim
row_view none = none
row_view (some r) = some (record {
  operation_id = r.operation_id;
  owner_id = r.owner_id;
  fencing_epoch = r.fencing_epoch;
  attempt = r.attempt;
  held_until = if is_active r.state then some r.lease_expires_at else none;
})

-- the tests of the two stores are the same on the same view
held_agree :
    (e : LeaseEntry) (r : OwnerRow) (now : Time)
    → entry_view (some e) ≡ row_view (some r)
    → is_held (some e) now ≡ (is_active r.state && ltb now r.lease_expires_at)
held_agree e r now h = ground arith

matches_agree :
    (e : LeaseEntry) (r : OwnerRow) (lease : OperationLease) (now : Time)
    → entry_view (some e) ≡ row_view (some r)
    → Memory.matches (some e) lease now ≡ row_matches r lease now
unfolding Memory.matches row_matches
matches_agree e r lease now h = ground arith

view_none : (o : Option LeaseEntry) → entry_view o ≡ none → o ≡ none
view_none none h = refl
view_none (some e) h = cc

view_some :
    (o : Option LeaseEntry) (r : OwnerRow)
    → entry_view o ≡ row_view (some r)
    → (e : LeaseEntry) × (o ≡ some e) × (entry_view (some e) ≡ row_view (some r))
view_some none r h = cc
view_some (some e) r h = (e, refl, h)

module _ (table : Table Key OwnerRow) where
  open table use {State, select, write, select-write}

  -- The two stores make the same promise on every key.
  abbrev pub Agrees : Store → State → Type 0
  Agrees s t = (key : Key) → entry_view (look s key) ≡ row_view (select t key)

  -- agreement on every key but one
  abbrev AgreesOff : Key → Store → State → Type 0
  AgreesOff key s t = (j : Key) → (key == j) ≡ false → entry_view (look s j) ≡ row_view (select t j)

  Agrees-save :
      (s : Store) (t : State) (key : Key) (e : LeaseEntry) (r : OwnerRow)
      → AgreesOff key s t
      → entry_view (some e) ≡ row_view (some r)
      → Agrees (save s key e) (write t key r)
  Agrees-save s t key e r h same j =
      rw (look-save s key e j, select-write t key j r)
        (elim (Bool-cases (key == j)) [
          | inl at_key ↦ rw at_key same
          | inr elsewhere ↦ rw elsewhere (h j elsewhere)
        ])

  -- the outcome of `acquire` after the row has been locked
  locked_agree :
      (s : Store) (w : Worker) (t : State) (tenant_id : Option Text)
      (resource_id operation_id : Text) (now : Time) (r : OwnerRow)
      → s.owner_id ≡ w.owner_id
      → s.lease_seconds ≡ w.lease_seconds
      → epoch_of (look s (scope tenant_id, resource_id)) ≡ r.fencing_epoch
      → attempt_of (look s (scope tenant_id, resource_id)) ≡ r.attempt
      → is_held (look s (scope tenant_id, resource_id)) now
        ≡ (is_active r.state && ltb now r.lease_expires_at)
      → AgreesOff (scope tenant_id, resource_id) s t
      → (is_active r.state ≡ true → Agrees s t)
      → ((claim_locked table w t tenant_id resource_id operation_id now (some r)).1
          ≡ returned (Memory.acquire s tenant_id resource_id operation_id now).1)
        × Agrees
            (Memory.acquire s tenant_id resource_id operation_id now).0
            (claim_locked table w t tenant_id resource_id operation_id now (some r)).0
  unfolding claim_locked Memory.acquire lease_of
  locked_agree s w t tenant_id resource_id operation_id now r ow ls ep at held off agree =
      let key : Key = (scope tenant_id, resource_id) in
      elim (Bool-cases (is_active r.state && ltb now r.lease_expires_at)) [
        | inl busy ↦ rw (held, busy) (refl, agree (ground arith))
        | inr free ↦
            rw (held, free)
              (
                ground arith,
                Agrees-save s t key (claim s (look s key) operation_id now)
                    (claim_row w r operation_id now) off (ground arith),
              )
      ]

  select-write_self : (t : State) (key : Key) (r : OwnerRow) → select (write t key r) key ≡ some r
  select-write_self t key r = rw (select-write t key key r) (rw (same_refl key))

  seed_missing :
      (t : State) (key : Key) (now : Time)
      → select t key ≡ none
      → Postgres.seed table t key now ≡ write t key (seed_row now)
  unfolding Postgres.seed
  seed_missing t key now missing = rw (missing, Postgres.seed)

  seed_found :
      (t : State) (key : Key) (now : Time) {r : OwnerRow}
      → select t key ≡ some r
      → Postgres.seed table t key now ≡ t
  unfolding Postgres.seed
  seed_found t key now found = rw (found, Postgres.seed)

  -- `acquire` of the two stores: with the same worker settings and the same clock, stores that
  -- agree return the same lease, or both `none`, and agree afterwards. In particular the row that
  -- PostgreSQL's `acquire` seeds is always found again.
  pub acquire_agree :
      (s : Store) (w : Worker) (t : State) (tenant_id : Option Text)
      (resource_id operation_id : Text) (now : Time)
      → s.owner_id ≡ w.owner_id
      → s.lease_seconds ≡ w.lease_seconds
      → Agrees s t
      → ((Postgres.acquire table w t tenant_id resource_id operation_id now).1
          ≡ returned (Memory.acquire s tenant_id resource_id operation_id now).1)
        × Agrees
            (Memory.acquire s tenant_id resource_id operation_id now).0
            (Postgres.acquire table w t tenant_id resource_id operation_id now).0
  unfolding Postgres.acquire
  acquire_agree s w t tenant_id resource_id operation_id now ow ls h =
      let key : Key = (scope tenant_id, resource_id) in
      let start = seed_row now in
      elim (Option-cases (select t key)) [
        | inl missing ↦
            let nothing = view_none (look s key) (h key ∙ ap row_view missing) in
            rw (seed_missing t key now missing, select-write_self t key start)
              (locked_agree s w (write t key start) tenant_id resource_id operation_id now start ow
                ls (rw nothing refl) (rw nothing refl) (rw nothing refl)
                (λ j elsewhere. rw (select-write t key j start, elsewhere) (h j)) (λ never. cc))
        | inr (r, found) ↦
            let (e, present, same) = view_some (look s key) r (h key ∙ ap row_view found) in
            rw (seed_found t key now found, found)
              (locked_agree s w t tenant_id resource_id operation_id now r ow ls
                (rw present (ground arith)) (rw present (ground arith))
                (rw present (held_agree e r now same)) (λ j _. h j) (λ _. h))
      ]

  heartbeat_row :
      (s : Store) (w : Worker) (t : State) (lease : OperationLease) (now : Time) (e : LeaseEntry)
      (r : OwnerRow)
      → s.lease_seconds ≡ w.lease_seconds
      → Agrees s t
      → look s (key_of lease) ≡ some e
      → entry_view (some e) ≡ row_view (some r)
      → ((heartbeat_locked table w t lease now (some r)).1 ≡ (Memory.heartbeat s lease now).1)
        × Agrees (Memory.heartbeat s lease now).0 (heartbeat_locked table w t lease now (some r)).0
  unfolding heartbeat_locked Memory.heartbeat
  heartbeat_row s w t lease now e r ls h present same =
      rw (present, matches_agree e r lease now same)
        (elim (Bool-cases (row_matches r lease now)) [
          | inl accepted ↦
              rw accepted
                (refl, Agrees-save s t (key_of lease) _ _ (λ j _. h j) (ground (arith, same)))
          | inr refused ↦ rw refused (refl, h)
        ])

  -- `heartbeat` of the two stores: the same answer, and agreement afterwards.
  pub heartbeat_agree :
      (s : Store) (w : Worker) (t : State) (lease : OperationLease) (now : Time)
      → s.lease_seconds ≡ w.lease_seconds
      → Agrees s t
      → ((Postgres.heartbeat table w t lease now).1 ≡ (Memory.heartbeat s lease now).1)
        × Agrees (Memory.heartbeat s lease now).0 (Postgres.heartbeat table w t lease now).0
  unfolding Postgres.heartbeat heartbeat_locked Memory.heartbeat Memory.matches
  heartbeat_agree s w t lease now ls h =
      let key : Key = key_of lease in
      elim (Option-cases (select t key)) [
        | inl missing ↦
            let nothing = view_none (look s key) (h key ∙ ap row_view missing) in
            rw (missing, nothing) (refl, h)
        | inr (r, found) ↦
            let (e, present, same) = view_some (look s key) r (h key ∙ ap row_view found) in
            rw found (heartbeat_row s w t lease now e r ls h present same)
      ]

  -- `is_current` of the two stores gives the same answer.
  pub is_current_agree :
      (s : Store) (t : State) (lease : OperationLease) (now : Time)
      → Agrees s t
      → Postgres.is_current table t lease now ≡ Memory.is_current s lease now
  unfolding Postgres.is_current Memory.is_current Memory.matches
  is_current_agree s t lease now h =
      let key : Key = key_of lease in
      elim (Option-cases (select t key)) [
        | inl missing ↦
            let nothing = view_none (look s key) (h key ∙ ap row_view missing) in
            rw (missing, nothing) refl
        | inr (r, found) ↦
            let (e, present, same) = view_some (look s key) r (h key ∙ ap row_view found) in
            rw (found, present) (sym (matches_agree e r lease now same))
      ]

  -- a row that matches is one that may be released
  current_releasable :
      (r : OwnerRow) (lease : OperationLease) (now : Time)
      → row_matches r lease now ≡ true
      → row_releasable r lease ≡ true
  unfolding row_matches row_releasable
  current_releasable r lease now h = ground arith

  -- `release` of a lease that is current: both stores accept it, and agree afterwards.
  pub release_agree :
      (s : Store) (t : State) (lease : OperationLease) (outcome : Text) (now : Time)
      → Agrees s t
      → Memory.is_current s lease now ≡ true
      → ((Memory.release s lease now).1 ≡ true)
        × ((Postgres.release table t lease outcome now).1 ≡ true)
        × Agrees (Memory.release s lease now).0 (Postgres.release table t lease outcome now).0
  unfolding Postgres.release release_locked Memory.release Memory.is_current
  release_agree s t lease outcome now h current =
      let key : Key = key_of lease in
      elim (Option-cases (select t key)) [
        | inl missing ↦
            let nothing = view_none (look s key) (h key ∙ ap row_view missing) in
            absurd (unfold Memory.matches in cc (current, nothing))
        | inr (r, found) ↦
            let (e, present, same) = view_some (look s key) r (h key ∙ ap row_view found) in
            let accepted = rw present at current in
            let matched = sym (matches_agree e r lease now same) ∙ accepted in
            rw (found, present, accepted, current_releasable r lease now matched)
              (refl, refl, Agrees-save s t key _ _ (λ j _. h j) (ground (arith, same)))
      ]

  -- `release` of a lease that has expired and that nobody has taken over: the store in memory
  -- refuses and changes nothing, PostgreSQL's store accepts.
  pub release_expired :
      (s : Store) (t : State) (lease : OperationLease) (outcome : Text) (now : Time) {r : OwnerRow}
      → Agrees s t
      → select t (key_of lease) ≡ some r
      → row_releasable r lease ≡ true
      → r.lease_expires_at ≤ now
      → (Memory.release s lease now ≡ (s, false))
        × ((Postgres.release table t lease outcome now).1 ≡ true)
  unfolding Postgres.release release_locked Memory.release
  release_expired s t lease outcome now {r} h found mine late =
      let key : Key = key_of lease in
      let (e, present, same) = view_some (look s key) r (h key ∙ ap row_view found) in
      rw (found, present, mine, matches_agree e r lease now same)
        (unfold row_matches in (ground arith, refl))
