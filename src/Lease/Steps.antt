-- ===== src/Lease/Steps.antt =====
-- The store of `Lease.Memory` as a step relation: any worker of the process may call any method at
-- any reading of the clock, which may also go back.
use open_simple_agent.Lease.Memory.{acquire, heartbeat, release}
use open_simple_agent.Base.{
  Bool-cases, Option, Option-cases, arith, if◌then◌else◌, inl, inr, some, ℕ, ◌≡◌, ◌≤◌,
}
use open_simple_agent.Base.Dict.{get-put}
use open_simple_agent.Base.Same.{same_refl, nat_eq, option_eq, pair_eq, ◌==◌}
use open_simple_agent.Base.Text.{Text, text_eq}
use open_simple_agent.Lease.{Key, OperationLease, key_of, scope}
use open_simple_agent.Lease.Memory.{
  LeaseEntry, Store, claim, deactivate, epoch_of, is_held, look, renew, save,
}
use open_simple_agent.Base.Clock.{Time}

pub data Step : Store → Store → Type 0 where
  acquires :
      (s : Store) (tenant_id : Option Text) (resource_id operation_id : Text) (now : Time)
      → Step s (acquire s tenant_id resource_id operation_id now).0
  beats : (s : Store) (lease : OperationLease) (now : Time) → Step s (heartbeat s lease now).0
  releases : (s : Store) (lease : OperationLease) (now : Time) → Step s (release s lease now).0

pub data Reach (s : Store) : Store → Type 0 where
  at_start : Reach s s
  after : {t u : Store} → Reach s t → Step t u → Reach s u

-- the fencing epoch of a key, 0 for a key that was never claimed
abbrev pub epoch : Store → Key → ℕ
epoch s key = epoch_of (look s key)

module _ (s : Store) (key : Key) (entry : LeaseEntry) where
  pub look-save :
      (j : Key) → look (save s key entry) j ≡ (if key == j then some entry else look s j)
  look-save j = get-put s.entries key j entry

  pub look-save_self : look (save s key entry) key ≡ some entry
  look-save_self = rw (look-save key) (rw (same_refl key))

  pub epoch-save :
      epoch s key ≤ entry.fencing_epoch → (j : Key) → epoch s j ≤ epoch (save s key entry) j
  epoch-save h j = elim (Bool-cases (key == j)) [
    | inl same ↦ rw (look-save j, same) (rw (← (pair_eq.same_iff key j).0 same) h)
    | inr other ↦ rw (look-save j, other) (omega arith)
  ]

-- An acquisition never lowers an epoch.
epoch-acquire :
    (s : Store) (tenant_id : Option Text) (resource_id operation_id : Text) (now : Time) (j : Key)
    → epoch s j ≤ epoch (acquire s tenant_id resource_id operation_id now).0 j
unfolding acquire
epoch-acquire s tenant_id resource_id operation_id now j =
    let key : Key = (scope tenant_id, resource_id) in
    elim (Bool-cases (is_held (look s key) now)) [
      | inl held ↦ rw held (omega arith)
      | inr free ↦
          rw free (epoch-save s key (claim s (look s key) operation_id now) (omega arith) j)
    ]

epoch-renew :
    (s : Store) (key : Key) (now : Time) (j : Key)
    → epoch s j ≤ epoch (renew s key (look s key) now) j
epoch-renew s key now j = elim (Option-cases (look s key)) [
  | inl missing ↦ rw missing (omega arith)
  | inr (entry, found) ↦ rw found (epoch-save s key _ (rw found (omega arith)) j)
]

epoch-deactivate :
    (s : Store) (key : Key) (j : Key) → epoch s j ≤ epoch (deactivate s key (look s key)) j
epoch-deactivate s key j = elim (Option-cases (look s key)) [
  | inl missing ↦ rw missing (omega arith)
  | inr (entry, found) ↦ rw found (epoch-save s key _ (rw found (omega arith)) j)
]

epoch-Step : {s t : Store} → Step s t → (j : Key) → epoch s j ≤ epoch t j
unfolding heartbeat release
epoch-Step (acquires s tenant_id resource_id operation_id now) j =
    epoch-acquire s tenant_id resource_id operation_id now j
epoch-Step (beats s lease now) j = ground (arith, epoch-renew s (key_of lease) now j)
epoch-Step (releases s lease now) j = ground (arith, epoch-deactivate s (key_of lease) j)

pub epoch-Reach : {s t : Store} → Reach s t → (j : Key) → epoch s j ≤ epoch t j
epoch-Reach at_start j = omega arith
epoch-Reach (after r st) j = omega (arith, epoch-Reach r j, epoch-Step st j)
