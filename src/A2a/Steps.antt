-- ===== src/A2a/Steps.antt =====
-- The ownership table as a step relation: any worker may call any method at any reading of its
-- clock.
use open_simple_agent.A2a.Ownership.{acquire, bind_session, heartbeat, release, request_cancel}
use open_simple_agent.A2a.Ownership.{Worker, acquire_row, update_where}
use open_simple_agent.A2a.{released, A2aError, TaskOwnership, TaskRow, TaskState}
use open_simple_agent.A2a.Ownership.{lease_active}
use open_simple_agent.Base.{Bool, Option, arith, false, none, refl, some, true, ◌≡◌}
use open_simple_agent.Base.Clock.{Time}
use open_simple_agent.Base.Result.{Result, returned, ◌>>=◌}
use open_simple_agent.Base.Same.{nat_eq, option_eq, pair_eq}
use open_simple_agent.Base.Table.{Table}
use open_simple_agent.Base.Text.{Text, text_eq}
use open_simple_agent.A2a.{is_terminal}
use open_simple_agent.Base.{◌≤◌, ◌⊎◌}
use open_simple_agent.Base.Same.{◌==◌}
use open_simple_agent.A2a.{canceled, completed, failed, running}
use open_simple_agent.A2a.Ownership.{first_row}
use open_simple_agent.Base.{Bool-cases, Option-cases, inl, inr}
use open_simple_agent.Base.Text.{text_same_iff}
use open_simple_agent.A2a.Ownership.{reclaimed_row, snapshot}
use open_simple_agent.Base.{ap, ◌+◌}
use open_simple_agent.A2a.Ownership.{bound_row, canceled_row, renewed_row}
use open_simple_agent.A2a.Rows.{
  Change, row_owned-Change, row_releasable-Change, change_running, checked, fence_of, is_closed,
  is_sound,
}

module _ (table : Table Text TaskRow) where
  open table use {State, select, write, select-write}

  pub data Step : State → State → Type 0 where
    acquires :
        (t u : State) (w : Worker) (task_id context_id scope_key : Text) (now : Time)
        (r : Option TaskOwnership)
        → acquire table w t task_id context_id scope_key now ≡ returned (u, r)
        → Step t u
    beats :
        (t u : State) (w : Worker) (o : TaskOwnership) (now : Time) (r : Bool)
        → heartbeat table w t o now ≡ returned (u, r)
        → Step t u
    cancels :
        (t u : State) (task_id scope_key : Text) (r : Bool)
        → request_cancel table t task_id scope_key ≡ returned (u, r)
        → Step t u
    binds :
        (t u : State) (w : Worker) (o : TaskOwnership) (session_id : Text) (r : Bool)
        → bind_session table w t o session_id ≡ returned (u, r)
        → Step t u
    releases :
        (t u : State) (w : Worker) (o : TaskOwnership) (state : TaskState) (r : Bool)
        → release table w t o state ≡ returned (u, r)
        → Step t u

  pub data Reach (t : State) : State → Type 0 where
    at_start : Reach t t
    after : {u v : State} → Reach t u → Step u v → Reach t v

  abbrev Changes : State → State → Text → Type 0
  Changes t u j =
      (select u j ≡ select t j)
      ⊎ ((new : TaskRow) × (select u j ≡ some new) × Change (select t j) new)

  pub write-Change :
      (t : State) (task_id : Text) (new : TaskRow)
      → Change (select t task_id) new
      → (j : Text) → Changes t (write t task_id new) j
  write-Change t task_id new h j = elim (Bool-cases (task_id == j)) [
    | inl same ↦
        let here : task_id ≡ j = (text_same_iff task_id j).0 same in
        inr (new, rw (select-write t task_id j new, same) refl, rw (← here) h)
    | inr other ↦ inl (rw (select-write t task_id j new, other) refl)
  ]

  -- A write of one row, at a test of the row that is there.
  update-Change :
      (t : State) (task_id : Text) (test : TaskRow → Bool) (change : TaskRow → TaskRow)
      → ((row : TaskRow) → test row ≡ true → Change (some row) (change row))
      → (j : Text) → Changes t (update_where table t task_id test change (select t task_id)).0 j
  unfolding update_where
  update-Change t task_id test change h j = elim (Option-cases (select t task_id)) [
    | inl missing ↦ rw missing (inl refl)
    | inr (row, found) ↦ elim (Bool-cases (test row)) [
      | inl passes ↦
          rw (found, passes) (write-Change t task_id (change row) (rw found (h row passes)) j)
      | inr fails ↦ rw (found, fails) (inl refl)
    ]
  ]

  module _ (w : Worker) (t : State) (task_id context_id scope_key : Text) (now : Time) where
    -- An acquisition is refused, or it writes a row with the next fence.
    pub acquire_cases :
        (found : Option TaskRow)
        → (acquire_row table w t task_id context_id scope_key now found ≡ (t, none))
          ⊎ ((new : TaskRow) × (reclaimed : Bool) × (acquire_row table w t task_id context_id
                  scope_key now found
                ≡ (write t task_id new, some (snapshot task_id new reclaimed)))
              × (new.fence ≡ fence_of found + 1)
              × (new.scope_key ≡ scope_key)
              × Change found new)
    unfolding acquire_row
    acquire_cases none = inr (
      first_row w context_id scope_key now,
      false,
      refl,
      refl,
      refl,
      (omega arith, λ sound. (refl, refl)),
    )
    acquire_cases (some row) = elim (Bool-cases (row.scope_key == scope_key)) [
      | inr foreign ↦ inl (rw foreign refl)
      | inl ours ↦ elim (Bool-cases (lease_active row now)) [
        | inl in_force ↦ inl (rw (ours, in_force) refl)
        | inr lapsed ↦ elim (Bool-cases (is_terminal row.state)) [
          | inl closed ↦ inl (rw (ours, lapsed, closed) refl)
          | inr open_still ↦ inr (
            reclaimed_row w row context_id scope_key now,
            true,
            rw (ours, lapsed, open_still) refl,
            refl,
            refl,
            (omega arith, λ sound. (open_still, refl)),
          )
        ]
      ]
    ]

    acquire-Change :
        (j : Text)
        → Changes t (acquire_row table w t task_id context_id scope_key now (select t task_id)).0 j
    acquire-Change j = elim (acquire_cases (select t task_id)) [
      | inl refused ↦ rw refused (inl refl)
      | inr (new, reclaimed, e, up, same, change) ↦ rw e (write-Change t task_id new change j)
    ]

  update_step :
      (check : Result A2aError Unit) (t : State) (task_id : Text) (test : TaskRow → Bool)
      (change : TaskRow → TaskRow) {u : State} {r : Bool}
      → (check >>= (λ _. returned (update_where table t task_id test change (select t task_id))))
        ≡ returned (u, r)
      → ((row : TaskRow) → test row ≡ true → Change (some row) (change row))
      → (j : Text) → Changes t u j
  update_step check t task_id test change h ok j =
      rw (← ap (λ (p : State × Bool). p.0) (checked check _ h))
        (update-Change t task_id test change ok j)

  release_step :
      (t : State) (w : Worker) (o : TaskOwnership) (state : TaskState) {u : State} {r : Bool}
      → release table w t o state ≡ returned (u, r)
      → (j : Text) → Changes t u j
  unfolding release
  release_step t w o running h j = cc
  release_step t w o released h j =
      update_step _ t o.task_id _ _ h (row_releasable-Change w o released) j
  release_step t w o completed h j =
      update_step _ t o.task_id _ _ h (row_releasable-Change w o completed) j
  release_step t w o failed h j =
      update_step _ t o.task_id _ _ h (row_releasable-Change w o failed) j
  release_step t w o canceled h j =
      update_step _ t o.task_id _ _ h (row_releasable-Change w o canceled) j

  Step-Changes : {t u : State} → Step t u → (j : Text) → Changes t u j
  unfolding acquire heartbeat request_cancel bind_session release
  Step-Changes (acquires t u w task_id context_id scope_key now r h) j =
      rw (← ap (λ (p : State × Option TaskOwnership). p.0) (checked _ _ h))
        (acquire-Change w t task_id context_id scope_key now j)
  Step-Changes (beats t u w o now r h) j =
      update_step _ t o.task_id _ _ h
        (λ row owned. row_owned-Change w o row (renewed_row w now row) owned (omega arith) refl) j
  Step-Changes (cancels t u task_id scope_key r h) j =
      update_step _ t task_id _ _ h
        (λ row owned.
          (omega arith, λ sound. change_running row (canceled_row row) (ground arith) refl))
        j
  Step-Changes (binds t u w o session_id r h) j =
      update_step _ t o.task_id _ _ h
        (λ row owned. row_owned-Change w o row (bound_row session_id row) owned (omega arith) refl)
        j
  Step-Changes (releases t u w o state r h) j = release_step t w o state h j

  fence-Step : {t u : State} → Step t u → (j : Text) → fence_of (select t j) ≤ fence_of (select u j)
  fence-Step st j = elim (Step-Changes st j) [
    | inl same ↦ rw same (omega arith)
    | inr (new, e, change) ↦ rw e change.0
  ]

  pub fence-Reach :
      {t u : State} → Reach t u → (j : Text) → fence_of (select t j) ≤ fence_of (select u j)
  fence-Reach at_start j = omega arith
  fence-Reach (after r st) j = omega (arith, fence-Reach r j, fence-Step st j)

  pub sound-Step :
      {t u : State}
      → Step t u
      → (j : Text) → is_sound (select t j) ≡ true
      → (is_sound (select u j) ≡ true) × (is_closed (select t j) ≡ true → select u j ≡ select t j)
  sound-Step st j sound = elim (Step-Changes st j) [
    | inl same ↦ (rw same sound, λ closed. same)
    | inr (new, e, change) ↦
        (rw e (change.1 sound).1, λ closed. absurd (cc (closed, (change.1 sound).0)))
  ]

  pub sound-Reach :
      {t u : State}
      → Reach t u
      → (j : Text) → is_sound (select t j) ≡ true
      → is_sound (select u j) ≡ true
  sound-Reach at_start j sound = sound
  sound-Reach (after r st) j sound = (sound-Step st j (sound-Reach r j sound)).0
