-- ===== src/A2a/Ownership.antt =====
-- a2a_ownership.py: `A2aTaskOwnershipStore`. The table is a parameter; a method is one transaction
-- on one row, so it is one step. That two workers insert one task's first row at once, which the
-- primary key refuses, is not modelled. `now` is the worker's clock.
use open_simple_agent.A2a.{
  A2aError, TaskOwnership, TaskRow, TaskState, invalid_state, is_running, is_terminal,
  ownership_texts, released, running, validate_all, validate_ownership,
}
use open_simple_agent.Base.{
  Bool, Option, false, if◌then◌else◌, ltb, none, not, some, true, ℕ, ◌&&◌, ◌+◌, ◌||◌,
}
use open_simple_agent.Base.Clock.{Time, seconds}
use open_simple_agent.Base.Result.{Result, returned, ◌>>=◌}
use open_simple_agent.Base.Same.{nat_eq, option_eq, pair_eq, ◌==◌}
use open_simple_agent.Base.Table.{Table}
use open_simple_agent.Base.Text.{Text, text_eq}
use open_simple_agent.Base.{◌++◌}
use open_simple_agent.Base.Result.{raised}
use open_simple_agent.Base.{[], ◌∷◌}

pub record Worker : Type 0 where
  pub owner_id : Text
  pub lease_seconds : ℕ

-- `existing_lease is not None and existing_lease > now`
abbrev pub is_after : Option Time → Time → Bool
is_after none now = false
is_after (some lease) now = ltb now lease

-- the lease is active: nobody else may take the task
abbrev pub lease_active : TaskRow → Time → Bool
lease_active row now = is_running row.state && is_after row.lease_until now

-- the first row of a task
abbrev pub first_row : Worker → Text → Text → Time → TaskRow
first_row w context_id scope_key now = record {
  context_id = context_id;
  scope_key = scope_key;
  owner_id = some w.owner_id;
  fence = 1;
  lease_until = some (now + seconds w.lease_seconds);
  session_id = none;
  cancel_requested = false;
  state = running;
}

-- the row that a later `acquire` leaves
abbrev pub reclaimed_row : Worker → TaskRow → Text → Text → Time → TaskRow
reclaimed_row w row context_id scope_key now = record row {
  context_id = context_id;
  scope_key = scope_key;
  owner_id = some w.owner_id;
  fence = row.fence + 1;
  lease_until = some (now + seconds w.lease_seconds);
  state = running;
}

abbrev pub snapshot : Text → TaskRow → Bool → TaskOwnership
snapshot task_id row reclaimed = record {
  task_id = task_id;
  context_id = row.context_id;
  scope_key = row.scope_key;
  owner_id = row.owner_id;
  fence = row.fence;
  lease_until = row.lease_until;
  session_id = row.session_id;
  cancel_requested = row.cancel_requested;
  state = row.state;
  reclaimed = reclaimed;
}

-- the `WHERE` of heartbeat and of the binding of a session
unfoldable pub row_owned : Worker → TaskOwnership → TaskRow → Bool
row_owned w o row =
    row.scope_key == o.scope_key
    && row.owner_id == some w.owner_id
    && row.fence == o.fence
    && is_running row.state

-- the `WHERE` of release, which does not ask for the state
unfoldable pub row_releasable : Worker → TaskOwnership → TaskRow → Bool
row_releasable w o row =
    row.scope_key == o.scope_key && row.owner_id == some w.owner_id && row.fence == o.fence

-- the check of `run_if_owned`
unfoldable pub is_current_owner : Worker → TaskOwnership → Time → Option TaskRow → Bool
is_current_owner w o now none = false
is_current_owner w o now (some row) =
    row.scope_key == o.scope_key
    && row.owner_id == some w.owner_id
    && row.fence == o.fence
    && is_running row.state
    && is_after row.lease_until now

-- `cancel_requested` after a release
abbrev pub cancel_after : TaskState → TaskOwnership → Bool
cancel_after released o = false
cancel_after _ o = o.cancel_requested

abbrev pub renewed_row : Worker → Time → TaskRow → TaskRow
renewed_row w now row = record row { lease_until = some (now + seconds w.lease_seconds) }

abbrev pub canceled_row : TaskRow → TaskRow
canceled_row row = record row { cancel_requested = true }

abbrev pub bound_row : Text → TaskRow → TaskRow
bound_row session_id row = record row { session_id = some session_id }

-- the row that a release leaves
abbrev pub released_row : TaskOwnership → TaskState → TaskRow → TaskRow
released_row o state row = record row {
  owner_id = none;
  lease_until = none;
  cancel_requested = cancel_after state o;
  state = state;
}

module _ (table : Table Text TaskRow) where
  open table use {State, select, write}

  -- `get`: the row of the task, if it is of this scope
  abbrev pub in_scope : Text → Option TaskRow → Option TaskRow
  in_scope scope_key none = none
  in_scope scope_key (some row) = if row.scope_key == scope_key then some row else none

  unfoldable pub get : State → Text → Text → Result A2aError (Option TaskRow)
  get t task_id scope_key = do
    _ ← validate_all (task_id ∷ scope_key ∷ [])
    returned (in_scope scope_key (select t task_id))

  unfoldable pub acquire_row :
      Worker → State → Text → Text → Text → Time → Option TaskRow → State × Option TaskOwnership
  acquire_row w t task_id context_id scope_key now none =
      let row = first_row w context_id scope_key now in
      (write t task_id row, some (snapshot task_id row false))
  acquire_row w t task_id context_id scope_key now (some row) =
      let row' = reclaimed_row w row context_id scope_key now in
      if not (row.scope_key == scope_key)
      then (t, none)
      else if lease_active row now
      then (t, none)
      else if is_terminal row.state
      then (t, none)
      else (write t task_id row', some (snapshot task_id row' true))

  -- An update of one row, if it passes the `WHERE`; the result is `rowcount == 1`.
  unfoldable pub update_where :
      State → Text → (TaskRow → Bool) → (TaskRow → TaskRow) → Option TaskRow → State × Bool
  update_where t task_id test change none = (t, false)
  update_where t task_id test change (some row) =
      if test row then (write t task_id (change row), true) else (t, false)

  unfoldable pub acquire :
      Worker → State → Text → Text → Text → Time → Result A2aError (State × Option TaskOwnership)
  acquire w t task_id context_id scope_key now = do
    _ ← validate_all (task_id ∷ context_id ∷ scope_key ∷ [])
    returned (acquire_row w t task_id context_id scope_key now (select t task_id))

  unfoldable pub heartbeat : Worker → State → TaskOwnership → Time → Result A2aError (State × Bool)
  heartbeat w t o now = do
    _ ← validate_ownership o
    returned (update_where t o.task_id (row_owned w o) (renewed_row w now) (select t o.task_id))

  -- Runs `operation` on the rest of the database under the lock of the row.
  unfoldable pub run_if_owned :
      {S : Type 0}
      → Worker
      → State
      → TaskOwnership
      → Time
      → (S → S)
      → S
      → Result A2aError (S × Bool)
  run_if_owned w t o now operation s = do
    _ ← validate_ownership o
    returned
        (if is_current_owner w o now (select t o.task_id) then (operation s, true) else (s, false))

  unfoldable pub cancel_pending : Option TaskRow → TaskOwnership → Bool
  cancel_pending none o = true
  cancel_pending (some row) o = not (row.fence == o.fence) || row.cancel_requested

  unfoldable pub is_cancel_requested : State → TaskOwnership → Result A2aError Bool
  is_cancel_requested t o = do
    current ← get t o.task_id o.scope_key
    returned (cancel_pending current o)

  unfoldable pub request_cancel : State → Text → Text → Result A2aError (State × Bool)
  request_cancel t task_id scope_key = do
    _ ← validate_all (task_id ∷ scope_key ∷ [])
    returned (
        update_where t task_id (λ row. row.scope_key == scope_key && is_running row.state)
          canceled_row (select t task_id))

  unfoldable pub bind_session :
      Worker → State → TaskOwnership → Text → Result A2aError (State × Bool)
  bind_session w t o session_id = do
    _ ← validate_all (ownership_texts o ++ (session_id ∷ []))
    returned (update_where t o.task_id (row_owned w o) (bound_row session_id) (select t o.task_id))

  -- `state`: `released`, `completed`, `failed` or `canceled`
  unfoldable pub release :
      Worker → State → TaskOwnership → TaskState → Result A2aError (State × Bool)
  release w t o state = if is_running state then raised invalid_state else do
    _ ← validate_ownership o
    returned
        (update_where t o.task_id (row_releasable w o) (released_row o state) (select t o.task_id))
