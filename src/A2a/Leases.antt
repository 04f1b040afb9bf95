-- ===== src/A2a/Leases.antt =====
-- What the ownership of a task guarantees, whichever workers call the store and in whatever order:
-- one worker acts on a task at a time, and none acts once another has taken over.
use open_simple_agent.A2a.Steps.{Reach, after, at_start}
use open_simple_agent.A2a.Ownership.{
  acquire, bind_session, heartbeat, is_cancel_requested, release, request_cancel, run_if_owned,
}
use open_simple_agent.A2a.Ownership.{
  Worker, acquire_row, is_current_owner, row_owned, row_releasable, update_where,
}
use open_simple_agent.A2a.{released, TaskOwnership, TaskRow, TaskState}
use open_simple_agent.Base.{Bool, Option, arith, false, none, refl, some, true, ◌<◌, ◌≡◌}
use open_simple_agent.Base.Clock.{Time}
use open_simple_agent.Base.Result.{returned}
use open_simple_agent.Base.Same.{nat_eq, option_eq, pair_eq}
use open_simple_agent.Base.Table.{Table}
use open_simple_agent.Base.Text.{Text, text_eq}
use open_simple_agent.A2a.{is_running}
use open_simple_agent.Base.Same.{◌==◌}
use open_simple_agent.A2a.{canceled, completed, failed, running}
use open_simple_agent.Base.{Bool-cases, inl, inr}
use open_simple_agent.Base.Text.{text_same_iff}
use open_simple_agent.A2a.Ownership.{snapshot}
use open_simple_agent.Base.{◌+◌}
use open_simple_agent.A2a.Ownership.{canceled_row}
use open_simple_agent.A2a.Rows.{fence_of, is_closed, is_sound}
use open_simple_agent.A2a.Steps.{sound-Reach, sound-Step}
use open_simple_agent.A2a.Rows.{checked, is_current_owner-stale, row_owned-stale}
use open_simple_agent.A2a.Rows.{row_releasable-stale}
use open_simple_agent.A2a.Steps.{acquire_cases, fence-Reach}
use open_simple_agent.Base.Same.{same_refl}
use open_simple_agent.A2a.Ownership.{get}
use open_simple_agent.A2a.Rows.{is_current_owner-lease_active}
use open_simple_agent.A2a.Ownership.{cancel_pending}
use open_simple_agent.Base.{◌&&◌}
use open_simple_agent.A2a.Rows.{checked_twice}
use open_simple_agent.Base.{◌∙◌}
use open_simple_agent.A2a.Ownership.{in_scope}
use open_simple_agent.Base.{sym}
use open_simple_agent.A2a.Rows.{lease_active_before}
use open_simple_agent.Base.{◌≤◌}

module _ (table : Table Text TaskRow) where
  open table use {State, select, write, select-write}

  -- A task that is completed, failed or canceled stays as it is: from a state in which only a
  -- running task has an owner, no later call by any worker changes its row.
  pub terminal_final :
      {t u : State}
      → Reach table t u
      → (j : Text) → is_sound (select t j) ≡ true
      → is_closed (select t j) ≡ true
      → select u j ≡ select t j
  terminal_final at_start j sound closed = refl
  terminal_final (after r st) j sound closed =
      let before = terminal_final r j sound closed in
      rw ((sound-Step table st j (sound-Reach table r j sound)).1 (rw before closed)) before

  update_refused :
      (t : State) (task_id : Text) (test : TaskRow → Bool) (change : TaskRow → TaskRow)
      (found : Option TaskRow)
      → ((row : TaskRow) → found ≡ some row → test row ≡ false)
      → update_where table t task_id test change found ≡ (t, false)
  unfolding update_where
  update_refused t task_id test change none h = refl
  update_refused t task_id test change (some row) h = rw (h row refl)

  -- what a worker that has lost its task can still do: nothing
  abbrev pub IsPowerless : State → TaskOwnership → Type 0
  IsPowerless u o =
      (v : Worker) (now : Time) (r : State × Bool)
      → (heartbeat table v u o now ≡ returned r → r ≡ (u, false))
        × ((session_id : Text) → bind_session table v u o session_id ≡ returned r → r ≡ (u, false))
        × ((state : TaskState) → release table v u o state ≡ returned r → r ≡ (u, false))
        × ((operation : State → State) (s : State)
            → run_if_owned table v u o now operation s ≡ returned r
            → r ≡ (s, false))

  stale-IsPowerless :
      (u : State) (o : TaskOwnership) → o.fence < fence_of (select u o.task_id) → IsPowerless u o
  unfolding heartbeat bind_session run_if_owned release
  stale-IsPowerless u o h v now r = (
    λ done. rw (← checked _ _ done) (stale_refused _ (row_owned v o) (row_owned-stale v o)),
    λ session_id done.
        rw (← checked _ _ done) (stale_refused _ (row_owned v o) (row_owned-stale v o)),
    λ state done. released_unchanged state done,
    λ operation s done.
        rw (← checked _ _ done) (rw (is_current_owner-stale v o now (select u o.task_id) h) refl),
  )
    where
      stale_refused :
          (change : TaskRow → TaskRow) (test : TaskRow → Bool)
          → ((row : TaskRow) → o.fence < row.fence → test row ≡ false)
          → update_where table u o.task_id test change (select u o.task_id) ≡ (u, false)
      stale_refused change test blind =
          update_refused u o.task_id test change (select u o.task_id)
            (λ row found. blind row (rw found at h))

      released_unchanged :
          (state : TaskState) → release table v u o state ≡ returned r → r ≡ (u, false)
      released_unchanged running done = cc
      released_unchanged released done =
          rw (← checked _ _ done) (stale_refused _ (row_releasable v o) (row_releasable-stale v o))
      released_unchanged completed done =
          rw (← checked _ _ done) (stale_refused _ (row_releasable v o) (row_releasable-stale v o))
      released_unchanged failed done =
          rw (← checked _ _ done) (stale_refused _ (row_releasable v o) (row_releasable-stale v o))
      released_unchanged canceled done =
          rw (← checked _ _ done) (stale_refused _ (row_releasable v o) (row_releasable-stale v o))

  -- the ownership that an acquisition returns carries the fence of the row it wrote
  fence-acquire :
      (w : Worker) (t : State) (task_id context_id scope_key : Text) (now : Time) {u : State}
      {o : TaskOwnership}
      → acquire table w t task_id context_id scope_key now ≡ returned (u, some o)
      → (o.task_id ≡ task_id)
        × (o.fence ≡ fence_of (select t task_id) + 1)
        × (fence_of (select u task_id) ≡ o.fence)
  unfolding acquire
  fence-acquire w t task_id context_id scope_key now {u} {o} h =
      elim (acquire_cases table w t task_id context_id scope_key now (select t task_id)) [
        | inl refused ↦ absurd (cc (refused, checked _ _ h))
        | inr (new, reclaimed, e, up, same, change) ↦
            let wrote : write t task_id new ≡ u = cc (e, checked _ _ h) in
            let issued : snapshot task_id new reclaimed ≡ o = cc (e, checked _ _ h) in
            let here : fence_of (select (write t task_id new) task_id) ≡ new.fence =
              rw (select-write t task_id task_id new, same_refl task_id) refl in
            (rw (← issued) refl, rw (← issued) up, rw (← issued, ← wrote) here)
      ]

  -- Once a next acquisition of a task has been granted, to whichever worker and whatever happened
  -- in between and after, the first ownership has a lower fence, and every heartbeat, binding of a
  -- session, release and guarded operation of it that returns is refused and changes nothing.
  pub takeover :
      (w w' : Worker) (t : State) (task_id context_id scope_key : Text) (now : Time) {t1 : State}
      {first : TaskOwnership}
      → acquire table w t task_id context_id scope_key now ≡ returned (t1, some first)
      → {t2 : State} → Reach table t1 t2
      → (context_id' scope_key' : Text) (now' : Time) {t3 : State} {next : TaskOwnership}
      → acquire table w' t2 task_id context_id' scope_key' now' ≡ returned (t3, some next)
      → {t4 : State} → Reach table t3 t4
      → (first.fence < next.fence) × IsPowerless t4 first
  takeover w w' t task_id context_id scope_key now {t1} {first} h {t2} r context_id' scope_key' now'
        {t3} {next} h' {t4} r' =
      let (same, a, b) = fence-acquire w t task_id context_id scope_key now h in
      let (same', c, d) = fence-acquire w' t2 task_id context_id' scope_key' now' h' in
      let below : first.fence < next.fence = omega (arith, b, c, fence-Reach table r task_id) in
      (
        below,
        stale-IsPowerless t4 first
            (rw same (omega (arith, below, d, fence-Reach table r' task_id))),
      )

  -- While an ownership lets its worker run guarded operations at a time of the worker's clock, every
  -- acquisition of the task that returns is refused and changes nothing, by any worker whose clock
  -- is not ahead of that time.
  pub run_if_owned-acquire :
      (w v : Worker) (t : State) (o : TaskOwnership) (owner_now now : Time)
      → is_current_owner w o owner_now (select t o.task_id) ≡ true
      → now ≤ owner_now
      → (context_id scope_key : Text) (r : State × Option TaskOwnership)
      → acquire table v t o.task_id context_id scope_key now ≡ returned r
      → r ≡ (t, none)
  unfolding acquire acquire_row
  run_if_owned-acquire w v t o owner_now now owned behind context_id scope_key r done =
      let (row, found, held) =
        is_current_owner-lease_active w o owner_now (select t o.task_id) owned in
      let lease = lease_active_before row behind held in
      rw (← checked _ _ done) (
        rw found (elim (Bool-cases (row.scope_key == scope_key)) [
          | inl ours ↦ rw (ours, lease) refl
          | inr foreign ↦ rw foreign refl
        ]))

  abbrev cancelable : Text → TaskRow → Bool
  cancelable scope_key row = row.scope_key == scope_key && is_running row.state

  cancel_written :
      (t : State) (task_id scope_key : Text) (found : Option TaskRow) {u : State}
      → update_where table t task_id (cancelable scope_key) canceled_row found ≡ (u, true)
      → (row : TaskRow) × (select u task_id ≡ some row)
        × (row.cancel_requested ≡ true)
        × (row.scope_key ≡ scope_key)
  unfolding update_where
  cancel_written t task_id scope_key none {u} done = cc
  cancel_written t task_id scope_key (some row) {u} done =
      elim (Bool-cases (cancelable scope_key row)) [
        | inr fails ↦ cc
        | inl passes ↦
            let wrote : write t task_id (canceled_row row) ≡ u = cc in
            (
              canceled_row row,
              rw (← wrote, select-write t task_id task_id (canceled_row row), same_refl task_id)
                  refl,
              refl,
              ground (arith, text_same_iff row.scope_key scope_key),
            )
      ]

  acquired_cancel :
      (w : Worker) (t : State) (task_id context_id scope_key : Text) (now : Time) (row : TaskRow)
      {v : State} {o : TaskOwnership}
      → acquire_row table w t task_id context_id scope_key now (some row) ≡ (v, some o)
      → o.cancel_requested ≡ row.cancel_requested
  unfolding acquire_row
  acquired_cancel w t task_id context_id scope_key now row granted = ground arith

  cancel_seen :
      (row : TaskRow) (o : TaskOwnership)
      → row.scope_key ≡ o.scope_key
      → row.cancel_requested ≡ true
      → cancel_pending table (in_scope table o.scope_key (some row)) o ≡ true
  unfolding cancel_pending
  cancel_seen row o ours flagged =
      rw ((text_same_iff row.scope_key o.scope_key).1 ours, flagged) (ground arith)

  -- In the state that a recorded cancellation leaves, with nothing in between, it is reported to
  -- every holder of the task in that scope that asks, and a worker that is granted the task learns of
  -- it from its ownership.
  pub request_cancel-is_cancel_requested :
      (t : State) (task_id scope_key : Text) {u : State}
      → request_cancel table t task_id scope_key ≡ returned (u, true)
      → ((o : TaskOwnership)
          → o.task_id ≡ task_id
          → o.scope_key ≡ scope_key
          → (answer : Bool) → is_cancel_requested table u o ≡ returned answer
          → answer ≡ true)
        × ((w : Worker) (context_id : Text) (now : Time) (v : State) (o : TaskOwnership)
            → acquire table w u task_id context_id scope_key now ≡ returned (v, some o)
            → o.cancel_requested ≡ true)
  unfolding request_cancel is_cancel_requested get cancel_pending acquire
  request_cancel-is_cancel_requested t task_id scope_key {u} done =
      let (row, found, flagged, ours) =
        cancel_written t task_id scope_key (select t task_id) (checked _ _ done) in
      (
        λ o same shared answer asked.
            let there : select u o.task_id ≡ some row = rw same found in
            rw (← checked_twice _ _ _ asked, there) (cancel_seen row o (ours ∙ sym shared) flagged),
        λ w context_id now v o granted.
            acquired_cancel w u task_id context_id scope_key now row {v = v} {o = o}
              (rw (← found) (checked _ _ granted))
            ∙ flagged,
      )
