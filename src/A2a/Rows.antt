-- ===== src/A2a/Rows.antt =====
-- How a write changes one row of the ownership table, and which callers a row refuses.
use open_simple_agent.A2a.Ownership.{Worker, is_current_owner, row_owned, row_releasable}
use open_simple_agent.A2a.{released, A2aError, TaskOwnership, TaskRow, TaskState}
use open_simple_agent.A2a.Ownership.{lease_active}
use open_simple_agent.Base.{Bool, Option, arith, false, none, refl, some, true, ℕ, ◌<◌, ◌≡◌}
use open_simple_agent.Base.Clock.{Time}
use open_simple_agent.Base.Result.{Result, raised, returned, ◌>>=◌}
use open_simple_agent.Base.Same.{nat_eq, option_eq, pair_eq}
use open_simple_agent.Base.Text.{text_eq}
use open_simple_agent.A2a.{is_running, is_terminal}
use open_simple_agent.Base.{◌||◌, ◌≤◌}
use open_simple_agent.Base.Same.{◌==◌}
use open_simple_agent.A2a.{canceled, completed, failed, running}
use open_simple_agent.Base.Text.{option_text_iff}
use open_simple_agent.A2a.Ownership.{released_row}
use open_simple_agent.A2a.Ownership.{is_after}

-- a chain of checks only decides whether the method raises
pub checked :
    {A : Type 0} (check : Result A2aError Unit) (a : A) {b : A}
    → (check >>= (λ _. returned a)) ≡ returned b
    → a ≡ b
checked (raised e) a h = cc
checked (returned done) a h = cc

pub checked_twice :
    {A B : Type 0} (check : Result A2aError Unit) (a : A) (k : A → B) {b : B}
    → (check >>= (λ _. returned a) >>= (λ found. returned (k found))) ≡ returned b
    → k a ≡ b
checked_twice (raised e) a k h = cc
checked_twice (returned done) a k h = cc

abbrev pub fence_of : Option TaskRow → ℕ
fence_of none = 0
fence_of (some row) = row.fence

pub row_owned-stale :
    (w : Worker) (o : TaskOwnership) (row : TaskRow)
    → o.fence < row.fence
    → row_owned w o row ≡ false
unfolding row_owned
row_owned-stale w o row h = ground arith

pub row_releasable-stale :
    (w : Worker) (o : TaskOwnership) (row : TaskRow)
    → o.fence < row.fence
    → row_releasable w o row ≡ false
unfolding row_releasable
row_releasable-stale w o row h = ground arith

pub is_current_owner-stale :
    (w : Worker) (o : TaskOwnership) (now : Time) (found : Option TaskRow)
    → o.fence < fence_of found
    → is_current_owner w o now found ≡ false
unfolding is_current_owner
is_current_owner-stale w o now none h = refl
is_current_owner-stale w o now (some row) h = ground arith

pub is_current_owner-lease_active :
    (w : Worker) (o : TaskOwnership) (now : Time) (found : Option TaskRow)
    → is_current_owner w o now found ≡ true
    → (row : TaskRow) × (found ≡ some row) × (lease_active row now ≡ true)
unfolding is_current_owner
is_current_owner-lease_active w o now none h = cc
is_current_owner-lease_active w o now (some row) h = (row, refl, ground arith)

is_after_before :
    (lease : Option Time) {earlier now : Time}
    → earlier ≤ now
    → is_after lease now ≡ true
    → is_after lease earlier ≡ true
is_after_before none order h = h
is_after_before (some lease) order h = ground arith

-- A lease that is active was active before.
pub lease_active_before :
    (row : TaskRow) {earlier now : Time}
    → earlier ≤ now
    → lease_active row now ≡ true
    → lease_active row earlier ≡ true
lease_active_before row order h =
    let later = is_after_before row.lease_until order (ground arith) in ground arith

-- a row that no worker runs has no owner
abbrev pub is_sound : Option TaskRow → Bool
is_sound none = true
is_sound (some row) = is_running row.state || (row.owner_id == none)

abbrev pub is_closed : Option TaskRow → Bool
is_closed none = false
is_closed (some row) = is_terminal row.state

-- what every write does to a row
abbrev pub Change : Option TaskRow → TaskRow → Type 0
Change old new =
    (fence_of old ≤ new.fence)
    × (is_sound old ≡ true → (is_closed old ≡ false) × (is_sound (some new) ≡ true))

pub running_open : (state : TaskState) → is_running state ≡ true → is_terminal state ≡ false
running_open running h = refl
running_open released h = cc
running_open completed h = cc
running_open failed h = cc
running_open canceled h = cc

pub change_running :
    (row new : TaskRow)
    → is_running row.state ≡ true
    → new.state ≡ row.state
    → (is_closed (some row) ≡ false) × (is_sound (some new) ≡ true)
change_running row new h same = (running_open row.state h, rw (same, h) (ground arith))

pub row_owned-Change :
    (w : Worker) (o : TaskOwnership) (row new : TaskRow)
    → row_owned w o row ≡ true
    → row.fence ≤ new.fence
    → new.state ≡ row.state
    → Change (some row) new
unfolding row_owned
row_owned-Change w o row new h up same = (up, λ sound. change_running row new (ground arith) same)

pub row_releasable-Change :
    (w : Worker) (o : TaskOwnership) (state : TaskState) (row : TaskRow)
    → row_releasable w o row ≡ true
    → Change (some row) (released_row o state row)
unfolding row_releasable
row_releasable-Change w o state row owned = (
  omega arith,
  λ sound. (
    running_open row.state (ground (arith, sound, option_text_iff row.owner_id (some w.owner_id))),
    ground arith,
  ),
)
