-- ===== src/A2a.antt =====
-- runtimes/adk/src/osa/runtimes/adk/a2a_ownership.py and a2a_event_store.py: which worker may run
-- an A2A task, and the durable stream of the task's events. This file has the rows and the checks
-- that both share. Times are microseconds.
pub mod Ownership
pub mod Events
pub mod Streams
pub mod Appends
pub mod Rows
pub mod Steps
pub mod Leases
mod Tests
mod EventTests
use open_simple_agent.Base.{Bool, Option, false, if◌then◌else◌, leb, none, not, some, true, ℕ, ◌&&◌}
use open_simple_agent.Base.Clock.{Time}
use open_simple_agent.Base.Lists.{length}
use open_simple_agent.Base.Result.{Result, raised, returned, ◌>>=◌}
use open_simple_agent.Base.Text.{Text, is_empty}
use open_simple_agent.Base.{List, [], ◌++◌, ◌∷◌}

abbrev pub max_persisted_text : ℕ
max_persisted_text = 255

pub data A2aError : Type 0 where
  invalid_text invalid_state invalid_event_type empty_payload payload_too_large : A2aError
  negative_cursor page_too_small : A2aError

-- `validate_a2a_persisted_text`: a text that an identity column can hold
unfoldable pub is_persistable : Text → Bool
is_persistable value = not (is_empty value) && leb (length value) max_persisted_text

unfoldable pub validate_text : Text → Result A2aError Unit
unfolding is_persistable
validate_text value = if is_persistable value then returned tt else raised invalid_text

pub data TaskState : Type 0 where
  running released completed failed canceled : TaskState

abbrev pub is_running : TaskState → Bool
is_running running = true
is_running _ = false

-- `state in {"completed", "failed", "canceled"}`
abbrev pub is_terminal : TaskState → Bool
is_terminal completed = true
is_terminal failed = true
is_terminal canceled = true
is_terminal _ = false

-- the columns of the ownership table but its key, the task
pub record TaskRow : Type 0 where
  pub context_id : Text
  pub scope_key : Text
  pub owner_id : Option Text
  pub fence : ℕ
  pub lease_until : Option Time
  pub session_id : Option Text
  pub cancel_requested : Bool
  pub state : TaskState

pub record TaskOwnership : Type 0 where
  pub task_id : Text
  pub context_id : Text
  pub scope_key : Text
  pub owner_id : Option Text
  pub fence : ℕ
  pub lease_until : Option Time
  pub session_id : Option Text
  pub cancel_requested : Bool
  pub state : TaskState
  pub reclaimed : Bool

-- the checks of several texts, in order
unfoldable pub validate_all : List Text → Result A2aError Unit
unfolding validate_text
validate_all [] = returned tt
validate_all (value ∷ rest) = do _ ← validate_text value; validate_all rest

-- an optional column is checked if it is there
abbrev pub listed : Option Text → List Text
listed none = []
listed (some value) = value ∷ []

-- `_validate_ownership`: the identifiers that are checked, in order
abbrev pub ownership_texts : TaskOwnership → List Text
ownership_texts o =
    o.task_id ∷ o.context_id ∷ o.scope_key ∷ listed o.owner_id ++ listed o.session_id

unfoldable pub validate_ownership : TaskOwnership → Result A2aError Unit
validate_ownership o = validate_all (ownership_texts o)
