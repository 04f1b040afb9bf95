-- ===== src/A2a/Events.antt =====
-- a2a_event_store.py: `A2aTaskEventStore`. A stream is the events of one tenant and task. The
-- table is a parameter: an `INSERT` adds one row. That the primary key refuses a second row with
-- one sequence number is not modelled. Payloads are lists of bytes.
use open_simple_agent.A2a.{TaskOwnership}
use open_simple_agent.A2a.Ownership.{Worker, run_if_owned}
use open_simple_agent.Base.Int.{ℤ, pos, negsuc}
use open_simple_agent.A2a.{
  A2aError, TaskRow, empty_payload, invalid_event_type, negative_cursor, page_too_small,
  payload_too_large, validate_all, validate_text,
}
use open_simple_agent.Base.{
  Bool, List, Option, [], false, if◌then◌else◌, leb, ltb, max, none, not, some, suc, ℕ, ◌&&◌, ◌++◌,
  ◌+◌, ◌||◌, ◌∷◌, ◌≡◌,
}
use open_simple_agent.Base.Clock.{Time}
use open_simple_agent.Base.Lists.{any, drop, filter, length, take}
use open_simple_agent.Base.Result.{Result, raised, returned, ◌>>=◌}
use open_simple_agent.Base.Same.{nat_eq, option_eq, pair_eq, ◌==◌}
use open_simple_agent.Base.Table.{Table}
use open_simple_agent.Base.Text.{Text, is_empty, starts_with, text, text_eq}

abbrev pub max_event_type : ℕ
max_event_type = 64

pub record A2aTaskEvent : Type 0 where
  pub tenant_id : Text
  pub task_id : Text
  pub fencing_epoch : ℕ
  pub sequence : ℕ
  pub event_type : Text
  pub payload : List ℕ
  pub created_at : Time

-- the table of events: its rows, and a row more
pub record Rows : Type 1 where
  pub State : Type 0
  pub rows : State → List A2aTaskEvent
  pub insert : State → A2aTaskEvent → State
  pub rows-insert : (t : State) (e : A2aTaskEvent) → rows (insert t e) ≡ rows t ++ (e ∷ [])

abbrev pub between : ℕ → ℕ → ℕ → Bool
between low high c = leb low c && leb c high

-- `[A-Za-z_]`
abbrev pub is_word_start : ℕ → Bool
is_word_start c = between 65 90 c || between 97 122 c || c == 95

-- `[A-Za-z0-9_.-]`
abbrev pub is_word_part : ℕ → Bool
is_word_part c = is_word_start c || between 48 57 c || c == 46 || c == 45

abbrev pub is_name : Text → Bool
is_name [] = false
is_name (c ∷ rest) = is_word_start c && not (any (λ d. not (is_word_part d)) rest)

unfoldable pub validate_event_type : Text → Result A2aError Unit
validate_event_type value =
    if is_empty value || not (leb (length value) max_event_type) || not (is_name value)
    then raised invalid_event_type
    else returned tt

unfoldable pub validate_payload : ℕ → List ℕ → Result A2aError Unit
validate_payload max_payload_bytes [] = raised empty_payload
validate_payload max_payload_bytes (byte ∷ payload) =
    if leb (length payload + 1) max_payload_bytes then returned tt else raised payload_too_large

-- `s.split(separator, 1)[0]`
unfoldable pub before_first : Text → Text → Text
before_first separator [] = []
before_first separator (c ∷ s) =
    let rest = before_first separator s in if starts_with separator (c ∷ s) then [] else c ∷ rest

-- the tenant that a scope names
unfoldable pub scope_tenant : Text → Text
scope_tenant scope_key =
    let tenant = before_first (text ":subject:") (drop 7 scope_key) in
    if starts_with (text "tenant:") scope_key && not (is_empty tenant) then tenant else scope_key

unfoldable pub resolve_tenant_id : Option Text → Text → Result A2aError Text
resolve_tenant_id (some tenant_id) scope_key = do _ ← validate_text tenant_id; returned tenant_id
resolve_tenant_id none scope_key = do
  _ ← validate_text scope_key
  _ ← validate_text (scope_tenant scope_key)
  returned (scope_tenant scope_key)

-- the checks before an append; the result is the tenant
unfoldable pub check_event : ℕ → TaskOwnership → Text → List ℕ → Option Text → Result A2aError Text
check_event max_payload_bytes o event_type payload tenant_id = do
  _ ← validate_event_type event_type
  _ ← validate_payload max_payload_bytes payload
  _ ← validate_text o.task_id
  resolve_tenant_id tenant_id o.scope_key

abbrev pub in_stream : Text → Text → A2aTaskEvent → Bool
in_stream tenant_id task_id e = e.tenant_id == tenant_id && e.task_id == task_id

-- `coalesce(max(sequence), 0)`
abbrev pub max_sequence : List A2aTaskEvent → ℕ
max_sequence [] = 0
max_sequence (e ∷ es) = max e.sequence (max_sequence es)

-- `ORDER BY sequence ASC`
abbrev pub insert_sorted : A2aTaskEvent → List A2aTaskEvent → List A2aTaskEvent
insert_sorted e [] = e ∷ []
insert_sorted e (f ∷ es) =
    let rest = insert_sorted e es in if leb e.sequence f.sequence then e ∷ f ∷ es else f ∷ rest

abbrev pub order_by_sequence : List A2aTaskEvent → List A2aTaskEvent
order_by_sequence [] = []
order_by_sequence (e ∷ es) = insert_sorted e (order_by_sequence es)

module _ (events : Rows) where
  open events use {State, rows, insert}

  abbrev pub stream : State → Text → Text → List A2aTaskEvent
  stream t tenant_id task_id = filter (in_stream tenant_id task_id) (rows t)

  abbrev pub next_event : State → TaskOwnership → Text → List ℕ → Text → Time → A2aTaskEvent
  next_event t o event_type payload tenant_id now = record {
    tenant_id = tenant_id;
    task_id = o.task_id;
    fencing_epoch = o.fence;
    sequence = max_sequence (stream t tenant_id o.task_id) + 1;
    event_type = event_type;
    payload = payload;
    created_at = now;
  }

  unfoldable pub append_on_connection :
      ℕ → State → TaskOwnership → Text → List ℕ → Option Text → Time → Result A2aError (State × ℕ)
  append_on_connection max_payload_bytes t o event_type payload tenant_id now = do
    tenant ← check_event max_payload_bytes o event_type payload tenant_id
    returned (
      insert t (next_event t o event_type payload tenant now),
      max_sequence (stream t tenant o.task_id) + 1,
    )

  -- `insert_event`, with the cell that holds the number of the new event
  unfoldable pub insert_event :
      ℕ
      → TaskOwnership
      → Text
      → List ℕ
      → Text
      → Time
      → Result A2aError (State × Option ℕ)
      → Result A2aError (State × Option ℕ)
  insert_event max_payload_bytes o event_type payload tenant now so_far = do
    held ← so_far
    done ← append_on_connection max_payload_bytes held.0 o event_type payload (some tenant) now
    returned (done.0, some done.1)

  unfoldable pub append_if_owned :
      (table : Table Text TaskRow)
      → Worker
      → table.State
      → ℕ
      → State
      → TaskOwnership
      → Text
      → List ℕ
      → Option Text
      → Time
      → Result A2aError (State × Option ℕ)
  append_if_owned table w owners max_payload_bytes t o event_type payload tenant_id now = do
    tenant ← check_event max_payload_bytes o event_type payload tenant_id
    ran ←
        run_if_owned table w owners o now
          (insert_event max_payload_bytes o event_type payload tenant now) (returned (t, none))
    ran.0

  -- the page of a query with a cursor and a limit
  unfoldable pub page : State → Text → Text → ℕ → ℕ → List A2aTaskEvent
  page t tenant_id task_id after_sequence limit = take limit (
      order_by_sequence
        (filter (λ (e : A2aTaskEvent). ltb after_sequence e.sequence) (stream t tenant_id task_id)))

  unfoldable pub bounded_page : State → Text → Text → ℤ → ℤ → Result A2aError (List A2aTaskEvent)
  bounded_page t tenant_id task_id (negsuc _) limit = raised negative_cursor
  bounded_page t tenant_id task_id (pos after_sequence) (pos (suc limit)) =
      returned (page t tenant_id task_id after_sequence (suc limit))
  bounded_page t tenant_id task_id (pos after_sequence) _ = raised page_too_small

  unfoldable pub read_after : State → Text → Text → ℤ → ℤ → Result A2aError (List A2aTaskEvent)
  read_after t tenant_id task_id after_sequence limit = do
    _ ← validate_all (tenant_id ∷ task_id ∷ [])
    bounded_page t tenant_id task_id after_sequence limit

  unfoldable pub read_after_scope :
      State → Text → Text → ℤ → ℤ → Result A2aError (List A2aTaskEvent)
  read_after_scope t scope_key task_id after_sequence limit = do
    tenant_id ← resolve_tenant_id none scope_key
    read_after t tenant_id task_id after_sequence limit
