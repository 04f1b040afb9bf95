-- ===== src/Session/Durable.antt =====
-- runtimes/adk/src/osa/runtimes/adk/sqlite_session.py: `SqliteSessionProvider`, the provider behind
-- a SQL table. A statement is one step; `resolve` and `delete` read first and delete later, so they
-- take what others do in between. The columns of times keep microseconds; a session's `metadata` is
-- left out, as in `Session`. The files, the migration and the check of the schema are not modelled.
use open_simple_agent.Base.Dict
use open_simple_agent.Base.Dict.{put, erase}
use open_simple_agent.Base.{
  Bool, List, Option, [], false, if◌then◌else◌, is_some, none, not, some, ℕ, ◌+◌, ◌≡◌,
}
use open_simple_agent.Base.Clock.{Time}
use open_simple_agent.Base.Dict.{Dict}
use open_simple_agent.Base.Lists.{length}
use open_simple_agent.Base.Result.{Result, raised, returned}
use open_simple_agent.Base.Same.{nat_eq, option_eq, pair_eq, ◌==◌}
use open_simple_agent.Base.Text.{Text, text_eq}
use open_simple_agent.Session.{
  Caller, Message, Session, SessionError, is_expired, matches_owner, session_access_denied,
  session_not_found,
}

-- `json.dumps` and `json.loads` of a history
pub record HistoryJson : Type 1 where
  pub Json : Type 0
  pub dump : List Message → Json
  pub load : Json → List Message
  pub load-dump : (history : List Message) → load (dump history) ≡ history

-- the table `osa_runtime_sessions`
pub record SessionRow (J : Type 0) : Type 0 where
  pub agent_name : Text
  pub user_id : Option Text
  pub tenant_id : Option Text
  pub created_at : Time
  pub last_active_at : Time
  pub ttl_seconds : Option ℕ
  pub max_history_messages : ℕ
  pub conversation_history : J
  pub revision : ℕ

-- an error of every provider, or `SessionConcurrencyError`
pub data DurableError : Type 0 where
  session_error : SessionError → DurableError
  concurrent_save : (session_id : Text) → DurableError

abbrev pub Rows : Type 0 → Type 0
Rows J = Dict Text (SessionRow J)

module _ (W : HistoryJson) where
  -- `_parameters`
  unfoldable pub parameters : Session → SessionRow W.Json
  parameters s = record {
    agent_name = s.agent_name;
    user_id = s.user_id;
    tenant_id = s.tenant_id;
    created_at = s.created_at;
    last_active_at = s.last_active_at;
    ttl_seconds = s.ttl_seconds;
    max_history_messages = s.max_history_messages;
    conversation_history = W.dump s.conversation_history;
    revision = s.revision;
  }

  unfoldable pub session_from_row : Text → SessionRow W.Json → Session
  session_from_row session_id row = record {
    session_id = session_id;
    agent_name = row.agent_name;
    user_id = row.user_id;
    tenant_id = row.tenant_id;
    created_at = row.created_at;
    last_active_at = row.last_active_at;
    ttl_seconds = row.ttl_seconds;
    max_history_messages = row.max_history_messages;
    conversation_history = W.load row.conversation_history;
    revision = row.revision;
  }

  abbrev pub load_row : Text → Option (SessionRow W.Json) → Option Session
  load_row session_id none = none
  load_row session_id (some row) = some (session_from_row session_id row)

  -- `_load`
  unfoldable pub load : Rows W.Json → Text → Option Session
  load rows session_id = load_row session_id (Dict.get rows session_id)

  -- `_delete_raw`
  unfoldable pub delete_raw : Rows W.Json → Text → Rows W.Json × Bool
  delete_raw rows session_id = (erase rows session_id, is_some (Dict.get rows session_id))

  -- `INSERT`, of a session with a new identifier
  unfoldable pub create : Rows W.Json → Text → Caller → Option ℕ → ℕ → Time → Rows W.Json × Session
  create rows session_id c ttl_seconds max_history_messages now =
      let session : Session = record {
        session_id = session_id;
        agent_name = c.agent_name;
        user_id = c.user_id;
        tenant_id = c.tenant_id;
        created_at = now;
        last_active_at = now;
        ttl_seconds = ttl_seconds;
        max_history_messages = max_history_messages;
        conversation_history = [];
        revision = 0;
      } in
      (put rows session_id (parameters session), session)

  unfoldable pub resolve_loaded :
      Rows W.Json
      → Text
      → Caller
      → Time
      → (Rows W.Json → Rows W.Json)
      → Option Session
      → Rows W.Json × Result DurableError Session
  resolve_loaded rows session_id c now others none =
      (rows, raised (session_error (session_not_found session_id)))
  resolve_loaded rows session_id c now others (some s) =
      if is_expired s now
      then (
        (delete_raw (others rows) session_id).0,
        raised (session_error (session_not_found session_id)),
      )
      else if not (matches_owner s c)
      then (rows, raised (session_error (session_access_denied session_id)))
      else (rows, returned s)

  unfoldable pub resolve :
      Rows W.Json
      → Text
      → Caller
      → Time
      → (Rows W.Json → Rows W.Json)
      → Rows W.Json × Result DurableError Session
  resolve rows session_id c now others =
      resolve_loaded rows session_id c now others (load rows session_id)

  unfoldable pub view_loaded :
      Rows W.Json
      → Text
      → Time
      → (Rows W.Json → Rows W.Json)
      → Option Session
      → Rows W.Json × Option Session
  view_loaded rows session_id now others none = (rows, none)
  view_loaded rows session_id now others (some s) =
      if is_expired s now then ((delete_raw (others rows) session_id).0, none) else (rows, some s)

  unfoldable pub get_runtime_view :
      Rows W.Json → Text → Time → (Rows W.Json → Rows W.Json) → Rows W.Json × Option Session
  get_runtime_view rows session_id now others =
      view_loaded rows session_id now others (load rows session_id)

  -- `UPDATE … SET …` of the columns that `save` writes
  unfoldable pub saved_row : SessionRow W.Json → Session → SessionRow W.Json
  saved_row row s = record row {
    last_active_at = s.last_active_at;
    conversation_history = W.dump s.conversation_history;
    revision = s.revision + 1;
  }

  unfoldable pub save_row :
      Rows W.Json → Session → Option (SessionRow W.Json) → Rows W.Json × Result DurableError Session
  save_row rows s none = (rows, raised (concurrent_save s.session_id))
  save_row rows s (some row) =
      if row.revision == s.revision
      then (
        put rows s.session_id (saved_row row s),
        returned (record s { revision = s.revision + 1 }),
      )
      else (rows, raised (concurrent_save s.session_id))

  -- `UPDATE … WHERE session_id = :session_id AND revision = :revision`; the result is the session
  -- with what the call assigns to it
  unfoldable pub save : Rows W.Json → Session → Time → Rows W.Json × Result DurableError Session
  save rows s now = save_row rows (record s { last_active_at = now }) (Dict.get rows s.session_id)

  unfoldable pub delete_loaded :
      Rows W.Json
      → Text
      → Caller
      → (Rows W.Json → Rows W.Json)
      → Option Session
      → Rows W.Json × Result DurableError Bool
  delete_loaded rows session_id c others none = (rows, returned false)
  delete_loaded rows session_id c others (some s) =
      let (rows', deleted) = delete_raw (others rows) session_id in
      if not (matches_owner s c)
      then (rows, raised (session_error (session_access_denied session_id)))
      else (rows', returned deleted)

  unfoldable pub delete :
      Rows W.Json
      → Text
      → Caller
      → (Rows W.Json → Rows W.Json)
      → Rows W.Json × Result DurableError Bool
  delete rows session_id c others = delete_loaded rows session_id c others (load rows session_id)

  -- The condition of the `DELETE`: `elapsed now last_active_at ttl_seconds` is SQLite's comparison
  -- `(julianday('now') - julianday(last_active_at)) * 86400 >= ttl_seconds`, in floating-point days.
  abbrev pub is_stale : (Time → Time → ℕ → Bool) → Time → SessionRow W.Json → Bool
  is_stale elapsed now row = elim row.ttl_seconds [
    | none ↦ false
    | some ttl ↦ elapsed now row.last_active_at ttl
  ]

  unfoldable pub purge_expired : (Time → Time → ℕ → Bool) → Rows W.Json → Time → Rows W.Json × ℕ
  purge_expired elapsed rows now =
      let expired = Dict.keys_where (is_stale elapsed now) rows in
      (Dict.erase_all rows expired, length expired)
