-- ===== src/Session/Manager.antt =====
-- session.py: `SessionManager`, the provider in memory.
use open_simple_agent.Base.Dict
use open_simple_agent.Base.{
  Bool, List, Option, [], false, if◌then◌else◌, none, not, some, true, ℕ, ◌+◌,
}
use open_simple_agent.Base.Clock.{Time}
use open_simple_agent.Base.Lists.{length}
use open_simple_agent.Base.Result.{Result, raised, returned}
use open_simple_agent.Base.Same.{nat_eq, option_eq, pair_eq}
use open_simple_agent.Base.Text.{Text, text_eq}
use open_simple_agent.Session.{
  Caller, Session, SessionError, is_expired, matches_owner, session_access_denied,
  session_not_found,
}
use open_simple_agent.Base.Dict.{Dict}

abbrev pub Manager : Type 0
Manager = Dict Text Session

-- `create`, with the identifier that `SessionId.generate` returns
unfoldable pub create : Manager → Text → Caller → Option ℕ → ℕ → Time → Manager × Session
create m session_id c ttl_seconds max_history_messages now =
    let session : Session = record {
      session_id = session_id;
      agent_name = c.agent_name;
      user_id = c.user_id;
      tenant_id = c.tenant_id;
      created_at = now;
      last_active_at = now;
      ttl_seconds = ttl_seconds;
      max_history_messages = max_history_messages;
      conversation_history = [];
      revision = 0;
    } in
    (Dict.put m session_id session, session)

unfoldable pub resolve_found :
    Manager → Text → Caller → Time → Option Session → Manager × Result SessionError Session
resolve_found m session_id c now none = (m, raised (session_not_found session_id))
resolve_found m session_id c now (some s) =
    if is_expired s now
    then (Dict.erase m session_id, raised (session_not_found session_id))
    else if not (matches_owner s c)
    then (m, raised (session_access_denied session_id))
    else (m, returned s)

unfoldable pub resolve : Manager → Text → Caller → Time → Manager × Result SessionError Session
unfolding resolve_found
resolve m session_id c now = resolve_found m session_id c now (Dict.get m session_id)

unfoldable pub runtime_view_found :
    Manager → Text → Time → Option Session → Manager × Option Session
runtime_view_found m session_id now none = (m, none)
runtime_view_found m session_id now (some s) =
    if is_expired s now then (Dict.erase m session_id, none) else (m, some s)

unfoldable pub get_runtime_view : Manager → Text → Time → Manager × Option Session
unfolding runtime_view_found
get_runtime_view m session_id now = runtime_view_found m session_id now (Dict.get m session_id)

unfoldable pub save : Manager → Session → Time → Manager
save m s now =
    Dict.put m s.session_id (record s { last_active_at = now; revision = s.revision + 1 })

unfoldable pub delete_found :
    Manager → Text → Caller → Option Session → Manager × Result SessionError Bool
delete_found m session_id c none = (m, returned false)
delete_found m session_id c (some s) =
    if not (matches_owner s c)
    then (m, raised (session_access_denied session_id))
    else (Dict.erase m session_id, returned true)

unfoldable pub delete : Manager → Text → Caller → Manager × Result SessionError Bool
unfolding delete_found
delete m session_id c = delete_found m session_id c (Dict.get m session_id)

unfoldable pub purge_expired : Manager → Time → Manager × ℕ
purge_expired m now =
    let expired = Dict.keys_where (λ s. is_expired s now) m in
    (Dict.erase_all m expired, length expired)

unfoldable pub list_sessions : Manager → List Session
list_sessions m = Dict.values m
