-- ===== src/Session.antt =====
-- generic-agent/src/osa/generic_agent/session.py: sessions with an owner, a time to live and a
-- bounded history, and the provider in memory. A session's `metadata`, which none of these
-- operations reads, is left out. A call reads the clock once, as `now`; identifiers are given.
pub mod History
pub mod Manager
pub mod Ownership
pub mod Isolation
pub mod Durable
pub mod Saves
mod Tests
use open_simple_agent.Base.{
  Bool, List, Option, [], false, if◌then◌else◌, leb, ltb, none, some, ℕ, ◌&&◌, ◌++◌, ◌+◌, ◌-◌, ◌∷◌,
}
use open_simple_agent.Base.Clock.{Time, seconds}
use open_simple_agent.Base.Lists.{drop, length}
use open_simple_agent.Base.Same.{nat_eq, option_eq, pair_eq, ◌==◌}
use open_simple_agent.Base.Text.{Text, text_eq}

pub record Message : Type 0 where
  pub role : Text
  pub content : Text

pub record Session : Type 0 where
  pub session_id : Text
  pub agent_name : Text
  pub user_id : Option Text
  pub tenant_id : Option Text
  pub created_at : Time
  pub last_active_at : Time
  pub ttl_seconds : Option ℕ
  pub max_history_messages : ℕ
  pub conversation_history : List Message
  pub revision : ℕ

abbrev pub default_max_history_messages : ℕ
default_max_history_messages = 20

pub data SessionError : Type 0 where
  session_not_found session_access_denied : Text → SessionError

-- the identity of a caller
pub record Caller : Type 0 where
  pub agent_name : Text
  pub user_id : Option Text
  pub tenant_id : Option Text

-- `del history[: len(history) - bound]`, if the history is over the bound
unfoldable pub trim : ℕ → List Message → List Message
trim bound history =
    if ltb bound (length history) then drop (length history - bound) history else history

unfoldable pub add_message : Session → Message → Time → Session
unfolding trim
add_message s message now = record s {
  conversation_history = trim s.max_history_messages (s.conversation_history ++ message ∷ []);
  last_active_at = now;
}

-- `history[-limit:] if limit > 0 else []`; a slice that begins before the list begins at its start
unfoldable pub history_window : Session → ℕ → List Message
history_window s limit =
    if ltb 0 limit then drop (length s.conversation_history - limit) s.conversation_history else []

-- `(current - last_active_at).total_seconds() >= ttl_seconds`
unfoldable pub is_expired : Session → Time → Bool
is_expired s now = elim s.ttl_seconds [
  | none ↦ false
  | some ttl ↦ leb (s.last_active_at + seconds ttl) now
]

unfoldable pub matches_owner : Session → Caller → Bool
matches_owner s c =
    s.agent_name == c.agent_name && s.user_id == c.user_id && s.tenant_id == c.tenant_id

unfoldable pub message_count : Session → ℕ
message_count s = length s.conversation_history
