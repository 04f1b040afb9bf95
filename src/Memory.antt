-- ===== src/Memory.antt =====
-- generic-agent/src/osa/generic_agent/memory.py: memory entries under a scope, and
-- `InMemoryProvider`. Enumeration members are written by their values. `str.lower` and the search
-- of one text in another are parameters.
pub mod Provider
pub mod Entries
mod Tests
use open_simple_agent.Base.{Option}
use open_simple_agent.Base.Clock.{Time}
use open_simple_agent.Base.Text.{Text, or_else, text}

abbrev pub application_scope_id : Text
application_scope_id = text "osa"

pub data MemoryScope : Type 0 where
  user agent tenant application : MemoryScope

abbrev pub scope_text : MemoryScope → Text
scope_text user = text "user"
scope_text agent = text "agent"
scope_text tenant = text "tenant"
scope_text application = text "application"

unfoldable pub memory_scope_id : MemoryScope → Option Text → Text → Option Text → Text
memory_scope_id user user_id agent_name tenant_id = or_else user_id (text "anonymous")
memory_scope_id agent user_id agent_name tenant_id = agent_name
memory_scope_id tenant user_id agent_name tenant_id = or_else tenant_id (text "default")
memory_scope_id application user_id agent_name tenant_id = application_scope_id

pub record MemoryEntry : Type 0 where
  pub key : Text
  pub content : Text
  pub scope : MemoryScope
  pub scope_id : Text
  pub entry_id : Text
  pub created_at : Time
  pub updated_at : Time
