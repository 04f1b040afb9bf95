-- ===== src/Catalog.antt =====
-- control-plane/backend/src/osa/control_plane/backend/agent_catalog.py: the records of the agent
-- catalog and their life cycle. The definition of an agent (`AgentDefinition`) is only stored, so
-- its type is a parameter.
pub mod Records
pub mod Lifecycle
pub mod Names
pub mod Versions
mod Tests
use open_simple_agent.Base.{Bool, List, Option, [], ℕ, ◌∷◌}
use open_simple_agent.Base.Clock.{Time}
use open_simple_agent.Base.Dict.{Dict}
use open_simple_agent.Base.Lists.{any}
use open_simple_agent.Base.Same.{nat_eq, option_eq, pair_eq, ◌==◌}
use open_simple_agent.Base.Text.{Text, text_eq}

pub data AgentRecordStatus : Type 0 where
  draft active disabled archived : AgentRecordStatus

-- one number for each member, to compare them
abbrev pub status_code : AgentRecordStatus → ℕ
status_code draft = 0
status_code active = 1
status_code disabled = 2
status_code archived = 3

-- `_VALID_TRANSITIONS`
abbrev pub valid_transitions : AgentRecordStatus → List AgentRecordStatus
valid_transitions draft = active ∷ archived ∷ []
valid_transitions active = disabled ∷ archived ∷ []
valid_transitions disabled = active ∷ archived ∷ []
valid_transitions archived = []

abbrev pub same_status : AgentRecordStatus → AgentRecordStatus → Bool
same_status a b = status_code a == status_code b

-- `new_status in _VALID_TRANSITIONS[current]`
unfoldable pub may_become : AgentRecordStatus → AgentRecordStatus → Bool
may_become current requested = any (λ s. same_status s requested) (valid_transitions current)

pub data AgentCatalogError : Type 0 where
  duplicate_agent : (name : Text) → AgentCatalogError
  invalid_transition : (current requested : AgentRecordStatus) → AgentCatalogError
  duplicate_version : (agent_name version : Text) → AgentCatalogError
  concurrent_update : (agent_id expected_version : Text) → AgentCatalogError
  agent_not_found : (agent_id : Text) → AgentCatalogError

pub record AgentVersion (D : Type 0) : Type 0 where
  pub version_id : Text
  pub version : Text
  pub definition : Option D
  pub created_at : Time
  pub created_by : Text
  pub change_summary : Text

pub record AgentRecord (D : Type 0) : Type 0 where
  pub agent_id : Text
  pub name : Text
  pub description : Text
  pub status : AgentRecordStatus
  pub definition : Option D
  pub versions : List (AgentVersion D)
  pub current_version : Text
  pub skills : List Text
  pub runtime : Text
  pub endpoint : Option Text
  pub agent_type : Text
  pub tenant_id : Option Text
  pub labels : Dict Text Text
  pub created_at : Time
  pub updated_at : Time
