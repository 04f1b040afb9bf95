-- ===== src/Service/Snapshots.antt =====
-- deployment_service.py, `rollback`: the choice of the version that takes the deployment's place.
use open_simple_agent.Base.Result.{◌>>=◌, Result, raised, returned}
use open_simple_agent.Service.{ServiceError, no_earlier_version, no_snapshot}
use open_simple_agent.Service.Interfaces.{AgentDefinition}
use open_simple_agent.Base.{List, Option, [], if◌then◌else◌, none, not, some, ◌∷◌}
use open_simple_agent.Base.Lists.{filter}
use open_simple_agent.Base.Same.{nat_eq, option_eq, pair_eq, ◌==◌}
use open_simple_agent.Base.Text.{Text, text_eq}
use open_simple_agent.Catalog.{AgentRecord, AgentVersion}

-- the last element
abbrev pub last : {A : Type 0} → List A → Option A
last [] = none
last (x ∷ []) = some x
last (x ∷ y ∷ rest) = last (y ∷ rest)

-- `next((v for v in versions if v.version == target), None)`
abbrev pub find_version :
    Text → List (AgentVersion AgentDefinition) → Option (AgentVersion AgentDefinition)
find_version target [] = none
find_version target (v ∷ vs) = if v.version == target then some v else find_version target vs

-- `[v for v in agent.versions if v.version != agent.current_version]`
abbrev pub previous_versions : AgentRecord AgentDefinition → List (AgentVersion AgentDefinition)
previous_versions agent = filter (λ v. not (v.version == agent.current_version)) agent.versions

abbrev pub version_or_error : Option (AgentVersion AgentDefinition) → Result ServiceError Text
version_or_error none = raised no_earlier_version
version_or_error (some v) = returned v.version

unfoldable pub rollback_target :
    AgentRecord AgentDefinition → Option Text → Result ServiceError Text
rollback_target agent (some to_version) = returned to_version
rollback_target agent none = version_or_error (last (previous_versions agent))

abbrev pub snapshot_definition :
    Text → Option (AgentVersion AgentDefinition) → Result ServiceError AgentDefinition
snapshot_definition target none = raised (no_snapshot target)
snapshot_definition target (some v) = elim v.definition [
  | none ↦ raised (no_snapshot target)
  | some definition ↦ returned definition
]

-- the target version, and the definition of its snapshot
unfoldable pub rollback_snapshot :
    AgentRecord AgentDefinition → Option Text → Result ServiceError (Text × AgentDefinition)
rollback_snapshot agent to_version = do
  target ← rollback_target agent to_version
  definition ← snapshot_definition target (find_version target agent.versions)
  returned (target, definition)
