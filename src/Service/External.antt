-- ===== src/Service/External.antt =====
-- The guard of `deploy` against external agents, where the agents stand in SQL tables.
use open_simple_agent.Base.Result.{raised, returned}
use open_simple_agent.Repository.Agents
use open_simple_agent.Repository.Agents.{create}
use open_simple_agent.Repository.Rows.{Wire, Database, versions_of}
use open_simple_agent.Repository.Storage.{get-create}
use open_simple_agent.Service.Interfaces.{AgentDefinition}
use open_simple_agent.Service.Operations.{deployable}
use open_simple_agent.Service.{external_agent}
use open_simple_agent.Base.{[], refl, some, true, ◌≡◌}
use open_simple_agent.Base.Same.{nat_eq, option_eq, pair_eq, ◌==◌}
use open_simple_agent.Base.Text.{text, text_eq, text_same}
use open_simple_agent.Catalog.{AgentRecord, active, same_status}

-- An active external agent with a definition, which `deploy` refuses as it was given to `create`, is
-- one that `deploy` accepts as it is read back from the tables.
pub external_forgotten :
    (W : Wire AgentDefinition) (db db' : Database W.Json) (r : AgentRecord AgentDefinition)
    {d : AgentDefinition}
    → create W db r ≡ (db', returned r)
    → versions_of db r.agent_id ≡ []
    → r.definition ≡ some d
    → same_status r.status active ≡ true
    → (r.agent_type == text "external") ≡ true
    → (deployable r ≡ raised external_agent)
      × ((r' : AgentRecord AgentDefinition) × (Agents.get W db' r.agent_id ≡ some r')
          × (deployable r' ≡ returned d))
unfolding deployable text_same
external_forgotten W db db' r {d} stored fresh_id defined on outside = (
  rw (defined, on, outside) refl,
  (
    record r { versions = []; agent_type = text "managed" },
    get-create W db db' r stored fresh_id,
    rw (defined, on) refl,
  ),
)
