-- ===== src/Repository/Deployments.antt =====
-- repositories.py: `DeploymentRecord` and its repositories. The one in memory also shares its
-- records with its callers, who may write to them; here a record is a value. The texts of a status
-- and of a fault are constructors.
use open_simple_agent.Base.Dict.{get, put, erase}
use open_simple_agent.Base.{
  Bool, List, Option, [], false, if◌then◌else◌, is_some, ltb, none, some, true, ◌∷◌,
}
use open_simple_agent.Base.Clock.{Time}
use open_simple_agent.Base.Dict.{Dict, values}
use open_simple_agent.Base.Lists.{filter}
use open_simple_agent.Base.Same.{nat_eq, option_eq, pair_eq, ◌==◌}
use open_simple_agent.Base.Text.{Text, text_eq}
use open_simple_agent.Deployment.{DeploymentStatus, Fault}

pub record DeploymentRecord : Type 0 where
  pub deployment_id : Text
  pub agent_id : Text
  pub tenant_id : Option Text
  pub agent_name : Text
  pub version : Text
  pub status : DeploymentStatus
  pub detail : Option Fault
  pub invoke_url : Option Text
  pub created_at : Time
  pub updated_at : Time

-- which repository holds the records; SQLite takes the SQL of PostgreSQL, but its
-- `upsert_if_owned` does not check the lease
pub data RecordStore : Type 0 where
  in_memory sqlite postgres : RecordStore

abbrev pub Records : Type 0
Records = Dict Text DeploymentRecord

-- `ON CONFLICT (deployment_id) DO UPDATE SET status, detail, invoke_url, updated_at`
unfoldable pub merge_row : DeploymentRecord → Option DeploymentRecord → DeploymentRecord
merge_row new none = new
merge_row new (some row) = record row {
  status = new.status;
  detail = new.detail;
  invoke_url = new.invoke_url;
  updated_at = new.updated_at;
}

unfoldable pub upsert : RecordStore → Records → DeploymentRecord → Records
upsert in_memory rows r = put rows r.deployment_id r
upsert sqlite rows r = put rows r.deployment_id (merge_row r (get rows r.deployment_id))
upsert postgres rows r = put rows r.deployment_id (merge_row r (get rows r.deployment_id))

-- `current` is what the lookup of the lease's row finds in the same transaction
unfoldable pub upsert_if_owned : RecordStore → Records → DeploymentRecord → Bool → Records × Bool
upsert_if_owned in_memory rows r current = (upsert in_memory rows r, true)
upsert_if_owned sqlite rows r current = (upsert sqlite rows r, true)
upsert_if_owned postgres rows r true = (upsert postgres rows r, true)
upsert_if_owned postgres rows r false = (rows, false)

-- a row takes its place behind those that are older
abbrev pub insert_by_age : DeploymentRecord → List DeploymentRecord → List DeploymentRecord
insert_by_age r [] = r ∷ []
insert_by_age r (q ∷ qs) =
    if ltb q.created_at r.created_at then q ∷ insert_by_age r qs else r ∷ q ∷ qs

-- `ORDER BY created_at ASC`
abbrev pub by_age : List DeploymentRecord → List DeploymentRecord
by_age [] = []
by_age (r ∷ rs) = insert_by_age r (by_age rs)

unfoldable pub list_for_agent : RecordStore → Records → Text → List DeploymentRecord
list_for_agent in_memory rows agent_id = filter (λ r. r.agent_id == agent_id) (values rows)
list_for_agent sqlite rows agent_id = by_age (filter (λ r. r.agent_id == agent_id) (values rows))
list_for_agent postgres rows agent_id = by_age (filter (λ r. r.agent_id == agent_id) (values rows))

unfoldable pub delete : Records → Text → Records × Bool
delete rows deployment_id = (erase rows deployment_id, is_some (get rows deployment_id))
