-- ===== src/Repository/Agents.antt =====
-- repositories.py: `PostgresAgentRepository`, which SQLite shares. A
-- transaction is one step: `update` and `transition` are two, with what others do in between. A
-- primary key is checked before the other constraints. Not modelled: the lists and searches, whose
-- order and case are those of the database's collation.
use mathlib.Core.List.{map}
use open_simple_agent.Base.Dict
use open_simple_agent.Base.Dict.{erase}
use open_simple_agent.Repository.Rows.{
  Wire, AgentRow, VersionRow, Database, RepositoryError, ColumnChange, catalog_error,
  integrity_violated, set_columns, is_taken, in_order, versions_of, save_row,
}
use open_simple_agent.Base.{
  Bool, List, Option, [], false, if◌then◌else◌, is_some, none, not, or_default, some, ◌&&◌, ◌++◌,
  ◌+◌, ◌∷◌,
}
use open_simple_agent.Base.Clock.{Time}
use open_simple_agent.Base.Dict.{Dict, values}
use open_simple_agent.Base.Lists.{any, filter}
use open_simple_agent.Base.Result.{Result, raised, returned}
use open_simple_agent.Base.Same.{nat_eq, option_eq, pair_eq, ◌==◌}
use open_simple_agent.Base.Text.{Text, text, text_eq}
use open_simple_agent.Catalog.{
  AgentRecord, AgentRecordStatus, AgentVersion, agent_not_found, concurrent_update, duplicate_agent,
  duplicate_version, invalid_transition, may_become, same_status,
}
use open_simple_agent.Repository.Rows.{assertion_failed}

module _ {D : Type 0} (W : Wire D) where
  unfoldable pub dump_definition : Option D → Option W.Json
  dump_definition none = none
  dump_definition (some d) = some (W.dump d)

  unfoldable pub load_definition : Option W.Json → Option D
  load_definition none = none
  load_definition (some j) = some (W.load j)

  -- the values that `create` inserts
  unfoldable pub agent_row : AgentRecord D → AgentRow W.Json
  agent_row r = record {
    agent_id = r.agent_id;
    name = r.name;
    description = r.description;
    status = r.status;
    current_version = r.current_version;
    runtime = r.runtime;
    endpoint = r.endpoint;
    tenant_id = r.tenant_id;
    definition = dump_definition r.definition;
    skills = r.skills;
    labels = r.labels;
    created_at = r.created_at;
    updated_at = r.updated_at;
  }

  -- the field `agent_type`, which has no column, takes its default
  unfoldable pub record_from_row : AgentRow W.Json → List (AgentVersion D) → AgentRecord D
  record_from_row row versions = record {
    agent_id = row.agent_id;
    name = row.name;
    description = row.description;
    status = row.status;
    definition = load_definition row.definition;
    versions = versions;
    current_version = row.current_version;
    skills = row.skills;
    runtime = row.runtime;
    endpoint = row.endpoint;
    agent_type = text "managed";
    tenant_id = row.tenant_id;
    labels = row.labels;
    created_at = row.created_at;
    updated_at = row.updated_at;
  }

  unfoldable pub version_from_row : VersionRow W.Json → AgentVersion D
  version_from_row row = record {
    version_id = W.show row.id;
    version = row.version;
    definition = load_definition row.definition;
    created_at = row.created_at;
    created_by = row.created_by;
    change_summary = row.change_summary;
  }

  unfoldable pub fetch_versions : Database W.Json → Text → List (AgentVersion D)
  fetch_versions db agent_id = map version_from_row (in_order (versions_of db agent_id))

  abbrev pub read_row : Database W.Json → Option (AgentRow W.Json) → Option (AgentRecord D)
  read_row db none = none
  read_row db (some row) = some (record_from_row row (fetch_versions db row.agent_id))

  unfoldable pub get : Database W.Json → Text → Option (AgentRecord D)
  get db agent_id = read_row db (Dict.get db.agents agent_id)

  -- the first row that passes
  abbrev pub first_row :
      (AgentRow W.Json → Bool) → List (AgentRow W.Json) → Option (AgentRow W.Json)
  first_row test [] = none
  first_row test (r ∷ rs) = if test r then some r else first_row test rs

  unfoldable pub get_by_name : Database W.Json → Text → Option Text → Option (AgentRecord D)
  get_by_name db name tenant_id =
      read_row db (first_row (λ r. r.name == name && r.tenant_id == tenant_id) (values db.agents))

  unfoldable pub create :
      Database W.Json → AgentRecord D → Database W.Json × Result RepositoryError (AgentRecord D)
  create db r =
      if is_some (Dict.get db.agents r.agent_id)
      then (db, raised integrity_violated)
      else if is_taken db.agents (agent_row r)
      then (db, raised (catalog_error (duplicate_agent r.name)))
      else (save_row db r.agent_id (agent_row r), returned r)

  abbrev pub found_or_error :
      Database W.Json
      → Text
      → Option (AgentRecord D)
      → Database W.Json × Result RepositoryError (AgentRecord D)
  found_or_error db agent_id none = (db, raised (catalog_error (agent_not_found agent_id)))
  found_or_error db agent_id (some r) = (db, returned r)

  -- the record, or a `KeyError`
  abbrev pub read_back :
      Database W.Json → Text → Database W.Json × Result RepositoryError (AgentRecord D)
  read_back db agent_id = found_or_error db agent_id (get db agent_id)

  abbrev pub asserted :
      Database W.Json
      → Option (AgentRecord D)
      → Database W.Json × Result RepositoryError (AgentRecord D)
  asserted db none = (db, raised assertion_failed)
  asserted db (some r) = (db, returned r)

  -- the second transaction after a write: the read, and the `assert` that it finds a record
  abbrev pub read_written :
      Database W.Json
      → Text
      → (Database W.Json → Database W.Json)
      → Database W.Json × Result RepositoryError (AgentRecord D)
  read_written db agent_id others = asserted (others db) (get (others db) agent_id)

  -- `expected_version` is given, and is not the version of the row
  abbrev pub is_outdated : Option Text → AgentRow W.Json → Bool
  is_outdated none row = false
  is_outdated (some expected) row = not (row.current_version == expected)

  unfoldable pub update_row :
      Database W.Json
      → Text
      → Option Text
      → List (ColumnChange W.Json)
      → Time
      → (Database W.Json → Database W.Json)
      → Option (AgentRow W.Json)
      → Database W.Json × Result RepositoryError (AgentRecord D)
  update_row db agent_id expected changes now others none =
      (db, raised (catalog_error (agent_not_found agent_id)))
  update_row db agent_id expected changes now others (some row) =
      let row' : AgentRow W.Json = record (set_columns row changes) { updated_at = now } in
      if is_outdated expected row
      then (db, raised (catalog_error (concurrent_update agent_id (or_default expected (text "")))))
      else if is_taken db.agents row'
      then (db, raised integrity_violated)
      else read_written (save_row db agent_id row') agent_id others

  -- the changes are those of updatable columns; without any there is only a read
  unfoldable pub update :
      Database W.Json
      → Text
      → Option Text
      → List (ColumnChange W.Json)
      → Time
      → (Database W.Json → Database W.Json)
      → Database W.Json × Result RepositoryError (AgentRecord D)
  update db agent_id expected [] now others = read_back db agent_id
  update db agent_id expected (change ∷ changes) now others =
      update_row db agent_id expected (change ∷ changes) now others (Dict.get db.agents agent_id)

  unfoldable pub transition_row :
      Database W.Json
      → Text
      → AgentRecordStatus
      → Time
      → (Database W.Json → Database W.Json)
      → Option (AgentRow W.Json)
      → Database W.Json × Result RepositoryError (AgentRecord D)
  transition_row db agent_id requested now others none =
      (db, raised (catalog_error (agent_not_found agent_id)))
  transition_row db agent_id requested now others (some row) =
      if not (same_status requested row.status) && not (may_become row.status requested)
      then (db, raised (catalog_error (invalid_transition row.status requested)))
      else read_written (save_row db agent_id (record row { status = requested; updated_at = now }))
          agent_id others

  unfoldable pub transition :
      Database W.Json
      → Text
      → AgentRecordStatus
      → Time
      → (Database W.Json → Database W.Json)
      → Database W.Json × Result RepositoryError (AgentRecord D)
  transition db agent_id requested now others =
      transition_row db agent_id requested now others (Dict.get db.agents agent_id)

  -- the versions go with their agent
  unfoldable pub delete : Database W.Json → Text → Database W.Json × Bool
  delete db agent_id = (
    record db {
      agents = erase db.agents agent_id;
      versions = filter (λ v. not (v.agent_id == agent_id)) db.versions;
    },
    is_some (Dict.get db.agents agent_id),
  )

  -- `version.definition`, or that of the row
  abbrev pub snapshot : AgentRow W.Json → AgentVersion D → Option D
  snapshot row v = elim v.definition [ none ↦ load_definition row.definition | some d ↦ some d ]

  abbrev pub insert_row : Database W.Json → Text → AgentVersion D → Option D → Database W.Json
  insert_row db agent_id v definition = record db {
    versions =
        db.versions
        ++ (record {
          id = db.next_id;
          agent_id = agent_id;
          version = v.version;
          definition = dump_definition definition;
          change_summary = v.change_summary;
          created_by = v.created_by;
          created_at = v.created_at;
        }
            ∷ []);
    next_id = db.next_id + 1;
  }

  unfoldable pub add_version_row :
      Database W.Json
      → Text
      → AgentVersion D
      → Time
      → Option (AgentRow W.Json)
      → Database W.Json × Result RepositoryError (AgentVersion D)
  add_version_row db agent_id v now none = (db, raised (catalog_error (agent_not_found agent_id)))
  add_version_row db agent_id v now (some row) =
      let definition = snapshot row v in
      let row' : AgentRow W.Json = record row {
        current_version = v.version;
        definition = dump_definition definition;
        updated_at = now;
      } in
      if any (λ (q : VersionRow W.Json). q.version == v.version) (versions_of db agent_id)
      then (db, raised (catalog_error (duplicate_version row.name v.version)))
      else (
        save_row (insert_row db agent_id v definition) agent_id row',
        returned (record v { definition = definition }),
      )

  unfoldable pub add_version :
      Database W.Json
      → Text
      → AgentVersion D
      → Time
      → Database W.Json × Result RepositoryError (AgentVersion D)
  add_version db agent_id v now = add_version_row db agent_id v now (Dict.get db.agents agent_id)
