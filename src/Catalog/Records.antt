-- ===== src/Catalog/Records.antt =====
-- agent_catalog.py: `AgentCatalog`, with every operation that changes it. A record is a value
-- here: the caller of the source shares it with the catalog. An operation that raises leaves the
-- catalog as it was.
use open_simple_agent.Base.Dict.{get, put, erase}
use open_simple_agent.Base.{
  Bool, List, Option, [], false, if◌then◌else◌, is_some, none, not, or_default, some, ◌&&◌, ◌++◌,
  ◌∷◌,
}
use open_simple_agent.Base.Clock.{Time}
use open_simple_agent.Base.Dict.{Dict, values}
use open_simple_agent.Base.Lists.{any, filter}
use open_simple_agent.Base.Result.{Result, raised, returned}
use open_simple_agent.Base.Same.{nat_eq, option_eq, pair_eq, ◌==◌}
use open_simple_agent.Base.Text.{Text, text, text_eq}
use open_simple_agent.Catalog.{
  AgentCatalogError, AgentRecord, AgentRecordStatus, AgentVersion, agent_not_found,
  concurrent_update, disabled, duplicate_agent, duplicate_version, invalid_transition, may_become,
  same_status,
}

-- one keyword argument of `update`; other names are ignored there
pub data FieldChange (D : Type 0) : Type 0 where
  set_name set_description set_current_version set_runtime set_agent_type : Text → FieldChange D
  set_status : AgentRecordStatus → FieldChange D
  set_definition : Option D → FieldChange D
  set_versions : List (AgentVersion D) → FieldChange D
  set_skills : List Text → FieldChange D
  set_endpoint set_tenant_id : Option Text → FieldChange D
  set_labels : Dict Text Text → FieldChange D

abbrev pub Catalog : Type 0 → Type 0
Catalog D = Dict Text (AgentRecord D)

module _ {D : Type 0} where
  -- `setattr(record, key, value)`
  unfoldable pub set_field : AgentRecord D → FieldChange D → AgentRecord D
  set_field r (set_name value) = record r { name = value }
  set_field r (set_description value) = record r { description = value }
  set_field r (set_current_version value) = record r { current_version = value }
  set_field r (set_runtime value) = record r { runtime = value }
  set_field r (set_agent_type value) = record r { agent_type = value }
  set_field r (set_status value) = record r { status = value }
  set_field r (set_definition value) = record r { definition = value }
  set_field r (set_versions value) = record r { versions = value }
  set_field r (set_skills value) = record r { skills = value }
  set_field r (set_endpoint value) = record r { endpoint = value }
  set_field r (set_tenant_id value) = record r { tenant_id = value }
  set_field r (set_labels value) = record r { labels = value }

  abbrev pub set_fields : AgentRecord D → List (FieldChange D) → AgentRecord D
  set_fields r [] = r
  set_fields r (change ∷ changes) = set_fields (set_field r change) changes

  -- `r.name == name and r.tenant_id == tenant_id`
  abbrev pub is_named : Text → Option Text → AgentRecord D → Bool
  is_named name tenant_id r = r.name == name && r.tenant_id == tenant_id

  unfoldable pub create :
      Catalog D → AgentRecord D → Catalog D × Result AgentCatalogError (AgentRecord D)
  create c r =
      if any (is_named r.name r.tenant_id) (values c)
      then (c, raised (duplicate_agent r.name))
      else (put c r.agent_id r, returned r)

  -- the first record that passes a test
  abbrev pub first_where : (AgentRecord D → Bool) → List (AgentRecord D) → Option (AgentRecord D)
  first_where test [] = none
  first_where test (r ∷ rs) = if test r then some r else first_where test rs

  unfoldable pub get_by_name : Catalog D → Text → Option Text → Option (AgentRecord D)
  get_by_name c name tenant_id = first_where (is_named name tenant_id) (values c)

  unfoldable pub filter_by_status : Catalog D → AgentRecordStatus → List (AgentRecord D)
  filter_by_status c status = filter (λ r. same_status r.status status) (values c)

  unfoldable pub filter_by_skill : Catalog D → Text → List (AgentRecord D)
  filter_by_skill c skill = filter (λ r. any (λ s. s == skill) r.skills) (values c)

  unfoldable pub filter_by_runtime : Catalog D → Text → List (AgentRecord D)
  filter_by_runtime c runtime = filter (λ r. r.runtime == runtime) (values c)

  -- `expected_version is not None and record.current_version != expected_version`
  abbrev pub is_conflict : Option Text → AgentRecord D → Bool
  is_conflict none r = false
  is_conflict (some expected) r = not (r.current_version == expected)

  unfoldable pub update_found :
      Catalog D
      → Text
      → Option Text
      → List (FieldChange D)
      → Time
      → Option (AgentRecord D)
      → Catalog D × Result AgentCatalogError (AgentRecord D)
  update_found c agent_id expected changes now none = (c, raised (agent_not_found agent_id))
  update_found c agent_id expected changes now (some r) =
      let r' : AgentRecord D = record (set_fields r changes) { updated_at = now } in
      if is_conflict expected r
      then (c, raised (concurrent_update agent_id (or_default expected (text ""))))
      else (put c agent_id r', returned r')

  unfoldable pub update :
      Catalog D
      → Text
      → Option Text
      → List (FieldChange D)
      → Time
      → Catalog D × Result AgentCatalogError (AgentRecord D)
  update c agent_id expected changes now =
      update_found c agent_id expected changes now (get c agent_id)

  unfoldable pub transition_found :
      Catalog D
      → Text
      → AgentRecordStatus
      → Time
      → Option (AgentRecord D)
      → Catalog D × Result AgentCatalogError (AgentRecord D)
  transition_found c agent_id requested now none = (c, raised (agent_not_found agent_id))
  transition_found c agent_id requested now (some r) =
      if same_status requested r.status
      then (c, returned r)
      else if not (may_become r.status requested)
      then (c, raised (invalid_transition r.status requested))
      else update c agent_id none (set_status requested ∷ []) now

  unfoldable pub transition :
      Catalog D
      → Text
      → AgentRecordStatus
      → Time
      → Catalog D × Result AgentCatalogError (AgentRecord D)
  transition c agent_id requested now = transition_found c agent_id requested now (get c agent_id)

  unfoldable pub disable :
      Catalog D → Text → Time → Catalog D × Result AgentCatalogError (AgentRecord D)
  disable c agent_id now = transition c agent_id disabled now

  unfoldable pub delete : Catalog D → Text → Catalog D × Bool
  delete c agent_id = (erase c agent_id, is_some (get c agent_id))

  -- the version that is stored: without a definition of its own it takes the record's
  abbrev pub snapshot_version : AgentRecord D → AgentVersion D → AgentVersion D
  snapshot_version r v = record v {
    definition = elim v.definition [ none ↦ r.definition | some d ↦ some d ];
  }

  -- `version.definition` if it is there, else the old one
  abbrev pub or_old : Option D → Option D → Option D
  or_old none old = old
  or_old (some d) old = some d

  abbrev pub versioned : AgentRecord D → AgentVersion D → Time → AgentRecord D
  versioned r v now = record r {
    versions = r.versions ++ (v ∷ []);
    current_version = v.version;
    definition = or_old v.definition r.definition;
    updated_at = now;
  }

  unfoldable pub add_version_found :
      Catalog D
      → Text
      → AgentVersion D
      → Time
      → Option (AgentRecord D)
      → Catalog D × Result AgentCatalogError (AgentVersion D)
  add_version_found c agent_id v now none = (c, raised (agent_not_found agent_id))
  add_version_found c agent_id v now (some r) =
      let stored = snapshot_version r v in
      if any (λ (existing : AgentVersion D). existing.version == v.version) r.versions
      then (c, raised (duplicate_version r.name v.version))
      else (put c agent_id (versioned r stored now), returned stored)

  unfoldable pub add_version :
      Catalog D
      → Text
      → AgentVersion D
      → Time
      → Catalog D × Result AgentCatalogError (AgentVersion D)
  add_version c agent_id v now = add_version_found c agent_id v now (get c agent_id)
