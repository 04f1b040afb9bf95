-- ===== src/Repository/Storage.antt =====
-- What is read back from the agents' tables.
use open_simple_agent.Base.Dict
use open_simple_agent.Base.Dict.{get-put_self}
use open_simple_agent.Base.{◌∙◌}
use open_simple_agent.Base.Result.{returned}
use open_simple_agent.Repository.Rows.{Wire, Database, versions_of, save_row, is_taken}
use open_simple_agent.Repository.Agents
use open_simple_agent.Repository.Agents.{
  dump_definition, load_definition, agent_row, record_from_row, fetch_versions, create, read_row,
}
use open_simple_agent.Base.{
  Bool-cases, Option, [], ap, arith, inl, inr, is_some, none, refl, some, ◌≡◌,
}
use open_simple_agent.Base.Dict.{Dict}
use open_simple_agent.Base.Same.{nat_eq, option_eq, pair_eq}
use open_simple_agent.Base.Text.{Text, text, text_eq}
use open_simple_agent.Catalog.{AgentRecord}

module _ {D : Type 0} (W : Wire D) where
  load-dump_definition :
      (definition : Option D) → load_definition W (dump_definition W definition) ≡ definition
  unfolding load_definition dump_definition
  load-dump_definition none = refl
  load-dump_definition (some d) = ap some (W.load-dump d)

  -- the fields that a row keeps
  record-agent_row :
      (r : AgentRecord D)
      → record_from_row W (agent_row W r) []
        ≡ record r { versions = []; agent_type = text "managed" }
  unfolding record_from_row agent_row
  record-agent_row r = rw (load-dump_definition r.definition) refl

  no_versions :
      (db : Database W.Json) (agent_id : Text)
      → versions_of db agent_id ≡ []
      → fetch_versions W db agent_id ≡ []
  unfolding fetch_versions
  no_versions db agent_id none_yet = rw none_yet refl

  -- What `create` accepts is what `get` then finds, but for two fields: the versions, which `create`
  -- does not store (there are none under this identifier), and the type of the agent, which reads
  -- `managed`.
  pub get-create :
      (db db' : Database W.Json) (r : AgentRecord D)
      → create W db r ≡ (db', returned r)
      → versions_of db r.agent_id ≡ []
      → Agents.get W db' r.agent_id ≡ some (record r { versions = []; agent_type = text "managed" })
  unfolding create Agents.get agent_row
  get-create db db' r h none_yet = elim (Bool-cases (is_some (Dict.get db.agents r.agent_id))) [
    | inl there ↦ absurd (ground arith)
    | inr absent ↦ elim (Bool-cases (is_taken db.agents (agent_row W r))) [
      | inl taken ↦ absurd (ground arith)
      | inr free ↦
          let saved : save_row db r.agent_id (agent_row W r) ≡ db' =
            ap (λ x. x.0) (rw (absent, free) at h) in
          rw (← saved, get-put_self db.agents r.agent_id (agent_row W r))
            (ap some (
              ap (record_from_row W (agent_row W r))
                (no_versions (save_row db r.agent_id (agent_row W r)) r.agent_id none_yet)
              ∙ record-agent_row r))
    ]
  ]
