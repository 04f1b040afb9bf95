-- ===== src/Repository/Tests.antt =====
-- Concrete runs of the repositories, and the theorems at concrete inputs.
use open_simple_agent.Base.Dict.{get, put}
use open_simple_agent.Base.Result.{returned}
use open_simple_agent.Catalog.{AgentRecord, active, draft}
use open_simple_agent.Catalog.Records
use open_simple_agent.Catalog.Records.{Catalog}
use open_simple_agent.Repository.Rows.{Wire, Database}
use open_simple_agent.Repository.Agents
use open_simple_agent.Repository.Agents.{create, agent_row, dump_definition}
use open_simple_agent.Repository.Storage.{get-create}
use open_simple_agent.Repository.Transitions.{
  table_verdict, catalog_verdict, transition_agrees, report, left_of,
}
use open_simple_agent.Repository.Audit.{AuditEvent, memory_events, table_events, pages_apart}
use open_simple_agent.Repository.Resources.{Item}
use open_simple_agent.Repository.Resources.Memory
use open_simple_agent.Repository.Resources.Table
use open_simple_agent.Repository.Resources.Table.{ResourceRow, SpecJson, has_repeat}
use open_simple_agent.Repository.Resources.Agreement.{view, resources_agree}
use mathlib.Core.Option
use open_simple_agent.Base.{List, [], arith, if◌then◌else◌, none, refl, some, ℕ, ◌∷◌, ◌≡◌}
use open_simple_agent.Base.Same.{nat_eq, option_eq, pair_eq}
use open_simple_agent.Base.Text.{text, text_eq, text_same}
use open_simple_agent.Base.{true, ◌&&◌}
use open_simple_agent.Base.{false, ◌∙◌}
use open_simple_agent.Base.Dict.{get-erase}
use open_simple_agent.Base.Same.{same_refl}

-- numbers as definitions, which JSON keeps
abbrev plain : Wire ℕ
plain = record { Json = ℕ; dump = λ d. d; load = λ d. d; load-dump = λ d. refl; show = λ n. n ∷ [] }

abbrev vacant : Database ℕ
vacant = record { agents = []; versions = []; next_id = 1 }

abbrev scribe : AgentRecord ℕ
scribe = record {
  agent_id = text "a";
  name = text "scribe";
  description = text "";
  status = draft;
  definition = some 3;
  versions = [];
  current_version = text "1";
  skills = [];
  runtime = text "adk";
  endpoint = none;
  agent_type = text "external";
  tenant_id = none;
  labels = [];
  created_at = 1;
  updated_at = 1;
}

abbrev with_scribe : Database ℕ
with_scribe = record vacant { agents = (text "a", agent_row plain scribe) ∷ [] }

scribe_created : create plain vacant scribe ≡ (with_scribe, returned scribe)
unfolding create get put agent_row
scribe_created = refl

get-create_example :
    Agents.get plain with_scribe (text "a")
    ≡ some (record scribe { versions = []; agent_type = text "managed" })
get-create_example = get-create plain vacant with_scribe scribe scribe_created refl

abbrev beside : Catalog ℕ
beside = (text "a", record scribe { agent_type = text "managed" }) ∷ []

same_scribe : Agents.get plain with_scribe (text "a") ≡ get beside (text "a")
unfolding Agents.get Agents.record_from_row Agents.fetch_versions Agents.load_definition agent_row
    dump_definition get text_same
same_scribe = refl

-- somebody deletes the agent between the two transactions
abbrev deleting : Database ℕ → Database ℕ
deleting db = (Agents.delete plain db (text "a")).0

deleting_leaves :
    (written : Database ℕ)
    → get (deleting written).agents (text "a") ≡ left_of false (get written.agents (text "a"))
unfolding Agents.delete
deleting_leaves written =
    get-erase written.agents (text "a") (text "a") ∙ rw (same_refl (text "a")) refl

transition_agrees_example :
    table_verdict (Agents.transition plain with_scribe (text "a") active 2 deleting).1
    ≡ report false (catalog_verdict (Records.transition beside (text "a") active 2).1)
transition_agrees_example =
    transition_agrees plain with_scribe beside (text "a") active 2 deleting false deleting_leaves
      same_scribe

abbrev event_at : ℕ → AuditEvent ℕ
event_at t = record {
  event_id = t ∷ [];
  actor = text "u";
  action = text "deploy";
  target = text "a";
  occurred_at = t;
  detail = 0;
  tenant_id = none;
}

abbrev three_events : List (AuditEvent ℕ)
three_events = event_at 1 ∷ event_at 2 ∷ event_at 3 ∷ []

pages_apart_example :
    (memory_events three_events 2 none ≡ event_at 2 ∷ event_at 3 ∷ [])
    × (table_events three_events 2 none ≡ event_at 1 ∷ event_at 2 ∷ [])
pages_apart_example = pages_apart three_events 2 none (omega arith) (refl, (refl, tt))

abbrev plain_spec : SpecJson ℕ
plain_spec = record { Json = ℕ; dump = λ d. d; load = λ d. d; load-dump = λ d. refl }

abbrev one_model : List (ResourceRow ℕ)
one_model = record { tenant_id = text ""; kind = text "Model"; name = text "m"; spec = 4 } ∷ []

abbrev two_items : List (Item ℕ)
two_items = (text "Model", (text "m", 5)) ∷ (text "Tool", (text "t", 6)) ∷ []

resources_agree_example :
    let seen = view plain_spec one_model in
    (view plain_spec (Table.upsert plain_spec one_model (text "Model") (text "m") 7 none)
      ≡ Memory.upsert seen (text "Model") (text "m") 7 none)
    × (Option.map (view plain_spec) (Table.upsert_many plain_spec true one_model two_items none) ≡ (
        if true && has_repeat two_items
        then none
        else some (Memory.upsert_many seen two_items none)))
    × (Table.get plain_spec one_model (text "Model") (text "m") none
        ≡ Memory.get seen (text "Model") (text "m") none)
    × (Table.list plain_spec one_model (text "Model") none ≡ Memory.list seen (text "Model") none)
    × (Table.list_all plain_spec one_model (text "Model") ≡ Memory.list_all seen (text "Model"))
    × (view plain_spec (Table.delete one_model (text "Model") (text "m") none).0
        ≡ (Memory.delete seen (text "Model") (text "m") none).0)
    × ((Table.delete one_model (text "Model") (text "m") none).1
        ≡ (Memory.delete seen (text "Model") (text "m") none).1)
resources_agree_example =
    resources_agree plain_spec one_model (text "Model") (text "m") 7 two_items none true
