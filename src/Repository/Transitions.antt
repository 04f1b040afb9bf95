-- ===== src/Repository/Transitions.antt =====
-- `transition` of the agents' tables against `transition` of the catalog in memory.
use open_simple_agent.Base.Dict
use open_simple_agent.Base.Result.{Result, raised, returned}
use open_simple_agent.Catalog.Lifecycle.{same_status_iff}
use open_simple_agent.Catalog.Records
use open_simple_agent.Catalog.Records.{Catalog, transition_found, update, update_found, set_field}
use open_simple_agent.Repository.Rows.{
  Wire, AgentRow, Database, RepositoryError, save_row, catalog_error, assertion_failed,
}
use open_simple_agent.Repository.Agents
use open_simple_agent.Repository.Agents.{
  record_from_row, fetch_versions, transition_row, asserted, read_written,
}
use open_simple_agent.Base.{
  Bool-cases, List, Option-cases, ap, inl, inr, none, refl, some, sym, ◌∙◌, ◌≡◌,
}
use open_simple_agent.Base.Clock.{Time}
use open_simple_agent.Base.Dict.{Dict, get-put_self}
use open_simple_agent.Base.Same.{nat_eq, option_eq, pair_eq}
use open_simple_agent.Base.Text.{Text, text_eq}
use open_simple_agent.Catalog.{
  AgentCatalogError, AgentRecord, AgentRecordStatus, AgentVersion, may_become, same_status,
}
use open_simple_agent.Base.{Bool, Option, false, true}

-- the status that a call reports, or its error
abbrev pub table_verdict :
    {D : Type 0} → Result RepositoryError (AgentRecord D) → Result RepositoryError AgentRecordStatus
table_verdict (raised e) = raised e
table_verdict (returned r) = returned r.status

abbrev pub catalog_verdict :
    {D : Type 0}
    → Result AgentCatalogError (AgentRecord D)
    → Result RepositoryError AgentRecordStatus
catalog_verdict (raised e) = raised (catalog_error e)
catalog_verdict (returned r) = returned r.status

-- what a call reports whose record is gone when it reads it back
abbrev pub report :
    (stays : Bool)
    → Result RepositoryError AgentRecordStatus
    → Result RepositoryError AgentRecordStatus
report true verdict = verdict
report false (raised e) = raised e
report false (returned status) = raised assertion_failed

-- what is left under a key
abbrev pub left_of : {V : Type 0} → (stays : Bool) → Option V → Option V
left_of true found = found
left_of false found = none

module _ {D : Type 0} (W : Wire D) where
  read_saved :
      (db : Database W.Json) (agent_id : Text) (others : Database W.Json → Database W.Json)
      (stays : Bool) (row : AgentRow W.Json)
      → ((written : Database W.Json)
          → Dict.get (others written).agents agent_id
            ≡ left_of stays (Dict.get written.agents agent_id))
      → table_verdict (read_written W (save_row db agent_id row) agent_id others).1
        ≡ report stays (returned row.status)
  unfolding Agents.get record_from_row
  read_saved db agent_id others true row between =
      let saved = save_row db agent_id row in
      let found : Agents.get W (others saved) agent_id
          ≡ some (record_from_row W row (fetch_versions W (others saved) row.agent_id)) =
        rw (between saved, get-put_self db.agents agent_id row) refl in
      ap (λ r. table_verdict (asserted W (others saved) r).1) found
  read_saved db agent_id others false row between =
      let saved = save_row db agent_id row in
      let gone : Agents.get W (others saved) agent_id ≡ none = rw (between saved) refl in
      ap (λ r. table_verdict (asserted W (others saved) r).1) gone

  report_error : (stays : Bool) (e : RepositoryError) → report stays (raised e) ≡ raised e
  report_error true e = refl
  report_error false e = refl

  row_verdict :
      (db : Database W.Json) (c : Catalog D) (agent_id : Text) (requested : AgentRecordStatus)
      (now : Time) (others : Database W.Json → Database W.Json) (stays : Bool)
      (row : AgentRow W.Json) (versions : List (AgentVersion D))
      → ((written : Database W.Json)
          → Dict.get (others written).agents agent_id
            ≡ left_of stays (Dict.get written.agents agent_id))
      → Dict.get c agent_id ≡ some (record_from_row W row versions)
      → table_verdict (transition_row W db agent_id requested now others (some row)).1
        ≡ report stays (
            catalog_verdict
              (transition_found c agent_id requested now (some (record_from_row W row versions))).1)
  unfolding transition_row transition_found update update_found record_from_row set_field
  row_verdict db c agent_id requested now others stays row versions between known =
      elim (Bool-cases (same_status requested row.status)) [
        | inl same ↦
            let one = same_status_iff requested row.status same in
            rw same (
              read_saved db agent_id others stays _ between
              ∙ ap (λ (s : AgentRecordStatus). report stays (returned s)) one)
        | inr away ↦ elim (Bool-cases (may_become row.status requested)) [
          | inl allowed ↦ rw (away, allowed, known) (read_saved db agent_id others stays _ between)
          | inr forbidden ↦ rw (away, forbidden) (sym (report_error stays _))
        ]
      ]

  -- Where the tables and the catalog in memory hold the same record under an identifier, or none, a
  -- transition ends alike in both, with the same status or with the same error, if others leave the
  -- row of the agent alone between the write of the tables and the read after it. If others delete
  -- the row in between, the tables end with an `AssertionError` where the catalog gives the status.
  pub transition_agrees :
      (db : Database W.Json) (c : Catalog D) (agent_id : Text) (requested : AgentRecordStatus)
      (now : Time) (others : Database W.Json → Database W.Json) (stays : Bool)
      → ((written : Database W.Json)
          → Dict.get (others written).agents agent_id
            ≡ left_of stays (Dict.get written.agents agent_id))
      → Agents.get W db agent_id ≡ Dict.get c agent_id
      → table_verdict (Agents.transition W db agent_id requested now others).1
        ≡ report stays (catalog_verdict (Records.transition c agent_id requested now).1)
  unfolding Agents.get Agents.transition Records.transition transition_row transition_found
  transition_agrees db c agent_id requested now others stays between same =
      elim (Option-cases (Dict.get db.agents agent_id)) [
        | inl missing ↦
            let gone : Dict.get c agent_id ≡ none = sym same ∙ rw missing refl in
            rw (missing, gone) (sym (report_error stays _))
        | inr (row, there) ↦
            let known : Dict.get c agent_id
                ≡ some (record_from_row W row (fetch_versions W db row.agent_id)) =
              sym same ∙ rw there refl in
            rw (there, known)
              (row_verdict db c agent_id requested now others stays row _ between known)
      ]
