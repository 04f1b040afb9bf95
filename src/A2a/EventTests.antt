-- ===== src/A2a/EventTests.antt =====
-- Concrete runs of the A2A event store, and the theorems at concrete inputs.
use open_simple_agent.A2a.Ownership.{Worker, is_current_owner, run_if_owned, first_row, snapshot}
use open_simple_agent.A2a.Events.{
  append_if_owned, append_on_connection, insert_event, check_event, resolve_tenant_id,
  validate_event_type, validate_payload, read_after, bounded_page, page, stream, Rows, A2aTaskEvent,
  scope_tenant, before_first,
}
use open_simple_agent.A2a.{TaskOwnership, TaskRow}
use open_simple_agent.Base.Dict.{get}
use open_simple_agent.Base.Text.{starts_with}
use open_simple_agent.Base.Int.{pos}
use open_simple_agent.A2a.{is_persistable, validate_all, validate_ownership, validate_text}
use open_simple_agent.A2a.Appends.{AllNumbered, append_if_owned-AllNumbered, read_after_page}
use open_simple_agent.Base.{List, [], false, none, refl, some, true, ◌++◌, ◌∷◌, ◌≡◌, ◌⊎◌}
use open_simple_agent.Base.Dict.{Dict}
use open_simple_agent.Base.Lists.{drop, take}
use open_simple_agent.Base.Result.{returned}
use open_simple_agent.Base.Same.{nat_eq, option_eq, pair_eq}
use open_simple_agent.Base.Table.{Table, dict_table}
use open_simple_agent.Base.Text.{Text, text, text_eq, text_same}
use open_simple_agent.Base.{Option, ℕ}

abbrev event_rows : Rows
event_rows = record {
  State = List A2aTaskEvent;
  rows = λ t. t;
  insert = λ t e. t ++ (e ∷ []);
  rows-insert = λ t e. refl;
}

abbrev owner_rows : Table Text TaskRow
owner_rows = dict_table

abbrev kim : Worker
kim = record { owner_id = text "kim"; lease_seconds = 30 }

abbrev kim_row : TaskRow
kim_row = first_row kim (text "c") (text "tenant:acme:subject:ann") 1000

abbrev kim_task : TaskOwnership
kim_task = snapshot (text "t") kim_row false

abbrev owners : Dict Text TaskRow
owners = (text "t", kim_row) ∷ []

abbrev started : A2aTaskEvent
started = record {
  tenant_id = text "acme";
  task_id = text "t";
  fencing_epoch = 1;
  sequence = 1;
  event_type = text "status";
  payload = 7 ∷ [];
  created_at = 2000;
}

tenant_of_scope : scope_tenant (text "tenant:acme:subject:ann") ≡ text "acme"
unfolding scope_tenant before_first starts_with
tenant_of_scope = refl

started_appended :
    append_if_owned event_rows owner_rows kim owners 1024 [] kim_task
      (text "status")
      (7 ∷ [])
      none
      2000
    ≡ returned (started ∷ [], some 1)
unfolding append_if_owned append_on_connection insert_event check_event resolve_tenant_id
    validate_event_type validate_payload validate_text validate_ownership validate_all
    is_persistable run_if_owned is_current_owner scope_tenant before_first starts_with get text_same
started_appended = refl

append_if_owned-AllNumbered_example :
    AllNumbered event_rows (started ∷ [])
    × (((is_current_owner kim kim_task 2000 (get owners (text "t")) ≡ false)
          × (◌≡◌ {A = List A2aTaskEvent} (started ∷ []) [])
          × (◌≡◌ {A = Option ℕ} (some 1) none))
        ⊎ ((is_current_owner kim kim_task 2000 (get owners (text "t")) ≡ true)
            × ((tenant : Text) × (e : A2aTaskEvent) × (started ∷ [] ≡ e ∷ [])
                × (◌≡◌ {A = Option ℕ} (some 1) (some e.sequence))
                × (e.sequence ≡ 1)
                × (e.tenant_id ≡ tenant)
                × (e.task_id ≡ text "t")
                × (e.fencing_epoch ≡ 1))))
append_if_owned-AllNumbered_example =
    append_if_owned-AllNumbered event_rows owner_rows kim owners 1024 [] kim_task (text "status")
      (7 ∷ []) none 2000 {t' = started ∷ []} {r = some 1} started_appended (λ tenant task. tt)

page_read :
    read_after event_rows (started ∷ []) (text "acme") (text "t") (pos 0) (pos 5)
    ≡ returned (started ∷ [])
unfolding read_after bounded_page page validate_all validate_text is_persistable text_same
page_read = refl

read_after_page_example :
    started ∷ [] ≡ take 5 (drop 0 (stream event_rows (started ∷ []) (text "acme") (text "t")))
read_after_page_example =
    read_after_page event_rows (started ∷ []) (text "acme") (text "t") 0 4 {es = started ∷ []}
      page_read append_if_owned-AllNumbered_example.0
