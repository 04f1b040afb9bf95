-- ===== src/A2a/Tests.antt =====
-- Concrete runs of the A2A ownership store, and the theorems at concrete inputs.
use open_simple_agent.Base.{Option}
use open_simple_agent.Base.Dict.{get, put}
use open_simple_agent.A2a.Ownership.{
  Worker, acquire, request_cancel, is_cancel_requested, is_current_owner, acquire_row, update_where,
}
use open_simple_agent.A2a.Steps.{after, at_start, acquires}
use open_simple_agent.A2a.{completed}
use open_simple_agent.A2a.{TaskOwnership, TaskRow, is_persistable, validate_all, validate_text}
use open_simple_agent.A2a.Leases.{
  IsPowerless, request_cancel-is_cancel_requested, run_if_owned-acquire, takeover, terminal_final,
}
use open_simple_agent.A2a.Ownership.{canceled_row, first_row, reclaimed_row, released_row, snapshot}
use open_simple_agent.Base.{Bool, [], false, none, refl, some, true, ◌<◌, ◌∷◌, ◌≡◌}
use open_simple_agent.Base.Clock.{Time}
use open_simple_agent.Base.Dict.{Dict}
use open_simple_agent.Base.Result.{returned}
use open_simple_agent.Base.Same.{nat_eq, option_eq, pair_eq}
use open_simple_agent.Base.Table.{Table, dict_table}
use open_simple_agent.Base.Text.{Text, text, text_eq, text_same}
use open_simple_agent.Base.{arith}

abbrev ann : Worker
ann = record { owner_id = text "ann"; lease_seconds = 30 }

abbrev bob : Worker
bob = record { owner_id = text "bob"; lease_seconds = 30 }

abbrev task_rows : Table Text TaskRow
task_rows = dict_table

abbrev ann_row : TaskRow
ann_row = first_row ann (text "c") (text "s") 1000

abbrev ann_rows : Dict Text TaskRow
ann_rows = (text "t", ann_row) ∷ []

abbrev ann_task : TaskOwnership
ann_task = snapshot (text "t") ann_row false

ann_acquires :
    acquire task_rows ann [] (text "t") (text "c") (text "s") 1000
    ≡ returned (ann_rows, some ann_task)
unfolding acquire acquire_row validate_all validate_text is_persistable get put
ann_acquires = refl

abbrev bob_row : TaskRow
bob_row = reclaimed_row bob ann_row (text "c") (text "s") 40000000

abbrev bob_rows : Dict Text TaskRow
bob_rows = (text "t", bob_row) ∷ []

abbrev bob_task : TaskOwnership
bob_task = snapshot (text "t") bob_row true

bob_acquires :
    acquire task_rows bob ann_rows (text "t") (text "c") (text "s") 40000000
    ≡ returned (bob_rows, some bob_task)
unfolding acquire acquire_row validate_all validate_text is_persistable get put text_same
bob_acquires = refl

takeover_example : (1 < 2) × IsPowerless task_rows bob_rows ann_task
takeover_example =
    takeover task_rows ann bob [] (text "t") (text "c") (text "s") 1000 {t1 = ann_rows}
      {first = ann_task} ann_acquires at_start (text "c") (text "s") 40000000 {t3 = bob_rows}
      {next = bob_task} bob_acquires at_start

abbrev done_rows : Dict Text TaskRow
done_rows = (text "t", released_row ann_task completed ann_row) ∷ []

again_refused :
    acquire task_rows bob done_rows (text "t") (text "c") (text "s") 40000000
    ≡ returned (done_rows, none)
unfolding acquire acquire_row validate_all validate_text is_persistable get put text_same
again_refused = refl

terminal_final_example : get done_rows (text "t") ≡ get done_rows (text "t")
unfolding get text_same
terminal_final_example =
    terminal_final task_rows
      (after at_start (
        acquires done_rows done_rows bob (text "t") (text "c") (text "s") 40000000 none
          again_refused))
      (text "t") refl refl

ann_owns : is_current_owner ann ann_task 2000 (get ann_rows (text "t")) ≡ true
unfolding is_current_owner get text_same
ann_owns = refl

bob_waits :
    acquire task_rows bob ann_rows (text "t") (text "c") (text "s") 1500 ≡ returned (ann_rows, none)
unfolding acquire acquire_row validate_all validate_text is_persistable get put text_same
bob_waits = refl

abbrev unanswered : Dict Text TaskRow × Option TaskOwnership
unanswered = (ann_rows, none)

run_if_owned-acquire_example : unanswered ≡ (ann_rows, none)
run_if_owned-acquire_example =
    run_if_owned-acquire task_rows ann bob ann_rows ann_task 2000 1500 ann_owns (ground arith)
      (text "c") (text "s") unanswered bob_waits

abbrev canceling_rows : Dict Text TaskRow
canceling_rows = (text "t", canceled_row ann_row) ∷ []

cancel_recorded :
    request_cancel task_rows ann_rows (text "t") (text "s") ≡ returned (canceling_rows, true)
unfolding request_cancel update_where validate_all validate_text is_persistable get put text_same
cancel_recorded = refl

request_cancel-is_cancel_requested_example :
    ((o : TaskOwnership)
      → o.task_id ≡ text "t"
      → o.scope_key ≡ text "s"
      → (answer : Bool) → is_cancel_requested task_rows canceling_rows o ≡ returned answer
      → answer ≡ true)
    × ((w : Worker) (context_id : Text) (now : Time) (v : Dict Text TaskRow) (o : TaskOwnership)
        → acquire task_rows w canceling_rows (text "t") context_id (text "s") now
          ≡ returned (v, some o)
        → o.cancel_requested ≡ true)
request_cancel-is_cancel_requested_example =
    request_cancel-is_cancel_requested task_rows ann_rows (text "t") (text "s") {u = canceling_rows}
      cancel_recorded
