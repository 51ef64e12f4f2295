-- ===== src/Tests/WorkerLoops.antt =====
-- Tests of the worker's loop, against the database server.
use tink.Prelude.{◌≡◌, refl, none, some, [], ◌∷◌, List, str_ne, String, Option, ℕ, true}
use tink.Prelude.Outcome.{Outcome, ok}
use tink.Worker.DataFile.{Bytes, Files}
use tink.Prelude.Int.{pos}
use tink.Proto.{pending, running, success, WorkflowAction, Error}
use tink.Db.Tables.{Tables, StateRow}
use tink.Db.State.{find_state}
use tink.DbServer.Worker.Report.{row_context}
use tink.Worker.Quiet.{IsCalm, data_steps-IsQuiet}
use tink.Worker.Steps.{Disk, data_steps}
use tink.Tests.WorkerRuns.{tools}
use tink.Worker.{DataSteps, Ran, finished, exited, process_context}
use tink.Worker.Reporting.{moved_row}
use tink.Worker.Complete.{World, call_in, IsQuiet, IsNamed, IsGood}
use tink.Worker.Finished.{IsDone, process_context-IsDone}
use tink.Worker.Resumed.{IsInterrupted, process_context-exited}
use tink.Tests.Database.{action, row_at}
use tink.Tests.Histories.{no_rows}

abbrev well : ℕ → WorkflowAction → Ran
well i a = record { state = success; error = none; elapsed = pos 3 }

well-IsGood : (i : ℕ) (a : WorkflowAction) → IsGood (well i a)
well-IsGood i a = record { no_error = refl; succeeded = refl }

abbrev one_worker : List WorkflowAction
one_worker = action "disk" "w1" ∷ action "image" "w1" ∷ []

abbrev new_row : StateRow
new_row = row_at one_worker "" "" "" 0 pending

abbrev new_table : Tables
new_table = record no_rows { workflow_state = new_row ∷ [] }

new_found : find_state "wf1" new_table.workflow_state ≡ some new_row
unfolding find_state
new_found = refl

disk-IsNamed : IsNamed (action "disk" "w1")
disk-IsNamed = record { named = str_ne "disk" "" refl; task_named = str_ne "os" "" refl }

image-IsNamed : IsNamed (action "image" "w1")
image-IsNamed = record { named = str_ne "image" "" refl; task_named = str_ne "os" "" refl }

abbrev disk : Disk
disk = record {
  is_missing = λ id. true;
  on_create = λ id. none;
  on_get = λ id. none;
  on_update = λ id. none;
}

-- a server that gives each workflow an empty object, and drops what it is sent
abbrev asked : Tables → String → Tables × Outcome Error Bytes
asked t id = (t, ok (123 ∷ 125 ∷ []))

abbrev sent : Tables → String → Bytes → String → Tables × Option Error
sent t id bytes sum = (t, none)

abbrev steps : DataSteps World
steps = data_steps sent asked tools disk

disk-IsCalm : IsCalm disk
disk-IsCalm = record { created = λ id. refl; got = λ id. refl; updated = λ id. refl }

steps-IsQuiet : IsQuiet steps
steps-IsQuiet =
    data_steps-IsQuiet sent asked tools disk disk-IsCalm (λ t id. refl) (λ t id b sum. (refl, refl))

abbrev no_files : Files
no_files = record { content = []; sums = [] }

process_context-IsDone_example :
    (w' : World) × (process_context
        (call_in (pos 9))
        steps
        3
        "w1"
        well
        one_worker
        (row_context "wf1" new_row)
        (new_table, no_files)
      ≡ (w', some finished))
    × IsDone w'.0 "wf1" one_worker
process_context-IsDone_example =
    process_context-IsDone (pos 9) 2 steps steps-IsQuiet "wf1" "w1" well (str_ne "wf1" "" refl)
      well-IsGood (new_table, no_files) new_row (action "disk" "w1") (action "image" "w1" ∷ [])
      new_found refl refl refl refl refl (disk-IsNamed, (image-IsNamed, tt)) (refl, (refl, tt))

abbrev running_row : StateRow
running_row = row_at one_worker "w1" "os" "disk" 0 running

abbrev running_table : Tables
running_table = record no_rows { workflow_state = running_row ∷ [] }

running_found : find_state "wf1" running_table.workflow_state ≡ some running_row
unfolding find_state
running_found = refl

running-IsInterrupted : IsInterrupted running_table "wf1" running_row (action "disk" "w1")
running-IsInterrupted = record {
  row = running_found;
  runs = refl;
  counted = refl;
  action = refl;
  current = refl;
}

process_context-exited_example :
    (w' : World) × (e : Error) × (process_context
        (call_in (pos 9))
        steps
        3
        "w1"
        well
        one_worker
        (row_context "wf1" running_row)
        (running_table, no_files)
      ≡ (w', some (exited e)))
    × (find_state "wf1" w'.0.workflow_state
        ≡ some (moved_row running_row (action "disk" "w1") success 0))
process_context-exited_example =
    process_context-exited (pos 9) 2 steps steps-IsQuiet "wf1" "w1" well (str_ne "wf1" "" refl)
      well-IsGood (running_table, no_files) running_row [] (action "disk" "w1")
      (action "image" "w1") [] running-IsInterrupted refl refl disk-IsNamed image-IsNamed refl refl
      (str_ne "image" "disk" refl)
