-- ===== src/Tests/WorkerRuns.antt =====
-- Tests of the worker, against the database server.
use tink.Prelude.{◌≡◌, ◌↔◌, ◌≤◌, refl, none, [], ◌∷◌, ◌++◌, length, leb, true, if◌then◌else◌}
use tink.Prelude.Outcome.{ok}
use tink.Convert.{put}
use tink.Worker.DataFile.{
  behind, Files, Tools, find_entry, open_data_file, overwrite, get_workflow_data,
  get_workflow_data-length,
}
use tink.Proto.{success, WorkflowAction}
use tink.Worker.Execute.{
  Docker, Container, exit_code, done, execute, IsSmooth, execute-on_timeout, execute-IsSmooth,
}
use tink.Tests.Database.{action}

abbrev slow : Container
slow = record { create = none; start = none; inspect = none; wait = done "deadline exceeded" }

abbrev quick : Container
quick = record { create = none; start = none; inspect = none; wait = exit_code 0 }

abbrev guarded : WorkflowAction
guarded = record (action "disk" "w1") { on_timeout = "alert" ∷ [] }

abbrev docker : Container → Docker
docker c = record { pull = none; action = λ limit. c; reaction = quick }

execute-on_timeout_example :
    execute (docker slow) guarded ≡ execute (docker slow) (record guarded { on_timeout = [] })
execute-on_timeout_example = execute-on_timeout (docker slow) guarded

execute-IsSmooth_example :
    (((execute (docker quick) guarded).state ≡ success)
      × ((execute (docker quick) guarded).error ≡ none))
    ↔ IsSmooth (docker quick) guarded
execute-IsSmooth_example = execute-IsSmooth (docker quick) guarded

abbrev pub tools : Tools
tools = record {
  checksum = λ bytes. "sum";
  equal_fold = λ a b. true;
  is_object = λ bytes. true;
  max_size = 100;
}

-- a file of three bytes, and data of two
abbrev old_files : Files
old_files = record { content = ("wf1", 1 ∷ 2 ∷ 3 ∷ []) ∷ []; sums = [] }

get_workflow_data-length_example :
    (open_data_file "wf1" (get_workflow_data tools (ok (8 ∷ 9 ∷ [])) "wf1" old_files)
      ≡ (8 ∷ 9 ∷ []) ++ behind (8 ∷ 9 ∷ []) (open_data_file "wf1" old_files))
    × (length (open_data_file "wf1" (get_workflow_data tools (ok (8 ∷ 9 ∷ [])) "wf1" old_files)) ≡ (
        if leb (length (open_data_file "wf1" old_files)) 2
        then 2
        else length (open_data_file "wf1" old_files)))
    × ((open_data_file "wf1" (get_workflow_data tools (ok (8 ∷ 9 ∷ [])) "wf1" old_files)
          ≡ 8 ∷ 9 ∷ [])
        ↔ (length (open_data_file "wf1" old_files) ≤ 2))
get_workflow_data-length_example = get_workflow_data-length tools 8 (9 ∷ []) "wf1" old_files

kept_end :
    open_data_file "wf1" (get_workflow_data tools (ok (8 ∷ 9 ∷ [])) "wf1" old_files)
    ≡ 8 ∷ 9 ∷ 3 ∷ []
unfolding get_workflow_data open_data_file find_entry overwrite put
kept_end = refl
