-- ===== src/Tests/Database.antt =====
-- Tests of the database's operations and of the server that uses them.
use tink.Prelude.{ℕ, ◌≡◌, ◌↔◌, refl, String, List, none, some, [], ◌∷◌, arith, length, str_ne}
use tink.Prelude.Int.{pos}
use tink.Prelude.Outcome.{ok, crash}
use tink.Proto.{State, running, success, WorkflowAction, WorkflowActionStatus, WorkflowContext}
use tink.Db.Tables.{Tables, StateRow}
use tink.Db.Data.Retained.{no_faults}
use tink.Prelude.{eq_iff}
use mathlib.Core.Path.{subst}
use tink.Db.State.{
  find_state, update_states, get_workflow_contexts, get_workflow_actions, update_workflow_state,
  insert_into_workflow_event_table,
}
use tink.DbServer.Worker.{
  Answers, report_action_status, context_to_send, check_request, next_context, next_index,
}
use tink.DbServer.Worker.Report.{IsConsistent, AllConsistent, IsAccepted}
use tink.DbServer.Worker.Effects.{
  accepted, report_action_status-AllConsistent, report_action_status-accepted,
}
use tink.DbServer.Worker.Panic.{IsUnguarded, report_action_status-crash}
use tink.DbServer.Worker.Sending.{Sent, context_to_send-IsDue}
use tink.DbServer.Status.{state_after, get_workflow_state, get_workflow_state-IsAccepted}
use tink.DbServer.Worker.Stalled.{context_to_send-stalled}
use tink.Tests.Histories.{no_rows}

abbrev pub action : String → String → WorkflowAction
action name worker = record {
  task_name = "os";
  name = name;
  image = "alpine";
  timeout = pos 60;
  command = [];
  on_timeout = [];
  on_failure = [];
  worker_id = worker;
  volumes = [];
  environment = [];
  pid = "";
}

abbrev three_actions : List WorkflowAction
three_actions = action "disk" "w1" ∷ action "image" "w1" ∷ action "reboot" "w2" ∷ []

abbrev pub row_at : List WorkflowAction → String → String → String → ℕ → State → StateRow
row_at actions worker task name i state = record {
  workflow_id = "wf1";
  current_worker = worker;
  current_task_name = task;
  current_action_name = name;
  current_action_state = state;
  action_list = actions;
  current_action_index = i;
  total_number_of_actions = length actions;
}

-- The second of three actions runs.
abbrev image_runs : Tables
image_runs = record no_rows {
  workflow_state = row_at three_actions "w1" "os" "image" 1 running ∷ [];
}

abbrev report : String → State → WorkflowActionStatus
report name status = record {
  workflow_id = "wf1";
  task_name = "os";
  action_name = name;
  action_status = status;
  seconds = pos 5;
  message = "";
  worker_id = "w1";
}

abbrev answers : Answers
answers = record { context = no_faults; actions = no_faults; state = no_faults; event = no_faults }

image_row-IsConsistent : IsConsistent (row_at three_actions "w1" "os" "image" 1 running)
image_row-IsConsistent = record {
  counted = refl;
  starts = λ e. absurd (str_ne "image" "" refl e);
  names = λ _. (action "image" "w1", refl, refl, refl, refl);
}

single_row : (x : StateRow) (id : String) (r : StateRow) → find_state id (x ∷ []) ≡ some r → x ≡ r
unfolding find_state
single_row x id r h = ground (arith, eq_iff x.workflow_id id)

image_runs-AllConsistent : AllConsistent image_runs
image_runs-AllConsistent id r h =
    subst IsConsistent (single_row (row_at three_actions "w1" "os" "image" 1 running) id r h)
      image_row-IsConsistent

report_action_status-AllConsistent_example :
    AllConsistent (report_action_status answers image_runs (report "image" success) (pos 9)).0
report_action_status-AllConsistent_example =
    report_action_status-AllConsistent answers image_runs (report "image" success) (pos 9)
      image_runs-AllConsistent

image_succeeds :
    (report_action_status answers image_runs (report "image" success) (pos 9)).1 ≡ ok tt
unfolding report_action_status find_state check_request next_context next_index update_states
    get_workflow_contexts get_workflow_actions update_workflow_state
    insert_into_workflow_event_table
image_succeeds = refl

report_action_status-accepted_example :
    (ctx : WorkflowContext) × (r : StateRow) × (a : WorkflowAction) × IsAccepted image_runs
      (report "image" success)
      ctx
      r
      a
    × ((report_action_status answers image_runs (report "image" success) (pos 9)).0
        ≡ accepted image_runs (report "image" success) (pos 9) ctx)
report_action_status-accepted_example =
    report_action_status-accepted answers image_runs (report "image" success) (pos 9) image_succeeds

-- A workflow of one action, which is reported to run twice.
abbrev one_action : Tables
one_action = record no_rows {
  workflow_state = row_at (action "disk" "w1" ∷ []) "w1" "os" "disk" 0 running ∷ [];
}

disk_found :
    find_state "wf1" one_action.workflow_state
    ≡ some (row_at (action "disk" "w1" ∷ []) "w1" "os" "disk" 0 running)
unfolding find_state
disk_found = refl

disk_valid : check_request (report "disk" running) ≡ none
unfolding check_request
disk_valid = refl

report_action_status-crash_example :
    ((report_action_status answers one_action (report "disk" running) (pos 9)).1 ≡ crash)
    ↔ IsUnguarded (row_at (action "disk" "w1" ∷ []) "w1" "os" "disk" 0 running) running
report_action_status-crash_example =
    report_action_status-crash answers one_action (report "disk" running) (pos 9)
      (row_at (action "disk" "w1" ∷ []) "w1" "os" "disk" 0 running) disk_valid disk_found refl refl
      refl

disk_panics : (report_action_status answers one_action (report "disk" running) (pos 9)).1 ≡ crash
unfolding report_action_status find_state check_request next_context next_index update_states
    get_workflow_contexts get_workflow_actions
disk_panics = refl

image_found :
    find_state "wf1" image_runs.workflow_state
    ≡ some (row_at three_actions "w1" "os" "image" 1 running)
unfolding find_state
image_found = refl

context_to_send-IsDue_example :
    Sent
      (context_to_send no_faults no_faults image_runs "w1" "wf1")
      "wf1"
      (row_at three_actions "w1" "os" "image" 1 running)
      "w1"
context_to_send-IsDue_example =
    context_to_send-IsDue no_faults no_faults image_runs "w1" "wf1"
      (row_at three_actions "w1" "os" "image" 1 running) image_found refl refl (omega arith)

context_to_send-stalled_example :
    context_to_send no_faults no_faults
      (report_action_status answers image_runs (report "image" success) (pos 9)).0
      "w2"
      "wf1"
    ≡ ok none
context_to_send-stalled_example =
    context_to_send-stalled no_faults no_faults answers image_runs (report "image" success) (pos 9)
      (row_at three_actions "w1" "os" "image" 1 running) "w2" refl refl image_succeeds refl
      image_found (λ e. omega arith)

get_workflow_state-IsAccepted_example :
    (ctx : WorkflowContext) × (r : StateRow) × (a : WorkflowAction) × IsAccepted image_runs
      (report "image" success)
      ctx
      r
      a
    × (get_workflow_state no_faults
          (report_action_status answers image_runs (report "image" success) (pos 9)).0
          "wf1"
        ≡ state_after success ctx.current_action_index r.action_list)
get_workflow_state-IsAccepted_example =
    get_workflow_state-IsAccepted no_faults answers image_runs (report "image" success) (pos 9) refl
      image_runs-AllConsistent image_succeeds
