-- ===== src/Worker/Reporting.antt =====
-- A worker that runs a workflow against the database server.
use tink.Prelude.{
  ℕ, ◌≡◌, Option, none, some, arith, length, get_elem?, eq_iff, eq_refl, lt-of-get_elem?,
}
use tink.Prelude.Int.{ℤ}
use tink.Prelude.Outcome.{ok, err, crash}
use tink.Proto.{State, WorkflowContext, WorkflowActionStatus, WorkflowAction, Error, plain}
use tink.Db.Tables.{Tables, StateRow, Faults}
use tink.Db.State.{
  find_state, context_of, get_workflow_contexts, get_workflow_actions, update_workflow_state,
  insert_into_workflow_event_table,
}
use tink.DbServer.Worker as Server
use tink.DbServer.Worker.{Answers, check_request, next_index, next_context, checked}
use tink.DbServer.Worker.Report.{row_context, next_index-id, find_state-update}
use tink.DbServer.Worker.Effects.{accepted}

abbrev pub no_faults : Faults
no_faults c = none

abbrev pub answers : Answers
answers = record { context = no_faults; actions = no_faults; state = no_faults; event = no_faults }

-- The server as a worker sees it; a handler that panics leaves the worker without an answer.
abbrev pub call : ℤ → Tables → WorkflowActionStatus → Tables × Option Error
call now t req =
    let (t', end) = Server.report_action_status answers t req now in
    (t', elim end [ ok u ↦ none | err e ↦ some e | crash ↦ some (plain "unavailable") ])

-- the row of a workflow after an accepted report
abbrev pub moved_row : StateRow → WorkflowAction → State → ℕ → StateRow
moved_row r a status i = record r {
  current_worker = a.worker_id;
  current_task_name = a.task_name;
  current_action_name = a.name;
  current_action_state = status;
  current_action_index = i;
}

-- A report that names the action at its index.
pub record Matches (t : Tables) (req : WorkflowActionStatus) (r : StateRow) (a : WorkflowAction)
    (i : ℕ) : Type 0 where
  pub row : find_state req.workflow_id t.workflow_state ≡ some r
  pub valid : check_request req ≡ none
  pub place : next_index (context_of r) req.action_status ≡ i
  pub action : get_elem? r.action_list i ≡ some a
  pub counted : r.total_number_of_actions ≡ length r.action_list
  pub task_named : req.task_name ≡ a.task_name
  pub action_named : req.action_name ≡ a.name

unfoldable pub next_of : WorkflowActionStatus → StateRow → WorkflowAction → ℕ → WorkflowContext
next_of req r a i = record (row_context req.workflow_id r) {
  current_worker = a.worker_id;
  current_task = req.task_name;
  current_action = req.action_name;
  current_action_state = req.action_status;
  current_action_index = i;
}

next_context-Matches :
    (t : Tables) (req : WorkflowActionStatus) (r : StateRow) (a : WorkflowAction) (i : ℕ)
    → Matches t req r a i
    → next_context (row_context req.workflow_id r) r.action_list req ≡ ok (next_of req r a i)
unfolding next_context next_of
next_context-Matches t req r a i m = ground (
  arith,
  m.place,
  m.action,
  m.counted,
  next_index-id r req,
  lt-of-get_elem? r.action_list i m.action,
  eq_iff a.task_name req.task_name,
  eq_iff a.name req.action_name,
  m.task_named,
  m.action_named,
)

pub call-Matches :
    (now : ℤ) (t : Tables) (req : WorkflowActionStatus) (r : StateRow) (a : WorkflowAction) (i : ℕ)
    → Matches t req r a i
    → call now t req ≡ (accepted t req now (next_of req r a i), none)
unfolding Server.report_action_status checked get_workflow_contexts get_workflow_actions
    update_workflow_state insert_into_workflow_event_table
call-Matches now t req r a i m = ground (arith, m.row, m.valid, next_context-Matches t req r a i m)

pub accepted-row :
    (now : ℤ) (t : Tables) (req : WorkflowActionStatus) (r : StateRow) (a : WorkflowAction) (i : ℕ)
    → Matches t req r a i
    → find_state req.workflow_id (accepted t req now (next_of req r a i)).workflow_state
      ≡ some (moved_row r a req.action_status i)
unfolding next_of
accepted-row now t req r a i m = ground (
  arith,
  m.row,
  m.task_named,
  m.action_named,
  eq_refl req.workflow_id,
  find_state-update (next_of req r a i) req.workflow_id t.workflow_state,
)
