-- ===== src/Db/State.antt =====
-- The state, the events and the rows of workflows: the operations of db/workflow.go.
use tink.Prelude.{String, Option, none, some, List, [], ◌∷◌, ◌++◌, str_eq, if◌then◌else◌}
use tink.Prelude.Int.{ℤ}
use tink.Prelude.Outcome.{Outcome, ok, or_fail, ◌>>=◌, ◌>>◌}
use tink.Proto.{WorkflowContext, WorkflowActionStatus, WorkflowAction}
use tink.Db.Tables.{
  StateRow, EventRow, Tables, Faults, DbError, no_workflow, try, begin, commit, select, insert,
  update,
}

-- SELECT … WHERE workflow_id = $1; the id is the table's key
unfoldable pub find_state : String → List StateRow → Option StateRow
find_state id [] = none
find_state id (r ∷ rest) = if str_eq r.workflow_id id then some r else find_state id rest

abbrev pub context_of : StateRow → WorkflowContext
context_of r = record {
  workflow_id = r.workflow_id;
  current_worker = r.current_worker;
  current_task = r.current_task_name;
  current_action = r.current_action_name;
  current_action_index = r.current_action_index;
  current_action_state = r.current_action_state;
  total_number_of_actions = r.total_number_of_actions;
}

unfoldable pub get_workflow_contexts : Faults → Tables → String → Outcome DbError WorkflowContext
unfolding find_state
get_workflow_contexts f t wf_id = do
  try f select "SELECT from worflow_state"
  r ← or_fail (find_state wf_id t.workflow_state) (no_workflow wf_id)
  ok (record (context_of r) { workflow_id = wf_id })

abbrev pub actions_of : Option StateRow → List WorkflowAction
actions_of none = []
actions_of (some r) = r.action_list

-- A missing row and a failing query both give the empty list.
unfoldable pub get_workflow_actions :
    Faults → Tables → String → Outcome DbError (List WorkflowAction)
unfolding find_state
get_workflow_actions f t wf_id =
    ok (elim (f select) [ none ↦ actions_of (find_state wf_id t.workflow_state) | some e ↦ [] ])

abbrev pub write_context : WorkflowContext → StateRow → StateRow
write_context ctx r = record r {
  current_worker = ctx.current_worker;
  current_task_name = ctx.current_task;
  current_action_name = ctx.current_action;
  current_action_state = ctx.current_action_state;
  current_action_index = ctx.current_action_index;
}

-- UPDATE workflow_state … WHERE workflow_id = $1
unfoldable pub update_states : WorkflowContext → List StateRow → List StateRow
update_states ctx [] = []
update_states ctx (r ∷ rest) =
    (if str_eq r.workflow_id ctx.workflow_id then write_context ctx r else r)
    ∷ update_states ctx rest

unfoldable pub update_workflow_state : Faults → Tables → WorkflowContext → Outcome DbError Tables
unfolding update_states
update_workflow_state f t ctx = do
  try f begin "BEGIN transaction"
  try f update "INSERT in to workflow_state"
  try f commit "COMMIT"
  ok (record t { workflow_state = update_states ctx t.workflow_state })

abbrev pub event_of : WorkflowActionStatus → ℤ → EventRow
event_of req now = record {
  workflow_id = req.workflow_id;
  worker_id = req.worker_id;
  task_name = req.task_name;
  action_name = req.action_name;
  execution_time = req.seconds;
  message = req.message;
  status = req.action_status;
  created_at = now;
}

unfoldable pub insert_into_workflow_event_table :
    Faults → Tables → WorkflowActionStatus → ℤ → Outcome DbError Tables
insert_into_workflow_event_table f t req now = do
  try f begin "BEGIN transaction"
  try f insert "INSERT in to workflow_event"
  try f commit "COMMIT"
  ok (record t { workflow_event = t.workflow_event ++ event_of req now ∷ [] })

-- SELECT workflow_id FROM workflow_worker_map WHERE worker_id = $1
unfoldable pub workflows_of : String → List (String × String) → List String
workflows_of worker [] = []
workflows_of worker ((wf, w) ∷ rest) =
    let more = workflows_of worker rest in if str_eq w worker then wf ∷ more else more

unfoldable pub get_workflows_for_worker : Faults → Tables → String → Outcome DbError (List String)
unfolding workflows_of
get_workflows_for_worker f t worker_id = do
  try f select ""
  ok (workflows_of worker_id t.workflow_worker_map)
