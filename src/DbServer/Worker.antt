-- ===== src/DbServer/Worker.antt =====
-- server/dbserver_worker_workflow.go: the calls of a worker. What the handlers take from db/ is the
-- database's operations; each call of the database may be answered by a fault.
pub mod Report
pub mod Effects
pub mod Panic
pub mod Due
pub mod Sending
pub mod Stalled
use tink.Prelude.{
  ℕ, suc, ◌+◌, String, Bool, true, false, not, ◌&&◌, ◌||◌, Option, none, some, List, [], ◌∷◌,
  length, str_eq, ltb, leb, ◌==◌, if◌then◌else◌,
}
use tink.Prelude.Int.{ℤ}
use tink.Prelude.Outcome.{Outcome, ok, err, crash, index, ◌>>=◌, ◌>>◌}
use tink.Proto.{
  State, pending, running, failed, timeout, success, unrecognized, WorkflowContext,
  WorkflowActionStatus, WorkflowAction, Error, invalid_argument, failed_precondition, aborted,
}
use tink.Db.Tables.{Tables, Faults, DbError, wrapped, no_workflow, bad_input}
use tink.Db.State.{
  get_workflow_contexts, get_workflow_actions, update_workflow_state,
  insert_into_workflow_event_table, get_workflows_for_worker,
}

-- `status.Errorf(codes.Aborted, err.Error())`, with the text of the database's error left out
abbrev pub aborting {ℓ} : {A : Type ℓ} → Outcome DbError A → Outcome Error A
aborting (ok a) = ok a
aborting (err e) = err (aborted "database")
aborting crash = crash

abbrev pub fail_if : Bool → Error → Option Error
fail_if test e = if test then some e else none

abbrev pub is_running : State → Bool
is_running running = true
is_running _ = false

abbrev pub is_success : State → Bool
is_success success = true
is_success _ = false

abbrev pub is_final : State → Bool
is_final failed = true
is_final timeout = true
is_final _ = false

-- the three guards on the request
unfoldable pub check_request : WorkflowActionStatus → Option Error
check_request req =
    if str_eq req.workflow_id ""
    then some (invalid_argument "invalid workflow id")
    else if str_eq req.task_name ""
    then some (invalid_argument "invalid task name")
    else fail_if (str_eq req.action_name "") (invalid_argument "invalid action name")

-- `actionIndex`, which a report that an action runs moves on, once there is a current action
unfoldable pub next_index : WorkflowContext → State → ℕ
next_index ctx status =
    if is_running status && not (str_eq ctx.current_action "")
    then suc ctx.current_action_index
    else ctx.current_action_index

-- from the bounds check to the changes of `wfContext`
unfoldable pub next_context :
    WorkflowContext → List WorkflowAction → WorkflowActionStatus → Outcome Error WorkflowContext
unfolding next_index
next_context ctx actions req = do
  let i = next_index ctx req.action_status
  fail_if (ltb 1 ctx.total_number_of_actions && leb ctx.total_number_of_actions i)
      (failed_precondition "invalid action index for workflow")
  action ← index actions i
  fail_if (not (str_eq action.task_name req.task_name))
      (invalid_argument "reported task name does not match the current action details")
  fail_if (not (str_eq action.name req.action_name))
      (invalid_argument "reported action name does not match the current action details")
  ok (record ctx {
    current_worker = action.worker_id;
    current_task = req.task_name;
    current_action = req.action_name;
    current_action_state = req.action_status;
    current_action_index = i;
  })

-- The tables after the call, and its result: the state is stored before the event.
abbrev pub Reply : Type 0
Reply = Tables × Outcome Error (Unit {0})

store_event : Faults → Tables → WorkflowActionStatus → ℤ → Reply
store_event f t req now = elim (insert_into_workflow_event_table f t req now) [
  | ok t' ↦ (t', ok tt)
  | err e ↦ (t, err (aborted "database"))
  | crash ↦ (t, crash)
]

-- How the database answers the four calls of a report: the two queries, the update, the insertion.
pub record Answers : Type 0 where
  pub context : Faults
  pub actions : Faults
  pub state : Faults
  pub event : Faults

store : Answers → Tables → WorkflowActionStatus → ℤ → Outcome Error WorkflowContext → Reply
unfolding store_event
store db t req now (ok ctx) = elim (update_workflow_state db.state t ctx) [
  | ok t' ↦ store_event db.event t' req now
  | err e ↦ (t, err (aborted "database"))
  | crash ↦ (t, crash)
]
store db t req now (err e) = (t, err e)
store db t req now crash = (t, crash)

-- the context that a report asks to store
unfoldable pub checked : Answers → Tables → WorkflowActionStatus → Outcome Error WorkflowContext
unfolding check_request
checked db t req = do
  check_request req
  ctx ← aborting (get_workflow_contexts db.context t req.workflow_id)
  actions ← aborting (get_workflow_actions db.actions t req.workflow_id)
  next_context ctx actions req

unfoldable pub report_action_status : Answers → Tables → WorkflowActionStatus → ℤ → Reply
unfolding checked store
report_action_status db t req now = store db t req now (checked db t req)

-- index == len(list) - 1
unfoldable pub is_last_action : WorkflowContext → List WorkflowAction → Bool
is_last_action ctx actions = suc ctx.current_action_index == length actions

-- `getWorkflowActions` of this file
unfoldable pub list_actions : Faults → Tables → String → Outcome Error (List WorkflowAction)
list_actions f t wf_id = elim (get_workflow_actions f t wf_id) [
  | ok a ↦ ok a
  | err e ↦ err (aborted "invalid workflow id")
  | crash ↦ crash
]

-- whether the action at an index is the worker's
worker_at : List WorkflowAction → ℕ → String → Outcome Error Bool
worker_at actions i worker_id = do action ← index actions i; ok (str_eq action.worker_id worker_id)

unfoldable pub is_applicable_to :
    List WorkflowAction → WorkflowContext → String → Outcome Error Bool
unfolding is_last_action worker_at
is_applicable_to actions ctx worker_id =
    if is_success ctx.current_action_state
    then if is_last_action ctx actions
      then ok false
      else if ctx.current_action_index == 0
      then worker_at actions (suc ctx.current_action_index) worker_id
      else ok false
    else worker_at actions ctx.current_action_index worker_id

unfoldable pub is_applicable_to_send :
    Faults → Tables → WorkflowContext → String → Outcome Error Bool
unfolding is_applicable_to list_actions
is_applicable_to_send f t ctx worker_id =
    if is_final ctx.current_action_state
    then ok false
    else elim (list_actions f t ctx.workflow_id) [
      | ok actions ↦ is_applicable_to actions ctx worker_id
      | err e ↦ ok false
      | crash ↦ crash
    ]

unfoldable pub list_workflows_for_worker : Faults → Tables → String → Outcome Error (List String)
list_workflows_for_worker f t id = do
  fail_if (str_eq id "") (invalid_argument "invalid worker id")
  aborting (get_workflows_for_worker f t id)

-- the body of the loop of `GetWorkflowContexts`: the context to send, if there is one
unfoldable pub context_to_send :
    Faults → Faults → Tables → String → String → Outcome Error (Option WorkflowContext)
unfolding is_applicable_to_send
context_to_send f g t worker_id wf = do
  ctx ← aborting (get_workflow_contexts f t wf)
  send ← is_applicable_to_send g t ctx worker_id
  ok (if send then some ctx else none)

-- What the stream got, and how the loop ended; `refuse` is what `Send` answers.
abbrev pub Stream : Type 0
Stream = List WorkflowContext × Outcome Error (Unit {0})

unfoldable pub send_contexts :
    (WorkflowContext → Option Error) → Faults → Faults → Tables → String → List String → Stream
unfolding context_to_send
send_contexts refuse f g t worker_id [] = ([], ok tt)
send_contexts refuse f g t worker_id (wf ∷ rest) =
    let (sent, end) = send_contexts refuse f g t worker_id rest in
    elim (context_to_send f g t worker_id wf) [
      | err e ↦ ([], err e)
      | crash ↦ ([], crash)
      | ok none ↦ (sent, end)
      | ok (some ctx) ↦ elim (refuse ctx) [ some e ↦ ([], err e) | none ↦ (ctx ∷ sent, end) ]
    ]

unfoldable pub stream_workflow_contexts :
    (WorkflowContext → Option Error) → Faults → Faults → Tables → String → Stream
unfolding send_contexts list_workflows_for_worker
stream_workflow_contexts refuse f g t worker_id = elim (list_workflows_for_worker f t worker_id) [
  | err e ↦ ([], err e)
  | crash ↦ ([], crash)
  | ok wfs ↦ send_contexts refuse f g t worker_id wfs
]

unfoldable pub all_contexts : Faults → Tables → List String → Outcome Error (List WorkflowContext)
all_contexts f t [] = ok []
all_contexts f t (wf ∷ rest) = do
  ctx ← aborting (get_workflow_contexts f t wf)
  ctxs ← all_contexts f t rest
  ok (ctx ∷ ctxs)

unfoldable pub get_workflow_context_list :
    Faults → Tables → String → Outcome Error (List WorkflowContext)
unfolding all_contexts list_workflows_for_worker
get_workflow_context_list f t worker_id = do
  wfs ← list_workflows_for_worker f t worker_id
  all_contexts f t wfs

unfoldable pub get_actions : Faults → Tables → String → Outcome Error (List WorkflowAction)
unfolding list_actions
get_actions f t wf_id = do
  fail_if (str_eq wf_id "") (invalid_argument "invalid workflow id")
  list_actions f t wf_id
