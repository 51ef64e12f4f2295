-- ===== src/Worker.antt =====
-- cmd/tink-worker/worker/worker.go: what a worker does with the workflows that it is sent. The server
-- that it reports to has a state of its own.
pub mod Execute
pub mod DataFile
pub mod Steps
pub mod Docker
pub mod Reporting
pub mod Complete
pub mod Quiet
pub mod Finished
pub mod Refused
pub mod Resumed
use tink.Prelude.{
  ℕ, zero, suc, String, Bool, true, false, not, ◌||◌, Option, none, some, List, [], ◌∷◌, length,
  get_elem?, str_eq, ◌==◌, if◌then◌else◌,
}
use tink.Prelude.Int.{ℤ, pos}
use tink.Prelude.Outcome.{Outcome, ok, err, crash, index, ◌>>=◌}
use tink.Proto.{
  State, running, failed, timeout, success, WorkflowContext, WorkflowActionStatus, WorkflowAction,
  Error,
}

abbrev pub is_running : State → Bool
is_running running = true
is_running _ = false

abbrev pub is_success : State → Bool
is_success success = true
is_success _ = false

-- The index of the action that a context makes the worker's turn, or none.
own_turn : List WorkflowAction → ℕ → String → Outcome Error (Option ℕ)
own_turn actions i worker_id = do
  action ← index actions i
  ok (if str_eq action.worker_id worker_id then some i else none)

-- isLastAction
unfoldable pub is_last_action : WorkflowContext → List WorkflowAction → Bool
is_last_action ctx actions = suc ctx.current_action_index == length actions

after_state : List WorkflowAction → WorkflowContext → String → State → Outcome Error (Option ℕ)
unfolding own_turn is_last_action
after_state actions ctx worker_id success =
    if is_last_action ctx actions
    then ok none
    else own_turn actions (suc ctx.current_action_index) worker_id
after_state actions ctx worker_id failed = ok none
after_state actions ctx worker_id timeout = ok none
after_state actions ctx worker_id _ = own_turn actions ctx.current_action_index worker_id

-- from `turn := false` to the directory of the workflow
unfoldable pub turn : List WorkflowAction → WorkflowContext → String → Outcome Error (Option ℕ)
unfolding own_turn after_state
turn actions ctx worker_id =
    if str_eq ctx.current_action ""
    then own_turn actions 0 worker_id
    else after_state actions ctx worker_id ctx.current_action_state

-- How an action ended: `execute`'s state and error, and the elapsed seconds.
pub record Ran : Type 0 where
  pub state : State
  pub error : Option String
  pub elapsed : ℤ

-- a status of an action
abbrev pub status_of : String → WorkflowAction → State → ℤ → String → WorkflowActionStatus
status_of wf action state elapsed message = record {
  workflow_id = wf;
  task_name = action.task_name;
  action_name = action.name;
  action_status = state;
  seconds = elapsed;
  message = message;
  worker_id = action.worker_id;
}

-- `err != nil || st != pb.State_STATE_SUCCESS`
abbrev pub is_bad : Ran → Bool
is_bad ran = elim ran.error [ some e ↦ true | none ↦ not (is_success ran.state) ]

abbrev pub bad_state : State → State
bad_state timeout = timeout
bad_state _ = failed

-- How the loop over the actions ended: the last action is done, the next one is another worker's, an
-- action ended badly, the worker exited because the server refused a report or because a step of the
-- data failed, or an index was bad.
pub data End : Type 0 where
  finished handed_over panicked died : End
  stopped : Option String → End
  exited : Error → End

-- the list from an index on
unfoldable pub from_index : ℕ → List WorkflowAction → List WorkflowAction
from_index zero actions = actions
from_index (suc i) [] = []
from_index (suc i) (a ∷ rest) = from_index i rest

-- The steps of a workflow's data: what its directory needs before the first action, `getWorkflowData`
-- and `updateWorkflowData`. With true the step calls os.Exit.
pub record DataSteps (Server : Type 0) : Type 0 where
  pub prepare : String → Server → Server × Bool
  pub get_workflow_data : String → Server → Server × Bool
  pub update_workflow_data : WorkflowActionStatus → Server → Server × Bool

-- the status that reports a success
abbrev pub success_of : String → WorkflowAction → Ran → WorkflowActionStatus
success_of wf action ran = status_of wf action success ran.elapsed "finished execution successfully"

module _ {Server : Type 0} (call : Server → WorkflowActionStatus → Server × Option Error) where
  -- `reportActionStatus`, with the error of the call before; the waits in between are left out
  unfoldable pub report_action_status :
      ℕ → Option Error → Server → WorkflowActionStatus → Server × Option Error
  report_action_status zero last s req = (s, last)
  report_action_status (suc retries) last s req =
      let (s', e) = call s req in
      let again = report_action_status retries e s' req in
      elim e [ none ↦ (s', none) | some x ↦ again ]

  -- The report that an action runs, unless the context said so when it came.
  unfoldable pub report_start : ℕ → Bool → String → WorkflowAction → Server → Server × Option Error
  unfolding report_action_status
  report_start retries resumed wf action s =
      if resumed
      then (s, none)
      else report_action_status retries none s
          (status_of wf action running (pos 0) "Started execution")

  -- the report of an action's end
  unfoldable pub report_end : ℕ → String → WorkflowAction → Ran → Server → Server × Option Error
  unfolding report_action_status
  report_end retries wf action ran s =
      if is_bad ran
      then report_action_status retries none s
          (status_of wf action (bad_state ran.state) ran.elapsed "")
      else report_action_status retries none s (success_of wf action ran)

  -- what follows the report of an end
  abbrev after_end :
      DataSteps Server → String → WorkflowAction → Ran → Server × Option Error → Server × Option End
  after_end k wf action ran (s, some x) = (s, some (exited x))
  after_end k wf action ran (s, none) =
      if is_bad ran
      then (s, some (stopped ran.error))
      else (let (s', dies) = k.update_workflow_data (success_of wf action ran) s in
          (s', if dies then some died else none))

  -- One action: its start, the data, its run, its end, the data again; and what ends the loop.
  unfoldable pub run_action :
      DataSteps Server → ℕ → Bool → String → WorkflowAction → Ran → Server → Server × Option End
  unfolding report_start report_end
  run_action k retries resumed wf action ran s =
      let (s', e) = report_start retries resumed wf action s in
      elim e [
        | some x ↦ (s', some (exited x))
        | none ↦
            let (s'', dies) = k.get_workflow_data wf s' in
            if dies
            then (s'', some died)
            else after_end k wf action ran (report_end retries wf action ran s'')
      ]

  -- the loop `for turn`, over the actions from the index `i` on
  unfoldable pub run_actions :
      DataSteps Server
      → ℕ
      → Bool
      → String
      → String
      → (ℕ → WorkflowAction → Ran)
      → ℕ
      → List WorkflowAction
      → Server
      → Server × End
  unfolding run_action
  run_actions k retries resumed wf worker_id exec i [] s = (s, panicked)
  run_actions k retries resumed wf worker_id exec i (action ∷ []) s =
      let (s', e) = run_action k retries resumed wf action (exec i action) s in
      elim e [ some end ↦ (s', end) | none ↦ (s', finished) ]
  run_actions k retries resumed wf worker_id exec i (action ∷ next ∷ rest) s =
      let (s', e) = run_action k retries resumed wf action (exec i action) s in
      let more = run_actions k retries resumed wf worker_id exec (suc i) (next ∷ rest) s' in
      elim e [
        | some end ↦ (s', end)
        | none ↦ if str_eq next.worker_id worker_id then more else (s', handed_over)
      ]

  -- One context of the stream: the worker gets the workflow's actions and runs those of its turn.
  unfoldable pub process_context :
      DataSteps Server
      → ℕ
      → String
      → (ℕ → WorkflowAction → Ran)
      → List WorkflowAction
      → WorkflowContext
      → Server
      → Server × Option End
  unfolding turn run_actions from_index
  process_context k retries worker_id exec actions ctx s = elim (turn actions ctx worker_id) [
    | err e ↦ (s, some panicked)
    | crash ↦ (s, some panicked)
    | ok none ↦ (s, none)
    | ok (some i) ↦
        let (s', dies) = k.prepare ctx.workflow_id s in
        let (s'', end) =
          run_actions k retries (is_running ctx.current_action_state) ctx.workflow_id worker_id exec
            i (from_index i actions) s' in
        if dies then (s', some died) else (s'', some end)
  ]
