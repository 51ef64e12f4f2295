-- ===== src/Kube/Modify.antt =====
-- `modifyWorkflowState` of server/kubernetes_api_workflow.go. The workflow is changed in place, so
-- the function returns it beside the error.
pub mod Search
use tink.Prelude.{
  ℕ, zero, suc, ◌+◌, Bool, true, false, Option, none, some, List, [], ◌∷◌, ◌&&◌, ◌==◌, str_eq,
  update_at, if◌then◌else◌,
}
use tink.Prelude.Int.{ℤ}
use tink.Prelude.Time.{seconds_since}
use tink.Proto.{
  State, pending, running, failed, timeout, success, unrecognized, state_name, WorkflowContext,
  Error, plain,
}
use tink.V1alpha1.Types.{Action, Task, WorkflowStatus, Workflow}

-- the loop over the actions, from the action `ai`
unfoldable pub find_action : WorkflowContext → ℕ → List Action → Option ℕ
find_action ctx ai [] = none
find_action ctx ai (action ∷ rest) =
    let more = find_action ctx (suc ai) rest in
    if str_eq action.name ctx.current_action && (ctx.current_action_index == ai)
    then some ai
    else more

-- `taskIndex` and `actionIndex`, with `none` for -1
abbrev pub Indices : Type 0
Indices = Option ℕ × Option ℕ

-- `goto cont`, or the next task
abbrev pub stop_at : ℕ → Indices → Option ℕ → Indices
stop_at ti more none = more
stop_at ti more (some ai) = (some ti, some ai)

-- the loop over the tasks, from the task `ti`, with the `taskIndex` so far
unfoldable pub find_task : WorkflowContext → ℕ → Option ℕ → List Task → Indices
unfolding find_action
find_task ctx ti so_far [] = (so_far, none)
find_task ctx ti so_far (task ∷ rest) =
    let named = str_eq ctx.current_task task.name in
    let more = find_task ctx (suc ti) (if named then some ti else so_far) rest in
    if named then stop_at ti more (find_action ctx 0 task.actions) else more

set_seconds : ℤ → Option ℤ → Action → Action
set_seconds now none a = a
set_seconds now (some start) a = record a { seconds = seconds_since now start }

-- what the report does to the action
unfoldable pub report_action : State → ℤ → Action → Action
unfolding set_seconds
report_action running now a = record a { status = state_name running; started_at = some now }
report_action failed now a = set_seconds now a.started_at (record a { status = state_name failed })
report_action timeout now a =
    set_seconds now a.started_at (record a { status = state_name timeout })
report_action success now a =
    set_seconds now a.started_at (record a { status = state_name success })
report_action pending now a = record a { status = state_name pending }
report_action (unrecognized n) now a = record a { status = state_name (unrecognized n) }

-- what it does to the workflow's state
unfoldable pub report_state : WorkflowContext → WorkflowStatus → WorkflowStatus
report_state ctx s = elim ctx.current_action_state [
  | running ↦ record s { state = state_name running }
  | failed ↦ record s { state = state_name failed }
  | timeout ↦ record s { state = state_name timeout }
  | success ↦
      if ctx.current_action_index + 1 == ctx.total_number_of_actions
      then record s { state = state_name success }
      else s
  | pending ↦ s
  | unrecognized n ↦ s
]

abbrev pub report_error : State → Option Error
report_error pending = some (plain "no update requested")
report_error _ = none

-- `wf.Status.Tasks[ti].Actions[ai]` is changed by `f`
abbrev pub at_action : ℕ → ℕ → (Action → Action) → List Task → List Task
at_action ti ai f tasks =
    update_at tasks ti (λ (t : Task). record t { actions = update_at t.actions ai f })

-- the part after the label `cont`
modify_at : ℤ → Workflow → WorkflowContext → Indices → Workflow × Option Error
unfolding report_action report_state
modify_at now wf ctx (none, ai) = (wf, some (plain "task not found"))
modify_at now wf ctx (some ti, none) = (wf, some (plain "action not found"))
modify_at now wf ctx (some ti, some ai) =
    let tasks = at_action ti ai (report_action ctx.current_action_state now) wf.status.tasks in
    (
      record wf { status = report_state ctx (record wf.status { tasks = tasks }) },
      report_error ctx.current_action_state,
    )

unfoldable pub modify_workflow_state :
    ℤ → Option Workflow → Option WorkflowContext → Option Workflow × Option Error
unfolding find_task modify_at
modify_workflow_state now none ctx = (none, some (plain "no workflow provided"))
modify_workflow_state now (some wf) none = (some wf, some (plain "no workflow context provided"))
modify_workflow_state now (some wf) (some ctx) =
    let (wf', e) = modify_at now wf ctx (find_task ctx 0 none wf.status.tasks) in (some wf', e)
