-- ===== src/Kube/Handlers/Target.antt =====
-- `modifyWorkflowState` at the current action of a workflow.
use tink.Prelude.Time.{seconds_since}
use tink.Prelude.{
  Bool, true, false, ◌||◌, ◌==◌, if◌then◌else◌, ◌+◌, ◌≡◌, ◌≢◌, refl, String, none, some, List, ◌∷◌,
  ◌++◌, arith, length, All, update_at, update_at-middle, sym,
}
use mathlib.Core.Path.{subst}
use tink.Prelude.Int.{ℤ}
use tink.Proto.{
  State, WorkflowState, state_running, state_success, state_name, running, failed, timeout, success,
  unrecognized, WorkflowContext, WorkflowActionStatus, Error, plain, pending,
}
use tink.V1alpha1.Types.{Action, Task, Workflow}
use tink.V1alpha1.Methods.Scanning.{successes, successes_of_tasks, count_actions}
use tink.V1alpha1.Methods.Current.{Place, IsCurrent, get_task_action_info-current}
use tink.Kube.Context.{get_workflow_context, get_workflow_context_for_request}
use tink.Kube.Modify.{at_action, report_action, report_state, report_error, modify_workflow_state}
use tink.Kube.Modify.Search.{find_task-hit, find_task-miss}

-- The report names the current action of the workflow, with a status.
pub record Reports (req : WorkflowActionStatus) (p : Place) : Type 0 where
  pub with_id : req.workflow_id ≢ ""
  pub with_task : req.task_name ≢ ""
  pub with_action : req.action_name ≢ ""
  pub task_named : req.task_name ≡ p.task.name
  pub action_named : req.action_name ≡ p.action.name

-- No other task has the name of the place's task, and no other action of it that of its action.
pub record IsDistinct (p : Place) : Type 0 where
  pub tasks_before_ne : All (λ (t : Task). t.name ≢ p.task.name) p.tasks_before
  pub tasks_after_ne : All (λ (t : Task). t.name ≢ p.task.name) p.tasks_after
  pub before_ne : All (λ (a : Action). a.name ≢ p.action.name) p.before
  pub after_ne : All (λ (a : Action). a.name ≢ p.action.name) p.after

-- The context that the handler works on.
abbrev pub context_at : WorkflowActionStatus → Workflow → Place → WorkflowContext
context_at req w p = record {
  workflow_id = w.name;
  current_worker = req.worker_id;
  current_task = req.task_name;
  current_action = p.action.name;
  current_action_index = successes_of_tasks p.tasks_before + successes p.before;
  current_action_state = req.action_status;
  total_number_of_actions = count_actions w.status.tasks;
}

pub context_for :
    (req : WorkflowActionStatus) (w : Workflow) (p : Place)
    → IsCurrent w.status.tasks p
    → get_workflow_context_for_request req w ≡ context_at req w p
unfolding get_workflow_context_for_request get_workflow_context
context_for req w p h = ground (arith, get_task_action_info-current w p h)

-- the states that a report ends an action with
abbrev ends : State → Bool
ends failed = true
ends timeout = true
ends success = true
ends _ = false

abbrev is_start : State → Bool
is_start running = true
is_start _ = false

-- the seconds of an action that was started
abbrev elapsed : ℤ → Action → ℤ
elapsed now a = elim a.started_at [ none ↦ a.seconds | some start ↦ seconds_since now start ]

-- What a status makes of the action: a start, or an end after some seconds.
abbrev pub progressed : State → ℤ → Action → Action
progressed running now a = record a { status = state_running; started_at = some now }
progressed status now a = record a {
  status = state_name status;
  seconds = if ends status then elapsed now a else a.seconds;
}

abbrev pub progressed_state : State → Bool → WorkflowState → WorkflowState
progressed_state success last old = if last then state_success else old
progressed_state status last old = if ends status || is_start status then state_name status else old

report_action-progressed :
    (status : State) (now : ℤ) (a : Action) → report_action status now a ≡ progressed status now a
unfolding report_action
report_action-progressed pending now a = refl
report_action-progressed running now a = refl
report_action-progressed failed now a = ground arith
report_action-progressed timeout now a = ground arith
report_action-progressed success now a = ground arith
report_action-progressed (unrecognized n) now a = refl

abbrev pub tasks_at : Place → (Action → Action) → List Task
tasks_at p f =
    p.tasks_before ++ record p.task { actions = p.before ++ f p.action ∷ p.after } ∷ p.tasks_after

-- whether the action of the place is the workflow's last one
abbrev pub is_last : Workflow → Place → Bool
is_last w p =
    successes_of_tasks p.tasks_before + successes p.before + 1 == count_actions w.status.tasks

-- The workflow with the action of the place changed by the report, and nothing else but its state.
abbrev pub reported : WorkflowActionStatus → ℤ → Workflow → Place → Workflow
reported req now w p = record w {
  status = record w.status {
    state = progressed_state req.action_status (is_last w p) w.status.state;
    tasks = tasks_at p (progressed req.action_status now);
  };
}

progressed_status :
    (status : State) (req : WorkflowActionStatus) (w : Workflow) (p : Place) (ts : List Task)
    → req.action_status ≡ status
    → report_state (context_at req w p) (record w.status { tasks = ts })
      ≡ record w.status { state = progressed_state status (is_last w p) w.status.state; tasks = ts }
unfolding report_state
progressed_status pending req w p ts e = ground arith
progressed_status running req w p ts e = ground arith
progressed_status failed req w p ts e = ground arith
progressed_status timeout req w p ts e = ground arith
progressed_status success req w p ts e = ground arith
progressed_status (unrecognized n) req w p ts e = ground arith

at_action-place :
    (tasks : List Task) (p : Place) (f : Action → Action)
    → tasks ≡ p.tasks_before ++ p.task ∷ p.tasks_after
    → p.task.actions ≡ p.before ++ p.action ∷ p.after
    → at_action (length p.tasks_before) (length p.before) f tasks ≡ tasks_at p f
at_action-place tasks p f e d = ground (
  arith,
  update_at-middle p.tasks_before p.task p.tasks_after
      (λ (t : Task). record t { actions = update_at t.actions (length p.before) f }),
  update_at-middle p.before p.action p.after f,
)

pub modify-hit :
    (req : WorkflowActionStatus) (now : ℤ) (w : Workflow) (p : Place)
    → IsCurrent w.status.tasks p
    → IsDistinct p
    → req.task_name ≡ p.task.name
    → successes_of_tasks p.tasks_before + successes p.before ≡ length p.before
    → modify_workflow_state now (some w) (some (context_at req w p))
      ≡ (some (reported req now w p), report_error req.action_status)
unfolding modify_workflow_state
modify-hit req now w p h d n i = ground (
  arith,
  find_task-hit (context_at req w p) p.tasks_before p.task p.tasks_after p.before p.action p.after
      (subst (λ (x : String). All (λ (t : Task). t.name ≢ x) p.tasks_before) (sym n)
        d.tasks_before_ne)
      n h.actions_split refl i,
  at_action-place w.status.tasks p (report_action req.action_status now) h.tasks_split
      h.actions_split,
  report_action-progressed req.action_status now p.action,
  progressed_status req.action_status req w p (tasks_at p (report_action req.action_status now))
      refl,
)

pub modify-miss :
    (req : WorkflowActionStatus) (now : ℤ) (w : Workflow) (p : Place)
    → IsCurrent w.status.tasks p
    → IsDistinct p
    → req.task_name ≡ p.task.name
    → successes_of_tasks p.tasks_before + successes p.before ≢ length p.before
    → (e : Error) × (modify_workflow_state now (some w) (some (context_at req w p))
        ≡ (some w, some e))
unfolding modify_workflow_state
modify-miss req now w p h d n i = (
  plain "action not found",
  ground (
    arith,
    find_task-miss (context_at req w p) p.tasks_before p.task p.tasks_after p.before p.action
        p.after
        (subst (λ (x : String). All (λ (t : Task). t.name ≢ x) p.tasks_before) (sym n)
          d.tasks_before_ne)
        (subst (λ (x : String). All (λ (t : Task). t.name ≢ x) p.tasks_after) (sym n)
          d.tasks_after_ne)
        n h.actions_split d.before_ne d.after_ne i,
  ),
)

pub modify-pending :
    (now : ℤ) (w : Workflow) (ctx : WorkflowContext)
    → ctx.current_action_state ≡ pending
    → (modify_workflow_state now (some w) (some ctx)).1 ≢ none
unfolding modify_workflow_state
modify-pending now w ctx h e = ground arith
