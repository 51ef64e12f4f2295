-- ===== src/Kube/Handlers/Report.antt =====
-- What a status report does to the cluster.
use tink.Prelude.{
  ◌+◌, ◌≡◌, ◌≢◌, refl, String, Option, none, some, arith, length, All, eq_iff, ◌⊎◌, inl, inr,
}
use tink.Prelude.Int.{ℤ}
use tink.Prelude.Outcome.{ok, err, crash, Outcome-cases}
use tink.Proto.{WorkflowActionStatus, Error, pending}
use tink.V1alpha1.Types.{Workflow}
use tink.V1alpha1.Methods.{get_task_action_info}
use tink.V1alpha1.Methods.Scanning.{successes, successes_of_tasks, count_actions}
use tink.V1alpha1.Methods.Current.{Place, IsCurrent, get_task_action_info-current}
use tink.Kube.Context.{get_workflow_context_for_request}
use tink.Kube.Modify.{modify_workflow_state}
use tink.Kube.Handlers.{
  Client, validate_action_status_request, replace_error, invalid_workflow_id, store_modified,
  report_action_status,
}
use tink.Convert.Actions.{
  TaskHasStatus, successes-Passed, successes_of_tasks-passed, has_before, has_before_action,
}
use tink.Kube.Handlers.Target.{
  Reports, IsDistinct, context_at, context_for, reported, modify-hit, modify-miss, modify-pending,
}

index_at :
    (w : Workflow) (p : Place)
    → All TaskHasStatus w.status.tasks
    → IsCurrent w.status.tasks p
    → successes_of_tasks p.tasks_before + successes p.before
      ≡ count_actions p.tasks_before + length p.before
index_at w p s h = omega (
  arith,
  successes_of_tasks-passed p.tasks_before (has_before w.status.tasks p s h).0 h.tasks_passed,
  successes-Passed p.before (has_before_action w.status.tasks p s h) h.actions_passed,
)

valid_request :
    (req : WorkflowActionStatus) (p : Place)
    → Reports req p
    → validate_action_status_request req ≡ none
unfolding validate_action_status_request
valid_request req p r =
    ground (arith, eq_iff req.workflow_id "", eq_iff req.task_name "", eq_iff req.action_name "")

module _ {Cluster : Type 0} (k : Client Cluster) where
  -- past the guards of the handler
  at_current :
      (namespace : String) (now : ℤ) (c : Cluster) (req : WorkflowActionStatus) (w : Workflow)
      (p : Place)
      → k.get c req.workflow_id namespace ≡ ok w
      → IsCurrent w.status.tasks p
      → Reports req p
      → report_action_status k namespace now c req
        ≡ store_modified k c (modify_workflow_state now (some w) (some (context_at req w p)))
  unfolding report_action_status
  at_current namespace now c req w p g h r = ground (
    arith,
    valid_request req p r,
    context_for req w p h,
    get_task_action_info-current w p h,
    eq_iff req.task_name p.task.name,
    eq_iff req.action_name p.action.name,
  )

  -- For a workflow with no blank status, whose current action shares its name with no other action
  -- of its task and its task with no other task, and with no action in an earlier task: a report
  -- that has an id, names that task and that action, and is not STATE_PENDING stores the workflow
  -- with that action changed. A start sets its state and its start time, an end its state and, if it
  -- was started, its seconds. A start and a failed or timed out end set the workflow's state too,
  -- and a success does if the action is the workflow's last one. A refusal of the store becomes an
  -- InvalidArgument error.
  pub report_action_status-first_task :
      (namespace : String) (now : ℤ) (c : Cluster) (req : WorkflowActionStatus) (w : Workflow)
      (p : Place)
      → k.get c req.workflow_id namespace ≡ ok w
      → All TaskHasStatus w.status.tasks
      → IsCurrent w.status.tasks p
      → IsDistinct p
      → Reports req p
      → count_actions p.tasks_before ≡ 0
      → req.action_status ≢ pending
      → report_action_status k namespace now c req
        ≡ replace_error invalid_workflow_id (k.update_status c (reported req now w p))
  unfolding store_modified
  report_action_status-first_task namespace now c req w p g s h d r z q = ground (
    arith,
    at_current namespace now c req w p g h r,
    index_at w p s h,
    modify-hit req now w p h d r.task_named,
  )

  -- For a workflow with no blank status, whose current action shares its name with no other action
  -- of its task and its task with no other task, but with an action in an earlier task: a report
  -- that has an id and names that task and that action is refused, whatever its status.
  pub report_action_status-later_task :
      (namespace : String) (now : ℤ) (c : Cluster) (req : WorkflowActionStatus) (w : Workflow)
      (p : Place)
      → k.get c req.workflow_id namespace ≡ ok w
      → All TaskHasStatus w.status.tasks
      → IsCurrent w.status.tasks p
      → IsDistinct p
      → Reports req p
      → count_actions p.tasks_before ≢ 0
      → report_action_status k namespace now c req ≡ err invalid_workflow_id
  unfolding store_modified
  report_action_status-later_task namespace now c req w p g s h d r z =
      let (e, m) =
        modify-miss req now w p h d r.task_named (λ i. z (omega (arith, index_at w p s h))) in
      ground (arith, at_current namespace now c req w p g h r, m)

  store_modified-ok :
      (c c' : Cluster) (r : Option Workflow × Option Error)
      → store_modified k c r ≡ ok c'
      → r.1 ≡ none
  unfolding store_modified
  store_modified-ok c c' (w, some e) h = cc
  store_modified-ok c c' (w, none) h = refl

  accepted :
      (namespace : String) (now : ℤ) (c c' : Cluster) (req : WorkflowActionStatus) (w : Workflow)
      → k.get c req.workflow_id namespace ≡ ok w
      → report_action_status k namespace now c req ≡ ok c'
      → (req.workflow_id ≢ "")
        × (req.task_name ≡ (get_task_action_info w).current_task)
        × (req.action_name ≡ (get_task_action_info w).current_action)
        × (store_modified k c
              (modify_workflow_state now (some w) (some (get_workflow_context_for_request req w)))
            ≡ ok c')
  unfolding report_action_status
  accepted namespace now c c' req w g h = ground (
    arith,
    eq_iff req.workflow_id "",
    eq_iff req.task_name (get_task_action_info w).current_task,
    eq_iff req.action_name (get_task_action_info w).current_action,
  )

  accepted_status :
      (c c' : Cluster) (now : ℤ) (req : WorkflowActionStatus) (w : Workflow)
      → store_modified k c
          (modify_workflow_state now (some w) (some (get_workflow_context_for_request req w)))
        ≡ ok c'
      → req.action_status ≢ pending
  unfolding get_workflow_context_for_request
  accepted_status c c' now req w h e =
      modify-pending now w (get_workflow_context_for_request req w) e (store_modified-ok c c' _ h)

  not_found :
      (namespace : String) (now : ℤ) (c c' : Cluster) (req : WorkflowActionStatus)
      → report_action_status k namespace now c req ≡ ok c'
      → ¬ (
          ((e : Error) × (k.get c req.workflow_id namespace ≡ err e))
          ⊎ (k.get c req.workflow_id namespace ≡ crash))
  unfolding report_action_status
  not_found namespace now c c' req h = ground arith

  -- Whatever the workflow, a report is accepted only if it names a workflow, and its task and action
  -- are the current ones of that workflow, and the status is not STATE_PENDING.
  pub report_action_status-ok :
      (namespace : String) (now : ℤ) (c c' : Cluster) (req : WorkflowActionStatus)
      → report_action_status k namespace now c req ≡ ok c'
      → (w : Workflow) × (k.get c req.workflow_id namespace ≡ ok w)
        × (req.workflow_id ≢ "")
        × (req.task_name ≡ (get_task_action_info w).current_task)
        × (req.action_name ≡ (get_task_action_info w).current_action)
        × (req.action_status ≢ pending)
  report_action_status-ok namespace now c c' req h =
      elim (Outcome-cases (k.get c req.workflow_id namespace)) [
        | inl (w, g) ↦
            let r = accepted namespace now c c' req w g h in
            (w, g, r.0, r.1, r.2, accepted_status c c' now req w r.3)
        | inr (inl (e, g)) ↦ absurd (not_found namespace now c c' req h (inl (e, g)))
        | inr (inr g) ↦ absurd (not_found namespace now c c' req h (inr g))
      ]
