-- ===== src/DbServer/Status.antt =====
-- `getWorkflowState` of server/dbserver_workflow.go, which the listing and the lookup of workflows use.
use tink.Prelude.{ℕ, suc, ◌≡◌, String, some, none, ◌==◌, if◌then◌else◌, arith, refl, ◌∙◌, ap}
use tink.Prelude.Int.{ℤ}
use tink.Prelude.Outcome.{ok, err, crash}
use tink.Proto.{
  State, pending, running, success, WorkflowContext, WorkflowActionStatus, WorkflowAction,
}
use tink.Db.Tables.{Tables, StateRow, Faults, select}
use tink.Db.State.{find_state, write_context, get_workflow_contexts}
use tink.DbServer.Worker.{Answers, is_success, report_action_status}
use tink.DbServer.Worker.Report.{IsAccepted, AllConsistent}
use tink.DbServer.Worker.Effects.{accepted, report_action_status-accepted}
use tink.DbServer.Worker.Stalled.{stored_row}
use tink.Prelude.{length, List}
use tink.Proto.{failed, timeout, unrecognized}

-- the state of a workflow by its context
unfoldable pub state_of : WorkflowContext → State
state_of ctx =
    if is_success ctx.current_action_state
    then if suc ctx.current_action_index == ctx.total_number_of_actions then success else running
    else ctx.current_action_state

-- An error is logged, and the context beside it is empty.
unfoldable pub get_workflow_state : Faults → Tables → String → State
unfolding state_of
get_workflow_state f t id = elim (get_workflow_contexts f t id) [
  | ok ctx ↦ state_of ctx
  | err e ↦ pending
  | crash ↦ pending
]

row_state :
    (f : Faults) (t : Tables) (id : String) (r : StateRow)
    → find_state id t.workflow_state ≡ some r
    → f select ≡ none
    → get_workflow_state f t id ≡ (
        if is_success r.current_action_state
        then if suc r.current_action_index == r.total_number_of_actions then success else running
        else r.current_action_state)
unfolding get_workflow_state get_workflow_contexts
row_state f t id r e p = ground arith

-- the state that a report leaves a workflow in, with the index of its action
abbrev pub state_after : State → ℕ → List WorkflowAction → State
state_after success i actions = if suc i == length actions then success else running
state_after status i actions = status

state_after-row :
    (status : State) (i : ℕ) (r : StateRow)
    → r.total_number_of_actions ≡ length r.action_list
    → (if is_success status
        then if suc i == r.total_number_of_actions then success else running
        else status)
      ≡ state_after status i r.action_list
state_after-row pending i r n = refl
state_after-row running i r n = refl
state_after-row failed i r n = refl
state_after-row timeout i r n = refl
state_after-row success i r n = ground (arith, n)
state_after-row (unrecognized m) i r n = refl

-- After a report that is answered without an error, on consistent rows, the workflow has the
-- reported state, except that a success is Success only if the reported action is the list's last
-- one, and Running otherwise; as long as the query of the state answers.
pub get_workflow_state-IsAccepted :
    (f : Faults) (db : Answers) (t : Tables) (req : WorkflowActionStatus) (now : ℤ)
    → f select ≡ none
    → AllConsistent t
    → (report_action_status db t req now).1 ≡ ok tt
    → (ctx : WorkflowContext) × (r : StateRow) × (a : WorkflowAction) × IsAccepted t req ctx r a
      × (get_workflow_state f (report_action_status db t req now).0 req.workflow_id
          ≡ state_after req.action_status ctx.current_action_index r.action_list)
get_workflow_state-IsAccepted f db t req now p all h =
    let (ctx, r, a, x, w) = report_action_status-accepted db t req now h in
    let c = (all req.workflow_id r x.row).counted in
    (
      ctx,
      r,
      a,
      x,
      ap (λ t'. get_workflow_state f t' req.workflow_id) w
          ∙ row_state f (accepted t req now ctx) req.workflow_id (write_context ctx r)
              (stored_row t req now ctx r a x) p
          ∙ state_after-row ctx.current_action_state ctx.current_action_index (write_context ctx r)
              c
          ∙ ap (λ s. state_after s ctx.current_action_index r.action_list) x.next.state,
    )
