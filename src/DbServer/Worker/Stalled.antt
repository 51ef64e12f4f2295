-- ===== src/DbServer/Worker/Stalled.antt =====
-- What a worker is sent after a report.
use tink.Prelude.{◌≡◌, ◌≢◌, sym, ap, ◌∙◌, String, false, none, some, arith, eq_iff}
use mathlib.Core.Path.{subst}
use tink.Prelude.Int.{ℤ}
use tink.Prelude.Outcome.{ok}
use tink.Proto.{State, success, WorkflowContext, WorkflowActionStatus, WorkflowAction}
use tink.Db.Tables.{Tables, StateRow, Faults, select}
use tink.Db.State.{find_state, context_of, write_context}
use tink.DbServer.Worker.{
  Answers, next_index, is_final, is_running, context_to_send, report_action_status,
}
use tink.DbServer.Worker.Report.{IsAccepted, find_state-update}
use tink.DbServer.Worker.Effects.{accepted, report_action_status-accepted}
use tink.DbServer.Worker.Due.{context_of_row, succeeded_later}

next_index-success :
    (ctx : WorkflowContext) (s : State) → s ≡ success → next_index ctx s ≡ ctx.current_action_index
unfolding next_index
next_index-success ctx s e = ground (arith, ap is_running e)

-- the row of the report after it
pub stored_row :
    (t : Tables) (req : WorkflowActionStatus) (now : ℤ) (ctx : WorkflowContext) (r : StateRow)
    (a : WorkflowAction)
    → IsAccepted t req ctx r a
    → find_state req.workflow_id (accepted t req now ctx).workflow_state
      ≡ some (write_context ctx r)
stored_row t req now ctx r a x = ground (
  arith,
  find_state-update ctx req.workflow_id t.workflow_state,
  eq_iff req.workflow_id ctx.workflow_id,
  x.row,
  x.next.id_kept,
)

stalled :
    (f g : Faults) (t : Tables) (worker id : String) (r : StateRow)
    → find_state id t.workflow_state ≡ some r
    → f select ≡ none
    → g select ≡ none
    → r.current_action_state ≡ success
    → r.current_action_index ≢ 0
    → context_to_send f g t worker id ≡ ok none
stalled f g t worker id r e p q s n =
    let live : is_final r.current_action_state ≡ false = ap is_final s in
    context_of_row f g t worker id r e p q
    ∙ ground (arith, live, succeeded_later worker id r live s n)

-- Once the success of an action at another index than 0 is reported and the report is answered
-- without an error, no worker is sent the workflow, whether more actions follow or not, as long as
-- both queries answer.
pub context_to_send-stalled :
    (f g : Faults) (db : Answers) (t : Tables) (req : WorkflowActionStatus) (now : ℤ) (r : StateRow)
    (worker : String)
    → f select ≡ none
    → g select ≡ none
    → (report_action_status db t req now).1 ≡ ok tt
    → req.action_status ≡ success
    → find_state req.workflow_id t.workflow_state ≡ some r
    → r.current_action_index ≢ 0
    → context_to_send f g (report_action_status db t req now).0 worker req.workflow_id ≡ ok none
context_to_send-stalled f g db t req now r worker p q h s e n =
    let (ctx, old, a, x, w) = report_action_status-accepted db t req now h in
    subst (λ t'. context_to_send f g t' worker req.workflow_id ≡ ok none) (sym w)
      (stalled f g (accepted t req now ctx) worker req.workflow_id (write_context ctx old)
        (stored_row t req now ctx old a x) p q (x.next.state ∙ s)
        (ground
          (arith, x.row, x.next.moved, next_index-success (context_of old) req.action_status s)))
