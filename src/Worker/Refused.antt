-- ===== src/Worker/Refused.antt =====
-- Reports that name another action than the one at their index.
use tink.Prelude.{
  ℕ, zero, suc, ◌≡◌, ◌≢◌, Option, none, some, arith, length, get_elem?, str_eq, eq_iff,
  lt-of-get_elem?, Bool-cases, inl, inr,
}
use tink.Prelude.Int.{ℤ}
use tink.Prelude.Outcome.{err}
use tink.Proto.{WorkflowActionStatus, WorkflowAction, Error, invalid_argument}
use tink.Db.Tables.{Tables, StateRow}
use tink.Db.State.{find_state, context_of, get_workflow_contexts, get_workflow_actions}
use tink.DbServer.Worker as Server
use tink.DbServer.Worker.{check_request, next_index, next_context, checked}
use tink.DbServer.Worker.Report.{row_context, next_index-id}
use tink.Worker.{report_action_status}
use tink.Worker.Reporting.{call}

next_context_refused :
    (req : WorkflowActionStatus) (r : StateRow) (a : WorkflowAction) (i : ℕ)
    → next_index (context_of r) req.action_status ≡ i
    → get_elem? r.action_list i ≡ some a
    → r.total_number_of_actions ≡ length r.action_list
    → req.action_name ≢ a.name
    → (e : Error) × (next_context (row_context req.workflow_id r) r.action_list req ≡ err e)
unfolding next_context
next_context_refused req r a i p g c n = elim (Bool-cases (str_eq a.task_name req.task_name)) [
  | inl s ↦ (
    invalid_argument "reported action name does not match the current action details",
    ground (
      arith,
      p,
      g,
      c,
      s,
      n,
      next_index-id r req,
      lt-of-get_elem? r.action_list i g,
      eq_iff a.name req.action_name,
    ),
  )
  | inr s ↦ (
    invalid_argument "reported task name does not match the current action details",
    ground (arith, p, g, c, s, next_index-id r req, lt-of-get_elem? r.action_list i g),
  )
]

-- A report that names another action than the one at its index is refused, and changes nothing.
pub call_refused :
    (now : ℤ) (t : Tables) (req : WorkflowActionStatus) (r : StateRow) (a : WorkflowAction) (i : ℕ)
    → find_state req.workflow_id t.workflow_state ≡ some r
    → check_request req ≡ none
    → next_index (context_of r) req.action_status ≡ i
    → get_elem? r.action_list i ≡ some a
    → r.total_number_of_actions ≡ length r.action_list
    → req.action_name ≢ a.name
    → (e : Error) × (call now t req ≡ (t, some e))
unfolding Server.report_action_status checked get_workflow_contexts get_workflow_actions
call_refused now t req r a i f v p g c n =
    let (e, x) = next_context_refused req r a i p g c n in (e, ground (arith, f, v, x))

-- Trying again does not help.
pub retries_refused :
    {Server : Type 0} (ask : Server → WorkflowActionStatus → Server × Option Error) (s : Server)
    (req : WorkflowActionStatus) (e : Error) (retries : ℕ) (last : Option Error)
    → ask s req ≡ (s, some e)
    → report_action_status ask (suc retries) last s req ≡ (s, some e)
unfolding report_action_status
retries_refused ask s req e zero last h = ground (arith, h)
retries_refused ask s req e (suc n) last h =
    ground (arith, h, retries_refused ask s req e n (some e) h)
