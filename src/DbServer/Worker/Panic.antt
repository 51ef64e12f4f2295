-- ===== src/DbServer/Worker/Panic.antt =====
-- When a status report indexes the list of actions out of its range.
use tink.Prelude.{
  ◌≤◌, ◌≡◌, ◌↔◌, none, some, arith, length, get_elem?, Option-cases, inl, inr, lt-of-get_elem?,
  get_elem?-lt,
}
use tink.Prelude.Int.{ℤ}
use tink.Prelude.Outcome.{crash, Outcome-cases}
use tink.Proto.{State, WorkflowActionStatus}
use tink.Db.Tables.{Tables, StateRow, begin, select, update, commit}
use tink.Db.State.{
  find_state, context_of, get_workflow_contexts, get_workflow_actions, update_workflow_state,
  insert_into_workflow_event_table,
}
use tink.DbServer.Worker.{
  Answers, check_request, next_index, next_context, checked, report_action_status,
}
use tink.DbServer.Worker.Report.{row_context, next_index-id}

-- the report's index and the list's length when the bounds check lets a bad index through
abbrev pub IsUnguarded : StateRow → State → Type 0
IsUnguarded r status =
    (length r.action_list ≤ 1) × (length r.action_list ≤ next_index (context_of r) status)

-- Storing never panics.
store-crash :
    (db : Answers) (t : Tables) (req : WorkflowActionStatus) (now : ℤ)
    → ((report_action_status db t req now).1 ≡ crash) ↔ (checked db t req ≡ crash)
unfolding report_action_status update_workflow_state insert_into_workflow_event_table
store-crash db t req now = elim (Outcome-cases (checked db t req)) [
  | inl (ctx, e) ↦ elim (Option-cases (db.state begin)) [
    | inr (x, p) ↦ ground arith
    | inl p ↦ elim (Option-cases (db.state update)) [
      | inr (x, q) ↦ ground arith
      | inl q ↦ elim (Option-cases (db.state commit)) [
        | inr (x, s) ↦ ground arith
        | inl s ↦ ground arith
      ]
    ]
  ]
  | inr (inl (x, e)) ↦ ground arith
  | inr (inr e) ↦ ground arith
]

checked_row :
    (db : Answers) (t : Tables) (req : WorkflowActionStatus) (r : StateRow)
    → check_request req ≡ none
    → find_state req.workflow_id t.workflow_state ≡ some r
    → db.context select ≡ none
    → db.actions select ≡ none
    → checked db t req ≡ next_context (row_context req.workflow_id r) r.action_list req
unfolding checked get_workflow_contexts get_workflow_actions
checked_row db t req r v e p q = ground arith

next_context-crash :
    (r : StateRow) (req : WorkflowActionStatus)
    → r.total_number_of_actions ≡ length r.action_list
    → (next_context (row_context req.workflow_id r) r.action_list req ≡ crash)
      ↔ IsUnguarded r req.action_status
unfolding next_context
next_context-crash r req n =
    elim (Option-cases (get_elem? r.action_list (next_index (context_of r) req.action_status))) [
      | inl e ↦ ground (
        arith,
        next_index-id r req,
        get_elem?-lt r.action_list (next_index (context_of r) req.action_status),
      )
      | inr (a, e) ↦ ground (
        arith,
        next_index-id r req,
        lt-of-get_elem? r.action_list (next_index (context_of r) req.action_status) e,
      )
    ]

-- Where both queries of a report with its three names answer, and the total of the workflow's row is
-- the length of its list, the report panics exactly when the list has at most one action and the
-- report's index is out of the list: the bounds check leaves such lists out.
pub report_action_status-crash :
    (db : Answers) (t : Tables) (req : WorkflowActionStatus) (now : ℤ) (r : StateRow)
    → check_request req ≡ none
    → find_state req.workflow_id t.workflow_state ≡ some r
    → r.total_number_of_actions ≡ length r.action_list
    → db.context select ≡ none
    → db.actions select ≡ none
    → ((report_action_status db t req now).1 ≡ crash) ↔ IsUnguarded r req.action_status
report_action_status-crash db t req now r v e n p q =
    ground
      (arith, store-crash db t req now, checked_row db t req r v e p q, next_context-crash r req n)
