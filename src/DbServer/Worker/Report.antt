-- ===== src/DbServer/Worker/Report.antt =====
-- What a status report does to the tables.
use tink.Prelude.{
  ◌≡◌, ◌≢◌, refl, sym, ◌∙◌, String, none, some, some, List, [], ◌∷◌, arith, length, get_elem?,
  str_eq, eq_iff, if◌then◌else◌, Option-cases, inl, inr, ◌⊎◌,
}
use tink.Prelude.Int.{ℤ}
use tink.Prelude.Outcome.{ok, Outcome-cases}
use tink.Proto.{WorkflowContext, WorkflowActionStatus, WorkflowAction}
use tink.Db.Tables.{Tables, StateRow, begin, update, commit}
use tink.Db.State.{
  find_state, context_of, write_context, update_states, get_workflow_contexts, get_workflow_actions,
  update_workflow_state, insert_into_workflow_event_table,
}
use tink.DbServer.Worker.{
  Answers, check_request, next_index, next_context, checked, report_action_status,
}

-- A row whose total is the length of its list, and whose worker, task and action are those of the
-- action at its index, once there is a current action.
pub record IsConsistent (r : StateRow) : Type 0 where
  pub counted : r.total_number_of_actions ≡ length r.action_list
  pub starts : r.current_action_name ≡ "" → r.current_action_index ≡ 0
  pub names :
      r.current_action_name ≢ ""
      → (a : WorkflowAction) × (get_elem? r.action_list r.current_action_index ≡ some a)
        × (a.name ≡ r.current_action_name)
        × (a.task_name ≡ r.current_task_name)
        × (a.worker_id ≡ r.current_worker)

abbrev pub AllConsistent : Tables → Type 0
AllConsistent t =
    (id : String) (r : StateRow) → find_state id t.workflow_state ≡ some r → IsConsistent r

find_state-id :
    (id : String) (rows : List StateRow) (r : StateRow)
    → find_state id rows ≡ some r
    → r.workflow_id ≡ id
unfolding find_state
find_state-id id [] r h = cc
find_state-id id (x ∷ rows) r h = ground (arith, eq_iff x.workflow_id id, find_state-id id rows r)

pub find_state-update :
    (ctx : WorkflowContext) (id : String) (rows : List StateRow)
    → find_state id (update_states ctx rows) ≡ (
        if str_eq id ctx.workflow_id
        then elim (find_state id rows) [ none ↦ none | some r ↦ some (write_context ctx r) ]
        else find_state id rows)
unfolding find_state update_states
find_state-update ctx id [] = ground arith
find_state-update ctx id (x ∷ rows) = ground (
  arith,
  eq_iff x.workflow_id id,
  eq_iff x.workflow_id ctx.workflow_id,
  eq_iff id ctx.workflow_id,
  find_state-update ctx id rows,
)

-- the context that a query gives for a row
abbrev pub row_context : String → StateRow → WorkflowContext
row_context id r = record (context_of r) { workflow_id = id }

-- What a context that is accepted says.
pub record IsNext (r : StateRow) (req : WorkflowActionStatus) (ctx : WorkflowContext)
    (a : WorkflowAction) : Type 0 where
  pub found : get_elem? r.action_list ctx.current_action_index ≡ some a
  pub moved : ctx.current_action_index ≡ next_index (context_of r) req.action_status
  pub id_kept : ctx.workflow_id ≡ req.workflow_id
  pub worker : ctx.current_worker ≡ a.worker_id
  pub task_reported : ctx.current_task ≡ req.task_name
  pub action_reported : ctx.current_action ≡ req.action_name
  pub state : ctx.current_action_state ≡ req.action_status
  pub task_named : a.task_name ≡ req.task_name
  pub action_named : a.name ≡ req.action_name

-- The id of the context does not matter to the index.
pub next_index-id :
    (r : StateRow) (req : WorkflowActionStatus)
    → next_index (row_context req.workflow_id r) req.action_status
      ≡ next_index (context_of r) req.action_status
unfolding next_index
next_index-id r req = refl

out_of_range :
    (r : StateRow) (req : WorkflowActionStatus) (ctx : WorkflowContext)
    → get_elem? r.action_list (next_index (context_of r) req.action_status) ≡ none
    → next_context (row_context req.workflow_id r) r.action_list req ≢ ok ctx
unfolding next_context
out_of_range r req ctx e h = ground (arith, next_index-id r req)

in_range :
    (r : StateRow) (req : WorkflowActionStatus) (ctx : WorkflowContext) (a : WorkflowAction)
    → get_elem? r.action_list (next_index (context_of r) req.action_status) ≡ some a
    → next_context (row_context req.workflow_id r) r.action_list req ≡ ok ctx
    → IsNext r req ctx a
unfolding next_context
in_range r req ctx a e h =
    ground
      (arith, next_index-id r req, eq_iff a.task_name req.task_name, eq_iff a.name req.action_name)

next_context-IsNext :
    (r : StateRow) (req : WorkflowActionStatus) (ctx : WorkflowContext)
    → next_context (row_context req.workflow_id r) r.action_list req ≡ ok ctx
    → (a : WorkflowAction) × IsNext r req ctx a
next_context-IsNext r req ctx h =
    elim (Option-cases (get_elem? r.action_list (next_index (context_of r) req.action_status))) [
      | inl e ↦ absurd (out_of_range r req ctx e h)
      | inr (a, e) ↦ (a, in_range r req ctx a e h)
    ]

-- The context of an accepted report keeps its row consistent.
pub write_context-IsConsistent :
    (r : StateRow) (req : WorkflowActionStatus) (ctx : WorkflowContext) (a : WorkflowAction)
    → req.action_name ≢ ""
    → IsNext r req ctx a
    → IsConsistent r
    → IsConsistent (write_context ctx r)
write_context-IsConsistent r req ctx a n x h = record {
  counted = h.counted;
  starts = λ e. absurd (n (sym x.action_reported ∙ e));
  names = λ _. (
    a,
    x.found,
    x.action_named ∙ sym x.action_reported,
    x.task_named ∙ sym x.task_reported,
    sym x.worker,
  );
}

next_context-nil :
    (c ctx : WorkflowContext) (req : WorkflowActionStatus) → next_context c [] req ≢ ok ctx
unfolding next_context
next_context-nil c ctx req h = ground arith

checked-none :
    (db : Answers) (t : Tables) (req : WorkflowActionStatus) (ctx : WorkflowContext)
    → find_state req.workflow_id t.workflow_state ≡ none
    → checked db t req ≢ ok ctx
unfolding checked get_workflow_contexts
checked-none db t req ctx e h = ground arith

checked-some :
    (db : Answers) (t : Tables) (req : WorkflowActionStatus) (ctx : WorkflowContext) (r : StateRow)
    → find_state req.workflow_id t.workflow_state ≡ some r
    → checked db t req ≡ ok ctx
    → (check_request req ≡ none)
      × (next_context (row_context req.workflow_id r) r.action_list req ≡ ok ctx)
unfolding checked get_workflow_contexts get_workflow_actions
checked-some db t req ctx r e h =
    ground (arith, next_context-nil (row_context req.workflow_id r) ctx req)

check_request-names :
    (req : WorkflowActionStatus)
    → check_request req ≡ none
    → (req.workflow_id ≢ "") × (req.task_name ≢ "") × (req.action_name ≢ "")
unfolding check_request
check_request-names req h =
    ground (arith, eq_iff req.workflow_id "", eq_iff req.task_name "", eq_iff req.action_name "")

-- What an accepted report says of the tables before it.
pub record IsAccepted (t : Tables) (req : WorkflowActionStatus) (ctx : WorkflowContext)
    (r : StateRow) (a : WorkflowAction) : Type 0 where
  pub row : find_state req.workflow_id t.workflow_state ≡ some r
  pub named : (req.workflow_id ≢ "") × (req.task_name ≢ "") × (req.action_name ≢ "")
  pub next : IsNext r req ctx a

pub checked-IsAccepted :
    (db : Answers) (t : Tables) (req : WorkflowActionStatus) (ctx : WorkflowContext)
    → checked db t req ≡ ok ctx
    → (r : StateRow) × (a : WorkflowAction) × IsAccepted t req ctx r a
checked-IsAccepted db t req ctx h =
    elim (Option-cases (find_state req.workflow_id t.workflow_state)) [
      | inl e ↦ absurd (checked-none db t req ctx e h)
      | inr (r, e) ↦
          let (valid, c) = checked-some db t req ctx r e h in
          let (a, x) = next_context-IsNext r req ctx c in
          (r, a, record { row = e; named = check_request-names req valid; next = x })
    ]

-- The tables after a report: unchanged, or with the context stored, and then with or without the event.
pub stored_states :
    (db : Answers) (t : Tables) (req : WorkflowActionStatus) (now : ℤ)
    → ((report_action_status db t req now).0.workflow_state ≡ t.workflow_state)
      ⊎ ((ctx : WorkflowContext) × (checked db t req ≡ ok ctx)
          × ((report_action_status db t req now).0.workflow_state
              ≡ update_states ctx t.workflow_state))
unfolding report_action_status update_workflow_state insert_into_workflow_event_table
stored_states db t req now = elim (Outcome-cases (checked db t req)) [
  | inl (ctx, e) ↦ elim (Option-cases (db.state begin)) [
    | inr (x, p) ↦ inl (ground arith)
    | inl p ↦ elim (Option-cases (db.state update)) [
      | inr (x, q) ↦ inl (ground arith)
      | inl q ↦ elim (Option-cases (db.state commit)) [
        | inr (x, s) ↦ inl (ground arith)
        | inl s ↦ inr (ctx, e, ground arith)
      ]
    ]
  ]
  | inr (inl (x, e)) ↦ inl (ground arith)
  | inr (inr e) ↦ inl (ground arith)
]
