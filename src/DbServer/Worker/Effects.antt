-- ===== src/DbServer/Worker/Effects.antt =====
-- The results of a status report: it keeps the rows consistent, and when it stores, refuses or panics.
use tink.Prelude.{
  ◌≡◌, ◌≢◌, sym, ap, ◌∙◌, String, some, List, [], ◌∷◌, ◌++◌, arith, str_eq, eq_iff, Option-cases,
  Bool-cases, inl, inr, ◌⊎◌,
}
use mathlib.Core.Path.{subst}
use tink.Prelude.Int.{ℤ}
use tink.Prelude.Outcome.{ok, err, crash, Outcome-cases}
use tink.Proto.{WorkflowContext, WorkflowActionStatus, WorkflowAction, Error}
use tink.Db.Tables.{Tables, StateRow}
use tink.Db.State.{
  find_state, write_context, update_states, event_of, update_workflow_state,
  insert_into_workflow_event_table,
}
use tink.DbServer.Worker.{Answers, checked, report_action_status}
use tink.DbServer.Worker.Report.{
  IsConsistent, AllConsistent, find_state-update, write_context-IsConsistent, IsAccepted,
  checked-IsAccepted, stored_states,
}

updated_row :
    (ctx : WorkflowContext) (id : String) (rows : List StateRow) (r' : StateRow)
    → find_state id (update_states ctx rows) ≡ some r'
    → (find_state id rows ≡ some r')
      ⊎ ((r : StateRow) × (find_state id rows ≡ some r)
          × (id ≡ ctx.workflow_id)
          × (r' ≡ write_context ctx r))
updated_row ctx id rows r' h = elim (Bool-cases (str_eq id ctx.workflow_id)) [
  | inr ne ↦ inl (ground (arith, find_state-update ctx id rows))
  | inl same ↦ elim (Option-cases (find_state id rows)) [
    | inl e ↦ absurd (ground (arith, find_state-update ctx id rows))
    | inr (r, e) ↦ inr (r, e, (eq_iff _ _).0 same, ground (arith, find_state-update ctx id rows))
  ]
]

same_row :
    (t : Tables) (req : WorkflowActionStatus) (ctx : WorkflowContext) (r q : StateRow)
    (a : WorkflowAction) (id : String)
    → IsAccepted t req ctx r a
    → find_state id t.workflow_state ≡ some q
    → id ≡ ctx.workflow_id
    → q ≡ r
same_row t req ctx r q a id x e same =
    let n : find_state req.workflow_id t.workflow_state ≡ some q =
      subst (λ i. find_state i t.workflow_state ≡ some q) (same ∙ x.next.id_kept) e in
    let m : some q ≡ some r = sym n ∙ x.row in cc

update-AllConsistent :
    (t : Tables) (req : WorkflowActionStatus) (ctx : WorkflowContext) (r : StateRow)
    (a : WorkflowAction)
    → AllConsistent t
    → IsAccepted t req ctx r a
    → (id : String) (r' : StateRow) → find_state id (update_states ctx t.workflow_state) ≡ some r'
    → IsConsistent r'
update-AllConsistent t req ctx r a all x id r' h = elim (updated_row ctx id t.workflow_state r' h) [
  | inl old ↦ all id r' old
  | inr (q, e, same, w) ↦
      subst IsConsistent (sym (w ∙ ap (write_context ctx) (same_row t req ctx r q a id x e same)))
        (write_context-IsConsistent r req ctx a x.named.2 x.next (all req.workflow_id r x.row))
]

-- When every row is consistent, every row is consistent after a report, whatever the report and
-- whatever the database answers: its total is the length of its list, and its current worker, task
-- and action, if it has any, are those at its index.
pub report_action_status-AllConsistent :
    (db : Answers) (t : Tables) (req : WorkflowActionStatus) (now : ℤ)
    → AllConsistent t
    → AllConsistent (report_action_status db t req now).0
report_action_status-AllConsistent db t req now all id r h = elim (stored_states db t req now) [
  | inl e ↦ all id r (subst (λ rows. find_state id rows ≡ some r) e h)
  | inr (ctx, c, e) ↦
      let (old, a, x) = checked-IsAccepted db t req ctx c in
      update-AllConsistent t req ctx old a all x id r
        (subst (λ rows. find_state id rows ≡ some r) e h)
]

-- the tables after an accepted report
abbrev pub accepted : Tables → WorkflowActionStatus → ℤ → WorkflowContext → Tables
accepted t req now ctx = record t {
  workflow_state = update_states ctx t.workflow_state;
  workflow_event = t.workflow_event ++ event_of req now ∷ [];
}

ok_tables :
    (db : Answers) (t : Tables) (req : WorkflowActionStatus) (now : ℤ) (ctx : WorkflowContext)
    → checked db t req ≡ ok ctx
    → (report_action_status db t req now).1 ≡ ok tt
    → (report_action_status db t req now).0 ≡ accepted t req now ctx
unfolding report_action_status update_workflow_state insert_into_workflow_event_table
ok_tables db t req now ctx e h = ground arith

not_ok_err :
    (db : Answers) (t : Tables) (req : WorkflowActionStatus) (now : ℤ) (x : Error)
    → checked db t req ≡ err x
    → (report_action_status db t req now).1 ≢ ok tt
unfolding report_action_status
not_ok_err db t req now x e h = ground arith

not_ok_crash :
    (db : Answers) (t : Tables) (req : WorkflowActionStatus) (now : ℤ)
    → checked db t req ≡ crash
    → (report_action_status db t req now).1 ≢ ok tt
unfolding report_action_status
not_ok_crash db t req now e h = ground arith

-- A report that is answered without an error names a workflow with a row, whose action at the next
-- index has the reported task and name; it has stored that action's worker, its names, the status and
-- the index in the row of that workflow, and the event behind the others, and changed nothing else.
pub report_action_status-accepted :
    (db : Answers) (t : Tables) (req : WorkflowActionStatus) (now : ℤ)
    → (report_action_status db t req now).1 ≡ ok tt
    → (ctx : WorkflowContext) × (r : StateRow) × (a : WorkflowAction) × IsAccepted t req ctx r a
      × ((report_action_status db t req now).0 ≡ accepted t req now ctx)
report_action_status-accepted db t req now h = elim (Outcome-cases (checked db t req)) [
  | inl (ctx, e) ↦
      let (r, a, x) = checked-IsAccepted db t req ctx e in
      (ctx, r, a, x, ok_tables db t req now ctx e h)
  | inr (inl (x, e)) ↦ absurd (not_ok_err db t req now x e h)
  | inr (inr e) ↦ absurd (not_ok_crash db t req now e h)
]
