-- ===== src/Db/Delete.antt =====
-- `DeleteWorkflow` of db/workflow.go. A transaction that is not committed leaves the tables alone.
use tink.Prelude.{
  ◌≡◌, ◌≢◌, String, Bool, true, false, Option, none, some, List, [], ◌∷◌, arith, str_eq, eq_iff,
  if◌then◌else◌,
}
use tink.Prelude.Names.{contains}
use tink.Prelude.Int.{ℤ}
use tink.Prelude.Outcome.{Outcome, ok, ◌>>◌}
use tink.Db.Tables.{Tables, StateRow, WorkflowRow, DbError, no_workflow, wrapped}
use tink.Db.State.{find_state, workflows_of}

-- DELETE FROM workflow_worker_map WHERE workflow_id = $1
unfoldable pub drop_workers : String → List (String × String) → List (String × String)
drop_workers id [] = []
drop_workers id ((wf, w) ∷ rest) =
    let more = drop_workers id rest in if str_eq wf id then more else (wf, w) ∷ more

-- DELETE FROM workflow_state WHERE workflow_id = $1
unfoldable pub drop_state : String → List StateRow → List StateRow
drop_state id [] = []
drop_state id (r ∷ rest) =
    let more = drop_state id rest in if str_eq r.workflow_id id then more else r ∷ more

-- UPDATE workflow SET deleted_at = NOW() WHERE id = $1
unfoldable pub mark_deleted : String → ℤ → List WorkflowRow → List WorkflowRow
mark_deleted id now [] = []
mark_deleted id now (r ∷ rest) =
    (if str_eq r.id id then record r { deleted_at = some now } else r) ∷ mark_deleted id now rest

-- res.RowsAffected() is not 0
unfoldable pub has_workflow : String → List WorkflowRow → Bool
has_workflow id [] = false
has_workflow id (r ∷ rest) =
    let more = has_workflow id rest in if str_eq r.id id then true else more

-- What the database answers to the transaction, the three statements and the commit.
pub record Deletion : Type 0 where
  pub on_begin : Option String
  pub on_workers : Option String
  pub on_state : Option String
  pub on_workflow : Option String
  pub on_commit : Option String

abbrev fault : Option String → String → Option DbError
fault none message = none
fault (some cause) message = some (wrapped message cause)

unfoldable pub delete_workflow : Deletion → String → ℤ → Tables → Outcome DbError Tables
unfolding drop_workers drop_state mark_deleted has_workflow
delete_workflow d id now t = do
  fault d.on_begin "BEGIN transaction"
  fault d.on_workers "Delete Workflow Error"
  fault d.on_state "Delete Workflow Error"
  fault d.on_workflow "UPDATE"
  if has_workflow id t.workflow then none else some (no_workflow id)
  fault d.on_commit "COMMIT"
  ok (record t {
    workflow_worker_map = drop_workers id t.workflow_worker_map;
    workflow_state = drop_state id t.workflow_state;
    workflow = mark_deleted id now t.workflow;
  })

find_state-drop :
    (id other : String) (rows : List StateRow)
    → find_state other (drop_state id rows)
      ≡ (if str_eq other id then none else find_state other rows)
unfolding find_state drop_state
find_state-drop id other [] = ground arith
find_state-drop id other (r ∷ rows) = ground (
  arith,
  eq_iff r.workflow_id id,
  eq_iff r.workflow_id other,
  eq_iff other id,
  find_state-drop id other rows,
)

workflows_of-drop :
    (id w : String) (rows : List (String × String))
    → contains (workflows_of w (drop_workers id rows)) id ≡ false
unfolding workflows_of drop_workers contains
workflows_of-drop id w [] = ground arith
workflows_of-drop id w ((wf, v) ∷ rows) =
    ground (arith, eq_iff wf id, eq_iff id wf, workflows_of-drop id w rows)

deleted_tables :
    (d : Deletion) (id : String) (now : ℤ) (t t' : Tables)
    → delete_workflow d id now t ≡ ok t'
    → (has_workflow id t.workflow ≡ true)
      × (t'.workflow_state ≡ drop_state id t.workflow_state)
      × (t'.workflow_worker_map ≡ drop_workers id t.workflow_worker_map)
unfolding delete_workflow
deleted_tables d id now t t' h = ground arith

-- A deletion without an error had a row of the workflow to mark; it leaves no state of the workflow and
-- no worker that it is listed for, and keeps the state of every other workflow.
pub delete_workflow-drop :
    (d : Deletion) (id : String) (now : ℤ) (t t' : Tables)
    → delete_workflow d id now t ≡ ok t'
    → (has_workflow id t.workflow ≡ true)
      × (find_state id t'.workflow_state ≡ none)
      × ((w : String) → contains (workflows_of w t'.workflow_worker_map) id ≡ false)
      × ((other : String)
          → other ≢ id
          → find_state other t'.workflow_state ≡ find_state other t.workflow_state)
delete_workflow-drop d id now t t' h =
    let (had, state, workers) = deleted_tables d id now t t' h in
    (
      had,
      ground (arith, state, find_state-drop id id t.workflow_state, eq_iff id id),
      λ w. ground (arith, workers, workflows_of-drop id w t.workflow_worker_map),
      λ other n. ground (arith, state, find_state-drop id other t.workflow_state, eq_iff other id),
    )
