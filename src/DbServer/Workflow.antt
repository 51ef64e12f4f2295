-- ===== src/DbServer/Workflow.antt =====
-- server/dbserver_workflow.go: the workflow service over db/workflow.go and db/template.go. The package
-- uuid is a parameter; counters and logs are left out.
pub mod Found
pub mod Cast
pub mod Created
pub mod Workers
use tink.Prelude.{String, Bool, false, true, Option, none, some, List, [], ◌∷◌, ◌++◌, if◌then◌else◌}
use tink.Prelude.Int.{ℤ}
use tink.Prelude.Outcome.{Outcome, ok, err, crash, or_fail, ◌>>=◌}
use tink.Proto.{State, WorkflowContext, WorkflowActionStatus}
use tink.Template.Render.{Engine, RenderError, render_template}
use tink.Db.Tables.{Tables, Faults, DbError, WorkflowRow, EventRow, bad_input}
use tink.Db.State.{get_workflow_contexts}
use tink.Db.Create.{Creation}
use tink.Db.Create as Creating
use tink.Db.Delete as Deleting
use tink.Db.Delete.{Deletion}
use tink.Db.Template.{TemplateRow, Types, get_template}
use tink.Db.Workflows as Rows
use tink.DbServer.Status.{get_workflow_state}

pub data ServiceError : Type 0 where
  no_id : ServiceError
  failed_template : String → DbError → ServiceError
  rendering : RenderError → ServiceError
  database : DbError → ServiceError

abbrev pub from_template {ℓ} : {A : Type ℓ} → String → Outcome DbError A → Outcome ServiceError A
from_template id (ok a) = ok a
from_template id (err e) = err (failed_template id e)
from_template id crash = crash

abbrev pub from_render {ℓ} : {A : Type ℓ} → Outcome RenderError A → Outcome ServiceError A
from_render (ok a) = ok a
from_render (err e) = err (rendering e)
from_render crash = crash

abbrev pub from_database {ℓ} : {A : Type ℓ} → Outcome DbError A → Outcome ServiceError A
from_database (ok a) = ok a
from_database (err e) = err (database e)
from_database crash = crash

-- The tables that the service uses.
pub record Stores : Type 0 where
  pub ready : Bool
  pub templates : List TemplateRow
  pub tables : Tables

-- A message Workflow.
pub record WorkflowMessage : Type 0 where
  pub id : String
  pub template : String
  pub hardware : String
  pub state : State
  pub created_at : ℤ
  pub updated_at : ℤ
  pub content : String

module _ {Hardware : Type 0} (k : Types) (engine : Engine Hardware) (f : Faults) where
  -- `new_id` is uuid.NewUUID's answer
  unfoldable pub create_workflow :
      Creation
      → Option String
      → ℤ
      → String
      → String
      → Stores
      → Outcome ServiceError (String × Stores)
  create_workflow creation new_id now template hardware s = do
    id ← or_fail new_id no_id
    r ← from_template template (get_template k f (("id", template) ∷ []) false s.templates)
    text ← from_render (render_template engine template r.content hardware)
    t ← from_database (Creating.create_workflow creation id template hardware text now s.tables)
    ok (id, record s { tables = t })

  abbrev pub workflow_message : State → String → WorkflowRow → WorkflowMessage
  workflow_message state text w = record {
    id = w.id;
    template = w.template;
    hardware = w.devices;
    state = state;
    created_at = w.created_at;
    updated_at = w.updated_at;
    content = text;
  }

  -- The template may be deleted by now.
  unfoldable pub get_workflow : String → Stores → Outcome ServiceError WorkflowMessage
  get_workflow id s = do
    w ← from_database (Rows.get_workflow f id s.tables)
    r ← from_template w.template (get_template k f (("id", w.template) ∷ []) true s.templates)
    text ← from_render (render_template engine w.template r.content w.devices)
    ok (workflow_message (get_workflow_state f s.tables id) text w)

  unfoldable pub delete_workflow :
      Deletion → String → ℤ → Stores → Stores × Outcome ServiceError (Unit {0})
  delete_workflow d id now s = elim (Deleting.delete_workflow d id now s.tables) [
    | ok t ↦ (record s { tables = t }, ok tt)
    | err e ↦ (s, err (database e))
    | crash ↦ (s, crash)
  ]

  abbrev pub send_workflow :
      Tables
      → (List WorkflowMessage → Option DbError)
      → List WorkflowMessage
      → WorkflowRow
      → List WorkflowMessage × Option DbError
  send_workflow t send sent w = elim (send sent) [
    | none ↦ (sent ++ workflow_message (get_workflow_state f t w.id) "" w ∷ [], none)
    | some e ↦ (sent, some e)
  ]

  unfoldable pub list_workflows :
      (List WorkflowMessage → Option DbError) → Stores → List WorkflowMessage × Option DbError
  list_workflows send s =
      if s.ready
      then Rows.list_workflows f (send_workflow s.tables send) [] s.tables
      else ([], some (bad_input "DB is not ready"))

  unfoldable pub get_workflow_context : String → Stores → Outcome ServiceError WorkflowContext
  get_workflow_context id s = from_database (get_workflow_contexts f s.tables id)

  -- The message has no id of the workflow; the time of the event goes with it.
  abbrev pub status_of : EventRow → WorkflowActionStatus × ℤ
  status_of e = (
    record {
      workflow_id = "";
      worker_id = e.worker_id;
      task_name = e.task_name;
      action_name = e.action_name;
      action_status = e.status;
      message = e.message;
      seconds = e.execution_time;
    },
    e.created_at,
  )

  abbrev pub send_event :
      (List (WorkflowActionStatus × ℤ) → Option DbError)
      → List (WorkflowActionStatus × ℤ)
      → EventRow
      → List (WorkflowActionStatus × ℤ) × Option DbError
  send_event send sent e = elim (send sent) [
    | none ↦ (sent ++ status_of e ∷ [], none)
    | some x ↦ (sent, some x)
  ]

  unfoldable pub show_workflow_events :
      (List (WorkflowActionStatus × ℤ) → Option DbError)
      → String
      → Stores
      → List (WorkflowActionStatus × ℤ) × Option DbError
  show_workflow_events send id s =
      if s.ready
      then Rows.show_workflow_events f (send_event send) [] id s.tables
      else ([], some (bad_input "DB is not ready"))
