-- ===== src/Tests/Creations.antt =====
-- Tests of the creation of a workflow in the database.
use tink.Prelude.{◌≡◌, refl, List, none, some, arith, length}
use tink.Prelude.Int.{pos}
use tink.Prelude.Outcome.{ok, err, crash}
use tink.Proto.{WorkflowAction}
use tink.Template.Types as Template
use tink.Convert.Status.{template_actions}
use tink.Db.Tables.{Tables}
use tink.Prelude.{str_eq, if◌then◌else◌, true, false, ◌≢◌, String}
use tink.Prelude.Names.{contains}
use tink.Db.State.{find_state, workflows_of}
use tink.Db.Delete.{Deletion, has_workflow, delete_workflow, delete_workflow-drop}
use tink.Db.Create.{
  put_workflow, Creation, tasks_of, new_state, insert_action_list, create_workflow,
}
use tink.Db.Create.Start.{create_workflow-AllConsistent}
use tink.DbServer.Worker.Report.{AllConsistent}
use tink.Tests.Samples.{install}
use tink.Tests.Histories.{no_rows}

abbrev pub creation : Creation
creation = record {
  parse = λ yaml. ok install;
  worker_id = λ addr. ok addr;
  parse_uuid = λ id. some id;
  order = λ entries. entries;
  casts = record {
    uuid = λ text. if str_eq text "" then none else some text;
    jsonb = λ text. if str_eq text "" then none else some text;
  };
  on_begin = none;
  on_state = none;
  on_workflow = none;
  on_commit = none;
  on_worker = λ worker. none;
}

created : Tables
created = elim (create_workflow creation "wf1" "install" "{}" "yaml" (pos 1) no_rows) [
  | ok t ↦ t
  | err e ↦ no_rows
  | crash ↦ no_rows
]

created_runs : create_workflow creation "wf1" "install" "{}" "yaml" (pos 1) no_rows ≡ ok created
unfolding created create_workflow insert_action_list tasks_of
created_runs = refl

no_rows-AllConsistent : AllConsistent no_rows
unfolding find_state
no_rows-AllConsistent id r h = absurd (ground arith)

create_workflow-AllConsistent_example :
    AllConsistent created
    × ((wf : Template.Workflow) × (actions : List WorkflowAction) × (creation.parse "yaml" ≡ ok wf)
        × (length actions ≡ template_actions wf.tasks)
        × (find_state "wf1" created.workflow_state ≡ some (new_state creation "wf1" actions)))
create_workflow-AllConsistent_example =
    create_workflow-AllConsistent creation "wf1" "install" "{}" "yaml" (pos 1) no_rows created
      created_runs no_rows-AllConsistent

abbrev no_deletion_faults : Deletion
no_deletion_faults = record {
  on_begin = none;
  on_workers = none;
  on_state = none;
  on_workflow = none;
  on_commit = none;
}

created_deleted : (t' : Tables) × (delete_workflow no_deletion_faults "wf1" (pos 2) created ≡ ok t')
unfolding created create_workflow insert_action_list tasks_of put_workflow delete_workflow
    has_workflow
created_deleted = (_, refl)

delete_workflow-drop_example :
    (has_workflow "wf1" created.workflow ≡ true)
    × (find_state "wf1" created_deleted.0.workflow_state ≡ none)
    × ((w : String) → contains (workflows_of w created_deleted.0.workflow_worker_map) "wf1" ≡ false)
    × ((other : String)
        → other ≢ "wf1"
        → find_state other created_deleted.0.workflow_state
          ≡ find_state other created.workflow_state)
delete_workflow-drop_example =
    delete_workflow-drop no_deletion_faults "wf1" (pos 2) created created_deleted.0
      created_deleted.1
