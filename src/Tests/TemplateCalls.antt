-- ===== src/Tests/TemplateCalls.antt =====
-- Tests of the template table and of the services that read it.
use tink.Prelude.{
  str_eq, if◌then◌else◌, ap, Bool-cases, eq_iff, arith, ℕ, ◌≡◌, ◌≢◌, refl, sym, ◌∙◌, String, Bool,
  true, false, Option, none, some, List, [], ◌∷◌, inl, inr,
}
use mathlib.Core.List.{Perm}
use tink.Prelude.Int.{pos}
use tink.Prelude.Outcome.{ok}
use tink.Proto.{pending, running}
use tink.Template.Types as Template
use tink.Template.Render.{render_template}
use tink.Template.Validate.{validate, validate_tasks, validate_actions}
use tink.Prelude.Names.{contains}
use tink.Db.Tables.{Tables, EventRow, Faults, DbError}
use tink.Db.Create.{tasks_of, insert_action_list}
use tink.Db.Create as Creating
use tink.Db.Template.{
  TemplateRow, Types, is_taken, put_template, change, first_template, build_get_condition,
  create_template, get_template, check_update, update_template, column_test,
}
use tink.Db.Template.Text.{is_template_name}
use tink.Db.Template.Lookup.{create_template-get_template}
use tink.Db.Template.Updated.{AreUpdated, update_template-get_template}
use tink.Db.Workflows.{show_workflow_events, events_of}
use tink.Db.Workflows.Events.{IsOrdered, collect, show_workflow_events-IsOrdered}
use tink.DbServer.Workflow.{Stores, WorkflowMessage, create_workflow, get_workflow}
use tink.DbServer.Workflow.Cast.{IsCast}
use tink.DbServer.Workflow.Created.{create_workflow-get_workflow}
use tink.DbServer.Workflow.Found.{IsKeyed}
use tink.Tests.Templates.{engine}
use tink.Tests.Creations.{creation}
use tink.Tests.Histories.{no_rows as no_tables}

abbrev no_faults : Faults
no_faults c = none

abbrev types : Types
types = record { uuid = λ text. some text; bytea = λ text. some text; ilike = λ filter name. true }

abbrev parse_any : String → Option DbError
parse_any text = none

abbrev other : TemplateRow
other = record {
  id = "t0";
  name = "erase";
  created_at = pos 0;
  updated_at = pos 0;
  deleted_at = none;
  content = "erase";
}

stored :
    (rows : List TemplateRow) × (create_template types no_faults parse_any "install" "yaml" "t1"
        (pos 1)
        (other ∷ [])
      ≡ ok rows)
unfolding create_template put_template is_taken is_template_name
stored = (_, refl)

create_template-get_template_example :
    (parse_any "yaml" ≡ none)
    × (is_taken "t1" "install" (other ∷ []) ≡ false)
    × (is_template_name "install" ≡ true)
    × ((fields : List (String × String)) (u : String) (deleted : Bool)
        → build_get_condition fields ≡ ok ("id", u)
        → types.uuid u ≡ some "t1"
        → (r : TemplateRow) × (get_template types no_faults fields deleted stored.0 ≡ ok r)
          × (r.id ≡ "t1")
          × (r.name ≡ "install")
          × (types.bytea "yaml" ≡ some r.content)
          × (r.deleted_at ≡ none))
    × ((fields : List (String × String)) (u t : String) (deleted : Bool)
        → build_get_condition fields ≡ ok ("id", u)
        → types.uuid u ≡ some t
        → t ≢ "t1"
        → get_template types no_faults fields deleted stored.0
          ≡ get_template types no_faults fields deleted (other ∷ []))
create_template-get_template_example =
    create_template-get_template types no_faults no_faults parse_any "install" "yaml" "t1" (pos 1)
      (other ∷ []) stored.0 stored.1 refl

-- both blank
erased :
    (rows : List TemplateRow) × (update_template types no_faults "" "" "t0" (pos 2) (other ∷ [])
      ≡ ok rows)
unfolding update_template check_update change is_taken first_template is_template_name
erased = (_, refl)

update_template-get_template_example :
    ((fields : List (String × String)) (u : String) (deleted : Bool)
      → build_get_condition fields ≡ ok ("id", u)
      → types.uuid u ≡ some "t0"
      → AreUpdated types "" ""
          (pos 2)
          (get_template types no_faults fields deleted (other ∷ []))
          (get_template types no_faults fields deleted erased.0))
    × ((fields : List (String × String)) (u t : String) (deleted : Bool)
        → build_get_condition fields ≡ ok ("id", u)
        → types.uuid u ≡ some t
        → t ≢ "t0"
        → get_template types no_faults fields deleted erased.0
          ≡ get_template types no_faults fields deleted (other ∷ []))
update_template-get_template_example =
    update_template-get_template types no_faults no_faults "" "" "t0" (pos 2) (other ∷ []) erased.0
      erased.1 refl

abbrev event_at : String → ℕ → EventRow
event_at action at = record {
  workflow_id = "wf1";
  worker_id = "m1";
  task_name = "os";
  action_name = action;
  execution_time = pos 0;
  message = "";
  status = running;
  created_at = pos at;
}

abbrev two_events : Tables
two_events = record no_tables { workflow_event = event_at "image" 9 ∷ event_at "disk" 4 ∷ [] }

show_workflow_events-IsOrdered_example :
    (shown : List EventRow) × (show_workflow_events no_faults collect [] "wf1" two_events
      ≡ (shown, none))
    × IsOrdered shown
    × Perm shown (events_of "wf1" two_events.workflow_event)
show_workflow_events-IsOrdered_example =
    show_workflow_events-IsOrdered no_faults "wf1" two_events refl

abbrev stores : Stores
stores = record { ready = true; templates = other ∷ []; tables = no_tables }

-- a blank text is no id
abbrev keyed : Types
keyed = record types { uuid = λ text. if str_eq text "" then none else some text }

blank_or-same :
    (u key : String) → (if str_eq u "" then none else some u) ≡ some key → (key ≢ "") × (key ≡ u)
blank_or-same u key h = elim (Bool-cases (str_eq u "")) [
  | inl e ↦ absurd (ground (arith, e))
  | inr e ↦
      let same : key ≡ u = ground (arith, e) in (λ z. ground (arith, e, same, z, eq_iff u ""), same)
]

creation-IsCast : IsCast keyed engine no_faults creation.casts
creation-IsCast = record {
  same_uuid = λ u. refl;
  stable = λ u key h. let (ne, same) = blank_or-same u key h in (ne, ap keyed.uuid same ∙ h);
  same_json = λ d d' h. ap engine.unmarshal_json (blank_or-same d d' h).1;
}

started :
    (s : Stores) × (create_workflow keyed engine no_faults creation
        (some "wf1")
        (pos 5)
        "t0"
        "{}"
        stores
      ≡ ok ("wf1", s))
unfolding create_workflow get_template build_get_condition column_test first_template
    render_template validate validate_tasks validate_actions contains Creating.create_workflow
started = (_, refl)

stores-IsKeyed : IsKeyed stores.templates
stores-IsKeyed r s (inl a) (inl b) e = sym a ∙ b
stores-IsKeyed r s (inl a) (inr b) e = absurd b
stores-IsKeyed r s (inr a) b e = absurd a

create_workflow-get_workflow_example :
    (m : WorkflowMessage) × (get_workflow keyed engine no_faults "wf1" started.0 ≡ ok m)
    × (m.id ≡ "wf1")
    × (keyed.uuid "t0" ≡ some m.template)
    × (creation.casts.jsonb "{}" ≡ some m.hardware)
    × (m.state ≡ pending)
    × (m.updated_at ≡ pos 5)
    × ((r : TemplateRow) × (get_template keyed no_faults (("id", "t0") ∷ []) false (other ∷ [])
          ≡ ok r)
        × (render_template engine "t0" r.content "{}" ≡ ok m.content))
    × ((wf : Template.Workflow) × (creation.parse m.content ≡ ok wf))
create_workflow-get_workflow_example =
    create_workflow-get_workflow keyed engine no_faults no_faults creation (some "wf1") (pos 5) "t0"
      "{}" "wf1" stores started.0 started.1 creation-IsCast stores-IsKeyed refl
