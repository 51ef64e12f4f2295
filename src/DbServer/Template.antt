-- ===== src/DbServer/Template.antt =====
-- server/dbserver_template.go: the template service over db/template.go. The parser of templates, the
-- package uuid and the order in which Go walks a map are parameters; counters and logs are left out.
use tink.Prelude.{
  String, Bool, false, Option, none, some, List, [], ◌∷◌, ◌++◌, str_eq, if◌then◌else◌,
}
use tink.Prelude.Int.{ℤ}
use tink.Prelude.Outcome.{Outcome, ok, err, crash}
use tink.Proto.Template.{WorkflowTemplate}
use tink.Db.Tables.{Faults, DbError, bad_input}
use tink.Db.Template.{
  TemplateRow, Types, create_template, get_template, delete_template, list_templates,
  update_template,
}
use tink.Db.Template.Text.{replace_stars}

-- the answer to a lookup that finds the row
abbrev pub message_of : TemplateRow → WorkflowTemplate
message_of r = record {
  id = r.id;
  name = r.name;
  created_at = some r.created_at;
  updated_at = some r.updated_at;
  deleted_at = none;
  content = r.content;
}

-- an entry of the listing, without the data
abbrev pub summary_of : TemplateRow → WorkflowTemplate
summary_of r = record {
  id = r.id;
  name = r.name;
  created_at = some r.created_at;
  updated_at = some r.updated_at;
  deleted_at = none;
  content = "";
}

-- the rows after a call, and the answer
abbrev pub replied {ℓ} :
    {A : Type ℓ}
    → List TemplateRow
    → A
    → Outcome DbError (List TemplateRow)
    → List TemplateRow × Outcome DbError A
replied rows a (ok rows') = (rows', ok a)
replied rows a (err e) = (rows, err e)
replied rows a crash = (rows, crash)

module _ (k : Types) (f : Faults) where
  unfoldable pub create :
      (String → Option DbError)
      → String
      → ℤ
      → String
      → String
      → List TemplateRow
      → List TemplateRow × Outcome DbError String
  create parse id now name text rows =
      replied rows id (create_template k f parse name text id now rows)

  -- `order` is the walk over the map of the two fields
  unfoldable pub get :
      (List (String × String) → List (String × String))
      → String
      → String
      → List TemplateRow
      → Outcome DbError WorkflowTemplate
  get order id name rows =
      elim (get_template k f (order (("id", id) ∷ ("name", name) ∷ [])) false rows) [
        | ok r ↦ ok (message_of r)
        | err e ↦ err e
        | crash ↦ crash
      ]

  unfoldable pub delete :
      String → ℤ → List TemplateRow → List TemplateRow × Outcome DbError (Unit {0})
  delete id now rows = replied rows tt (delete_template k f id now rows)

  -- the filter of a listing
  unfoldable pub filter_of : String → String
  filter_of name = if str_eq name "" then "%" else replace_stars name

  abbrev pub send_template :
      (List WorkflowTemplate → Option DbError)
      → List WorkflowTemplate
      → TemplateRow
      → List WorkflowTemplate × Option DbError
  send_template send sent r = elim (send sent) [
    | none ↦ (sent ++ summary_of r ∷ [], none)
    | some e ↦ (sent, some e)
  ]

  unfoldable pub list :
      Bool
      → (List WorkflowTemplate → Option DbError)
      → String
      → List TemplateRow
      → List WorkflowTemplate × Option DbError
  unfolding filter_of
  list ready send name rows =
      if ready
      then list_templates k f (send_template send) (filter_of name) [] rows
      else ([], some (bad_input "DB is not ready"))

  -- uuid.MustParse panics on a text that is no id
  unfoldable pub change :
      (String → Option String)
      → String
      → ℤ
      → String
      → String
      → List TemplateRow
      → List TemplateRow × Outcome DbError (Unit {0})
  change parse_uuid id now name text rows = elim (parse_uuid id) [
    | none ↦ (rows, crash)
    | some key ↦ replied rows tt (update_template k f name text key now rows)
  ]
