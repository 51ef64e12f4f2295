-- ===== src/Db/Template.antt =====
-- db/template.go, and `buildGetCondition` of db/db.go: the table of templates. The types uuid and bytea,
-- ILIKE and the order in which Go walks a map are parameters.
pub mod Text
pub mod Lookup
pub mod Updated
use tink.Prelude.{
  String, Bool, true, false, not, ◌&&◌, ◌||◌, Option, none, some, List, [], ◌∷◌, ◌++◌, str_eq,
  if◌then◌else◌,
}
use tink.Prelude.Int.{ℤ}
use tink.Prelude.Outcome.{Outcome, ok, err, crash, or_fail, ◌>>=◌, ◌>>◌}
use tink.Db.Tables.{
  Faults, DbError, wrapped, no_rows, not_found, bad_input, try, begin, commit, select, insert,
  update,
}
use tink.Db.Template.Text.{is_template_name}

-- The table `template`.
pub record TemplateRow : Type 0 where
  pub id : String
  pub name : String
  pub created_at : ℤ
  pub updated_at : ℤ
  pub deleted_at : Option ℤ
  pub content : String

-- What the statements take from the database's types.
pub record Types : Type 0 where
  -- `$1::uuid`, as its text
  pub uuid : String → Option String
  -- a text as a value of the type bytea, as it is read back
  pub bytea : String → Option String
  -- `name ILIKE $1`, by the filter and the name
  pub ilike : String → String → Bool

abbrev pub is_kept : Option ℤ → Bool
is_kept none = true
is_kept (some t) = false

-- the unique index on the names of the templates that are not deleted
unfoldable pub is_taken : String → String → List TemplateRow → Bool
is_taken id name [] = false
is_taken id name (r ∷ rest) =
    let more = is_taken id name rest in
    if is_kept r.deleted_at && str_eq r.name name && not (str_eq r.id id) then true else more

-- the constraints on the name of a row that is written
abbrev pub check_name : String → String → String → List TemplateRow → Option DbError
check_name message id name rows =
    if not (is_template_name name)
    then some (wrapped message "violates check constraint")
    else if is_taken id name rows
    then some (wrapped message "duplicate key value violates unique constraint")
    else none

unfoldable pub put_template : String → String → String → ℤ → List TemplateRow → List TemplateRow
put_template id name content now [] =
    record {
      id = id;
      name = name;
      created_at = now;
      updated_at = now;
      deleted_at = none;
      content = content;
    }
    ∷ []
put_template id name content now (r ∷ rest) =
    if str_eq r.id id
    then record r { updated_at = now; deleted_at = none; name = name; content = content } ∷ rest
    else r ∷ put_template id name content now rest

-- UPDATE … WHERE id = $1
unfoldable pub change : String → (TemplateRow → TemplateRow) → List TemplateRow → List TemplateRow
change id f [] = []
change id f (r ∷ rest) = (if str_eq r.id id then f r else r) ∷ change id f rest

unfoldable pub first_template : (TemplateRow → Bool) → List TemplateRow → Option TemplateRow
first_template p [] = none
first_template p (r ∷ rest) = let more = first_template p rest in if p r then some r else more

-- the first column, in the order of the walk, whose field is set
unfoldable pub build_get_condition : List (String × String) → Outcome DbError (String × String)
build_get_condition [] = err (bad_input "one GetBy field must be set to build a get condition")
build_get_condition ((column, field) ∷ rest) =
    let more = build_get_condition rest in if str_eq field "" then more else ok (column, field)

-- the three statements of the switch of `UpdateTemplate`
abbrev pub updated : String → String → String → ℤ → TemplateRow → TemplateRow
updated name text content now r =
    if str_eq text "" && not (str_eq name "")
    then record r { updated_at = now; name = name }
    else if not (str_eq text "") && str_eq name ""
    then record r { updated_at = now; content = content }
    else record r { updated_at = now; name = name; content = content }

module _ (k : Types) (f : Faults) where
  unfoldable pub create_template :
      (String → Option DbError)
      → String
      → String
      → String
      → ℤ
      → List TemplateRow
      → Outcome DbError (List TemplateRow)
  unfolding put_template is_taken
  create_template parse name text id now rows = do
    parse text
    try f begin "BEGIN transaction"
    try f insert "INSERT"
    content ← or_fail (k.bytea text) (wrapped "INSERT" "invalid input syntax for type bytea")
    check_name "INSERT" id name rows
    try f commit "COMMIT"
    ok (put_template id name content now rows)

  -- `column = field`, where the column is one of the two that the callers name
  unfoldable pub column_test : String → String → Outcome DbError (TemplateRow → Bool)
  column_test column field =
      if str_eq column "id"
      then (or_fail (k.uuid field) (wrapped "SELECT" "invalid input syntax for type uuid")
          >>= λ key. ok (λ r. str_eq r.id key))
      else if str_eq column "name"
      then ok (λ r. str_eq r.name field)
      else err (wrapped "SELECT" "column does not exist")

  -- `fields` in the order of the walk
  unfoldable pub get_template :
      List (String × String) → Bool → List TemplateRow → Outcome DbError TemplateRow
  unfolding build_get_condition column_test first_template
  get_template fields deleted rows = do
    condition ← build_get_condition fields
    try f select "SELECT"
    test ← column_test condition.0 condition.1
    or_fail (first_template (λ r. test r && (deleted || is_kept r.deleted_at)) rows) no_rows

  unfoldable pub delete_template :
      String → ℤ → List TemplateRow → Outcome DbError (List TemplateRow)
  unfolding change first_template
  delete_template id now rows = do
    try f begin "BEGIN transaction"
    try f update "UPDATE"
    key ← or_fail (k.uuid id) (wrapped "UPDATE" "invalid input syntax for type uuid")
    _ ← or_fail (first_template (λ r. str_eq r.id key) rows) (not_found id)
    try f commit "COMMIT"
    ok (change key (λ r. record r { deleted_at = some now }) rows)

  -- The loop of `ListTemplates`, up to the first error of the callback.
  unfoldable pub each_template {ℓ} :
      {S : Type ℓ}
      → (S → TemplateRow → S × Option DbError)
      → String
      → S
      → List TemplateRow
      → S × Option DbError
  each_template fn filter s [] = (s, none)
  each_template fn filter s (r ∷ rest) =
      if k.ilike filter r.name && is_kept r.deleted_at
      then (let (s', e) = fn s r in
          elim e [ none ↦ each_template fn filter s' rest | some e' ↦ (s', some e') ])
      else each_template fn filter s rest

  unfoldable pub list_templates {ℓ} :
      {S : Type ℓ}
      → (S → TemplateRow → S × Option DbError)
      → String
      → S
      → List TemplateRow
      → S × Option DbError
  unfolding each_template
  list_templates fn filter s rows = elim (try f select "") [
    | some e ↦ (s, some e)
    | none ↦ each_template fn filter s rows
  ]

  -- the constraints hold for a name that is written to a row of the table
  unfoldable pub check_update : String → String → String → List TemplateRow → Option DbError
  unfolding is_taken first_template
  check_update name text id rows =
      if not (str_eq text "") && str_eq name ""
      then none
      else elim (first_template (λ r. str_eq r.id id) rows) [
        | none ↦ none
        | some r ↦
            if is_kept r.deleted_at
            then check_name "UPDATE" id name rows
            else if is_template_name name
            then none
            else some (wrapped "UPDATE" "violates check constraint")
      ]

  -- a statement without the data does not cast it
  abbrev pub bytea_of : String → String → Outcome DbError String
  bytea_of name text =
      if str_eq text "" && not (str_eq name "")
      then ok text
      else or_fail (k.bytea text) (wrapped "UPDATE" "invalid input syntax for type bytea")

  unfoldable pub update_template :
      String → String → String → ℤ → List TemplateRow → Outcome DbError (List TemplateRow)
  unfolding change check_update
  update_template name text id now rows = do
    try f begin "BEGIN transaction"
    try f update "UPDATE"
    content ← bytea_of name text
    check_update name text id rows
    try f commit "COMMIT"
    ok (change id (updated name text content now) rows)
