-- ===== src/Db/Workflows.antt =====
-- The lookup, the listing, the update and the events of workflows, of db/workflow.go.
pub mod Events
use tink.Prelude.{
  String, Bool, true, false, not, ◌&&◌, Option, none, some, List, [], ◌∷◌, str_eq, if◌then◌else◌,
}
use tink.Prelude.Int.{ℤ, ltb_ℤ}
use tink.Prelude.Outcome.{Outcome, ok, err, or_fail, ◌>>=◌, ◌>>◌}
use tink.Db.Tables.{
  Tables, WorkflowRow, EventRow, Faults, DbError, wrapped, Casts, no_workflow, try, begin, commit,
  select, update,
}

abbrev pub is_current : Option ℤ → Bool
is_current none = true
is_current (some t) = false

-- SELECT … FROM workflow WHERE id = $1 AND deleted_at IS NULL
unfoldable pub find_workflow : String → List WorkflowRow → Option WorkflowRow
find_workflow id [] = none
find_workflow id (r ∷ rest) =
    let more = find_workflow id rest in
    if str_eq r.id id && is_current r.deleted_at then some r else more

unfoldable pub get_workflow : Faults → String → Tables → Outcome DbError WorkflowRow
unfolding find_workflow
get_workflow f id t = do
  try f select "SELECT"
  or_fail (find_workflow id t.workflow) (no_workflow id)

-- The loop of `ListWorkflows`, up to the first error of the callback.
unfoldable pub each_workflow {ℓ} :
    {S : Type ℓ}
    → (S → WorkflowRow → S × Option DbError)
    → S
    → List WorkflowRow
    → S × Option DbError
each_workflow fn s [] = (s, none)
each_workflow fn s (r ∷ rest) =
    if is_current r.deleted_at
    then (let (s', e) = fn s r in
        elim e [ none ↦ each_workflow fn s' rest | some e' ↦ (s', some e') ])
    else each_workflow fn s rest

unfoldable pub list_workflows {ℓ} :
    {S : Type ℓ} → Faults → (S → WorkflowRow → S × Option DbError) → S → Tables → S × Option DbError
unfolding each_workflow
list_workflows f fn s t = elim (try f select "") [
  | some e ↦ (s, some e)
  | none ↦ each_workflow fn s t.workflow
]

-- a column that a statement writes, unless its text is blank and the other one is not
abbrev column : (String → Option String) → String → String → Outcome DbError (Option String)
column cast text other =
    if str_eq text "" && not (str_eq other "")
    then ok none
    else (or_fail (cast text) (wrapped "UPDATE" "invalid input syntax") >>= λ value.
        ok (some value))

abbrev or_old : Option String → String → String
or_old none old = old
or_old (some value) old = value

-- the three statements of the switch of `UpdateWorkflow`
abbrev pub updated : Option String → Option String → ℤ → WorkflowRow → WorkflowRow
updated template hardware now r = record r {
  updated_at = now;
  template = or_old template r.template;
  devices = or_old hardware r.devices;
}

unfoldable pub update_rows :
    String → (WorkflowRow → WorkflowRow) → List WorkflowRow → List WorkflowRow
update_rows id f [] = []
update_rows id f (r ∷ rest) = (if str_eq r.id id then f r else r) ∷ update_rows id f rest

unfoldable pub update_workflow :
    Casts → Faults → String → String → String → ℤ → Tables → Outcome DbError Tables
unfolding update_rows
update_workflow c f id template hardware now t = do
  try f begin "BEGIN transaction"
  try f update "UPDATE"
  template' ← column c.uuid template hardware
  hardware' ← column c.jsonb hardware template
  try f commit "COMMIT"
  ok (record t { workflow = update_rows id (updated template' hardware' now) t.workflow })

-- ORDER BY created_at ASC; rows of one time keep their order
unfoldable pub insert_event : EventRow → List EventRow → List EventRow
insert_event e [] = e ∷ []
insert_event e (x ∷ rest) =
    if ltb_ℤ x.created_at e.created_at then x ∷ insert_event e rest else e ∷ x ∷ rest

unfoldable pub sort_events : List EventRow → List EventRow
unfolding insert_event
sort_events [] = []
sort_events (e ∷ rest) = insert_event e (sort_events rest)

-- WHERE workflow_id = $1
unfoldable pub events_of : String → List EventRow → List EventRow
events_of id [] = []
events_of id (e ∷ rest) =
    let more = events_of id rest in if str_eq e.workflow_id id then e ∷ more else more

-- The loop of `ShowWorkflowEvents`.
unfoldable pub each_event {ℓ} :
    {S : Type ℓ} → (S → EventRow → S × Option DbError) → S → List EventRow → S × Option DbError
each_event fn s [] = (s, none)
each_event fn s (e ∷ rest) =
    let (s', x) = fn s e in elim x [ none ↦ each_event fn s' rest | some x' ↦ (s', some x') ]

unfoldable pub show_workflow_events {ℓ} :
    {S : Type ℓ}
    → Faults
    → (S → EventRow → S × Option DbError)
    → S
    → String
    → Tables
    → S × Option DbError
unfolding sort_events events_of each_event
show_workflow_events f fn s id t = elim (try f select "") [
  | some e ↦ (s, some e)
  | none ↦ each_event fn s (sort_events (events_of id t.workflow_event))
]
