-- ===== src/DbServer/Workflow/Found.antt =====
-- The rows that `GetWorkflow` finds: of a template, deleted or not, and of a new workflow.
use tink.Prelude.{
  ◌≡◌, inl, inr, refl, sym, ap, ◌∙◌, String, Bool, true, false, none, some, Option-cases,
  Bool-cases, List, [], ◌∷◌, arith, In, eq_iff, eq_refl, str_eq,
}
use mathlib.Core.Bool.{false≢true}
use tink.Prelude.Int.{ℤ}
use tink.Prelude.Outcome.{ok}
use tink.Db.Tables.{WorkflowRow, Faults}
use tink.Db.Create.{put_workflow}
use tink.Db.Template.{
  TemplateRow, Types, first_template, build_get_condition, get_template, column_test,
}
use tink.Db.Template.Lookup.{has_template_id}
use tink.Db.Workflows.{find_workflow}

-- the id is the table's key
abbrev pub IsKeyed : List TemplateRow → Type 0
IsKeyed rows = (r s : TemplateRow) → In r rows → In s rows → r.id ≡ s.id → r ≡ s

pub first_template-some :
    (p : TemplateRow → Bool) (rows : List TemplateRow) (r : TemplateRow)
    → first_template p rows ≡ some r
    → In r rows × (p r ≡ true)
unfolding first_template
first_template-some p [] r h = absurd ground arith
first_template-some p (x ∷ rest) r h = ground (arith, first_template-some p rest r)

pub first_template-none :
    (p : TemplateRow → Bool) (rows : List TemplateRow) (r : TemplateRow)
    → first_template p rows ≡ none
    → In r rows
    → p r ≡ false
unfolding first_template
first_template-none p [] r h i = absurd i
first_template-none p (x ∷ rest) r h i = ground (arith, first_template-none p rest r)

pub has_id-eq :
    (id : String) (deleted : Bool) (r : TemplateRow)
    → has_template_id id deleted r ≡ true
    → r.id ≡ id
has_id-eq id deleted r h = ground (arith, eq_iff r.id id)

pub has_id-deleted : (id : String) (r : TemplateRow) → r.id ≡ id → has_template_id id true r ≡ true
has_id-deleted id r h = ground (arith, eq_iff r.id id)

-- with the deleted templates the lookup finds the same row
pub first_template-deleted :
    (id : String) (rows : List TemplateRow) (r : TemplateRow)
    → IsKeyed rows
    → first_template (has_template_id id false) rows ≡ some r
    → first_template (has_template_id id true) rows ≡ some r
first_template-deleted id rows r u h =
    let (i, p) = first_template-some (has_template_id id false) rows r h in
    let same = has_id-eq id false r p in
    elim (Option-cases (first_template (has_template_id id true) rows)) [
      | inl n ↦ absurd (
          false≢true (
            sym (first_template-none (has_template_id id true) rows r n i)
            ∙ has_id-deleted id r same))
      | inr (s, e) ↦
          let (j, q) = first_template-some (has_template_id id true) rows s e in
          e ∙ ap some (u s r j i (has_id-eq id true s q ∙ sym same))
    ]

pub get_template-ok :
    (k : Types) (f : Faults) (u : String) (deleted : Bool) (rows : List TemplateRow)
    (r : TemplateRow)
    → get_template k f (("id", u) ∷ []) deleted rows ≡ ok r
    → (key : String) × (k.uuid u ≡ some key)
      × (build_get_condition (("id", u) ∷ []) ≡ ok ("id", u))
      × (first_template (has_template_id key deleted) rows ≡ some r)
unfolding get_template column_test
get_template-ok k f u deleted rows r h = elim (Bool-cases (str_eq u "")) [
  | inl b ↦ absurd ground (arith, b)
  | inr b ↦ elim (Option-cases (k.uuid u)) [
    | inl n ↦ absurd ground (arith, b, n)
    | inr (key, e) ↦ (key, e, ground (arith, b), ground (arith, b, e))
  ]
]

pub find_workflow-put :
    (id template devices : String) (now : ℤ) (rows : List WorkflowRow)
    → (w : WorkflowRow) × (find_workflow id (put_workflow id template devices now rows) ≡ some w)
      × (w.id ≡ id)
      × (w.template ≡ template)
      × (w.devices ≡ devices)
      × (w.updated_at ≡ now)
unfolding find_workflow put_workflow
find_workflow-put id template devices now [] = (
  record {
    id = id;
    template = template;
    devices = devices;
    created_at = now;
    updated_at = now;
    deleted_at = none;
  },
  ground (arith, eq_refl id),
  refl,
  refl,
  refl,
  refl,
)
find_workflow-put id template devices now (x ∷ rest) = elim (Bool-cases (str_eq x.id id)) [
  | inl e ↦ (
    record x { template = template; devices = devices; updated_at = now; deleted_at = none },
    ground (arith, e),
    (eq_iff x.id id).0 e,
    refl,
    refl,
    refl,
  )
  | inr e ↦
      let (w, q, a, b, c, d) = find_workflow-put id template devices now rest in
      (w, ground (arith, e, q), a, b, c, d)
]
