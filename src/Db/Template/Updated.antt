-- ===== src/Db/Template/Updated.antt =====
-- What an update and a deletion of a template do to a lookup by id.
use mathlib.Core.Path.{subst}
use tink.Prelude.{
  Bool-cases, ◌&&◌, not, eq_iff, ◌⊎◌, ◌≡◌, ◌≢◌, inl, inr, refl, sym, ap, ◌∙◌, String, Bool, false,
  Option, none, some, Option-cases, List, arith, str_eq,
}
use tink.Prelude.Int.{ℤ}
use tink.Prelude.Outcome.{Outcome, ok, err, crash, or_fail, Outcome-cases}
use tink.Db.Tables.{Faults, DbError, select, no_rows}
use tink.Db.Template.Lookup.{
  has_template_id, mapped, change_self, change_other, change_deleted, get_template-id,
}
use tink.Db.Template.{
  TemplateRow, Types, change, first_template, build_get_condition, get_template, delete_template,
  updated, update_template, bytea_of,
}

updated_parts :
    (k : Types) (f : Faults) (name text id : String) (now : ℤ) (rows rows' : List TemplateRow)
    → update_template k f name text id now rows ≡ ok rows'
    → (content : String) × (bytea_of k f name text ≡ ok content)
      × (change id (updated name text content now) rows ≡ rows')
unfolding update_template
updated_parts k f name text id now rows rows' h = elim (Outcome-cases (bytea_of k f name text)) [
  | inl (content, e) ↦ (content, e, ground (arith, e))
  | inr (inl (x, e)) ↦ absurd ground (arith, e)
  | inr (inr e) ↦ absurd ground (arith, e)
]

updated-id :
    (name text content : String) (now : ℤ) (r : TemplateRow)
    → (updated name text content now r).id ≡ r.id
updated-id name text content now r = ground arith

updated-deleted_at :
    (name text content : String) (now : ℤ) (r : TemplateRow)
    → (updated name text content now r).deleted_at ≡ r.deleted_at
updated-deleted_at name text content now r = ground arith

-- What a row has become. A blank name and a blank text are not written, unless both are blank.
pub record IsUpdated (k : Types) (name text : String) (now : ℤ) (r r' : TemplateRow) : Type 0 where
  pub same_id : r'.id ≡ r.id
  pub same_creation : r'.created_at ≡ r.created_at
  pub same_deletion : r'.deleted_at ≡ r.deleted_at
  pub at : r'.updated_at ≡ now
  pub named :
      (((name ≢ "") ⊎ (text ≡ "")) × (r'.name ≡ name))
      ⊎ ((name ≡ "") × (text ≢ "") × (r'.name ≡ r.name))
  pub written :
      (((text ≢ "") ⊎ (name ≡ "")) × (k.bytea text ≡ some r'.content))
      ⊎ ((text ≡ "") × (name ≢ "") × (r'.content ≡ r.content))

some_bytea :
    (k : Types) (f : Faults) (name text content : String)
    → (str_eq text "" && not (str_eq name "")) ≡ false
    → bytea_of k f name text ≡ ok content
    → k.bytea text ≡ some content
some_bytea k f name text content b h = elim (Option-cases (k.bytea text)) [
  | inl n ↦ absurd ground (arith, b, n)
  | inr (c, e) ↦ ground (arith, b, e)
]

bytea_of-some :
    (k : Types) (f : Faults) (name text content : String)
    → bytea_of k f name text ≡ ok content
    → (((text ≢ "") ⊎ (name ≡ "")) × (k.bytea text ≡ some content)) ⊎ ((text ≡ "") × (name ≢ ""))
bytea_of-some k f name text content h = elim (Bool-cases (str_eq text "")) [
  | inl b ↦ elim (Bool-cases (str_eq name "")) [
    | inl c ↦ inl (inr ((eq_iff name "").0 c), some_bytea k f name text content ground (arith, c) h)
    | inr c ↦ inr ((eq_iff text "").0 b, λ e. ground (arith, c, eq_iff name "", e))
  ]
  | inr b ↦ inl (
    inl (λ e. ground (arith, b, eq_iff text "", e)),
    some_bytea k f name text content ground (arith, b) h,
  )
]

updated-IsUpdated :
    (k : Types) (f : Faults) (name text content : String) (now : ℤ) (r : TemplateRow)
    → bytea_of k f name text ≡ ok content
    → IsUpdated k name text now r (updated name text content now r)
updated-IsUpdated k f name text content now r h = record {
  same_id = updated-id name text content now r;
  same_creation = ground arith;
  same_deletion = updated-deleted_at name text content now r;
  at = ground arith;
  named = ground (arith, eq_iff text "", eq_iff name "");
  written = ground (arith, eq_iff text "", eq_iff name "", bytea_of-some k f name text content h);
}

-- The answers of a lookup before and after: the same error, or a row and what it has become.
abbrev pub AreUpdated :
    Types → String → String → ℤ → Outcome DbError TemplateRow → Outcome DbError TemplateRow → Type 0
AreUpdated k name text now (ok r) (ok r') = IsUpdated k name text now r r'
AreUpdated k name text now (err e) (err e') = e ≡ e'
AreUpdated k name text now crash crash = Unit
AreUpdated k name text now _ _ = ⊥

found-AreUpdated :
    (k : Types) (f : Faults) (name text content : String) (now : ℤ) (o : Option TemplateRow)
    → bytea_of k f name text ≡ ok content
    → AreUpdated k name text now
        (or_fail o no_rows)
        (or_fail (mapped (updated name text content now) o) no_rows)
found-AreUpdated k f name text content now none h = refl
found-AreUpdated k f name text content now (some r) h =
    updated-IsUpdated k f name text content now r h

-- After an update that succeeds, a lookup of the id gives the error that it gave before, or the row that
-- it gave before with the time of the update, the given name, unless only that is blank, and the given
-- data as the database keeps it, unless only that is blank; with both blank, both are erased. A lookup
-- of another id gives what it gave before. The queries answer.
pub update_template-get_template :
    (k : Types) (f g : Faults) (name text id : String) (now : ℤ) (rows rows' : List TemplateRow)
    → update_template k f name text id now rows ≡ ok rows'
    → g select ≡ none
    → ((fields : List (String × String)) (u : String) (deleted : Bool)
        → build_get_condition fields ≡ ok ("id", u)
        → k.uuid u ≡ some id
        → AreUpdated k name text now
            (get_template k g fields deleted rows)
            (get_template k g fields deleted rows'))
      × ((fields : List (String × String)) (u other : String) (deleted : Bool)
          → build_get_condition fields ≡ ok ("id", u)
          → k.uuid u ≡ some other
          → other ≢ id
          → get_template k g fields deleted rows' ≡ get_template k g fields deleted rows)
update_template-get_template k f g name text id now rows rows' h s =
    let (content, e, w) = updated_parts k f name text id now rows rows' h in
    let found = λ (o : Option TemplateRow). or_fail o no_rows in
    let new = updated name text content now in
    (
      λ fields u deleted c i.
          let before = get_template-id k g fields u id deleted rows c i s in
          let after =
            get_template-id k g fields u id deleted rows' c i s
            ∙ ap (λ rs. found (first_template (has_template_id id deleted) rs)) (sym w)
            ∙ ap found (
                change_self id new deleted rows (updated-id name text content now)
                  (updated-deleted_at name text content now)) in
          subst (λ o. AreUpdated k name text now o (get_template k g fields deleted rows'))
            (sym before)
            (subst
              (AreUpdated k name text now
                (found (first_template (has_template_id id deleted) rows)))
              (sym after)
              (found-AreUpdated k f name text content now
                (first_template (has_template_id id deleted) rows) e)),
      λ fields u other deleted c i m.
          get_template-id k g fields u other deleted rows' c i s
          ∙ ap (λ rs. found (first_template (has_template_id other deleted) rs)) (sym w)
          ∙ ap found (change_other id other new deleted rows m (updated-id name text content now))
          ∙ sym (get_template-id k g fields u other deleted rows c i s),
    )

deleted_parts :
    (k : Types) (f : Faults) (u id : String) (now : ℤ) (rows rows' : List TemplateRow)
    → delete_template k f u now rows ≡ ok rows'
    → k.uuid u ≡ some id
    → change id (λ r. record r { deleted_at = some now }) rows ≡ rows'
unfolding delete_template
deleted_parts k f u id now rows rows' h i =
    elim (Option-cases (first_template (λ r. str_eq r.id id) rows)) [
      | inl n ↦ absurd ground (arith, i, n)
      | inr (r, e) ↦ ground (arith, i, e)
    ]

-- After a deletion that succeeds, a lookup of the id for templates that are not deleted finds no row,
-- and a lookup of another id gives what it gave before.
pub delete_template-get_template :
    (k : Types) (f g : Faults) (u id : String) (now : ℤ) (rows rows' : List TemplateRow)
    → delete_template k f u now rows ≡ ok rows'
    → k.uuid u ≡ some id
    → g select ≡ none
    → ((fields : List (String × String)) (v : String)
        → build_get_condition fields ≡ ok ("id", v)
        → k.uuid v ≡ some id
        → get_template k g fields false rows' ≡ err no_rows)
      × ((fields : List (String × String)) (v other : String) (deleted : Bool)
          → build_get_condition fields ≡ ok ("id", v)
          → k.uuid v ≡ some other
          → other ≢ id
          → get_template k g fields deleted rows' ≡ get_template k g fields deleted rows)
delete_template-get_template k f g u id now rows rows' h i s =
    let w = deleted_parts k f u id now rows rows' h i in
    let found = λ (o : Option TemplateRow). or_fail o no_rows in
    let gone = λ (r : TemplateRow). record r { deleted_at = some now } in
    (
      λ fields v c j.
          get_template-id k g fields v id false rows' c j s
          ∙ ap (λ rs. found (first_template (has_template_id id false) rs)) (sym w)
          ∙ ap found (change_deleted id now rows),
      λ fields v other deleted c j m.
          get_template-id k g fields v other deleted rows' c j s
          ∙ ap (λ rs. found (first_template (has_template_id other deleted) rs)) (sym w)
          ∙ ap found (change_other id other gone deleted rows m (λ r. refl))
          ∙ sym (get_template-id k g fields v other deleted rows c j s),
    )
