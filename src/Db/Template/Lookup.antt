-- ===== src/Db/Template/Lookup.antt =====
-- What the operations of db/template.go do to a lookup by id.
use tink.Prelude.{
  ◌≡◌, ◌≢◌, inl, inr, refl, sym, ap, ◌∙◌, String, Bool, true, false, ◌&&◌, ◌||◌, Option, none, some,
  Option-cases, Bool-cases, List, [], ◌∷◌, arith, eq_iff, eq_refl, str_eq,
}
use tink.Prelude.Int.{ℤ}
use tink.Prelude.Outcome.{ok, or_fail}
use tink.Db.Tables.{Faults, DbError, select, no_rows}
use tink.Db.Template.Text.{is_template_name}
use tink.Db.Template.{
  TemplateRow, Types, is_kept, is_taken, put_template, change, first_template, build_get_condition,
  create_template, column_test, get_template,
}

-- the row that a lookup of an id finds
abbrev pub has_template_id : String → Bool → TemplateRow → Bool
has_template_id id deleted r = str_eq r.id id && (deleted || is_kept r.deleted_at)

put_self :
    (id name content : String) (now : ℤ) (deleted : Bool) (rows : List TemplateRow)
    → (r : TemplateRow) × (first_template
          (has_template_id id deleted)
          (put_template id name content now rows)
        ≡ some r)
      × (r.id ≡ id)
      × (r.name ≡ name)
      × (r.content ≡ content)
      × (r.deleted_at ≡ none)
unfolding first_template put_template
put_self id name content now deleted [] = (
  record {
    id = id;
    name = name;
    created_at = now;
    updated_at = now;
    deleted_at = none;
    content = content;
  },
  ground (arith, eq_refl id),
  refl,
  refl,
  refl,
  refl,
)
put_self id name content now deleted (x ∷ rest) = elim (Bool-cases (str_eq x.id id)) [
  | inl e ↦ (
    record x { updated_at = now; deleted_at = none; name = name; content = content },
    ground (arith, e),
    (eq_iff x.id id).0 e,
    refl,
    refl,
    refl,
  )
  | inr e ↦
      let (r, q, a, b, c, d) = put_self id name content now deleted rest in
      (r, ground (arith, e, q), a, b, c, d)
]

put_other :
    (id other name content : String) (now : ℤ) (deleted : Bool) (rows : List TemplateRow)
    → other ≢ id
    → first_template (has_template_id other deleted) (put_template id name content now rows)
      ≡ first_template (has_template_id other deleted) rows
unfolding first_template put_template
put_other id other name content now deleted [] n = ground (arith, eq_iff id other)
put_other id other name content now deleted (x ∷ rest) n =
    ground
      (arith, eq_iff x.id id, eq_iff x.id other, put_other id other name content now deleted rest n)

abbrev pub mapped : (TemplateRow → TemplateRow) → Option TemplateRow → Option TemplateRow
mapped f none = none
mapped f (some r) = some (f r)

-- a change that keeps the id and the deletion time
pub change_self :
    (id : String) (f : TemplateRow → TemplateRow) (deleted : Bool) (rows : List TemplateRow)
    → ((r : TemplateRow) → (f r).id ≡ r.id)
    → ((r : TemplateRow) → (f r).deleted_at ≡ r.deleted_at)
    → first_template (has_template_id id deleted) (change id f rows)
      ≡ mapped f (first_template (has_template_id id deleted) rows)
unfolding first_template change
change_self id f deleted [] i d = refl
change_self id f deleted (x ∷ rest) i d =
    ground (arith, i x, d x, change_self id f deleted rest i d)

pub change_other :
    (id other : String) (f : TemplateRow → TemplateRow) (deleted : Bool) (rows : List TemplateRow)
    → other ≢ id
    → ((r : TemplateRow) → (f r).id ≡ r.id)
    → first_template (has_template_id other deleted) (change id f rows)
      ≡ first_template (has_template_id other deleted) rows
unfolding first_template change
change_other id other f deleted [] n i = refl
change_other id other f deleted (x ∷ rest) n i =
    ground (arith, i x, eq_iff x.id id, eq_iff x.id other, change_other id other f deleted rest n i)

-- no row with the id is left that is not deleted
pub change_deleted :
    (id : String) (now : ℤ) (rows : List TemplateRow)
    → first_template
        (has_template_id id false)
        (change id (λ r. record r { deleted_at = some now }) rows)
      ≡ none
unfolding first_template change
change_deleted id now [] = refl
change_deleted id now (x ∷ rest) = ground (arith, change_deleted id now rest)

pub get_template-id :
    (k : Types) (g : Faults) (fields : List (String × String)) (u id : String) (deleted : Bool)
    (rows : List TemplateRow)
    → build_get_condition fields ≡ ok ("id", u)
    → k.uuid u ≡ some id
    → g select ≡ none
    → get_template k g fields deleted rows
      ≡ or_fail (first_template (has_template_id id deleted) rows) no_rows
unfolding get_template column_test
get_template-id k g fields u id deleted rows c i s = ground (arith, c, i, s)

-- the parts of a creation that succeeds
created :
    (k : Types) (f : Faults) (parse : String → Option DbError) (name text id : String) (now : ℤ)
    (rows rows' : List TemplateRow)
    → create_template k f parse name text id now rows ≡ ok rows'
    → (content : String) × (k.bytea text ≡ some content)
      × (parse text ≡ none)
      × (is_taken id name rows ≡ false)
      × (is_template_name name ≡ true)
      × (put_template id name content now rows ≡ rows')
unfolding create_template
created k f parse name text id now rows rows' h = elim (Option-cases (k.bytea text)) [
  | inl n ↦ absurd ground (arith, n)
  | inr (content, e) ↦
      (content, e, ground (arith, e), ground (arith, e), ground (arith, e), ground (arith, e))
]

-- A creation that succeeds was of data that parses and of a valid name that no other template has that
-- is not deleted. After it a lookup of the id, for deleted templates or not, gives the name and the data
-- as the database keeps it, and a lookup of another id gives what it gave before.
pub create_template-get_template :
    (k : Types) (f g : Faults) (parse : String → Option DbError) (name text id : String) (now : ℤ)
    (rows rows' : List TemplateRow)
    → create_template k f parse name text id now rows ≡ ok rows'
    → g select ≡ none
    → (parse text ≡ none)
      × (is_taken id name rows ≡ false)
      × (is_template_name name ≡ true)
      × ((fields : List (String × String)) (u : String) (deleted : Bool)
          → build_get_condition fields ≡ ok ("id", u)
          → k.uuid u ≡ some id
          → (r : TemplateRow) × (get_template k g fields deleted rows' ≡ ok r)
            × (r.id ≡ id)
            × (r.name ≡ name)
            × (k.bytea text ≡ some r.content)
            × (r.deleted_at ≡ none))
      × ((fields : List (String × String)) (u other : String) (deleted : Bool)
          → build_get_condition fields ≡ ok ("id", u)
          → k.uuid u ≡ some other
          → other ≢ id
          → get_template k g fields deleted rows' ≡ get_template k g fields deleted rows)
create_template-get_template k f g parse name text id now rows rows' h s =
    let (content, e, p, t, n, w) = created k f parse name text id now rows rows' h in
    let found = λ (o : Option TemplateRow). or_fail o no_rows in
    (
      p,
      t,
      n,
      λ fields u deleted c i.
          let (r, q, a, b, x, d) = put_self id name content now deleted rows in
          (
            r,
            get_template-id k g fields u id deleted rows' c i s
                ∙ ap (λ rs. found (first_template (has_template_id id deleted) rs)) (sym w)
                ∙ ap found q,
            a,
            b,
            e ∙ ap some (sym x),
            d,
          ),
      λ fields u other deleted c i m.
          get_template-id k g fields u other deleted rows' c i s
          ∙ ap (λ rs. found (first_template (has_template_id other deleted) rs)) (sym w)
          ∙ ap found (put_other id other name content now deleted rows m)
          ∙ sym (get_template-id k g fields u other deleted rows c i s),
    )
