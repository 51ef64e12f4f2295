-- ===== src/DbServer/Workflow/Cast.antt =====
-- What the columns of a workflow do to its template and its hardware, and what follows for the lookup of
-- the template and its rendering.
use tink.Prelude.{
  ◌≢◌, sym, List, Option-cases, eq_iff, ◌≡◌, inl, inr, ap, ◌∙◌, String, true, false, none, some, [],
  ◌∷◌, arith,
}
use tink.Prelude.Outcome.{ok, Outcome-cases, or_fail}
use tink.Template.Render.{Engine, parse, render_template, render_template_hardware}
use tink.Db.Tables.{Casts, Faults, select, no_rows}
use tink.Db.Template.{TemplateRow, Types, get_template, first_template, build_get_condition}
use tink.Db.Template.Lookup.{has_template_id, get_template-id}
use tink.DbServer.Workflow.Found.{IsKeyed, first_template-deleted, get_template-ok}

module _ {Hardware : Type 0} (k : Types) (engine : Engine Hardware) (f : Faults) where
  -- What the columns template and devices do: an id is written in one way, which is not blank and stays
  -- as it is, and jsonb keeps the value of a text.
  pub record IsCast (c : Casts) : Type 0 where
    pub same_uuid : (u : String) → c.uuid u ≡ k.uuid u
    pub stable : (u key : String) → k.uuid u ≡ some key → (key ≢ "") × (k.uuid key ≡ some key)
    pub same_json :
        (d d' : String) → c.jsonb d ≡ some d' → engine.unmarshal_json d' ≡ engine.unmarshal_json d

  -- The id of the template is only named in errors.
  pub render_template-same :
      (a b content d d' text : String)
      → engine.unmarshal_json d' ≡ engine.unmarshal_json d
      → render_template engine a content d ≡ ok text
      → render_template engine b content d' ≡ ok text
  unfolding render_template render_template_hardware
  render_template-same a b content d d' text e h = elim (Option-cases (engine.unmarshal_json d)) [
    | inl n ↦ absurd ground (arith, n)
    | inr (hw, n) ↦ elim (Option-cases (engine.execute content hw)) [
      | inl x ↦ absurd ground (arith, n, x)
      | inr (buf, x) ↦ elim (Outcome-cases (parse engine buf)) [
        | inr (inl (y, p)) ↦ absurd ground (arith, n, x, p)
        | inr (inr p) ↦ absurd ground (arith, n, x, p)
        | inl (wf, p) ↦ ground (arith, n, x, p, e)
      ]
    ]
  ]

  -- the template of the new row is the one that was rendered
  pub found_again :
      (g : Faults) (template key : String) (rows : List TemplateRow) (r : TemplateRow)
      → get_template k f (("id", template) ∷ []) false rows ≡ ok r
      → IsKeyed rows
      → g select ≡ none
      → k.uuid template ≡ some key
      → key ≢ ""
      → k.uuid key ≡ some key
      → get_template k g (("id", key) ∷ []) true rows ≡ ok r
  unfolding build_get_condition
  found_again g template key rows r p u n e ne same =
      let (key', uk, cond, first) = get_template-ok k f template false rows r p in
      let one : key' ≡ key = ground (arith, uk, e) in
      get_template-id k g (("id", key) ∷ []) key key true rows ground (arith, ne, eq_iff key "")
        same n
      ∙ ap (λ o. or_fail o no_rows)
          (first_template-deleted key rows r u
            (ap (λ i. first_template (has_template_id i false) rows) (sym one) ∙ first))
