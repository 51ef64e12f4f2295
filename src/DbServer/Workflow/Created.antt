-- ===== src/DbServer/Workflow/Created.antt =====
-- A workflow that was created is found: `CreateWorkflow` and then `GetWorkflow`.
use tink.Prelude.{
  sym, Option-cases, ◌≡◌, inl, inr, refl, ap, ◌∙◌, String, true, false, Option, none, some, [], ◌∷◌,
  arith, eq_refl, if◌then◌else◌,
}
use tink.Prelude.Int.{ℤ}
use tink.Prelude.Outcome.{ok, Outcome-cases}
use tink.Proto.{State, pending}
use tink.Template.Types as Template
use tink.Template.Render.{Engine, render_template}
use tink.Db.Tables.{Tables, WorkflowRow, StateRow, Faults, select}
use tink.Db.State.{find_state, get_workflow_contexts}
use tink.Db.Create.{Creation, put_workflow, put_state, new_state}
use tink.Db.Create as Creating
use tink.Db.Create.Start.{create_workflow-IsCreated, find_state-put}
use tink.Db.Template.{TemplateRow, Types, get_template}
use tink.Db.Workflows.{is_current, find_workflow}
use tink.Db.Workflows as Rows
use tink.DbServer.Status.{get_workflow_state, state_of}
use tink.DbServer.Workflow.{
  Stores, WorkflowMessage, workflow_message, create_workflow, get_workflow,
}
use tink.DbServer.Workflow.Found.{IsKeyed, find_workflow-put}
use tink.DbServer.Workflow.Cast.{IsCast, render_template-same, found_again}

actions_keep_workflows :
    (k : Creation) (yaml id : String) (t t1 : Tables)
    → Creating.insert_action_list k yaml id t ≡ ok t1
    → t1.workflow ≡ t.workflow
unfolding Creating.insert_action_list
actions_keep_workflows k yaml id t t1 h = elim (Outcome-cases (k.parse yaml)) [
  | inr (inl (x, p)) ↦ absurd ground (arith, p)
  | inr (inr p) ↦ absurd ground (arith, p)
  | inl (wf, p) ↦
      elim (Outcome-cases
        (Creating.tasks_of k id Creating.no_uuid wf.tasks t.workflow_worker_map)) [
          | inr (inl (x, q)) ↦ absurd ground (arith, p, q)
          | inr (inr q) ↦ absurd ground (arith, p, q)
          | inl (r, q) ↦ ground (arith, p, q)
        ]
]

rows_after :
    (k : Creation) (id template devices yaml : String) (now : ℤ) (t t' : Tables)
    → Creating.create_workflow k id template devices yaml now t ≡ ok t'
    → (template' : String) × (devices' : String) × (k.casts.uuid template ≡ some template')
      × (k.casts.jsonb devices ≡ some devices')
      × (t'.workflow ≡ put_workflow id template' devices' now t.workflow)
unfolding Creating.create_workflow
rows_after k id template devices yaml now t t' h =
    elim (Outcome-cases (Creating.insert_action_list k yaml id t)) [
      | inr (inl (x, p)) ↦ absurd ground (arith, p)
      | inr (inr p) ↦ absurd ground (arith, p)
      | inl (t1, p) ↦ elim (Option-cases (k.casts.uuid template)) [
        | inl u ↦ absurd ground (arith, p, u)
        | inr (template', u) ↦ elim (Option-cases (k.casts.jsonb devices)) [
          | inl d ↦ absurd ground (arith, p, u, d)
          | inr (devices', d) ↦ (
            template',
            devices',
            u,
            d,
            ground (arith, p, u, d, actions_keep_workflows k yaml id t t1 p),
          )
        ]
      ]
    ]

-- a created row has the state Pending
get_workflow_state-pending :
    (k : Creation) (g : Faults) (t : Tables) (id : String) (r : StateRow)
    → find_state id t.workflow_state ≡ some r
    → r.current_action_state ≡ pending
    → g select ≡ none
    → get_workflow_state g t id ≡ pending
unfolding get_workflow_state get_workflow_contexts state_of
get_workflow_state-pending k g t id r h p s = ground (arith, h, p, s)

module _ {Hardware : Type 0} (k : Types) (engine : Engine Hardware) (f : Faults) where
  -- the parts of a creation that succeeds
  created :
      (creation : Creation) (new_id : Option String) (now : ℤ) (template hardware id : String)
      (s s' : Stores)
      → create_workflow k engine f creation new_id now template hardware s ≡ ok (id, s')
      → (r : TemplateRow) × (text : String) × (t : Tables) × (get_template k f
            (("id", template) ∷ [])
            false
            s.templates
          ≡ ok r)
        × (render_template engine template r.content hardware ≡ ok text)
        × (Creating.create_workflow creation id template hardware text now s.tables ≡ ok t)
        × (s' ≡ record s { tables = t })
  unfolding create_workflow
  created creation none now template hardware id s s' h = absurd ground arith
  created creation (some i) now template hardware id s s' h =
      elim (Outcome-cases (get_template k f (("id", template) ∷ []) false s.templates)) [
        | inr (inl (x, p)) ↦ absurd ground (arith, p)
        | inr (inr p) ↦ absurd ground (arith, p)
        | inl (r, p) ↦ elim (Outcome-cases (render_template engine template r.content hardware)) [
          | inr (inl (x, q)) ↦ absurd ground (arith, p, q)
          | inr (inr q) ↦ absurd ground (arith, p, q)
          | inl (text, q) ↦
              elim (Outcome-cases
                (Creating.create_workflow creation i template hardware text now s.tables)) [
                  | inr (inl (x, c)) ↦ absurd ground (arith, p, q, c)
                  | inr (inr c) ↦ absurd ground (arith, p, q, c)
                  | inl (t, c) ↦
                      let same : id ≡ i = ground (arith, p, q, c) in
                      (
                        r,
                        text,
                        t,
                        p,
                        q,
                        ap
                              (λ x.
                                Creating.create_workflow creation x template hardware text now
                                  s.tables)
                              same
                            ∙ c,
                        ground (arith, p, q, c),
                      )
                ]
        ]
      ]

  -- the parts of a lookup
  looked_up :
      (g : Faults) (id text : String) (s : Stores) (w : WorkflowRow) (r : TemplateRow)
      (state : State)
      → g select ≡ none
      → find_workflow id s.tables.workflow ≡ some w
      → get_template k g (("id", w.template) ∷ []) true s.templates ≡ ok r
      → render_template engine w.template r.content w.devices ≡ ok text
      → get_workflow_state g s.tables id ≡ state
      → get_workflow k engine g id s ≡ ok (workflow_message k engine g state text w)
  unfolding get_workflow Rows.get_workflow
  looked_up g id text s w r state n h t e st = ground (arith, n, h, t, e, st)

  -- A workflow that was created without an error is found, as long as the queries answer, the ids of the
  -- templates are a key, and the columns do as documented: with the state Pending, with the id of its
  -- template and its hardware as the columns give them back, and with the text that the template of that
  -- time renders to for that hardware, which parsed.
  pub create_workflow-get_workflow :
      (g : Faults) (creation : Creation) (new_id : Option String) (now : ℤ)
      (template hardware id : String) (s s' : Stores)
      → create_workflow k engine f creation new_id now template hardware s ≡ ok (id, s')
      → IsCast k engine f creation.casts
      → IsKeyed s.templates
      → g select ≡ none
      → (m : WorkflowMessage) × (get_workflow k engine g id s' ≡ ok m)
        × (m.id ≡ id)
        × (k.uuid template ≡ some m.template)
        × (creation.casts.jsonb hardware ≡ some m.hardware)
        × (m.state ≡ pending)
        × (m.updated_at ≡ now)
        × ((r : TemplateRow) × (get_template k f (("id", template) ∷ []) false s.templates ≡ ok r)
            × (render_template engine template r.content hardware ≡ ok m.content))
        × ((wf : Template.Workflow) × (creation.parse m.content ≡ ok wf))
  create_workflow-get_workflow g creation new_id now template hardware id s s' h casts u n =
      let (r, text, t, p, q, c, e) = created creation new_id now template hardware id s s' h in
      let (key, devices, ku, kd, rows) =
        rows_after creation id template hardware text now s.tables t c in
      let (w, found, wi, wt, wh, wn) = find_workflow-put id key devices now s.tables.workflow in
      let key_of = sym (casts.same_uuid template) ∙ ku in
      let (ne, stable) = casts.stable template key key_of in
      let x = create_workflow-IsCreated creation id template hardware text now s.tables t c in
      let s1 = record s { tables = t } in
      let again : get_template k g (("id", w.template) ∷ []) true s.templates ≡ ok r =
        ap (λ y. get_template k g (("id", y) ∷ []) true s.templates) wt
        ∙ found_again k engine f g template key s.templates r p u n key_of ne stable in
      let state : get_workflow_state g t id ≡ pending =
        get_workflow_state-pending creation g t id (new_state creation id x.actions)
          (ap (find_state id) x.stored
            ∙ find_state-put (new_state creation id x.actions) id s.tables.workflow_state
            ∙ ap
                (λ b.
                  if b
                  then some (new_state creation id x.actions)
                  else find_state id s.tables.workflow_state)
                (eq_refl id))
          refl n in
      (
        workflow_message k engine g pending text w,
        ap (get_workflow k engine g id) e
            ∙ looked_up g id text s1 w r pending n (ap (find_workflow id) rows ∙ found) again
                (render_template-same k engine f template w.template r.content hardware w.devices
                  text (ap engine.unmarshal_json wh ∙ casts.same_json hardware devices kd) q)
                state,
        wi,
        key_of ∙ ap some (sym wt),
        kd ∙ ap some (sym wh),
        refl,
        wn,
        (r, p, q),
        (x.template, x.parsed),
      )
