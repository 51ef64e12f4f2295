-- ===== src/Controllers/Workflow/Steps.antt =====
-- What a reconciliation patches.
use tink.Prelude.{
  ◌≡◌, ◌≢◌, refl, sym, ap, ◌∙◌, String, Bool, true, false, Option, none, some, arith, Option-cases,
  inl, inr, ◌⊎◌,
}
use tink.Prelude.Int.{ℤ}
use tink.Prelude.Outcome.{Outcome, ok, err, crash, Outcome-cases, ◌>>=◌}
use tink.Proto.{
  WorkflowState, state_pending, state_running, state_failed, state_success, state_timeout, blank,
}
use tink.Template.Types as Template
use tink.Template.Render.{Engine, render_template_hardware}
use tink.Template.Render.Accepted.{IsRendered, render_template_hardware-IsRendered}
use tink.Convert.{workflow_yaml_to_status}
use tink.V1alpha1.Types.{Workflow}
use tink.V1alpha1.Methods.{get_start_time}
use tink.Controllers.Workflow.{
  Clock, Client, TemplateData, Lookup, found, missing, failing, ControllerError, string_value,
  template_data, render_status, process_new_workflow, process_running_workflow, patch_changes,
  finish, reconcile_state, reconcile,
}
use tink.Controllers.Workflow.Outlived.{TimesOut, process_running_workflow-Outlived}

-- The workflow that a template starts.
abbrev pub started : Template.Workflow → Workflow → Workflow
started template w = record w {
  status = record (workflow_yaml_to_status template) { state = state_pending };
}

-- The template of a new workflow is there and renders on its data, and starts it.
pub record IsStarted (k : Client) (e : Engine TemplateData) (w w' : Workflow) : Type 0 where
  pub content : Option String
  pub values : TemplateData
  pub template : Template.Workflow
  pub buf : String
  pub template_found : k.template w.spec.template_ref w.namespace ≡ found content
  pub data_found : template_data k w ≡ ok values
  pub rendered : IsRendered e (string_value content) values template buf
  pub result : w' ≡ started template w

render_status-started :
    (e : Engine TemplateData) (w : Workflow) (content : String) (values : TemplateData)
    (w' : Workflow)
    → render_status e w content values ≡ ok w'
    → (template : Template.Workflow) × (buf : String) × IsRendered e content values template buf
      × (w' ≡ started template w)
unfolding render_status
render_status-started e w content values w' h =
    elim (Outcome-cases (render_template_hardware e w.name content values)) [
      | inl ((template, buf), q) ↦ (
        template,
        buf,
        (render_template_hardware-IsRendered e w.name content values template buf).0 q,
        ground arith,
      )
      | inr (inl (x, q)) ↦ absurd (ground arith)
      | inr (inr q) ↦ absurd (ground arith)
    ]

Lookup-cases :
    {A : Type 0} (m : Lookup A)
    → ((a : A) × (m ≡ found a)) ⊎ ((m ≡ missing) ⊎ ((c : String) × (m ≡ failing c)))
Lookup-cases (found a) = inl (a, refl)
Lookup-cases missing = inr (inl refl)
Lookup-cases (failing c) = inr (inr (c, refl))

-- A new workflow that is processed without an error is started, or left as it was to be tried again.
process_new_workflow-IsStarted :
    (k : Client) (e : Engine TemplateData) (w w' : Workflow) (requeue : Bool)
    → process_new_workflow k e w ≡ ok (w', requeue)
    → IsStarted k e w w' ⊎ (w' ≡ w)
unfolding process_new_workflow
process_new_workflow-IsStarted k e w w' requeue h =
    elim (Lookup-cases (k.template w.spec.template_ref w.namespace)) [
      | inr (inl m) ↦ absurd (ground arith)
      | inr (inr (c, m)) ↦ inr (ground arith)
      | inl (content, m) ↦ elim (Outcome-cases (template_data k w)) [
        | inr (inl (x, q)) ↦ absurd (ground arith)
        | inr (inr q) ↦ absurd (ground arith)
        | inl (values, q) ↦ elim (Outcome-cases (render_status e w (string_value content) values)) [
          | inr (inl (x, r)) ↦ absurd (ground arith)
          | inr (inr r) ↦ absurd (ground arith)
          | inl (v, r) ↦
              let same : v ≡ w' = ground arith in
              let (template, buf, x, y) =
                render_status-started e w (string_value content) values v r in
              inl (record {
                content = content;
                values = values;
                template = template;
                buf = buf;
                template_found = m;
                data_found = q;
                rendered = x;
                result = sym same ∙ y;
              })
        ]
      ]
    ]

-- The steps that a patch can be: a start, or a timeout.
pub data Step (k : Client) (e : Engine TemplateData) (c : Clock) (w w' : Workflow) : Type 0 where
  start : w.status.state ≡ blank → IsStarted k e w w' → Step k e c w w'
  time_out :
      (t : ℤ)
      → w.status.state ≡ state_running
      → get_start_time w ≡ some t
      → TimesOut c w t
      → process_running_workflow {E = ControllerError} c w ≡ ok w'
      → w'.status.state ≡ state_timeout
      → Step k e c w w'

module _ (same : Workflow → Workflow → Bool) (same_refl : (w : Workflow) → same w w ≡ true) where
  finish-patch :
      (k : Client) (stored w' : Workflow) (m : Outcome ControllerError (Workflow × Bool))
      → (finish k same stored m).0 ≡ some w'
      → (requeue : Bool) × (m ≡ ok (w', requeue)) × (w' ≢ stored)
  unfolding finish patch_changes
  finish-patch k stored w' (ok (w, requeue)) h =
      let (changed, eq) : (same w stored ≡ false) × (w ≡ w') = ground arith in
      (requeue, ground arith, λ q. ground (arith, q, eq, changed, same_refl stored))
  finish-patch k stored w' (err e) h = absurd (ground (arith, same_refl stored))
  finish-patch k stored w' crash h = absurd (ground arith)

  started-Step :
      (k : Client) (e : Engine TemplateData) (c : Clock) (stored w' : Workflow)
      → stored.status.state ≡ blank
      → (finish k same stored (process_new_workflow k e stored)).0 ≡ some w'
      → Step k e c stored w'
  started-Step k e c stored w' b h =
      let (requeue, m, changed) = finish-patch k stored w' (process_new_workflow k e stored) h in
      elim (process_new_workflow-IsStarted k e stored w' requeue m) [
        | inl x ↦ start b x
        | inr q ↦ absurd (changed q)
      ]

  -- the outcome of the running case, before the patch
  abbrev ran : Clock → Workflow → Outcome ControllerError (Workflow × Bool)
  ran c stored = do w ← process_running_workflow c stored; ok (w, false)

  ran-crash :
      (c : Clock) (stored w' : Workflow) (requeue : Bool)
      → ran c stored ≡ ok (w', requeue)
      → (t : ℤ) × (get_start_time stored ≡ some t)
  unfolding process_running_workflow
  ran-crash c stored w' requeue h = elim (Option-cases (get_start_time stored)) [
    | inl e ↦ absurd (ground arith)
    | inr x ↦ x
  ]

  ran-result :
      (c : Clock) (stored v w' : Workflow) (requeue : Bool)
      → process_running_workflow {E = ControllerError} c stored ≡ ok v
      → ran c stored ≡ ok (w', requeue)
      → v ≡ w'
  ran-result c stored v w' requeue e h = ground arith

  timed_out-Step :
      (k : Client) (e : Engine TemplateData) (c : Clock) (stored w' : Workflow)
      → stored.status.state ≡ state_running
      → (finish k same stored (ran c stored)).0 ≡ some w'
      → Step k e c stored w'
  timed_out-Step k e c stored w' b h =
      let (requeue, m, changed) = finish-patch k stored w' (ran c stored) h in
      let (t, s) = ran-crash c stored w' requeue m in
      let (v, runs, state, fates) =
        process_running_workflow-Outlived {E = ControllerError} c stored t s in
      let eq = ran-result c stored v w' requeue runs m in
      elim state [
        | inl (x, y) ↦ time_out t b s x (runs ∙ ap ok eq) (ap (λ u. u.status.state) (sym eq) ∙ y)
        | inr (n, y) ↦ absurd (changed (sym eq ∙ y))
      ]

  reconcile_state-Step :
      (k : Client) (e : Engine TemplateData) (c : Clock) (stored w' : Workflow)
      (state : WorkflowState)
      → stored.status.state ≡ state
      → (reconcile_state k e c same stored state).0 ≡ some w'
      → Step k e c stored w'
  unfolding reconcile_state
  reconcile_state-Step k e c stored w' blank b h = started-Step k e c stored w' b h
  reconcile_state-Step k e c stored w' state_running b h = timed_out-Step k e c stored w' b h
  reconcile_state-Step k e c stored w' state_pending b h = absurd (ground arith)
  reconcile_state-Step k e c stored w' state_failed b h = absurd (ground arith)
  reconcile_state-Step k e c stored w' state_success b h = absurd (ground arith)
  reconcile_state-Step k e c stored w' state_timeout b h = absurd (ground arith)

  -- When the comparison finds every workflow equal to itself, a reconciliation patches a workflow
  -- only if it is stored under its name and not being deleted, and only in one of two steps: a new
  -- workflow whose template is there and renders becomes Pending with the template's tasks; a
  -- running one that is over its time, or has an action that is, becomes Timeout.
  pub reconcile-Step :
      (k : Client) (e : Engine TemplateData) (c : Clock) (name namespace : String) (w' : Workflow)
      → (reconcile k e c same name namespace).0 ≡ some w'
      → (stored : Workflow) × (k.workflow name namespace ≡ found stored)
        × (stored.deletion_timestamp ≡ none)
        × Step k e c stored w'
  unfolding reconcile
  reconcile-Step k e c name namespace w' h = elim (Lookup-cases (k.workflow name namespace)) [
    | inr (inl m) ↦ absurd (ground arith)
    | inr (inr (x, m)) ↦ absurd (ground arith)
    | inl (stored, m) ↦ elim (Option-cases stored.deletion_timestamp) [
      | inr (t, d) ↦ absurd (ground arith)
      | inl d ↦ (
        stored,
        m,
        d,
        reconcile_state-Step k e c stored w' stored.status.state refl (ground arith),
      )
    ]
  ]
