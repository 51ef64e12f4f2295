-- ===== src/Template/Render/Accepted.antt =====
-- What a rendered workflow satisfies.
use tink.Prelude.{String, none, some, List, [], ◌∷◌, ◌≡◌, ◌≢◌, refl, All, arith, eq_iff, ◌↔◌}
use tink.Prelude.Outcome.{ok}
use tink.Template.Types.{Task, Workflow}
use tink.Template.Validate.Correct.{IsTemplate, validate-IsTemplate}
use tink.Template.Render.{Engine, check_addresses, parse, render_template_hardware}

abbrev pub HasAddress : Task → Type 0
HasAddress t = t.worker_addr ≢ ""

check_addresses-none : (ts : List Task) → check_addresses ts ≡ none → All HasAddress ts
unfolding check_addresses
check_addresses-none [] h = tt
check_addresses-none (t ∷ ts) h = ground (arith, eq_iff t.worker_addr "", check_addresses-none ts)

check_addresses-All : (ts : List Task) → All HasAddress ts → check_addresses ts ≡ none
unfolding check_addresses
check_addresses-All [] h = refl
check_addresses-All (t ∷ ts) h = ground (arith, eq_iff t.worker_addr "", check_addresses-All ts)

module _ {Hardware : Type 0} (e : Engine Hardware) where
  -- What is asked of a rendered text and its workflow.
  pub record IsRendered (template_data : String) (hardware : Hardware) (wf : Workflow)
      (buf : String) : Type 0 where
    pub produced : e.execute template_data hardware ≡ some buf
    pub decoded : e.unmarshal_yaml buf ≡ some wf
    pub valid : IsTemplate e.is_reference wf
    pub addressed : All HasAddress wf.tasks

  rendered→ :
      (id template_data : String) (hardware : Hardware) (wf : Workflow) (buf : String)
      → render_template_hardware e id template_data hardware ≡ ok (wf, buf)
      → IsRendered template_data hardware wf buf
  unfolding render_template_hardware parse
  rendered→ id template_data hardware wf buf h =
      ground (arith, validate-IsTemplate e.is_reference wf, check_addresses-none wf.tasks)

  rendered← :
      (id template_data : String) (hardware : Hardware) (wf : Workflow) (buf : String)
      → IsRendered template_data hardware wf buf
      → render_template_hardware e id template_data hardware ≡ ok (wf, buf)
  unfolding render_template_hardware parse
  rendered← id template_data hardware wf buf h =
      ground (arith, validate-IsTemplate e.is_reference wf, check_addresses-All wf.tasks)

  -- Rendering returns a workflow and a text exactly when the engine produces that text from the
  -- template, the text decodes to that workflow, the workflow is a valid template, and each of its
  -- tasks has a worker address.
  pub render_template_hardware-IsRendered :
      (id template_data : String) (hardware : Hardware) (wf : Workflow) (buf : String)
      → (render_template_hardware e id template_data hardware ≡ ok (wf, buf))
        ↔ IsRendered template_data hardware wf buf
  render_template_hardware-IsRendered id template_data hardware wf buf =
      (rendered→ id template_data hardware wf buf, rendered← id template_data hardware wf buf)
