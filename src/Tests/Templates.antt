-- ===== src/Tests/Templates.antt =====
-- Tests of the template modules.
use tink.Prelude.{String, ◌≡◌, refl, ◌↔◌, Bool, true, none, some, [], ◌∷◌}
use tink.Prelude.Names.{contains}
use tink.Prelude.Outcome.{ok}
use tink.Template.Validate.{validate, validate_tasks, validate_actions, duplicate_action}
use tink.Template.Validate.Correct.{IsTemplate, validate-IsTemplate}
use tink.Template.Render.{Engine, render_template_hardware}
use tink.Template.Render.Accepted.{IsRendered, render_template_hardware-IsRendered}
use tink.Tests.Samples.{template_action, template_task, install}

abbrev any_reference : String → Bool
any_reference s = true

install_accepted : validate any_reference install ≡ none
unfolding validate validate_tasks validate_actions contains
install_accepted = refl

validate_duplicate :
    validate any_reference (record install {
      tasks = template_task "os" "m1" (template_action "disk" ∷ template_action "disk" ∷ []) ∷ [];
    })
    ≡ some (duplicate_action "disk")
unfolding validate validate_tasks validate_actions contains
validate_duplicate = refl

validate-IsTemplate_example :
    (validate any_reference install ≡ none) ↔ IsTemplate any_reference install
validate-IsTemplate_example = validate-IsTemplate any_reference install

-- An engine that knows one template, its text and its hardware.
abbrev pub engine : Engine String
engine = record {
  is_reference = any_reference;
  unmarshal_yaml = λ text. some install;
  execute = λ data_text hardware. some data_text;
  unmarshal_json = λ text. some text;
}

render_template_hardware-IsRendered_example :
    (render_template_hardware engine "id" "text" "m1" ≡ ok (install, "text"))
    ↔ IsRendered engine "text" "m1" install "text"
render_template_hardware-IsRendered_example =
    render_template_hardware-IsRendered engine "id" "text" "m1" install "text"

render_accepted : render_template_hardware engine "id" "text" "m1" ≡ ok (install, "text")
unfolding render_template_hardware validate validate_tasks validate_actions contains
render_accepted = refl
