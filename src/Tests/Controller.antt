-- ===== src/Tests/Controller.antt =====
-- Tests of the workflow controller, over a cluster with one workflow, one template and no hardware.
use tink.Prelude.{
  ℕ, ◌≡◌, ◌≢◌, ◌⊎◌, refl, Bool, true, false, none, some, [], ◌∷◌, str_eq, if◌then◌else◌, arith, ap,
}
use tink.Prelude.Names.{contains}
use tink.Prelude.Int.{pos, ltb_ℤ, wrap64, ◌+ℤ◌, ◌*ℤ◌}
use tink.Prelude.Time.{seconds, add, after}
use tink.Prelude.Outcome.{ok}
use tink.Proto.{
  WorkflowState, state_pending, state_running, state_failed, state_success, state_timeout, blank,
}
use tink.Template.Validate.{validate, validate_tasks, validate_actions}
use tink.Template.Render.{Engine, check_addresses, parse, render_template_hardware}
use tink.Template.Render.Accepted.{render_template_hardware-IsRendered}
use tink.Convert.{put}
use tink.Convert.Status.{template_actions}
use tink.V1alpha1.Types.{Action, Workflow}
use tink.V1alpha1.Methods.{get_start_time, get_task_action_info}
use tink.Controllers.Workflow.{
  Clock, Client, ControllerError, TemplateData, hardware, found, missing, to_template_hardware_data,
  is_over, put_texts, template_data, process_running_workflow, reconcile,
}
use tink.Controllers.Workflow.Outlived.{
  TimesOut, Outlived, action_at, process_running_workflow-Outlived,
}
use tink.Controllers.Workflow.Steps.{started, IsStarted, Step, reconcile-Step}
use tink.Controllers.Workflow.Starts.{reconcile-started}
use tink.Tests.Samples.{action_with, task_with, workflow_with, install}

-- One minute and forty seconds after the start.
abbrev late : Clock
late = record {
  at_start = pos 100000000000;
  at_test = λ ti ai. pos 100000000000;
  at_stamp = λ ti ai. pos 100000000000;
}

-- An action of one minute that has run since the start.
abbrev slow : Action
slow = record (action_with "disk" state_running) { started_at = some (pos 0) }

abbrev slow_workflow : Workflow
slow_workflow = workflow_with state_running (task_with "os" "m1" (slow ∷ []) ∷ [])

slow_start : get_start_time slow_workflow ≡ some (pos 0)
unfolding get_start_time
slow_start = refl

process_running_workflow-Outlived_example :
    (w' : Workflow) × (process_running_workflow {E = ControllerError} late slow_workflow ≡ ok w')
    × ((TimesOut late slow_workflow (pos 0) × (w'.status.state ≡ state_timeout))
        ⊎ ((¬ TimesOut late slow_workflow (pos 0)) × (w' ≡ slow_workflow)))
    × ((ti ai : ℕ) (a : Action)
        → action_at slow_workflow.status.tasks ti ai ≡ some a
        → Outlived (late.at_test ti ai) (late.at_stamp ti ai) a (action_at w'.status.tasks ti ai))
process_running_workflow-Outlived_example =
    process_running_workflow-Outlived late slow_workflow (pos 0) slow_start

slow_is_over : is_over (pos 100000000000) (pos 0) (pos 60) ≡ true
unfolding is_over seconds add after wrap64 ltb_ℤ ◌*ℤ◌ ◌+ℤ◌
slow_is_over = refl

-- A workflow that was just created.
abbrev fresh : Workflow
fresh = workflow_with blank []

abbrev engine : Engine TemplateData
engine = record {
  is_reference = λ s. true;
  unmarshal_yaml = λ s. some install;
  execute = λ s values. some s;
  unmarshal_json = λ s. none;
}

abbrev cluster : Client
cluster = record {
  workflow = λ name namespace. if str_eq name "wf1" then found fresh else missing;
  template = λ name namespace. if str_eq name "install" then found (some "text") else missing;
  hardware = λ name namespace. if str_eq name "m1" then found (record { disks = [] }) else missing;
  patch = λ w stored. none;
}

state_eq : WorkflowState → WorkflowState → Bool
state_eq state_pending state_pending = true
state_eq state_running state_running = true
state_eq state_failed state_failed = true
state_eq state_timeout state_timeout = true
state_eq state_success state_success = true
state_eq blank blank = true
state_eq _ _ = false

-- A comparison that looks at the states only.
abbrev same : Workflow → Workflow → Bool
same w v = state_eq w.status.state v.status.state

state_eq_refl : (s : WorkflowState) → state_eq s s ≡ true
unfolding state_eq
state_eq_refl state_pending = refl
state_eq_refl state_running = refl
state_eq_refl state_failed = refl
state_eq_refl state_timeout = refl
state_eq_refl state_success = refl
state_eq_refl blank = refl

state_eq-ne : (s t : WorkflowState) → s ≢ t → state_eq s t ≡ false
unfolding state_eq
state_eq-ne s t h = ground arith

abbrev fresh_values : TemplateData
fresh_values = put "Hardware" (hardware (record { disks = [] })) []

fresh_renders : render_template_hardware engine "wf1" "text" fresh_values ≡ ok (install, "text")
unfolding render_template_hardware parse validate validate_tasks validate_actions contains
    check_addresses
fresh_renders = refl

fresh_data : template_data cluster fresh ≡ ok fresh_values
unfolding template_data put_texts to_template_hardware_data
fresh_data = refl

fresh-IsStarted : IsStarted cluster engine fresh (started install fresh)
fresh-IsStarted = record {
  content = some "text";
  values = fresh_values;
  template = install;
  buf = "text";
  template_found = refl;
  data_found = fresh_data;
  rendered =
      (render_template_hardware-IsRendered engine "wf1" "text" fresh_values install "text").0
        fresh_renders;
  result = refl;
}

reconcile-started_example :
    (reconcile cluster engine late same "wf1" "default" ≡ (some (started install fresh), ok false))
    × ((started install fresh).status.state ≡ state_pending)
    × ((get_task_action_info (started install fresh)).current_action_index ≡ 0)
    × ((get_task_action_info (started install fresh)).total_number_of_actions
        ≡ template_actions fresh-IsStarted.template.tasks)
reconcile-started_example =
    reconcile-started cluster engine late same "wf1" "default" fresh (started install fresh)
      (λ w v d. state_eq-ne w.status.state v.status.state d) refl refl refl fresh-IsStarted refl

fresh_patched :
    (reconcile cluster engine late same "wf1" "default").0 ≡ some (started install fresh)
fresh_patched = ap (λ r. r.0) reconcile-started_example.0

reconcile-Step_example :
    (stored : Workflow) × (cluster.workflow "wf1" "default" ≡ found stored)
    × (stored.deletion_timestamp ≡ none)
    × Step cluster engine late stored (started install fresh)
reconcile-Step_example =
    reconcile-Step same (λ w. state_eq_refl w.status.state) cluster engine late "wf1" "default"
      (started install fresh) fresh_patched
