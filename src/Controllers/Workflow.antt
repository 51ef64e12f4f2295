-- ===== src/Controllers/Workflow.antt =====
-- pkg/controllers/workflow/controller.go and pkg/controllers/retry.go. The calls of the cluster's
-- client and the comparison `equality.Semantic.DeepEqual` are parameters; what a call of the template
-- engine does is a parameter of Template.Render.
pub mod Running
pub mod Outlived
pub mod Steps
pub mod Starts
use tink.Prelude.{
  ℕ, suc, String, Bool, true, false, not, ◌&&◌, Option, none, some, List, [], ◌∷◌, map, str_eq,
  if◌then◌else◌,
}
use tink.Prelude.Int.{ℤ}
use tink.Prelude.Outcome.{Outcome, ok, err, crash, ◌>>=◌, ◌>>◌}
use tink.Prelude.Time.{seconds, add, after, seconds_since}
use tink.Proto.{WorkflowState, state_pending, state_running, state_timeout, blank}
use tink.V1alpha1.Types.{Action, Task, Workflow}
use tink.V1alpha1.Methods.{get_start_time}
use tink.Template.Render.{Engine, RenderError, render_template_hardware}
use tink.Convert.{put, workflow_yaml_to_status}

-- The readings of `nowFunc`: the one for the workflow, and for the action `ai` of the task `ti` the
-- one of the test and the one of the elapsed seconds.
pub record Clock : Type 0 where
  pub at_start : ℤ
  pub at_test : ℕ → ℕ → ℤ
  pub at_stamp : ℕ → ℕ → ℤ

abbrev pub is_running : WorkflowState → Bool
is_running state_running = true
is_running _ = false

-- now.After(start.Add(time.Duration(timeout)*time.Second))
unfoldable pub is_over : ℤ → ℤ → ℤ → Bool
unfolding seconds add after
is_over now start timeout = after now (add start (seconds timeout))

-- The fields of an action that has timed out, `none` for one that has not.
unfoldable pub expire : ℤ → ℤ → Action → Option Action
unfolding is_over seconds_since
expire now stamp a = elim a.started_at [
  | none ↦ none
  | some start ↦
      if is_running a.status && is_over now start a.timeout
      then some (record a {
        status = state_timeout;
        message = "Action timed out";
        seconds = seconds_since stamp start;
      })
      else none
]

-- the inner loop, from the action `ai`, with the state of the workflow
unfoldable pub expire_actions :
    Clock → ℕ → ℕ → List Action → WorkflowState → List Action × WorkflowState
unfolding expire
expire_actions c ti ai [] state = ([], state)
expire_actions c ti ai (a ∷ rest) state = elim (expire (c.at_test ti ai) (c.at_stamp ti ai) a) [
  | none ↦ let (more, end) = expire_actions c ti (suc ai) rest state in (a ∷ more, end)
  | some a' ↦ let (more, end) = expire_actions c ti (suc ai) rest state_timeout in (a' ∷ more, end)
]

-- the outer loop, from the task `ti`
unfoldable pub expire_tasks : Clock → ℕ → List Task → WorkflowState → List Task × WorkflowState
unfolding expire_actions
expire_tasks c ti [] state = ([], state)
expire_tasks c ti (t ∷ rest) state =
    let (actions, next) = expire_actions c ti 0 t.actions state in
    let (more, end) = expire_tasks c (suc ti) rest next in
    (record t { actions = actions } ∷ more, end)

-- The start time is a pointer, and adding to a nil one panics.
unfoldable pub process_running_workflow : {E : Type 0} → Clock → Workflow → Outcome E Workflow
unfolding expire_tasks is_over get_start_time
process_running_workflow c w = elim (get_start_time w) [
  | none ↦ crash
  | some start ↦
      let (tasks, end) = expire_tasks c 0 w.status.tasks (
        if is_over c.at_start start w.status.global_timeout
        then state_timeout
        else w.status.state) in
      ok (record w { status = record w.status { state = end; tasks = tasks } })
]

-- pkg/apis/core/v1alpha1/hardware_types.go, as far as the controller reads it
pub record Disk : Type 0 where
  pub device : String

pub record Hardware : Type 0 where
  pub disks : List Disk

pub record TemplateHardwareData : Type 0 where
  pub disks : List String

unfoldable pub to_template_hardware_data : Hardware → TemplateHardwareData
to_template_hardware_data hardware = record { disks = map (λ d. d.device) hardware.disks }

-- A value of the map that a template is rendered on.
pub data Value : Type 0 where
  text : String → Value
  hardware : TemplateHardwareData → Value

abbrev pub TemplateData : Type 0
TemplateData = List (String × Value)

unfoldable pub put_texts : List (String × String) → TemplateData → TemplateData
unfolding put
put_texts [] values = values
put_texts ((key, val) ∷ rest) values = put_texts rest (put key (text val) values)

-- What a `Get` answers.
pub data Lookup (A : Type 0) : Type 0 where
  found : A → Lookup A
  missing : Lookup A
  failing : String → Lookup A

pub data ControllerError : Type 0 where
  no_template no_hardware : String → String → ControllerError
  hardware_failure : String → ControllerError
  rendering : RenderError → ControllerError
  patching : String → String → ControllerError

-- The cluster: the three `Get`s by name and namespace, and the patch of the status, with its error.
-- A template is its `Spec.Data`.
pub record Client : Type 0 where
  pub workflow : String → String → Lookup Workflow
  pub template : String → String → Lookup (Option String)
  pub hardware : String → String → Lookup Hardware
  pub patch : Workflow → Workflow → Option String

-- ptr.StringValue
abbrev pub string_value : Option String → String
string_value none = ""
string_value (some s) = s

-- The data that the template is rendered on, or the error of the hardware.
unfoldable pub template_data : Client → Workflow → Outcome ControllerError TemplateData
unfolding put_texts put to_template_hardware_data
template_data k w =
    let values = put_texts w.spec.hardware_map [] in
    elim (k.hardware w.spec.hardware_ref w.namespace) [
      | failing cause ↦ err (hardware_failure cause)
      | missing ↦
          if not (str_eq w.spec.hardware_ref "")
          then err (no_hardware w.spec.hardware_ref w.namespace)
          else ok values
      | found h ↦ ok (put "Hardware" (hardware (to_template_hardware_data h)) values)
    ]

-- The workflow with the status of its template; the errors of the render are passed on.
unfoldable pub render_status :
    Engine TemplateData → Workflow → String → TemplateData → Outcome ControllerError Workflow
unfolding render_template_hardware workflow_yaml_to_status
render_status e w content values = elim (render_template_hardware e w.name content values) [
  | err cause ↦ err (rendering cause)
  | crash ↦ crash
  | ok (template, buf) ↦
      ok (record w { status = record (workflow_yaml_to_status template) { state = state_pending } })
]

-- The workflow after the call, and whether it is queued again: `RetryIfError` swallows the error.
unfoldable pub process_new_workflow :
    Client → Engine TemplateData → Workflow → Outcome ControllerError (Workflow × Bool)
unfolding template_data render_status
process_new_workflow k e w = elim (k.template w.spec.template_ref w.namespace) [
  | missing ↦ err (no_template w.spec.template_ref w.namespace)
  | failing cause ↦ ok (w, true)
  | found content ↦ do
    values ← template_data k w
    w' ← render_status e w (string_value content) values
    ok (w', false)
]

-- What a reconciliation did: the patch that it sent, and its result, whether to queue again.
abbrev pub Reply : Type 0
Reply = Option Workflow × Outcome ControllerError Bool

-- The patch of the changes, if there are any, and the result, which the patch's error replaces.
unfoldable pub patch_changes :
    Client
    → (Workflow → Workflow → Bool)
    → Workflow
    → Workflow
    → Outcome ControllerError Bool
    → Reply
patch_changes k same stored w result =
    if same w stored then (none, result) else elim (k.patch w stored) [
      | none ↦ (some w, result)
      | some cause ↦ (some w, err (patching w.name cause))
    ]

-- `processNewWorkflow` changes the workflow last, so an error leaves it as it was stored.
unfoldable pub finish :
    Client
    → (Workflow → Workflow → Bool)
    → Workflow
    → Outcome ControllerError (Workflow × Bool)
    → Reply
unfolding patch_changes
finish k same stored (ok (w, requeue)) = patch_changes k same stored w (ok requeue)
finish k same stored (err e) = patch_changes k same stored stored (err e)
finish k same stored crash = (none, crash)

unfoldable pub reconcile_state :
    Client
    → Engine TemplateData
    → Clock
    → (Workflow → Workflow → Bool)
    → Workflow
    → WorkflowState
    → Reply
unfolding process_new_workflow process_running_workflow finish
reconcile_state k e c same stored blank = finish k same stored (process_new_workflow k e stored)
reconcile_state k e c same stored state_running =
    finish k same stored (do w ← process_running_workflow c stored; ok (w, false))
reconcile_state k e c same stored _ = (none, ok false)

unfoldable pub reconcile :
    Client → Engine TemplateData → Clock → (Workflow → Workflow → Bool) → String → String → Reply
unfolding reconcile_state
reconcile k e c same name namespace = elim (k.workflow name namespace) [
  | missing ↦ (none, ok false)
  | failing cause ↦ (none, ok true)
  | found stored ↦ elim stored.deletion_timestamp [
    | some t ↦ (none, ok false)
    | none ↦ reconcile_state k e c same stored stored.status.state
  ]
]
