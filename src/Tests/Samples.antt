-- ===== src/Tests/Samples.antt =====
-- Workflows and templates that the tests share: two tasks on two machines, the first of two actions.
use tink.Prelude.{String, List, [], ◌∷◌, none, refl, All, str_ne}
use tink.Prelude.Int.{pos}
use tink.Proto.{WorkflowState, state_pending, state_running, state_success}
use tink.Template.Types as Template
use tink.V1alpha1.Types.{Action, Task, Workflow}
use tink.V1alpha1.Methods.Current.{Place, IsCurrent}
use tink.Convert.Actions.{TaskHasStatus}
use tink.Kube.Handlers.Target.{IsDistinct}

abbrev pub template_action : String → Template.Action
template_action name = record {
  name = name;
  image = "alpine";
  timeout = pos 60;
  command = [];
  on_timeout = [];
  on_failure = [];
  volumes = [];
  environment = [];
  pid = "";
}

abbrev pub template_task : String → String → List Template.Action → Template.Task
template_task name addr actions = record {
  name = name;
  worker_addr = addr;
  actions = actions;
  volumes = [];
  environment = [];
}

abbrev pub install : Template.Workflow
install = record {
  version = "0.1";
  name = "install";
  id = "";
  global_timeout = pos 600;
  tasks =
      template_task "os" "m1" (template_action "disk" ∷ template_action "image" ∷ [])
      ∷ template_task "post" "m2" (template_action "reboot" ∷ [])
      ∷ [];
}

abbrev pub action_with : String → WorkflowState → Action
action_with name status = record {
  name = name;
  image = "alpine";
  timeout = pos 60;
  command = [];
  volumes = [];
  pid = "";
  environment = [];
  status = status;
  started_at = none;
  seconds = pos 0;
  message = "";
}

abbrev pub task_with : String → String → List Action → Task
task_with name addr actions = record {
  name = name;
  worker_addr = addr;
  actions = actions;
  volumes = [];
  environment = [];
}

abbrev pub workflow_with : WorkflowState → List Task → Workflow
workflow_with state tasks = record {
  name = "wf1";
  namespace = "default";
  annotations = [];
  creation_timestamp = pos 0;
  deletion_timestamp = none;
  spec = record { template_ref = "install"; hardware_ref = "m1"; hardware_map = [] };
  status = record { state = state; global_timeout = pos 600; tasks = tasks };
}

-- The first action has succeeded and the second is next.
abbrev pub half_done : Workflow
half_done = workflow_with state_running (
    task_with "os" "m1" (action_with "disk" state_success ∷ action_with "image" state_pending ∷ [])
    ∷ task_with "post" "m2" (action_with "reboot" state_pending ∷ [])
    ∷ [])

-- The first task is done and the second is next.
abbrev pub second_task : Workflow
second_task = workflow_with state_running (
    task_with "os" "m1" (action_with "disk" state_success ∷ action_with "image" state_success ∷ [])
    ∷ task_with "post" "m2" (action_with "reboot" state_pending ∷ [])
    ∷ [])

abbrev pub at_image : Place
at_image = record {
  tasks_before = [];
  task =
      task_with "os" "m1"
        (action_with "disk" state_success ∷ action_with "image" state_pending ∷ []);
  tasks_after = task_with "post" "m2" (action_with "reboot" state_pending ∷ []) ∷ [];
  before = action_with "disk" state_success ∷ [];
  action = action_with "image" state_pending;
  after = [];
}

pub at_image-IsCurrent : IsCurrent half_done.status.tasks at_image
at_image-IsCurrent = record {
  tasks_split = refl;
  actions_split = refl;
  tasks_passed = tt;
  actions_passed = (refl, tt);
  unfinished = refl;
}

pub at_image-IsDistinct : IsDistinct at_image
at_image-IsDistinct = record {
  tasks_before_ne = tt;
  tasks_after_ne = (str_ne "post" "os" refl, tt);
  before_ne = (str_ne "disk" "image" refl, tt);
  after_ne = tt;
}

pub half_done-TaskHasStatus : All TaskHasStatus half_done.status.tasks
half_done-TaskHasStatus = (((λ e. cc), ((λ e. cc), tt)), (((λ e. cc), tt), tt))

abbrev pub at_reboot : Place
at_reboot = record {
  tasks_before =
      task_with "os" "m1"
        (action_with "disk" state_success ∷ action_with "image" state_success ∷ [])
      ∷ [];
  task = task_with "post" "m2" (action_with "reboot" state_pending ∷ []);
  tasks_after = [];
  before = [];
  action = action_with "reboot" state_pending;
  after = [];
}

pub at_reboot-IsCurrent : IsCurrent second_task.status.tasks at_reboot
at_reboot-IsCurrent = record {
  tasks_split = refl;
  actions_split = refl;
  tasks_passed = ((refl, (refl, tt)), tt);
  actions_passed = tt;
  unfinished = refl;
}

pub at_reboot-IsDistinct : IsDistinct at_reboot
at_reboot-IsDistinct = record {
  tasks_before_ne = (str_ne "os" "post" refl, tt);
  tasks_after_ne = tt;
  before_ne = tt;
  after_ne = tt;
}

pub second_task-TaskHasStatus : All TaskHasStatus second_task.status.tasks
second_task-TaskHasStatus = (((λ e. cc), ((λ e. cc), tt)), (((λ e. cc), tt), tt))
