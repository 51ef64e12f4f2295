-- ===== src/Convert.antt =====
-- pkg/convert/workflow.go: the conversions between the template, the custom resource and the
-- messages. The nil argument, for which each returns nil, has no counterpart here. A Go map is the
-- list of its entries; `task.Volumes` is taken to have no spare capacity, so that `append` copies.
pub mod Actions
pub mod Templates
pub mod Status
use Prim.Native.String.{compare}
use Prim.Native.Nat.{Ordering}
use tink.Prelude.{
  String, Bool, true, false, Option, none, some, List, [], ◌∷◌, ◌++◌, map, append, str_eq,
  if◌then◌else◌,
}
use tink.Prelude.Int.{ℤ, pos}
use tink.Proto.{
  State, pending, WorkflowState, state_pending, blank, state_name, state_value, WorkflowAction,
}
use tink.Template.Types as Template
use tink.V1alpha1.Types.{Action, Task, WorkflowStatus, Workflow}
use tink.V1alpha1.Methods.{id_annotation, tink_id}

-- `merged[k] = v`
unfoldable pub put {ℓ} : {V : Type ℓ} → String → V → List (String × V) → List (String × V)
put key value [] = (key, value) ∷ []
put key value ((k, v) ∷ rest) =
    if str_eq k key then (key, value) ∷ rest else (k, v) ∷ put key value rest

-- `for k, v := range env { merged[k] = v }`
unfoldable pub put_all : List (String × String) → List (String × String) → List (String × String)
unfolding put
put_all [] merged = merged
put_all ((k, v) ∷ rest) merged = put_all rest (put k v merged)

abbrev pub not_after : String → String → Bool
not_after s t = elim (compare s t) [ Ordering.gt ↦ false | _ ↦ true ]

-- sort.Strings
unfoldable pub insert : String → List String → List String
insert s [] = s ∷ []
insert s (t ∷ rest) = if not_after s t then s ∷ t ∷ rest else t ∷ insert s rest

unfoldable pub sort_strings : List String → List String
unfolding insert
sort_strings [] = []
sort_strings (s ∷ rest) = insert s (sort_strings rest)

-- the function literal for `Environment`
unfoldable pub merge_environment : List (String × String) → List (String × String) → List String
unfolding put_all sort_strings
merge_environment env action_env = sort_strings (
    map (λ ((k, v) : String × String). append (append k "=") v)
      (put_all action_env (put_all env [])))

unfoldable pub action_of : Task → Action → WorkflowAction
unfolding merge_environment
action_of task action = record {
  task_name = task.name;
  name = action.name;
  image = action.image;
  timeout = action.timeout;
  command = action.command;
  on_timeout = [];
  on_failure = [];
  worker_id = task.worker_addr;
  volumes = task.volumes ++ action.volumes;
  environment = merge_environment task.environment action.environment;
  pid = action.pid;
}

-- the two loops of `WorkflowActionListCRDToProto`
unfoldable pub action_list_of_tasks : List Task → List WorkflowAction
unfolding action_of
action_list_of_tasks [] = []
action_list_of_tasks (task ∷ rest) = map (action_of task) task.actions ++ action_list_of_tasks rest

unfoldable pub workflow_action_list_crd_to_proto : Workflow → List WorkflowAction
unfolding action_list_of_tasks
workflow_action_list_crd_to_proto wf = action_list_of_tasks wf.status.tasks

-- `WorkflowYAMLToStatus`
unfoldable pub status_action : Template.Action → Action
status_action a = record {
  name = a.name;
  image = a.image;
  timeout = a.timeout;
  command = a.command;
  volumes = a.volumes;
  pid = a.pid;
  environment = a.environment;
  status = state_name pending;
  started_at = none;
  seconds = pos 0;
  message = "";
}

unfoldable pub status_task : Template.Task → Task
unfolding status_action
status_task t = record {
  name = t.name;
  worker_addr = t.worker_addr;
  actions = map status_action t.actions;
  volumes = t.volumes;
  environment = t.environment;
}

unfoldable pub workflow_yaml_to_status : Template.Workflow → WorkflowStatus
unfolding status_task
workflow_yaml_to_status wf = record {
  state = blank;
  global_timeout = wf.global_timeout;
  tasks = map status_task wf.tasks;
}

-- The message of the workflow service, with its field `data` as `content`.
pub record ProtoWorkflow : Type 0 where
  pub id : String
  pub template : String
  pub hardware : String
  pub state : State
  pub created_at : Option ℤ
  pub updated_at : Option ℤ
  pub deleted_at : Option ℤ
  pub content : String

-- A state that is no key of State_value becomes STATE_PENDING, as `state_value` has it.
unfoldable pub workflow_crd_to_proto : Workflow → ProtoWorkflow
workflow_crd_to_proto w = record {
  id = tink_id w;
  template = w.spec.template_ref;
  hardware = "";
  state = state_value w.status.state;
  created_at = some w.creation_timestamp;
  updated_at = none;
  deleted_at = w.deletion_timestamp;
  content = "";
}

-- `AsTime`, which is the Unix epoch for a timestamp that is nil
abbrev as_time : Option ℤ → ℤ
as_time none = pos 0
as_time (some t) = t

unfoldable pub workflow_proto_to_crd : ProtoWorkflow → Workflow
workflow_proto_to_crd w = record {
  name = "";
  namespace = "";
  annotations = (id_annotation, w.id) ∷ [];
  creation_timestamp = as_time w.created_at;
  deletion_timestamp = none;
  spec = record { template_ref = ""; hardware_ref = ""; hardware_map = [] };
  status = record { state = state_name w.state; global_timeout = pos 0; tasks = [] };
}
