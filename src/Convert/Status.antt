-- ===== src/Convert/Status.antt =====
-- What a workflow is right after its template was converted.
use tink.Prelude.{ℕ, ◌+◌, ◌≡◌, refl, List, [], ◌∷◌, map, arith, length, length-map, All}
use tink.Template.Types as Template
use tink.V1alpha1.Types.{Workflow}
use tink.V1alpha1.Methods.{get_task_action_info}
use tink.V1alpha1.Methods.Scanning.{successes, successes_of_tasks, count_actions}
use tink.V1alpha1.Methods.Counts.{current_action_index-le, total_number_of_actions-eq}
use tink.Convert.{
  status_action, status_task, workflow_yaml_to_status, workflow_action_list_crd_to_proto,
}
use tink.Convert.Actions.{HasStatus, TaskHasStatus, length-action_list}

abbrev pub template_actions : List Template.Task → ℕ
template_actions [] = 0
template_actions (t ∷ rest) = length t.actions + template_actions rest

actions-HasStatus : (acts : List Template.Action) → All HasStatus (map status_action acts)
unfolding status_action
actions-HasStatus [] = tt
actions-HasStatus (a ∷ acts) = ((λ e. cc), actions-HasStatus acts)

tasks-HasStatus : (ts : List Template.Task) → All TaskHasStatus (map status_task ts)
unfolding status_task
tasks-HasStatus [] = tt
tasks-HasStatus (t ∷ ts) = (actions-HasStatus t.actions, tasks-HasStatus ts)

actions-successes : (acts : List Template.Action) → successes (map status_action acts) ≡ 0
unfolding status_action
actions-successes [] = refl
actions-successes (a ∷ acts) = actions-successes acts

tasks-successes : (ts : List Template.Task) → successes_of_tasks (map status_task ts) ≡ 0
unfolding status_task
tasks-successes [] = refl
tasks-successes (t ∷ ts) = omega (arith, actions-successes t.actions, tasks-successes ts)

tasks-count : (ts : List Template.Task) → count_actions (map status_task ts) ≡ template_actions ts
unfolding status_task
tasks-count [] = refl
tasks-count (t ∷ ts) = omega (arith, length-map t.actions status_action, tasks-count ts)

-- A workflow whose tasks come from a template has no blank status, its current index is 0, its total
-- is the number of actions of the template, and the worker's list of actions has that length.
pub workflow_yaml_to_status-start :
    (template : Template.Workflow) (w : Workflow)
    → w.status.tasks ≡ (workflow_yaml_to_status template).tasks
    → All TaskHasStatus w.status.tasks
      × ((get_task_action_info w).current_action_index ≡ 0)
      × ((get_task_action_info w).total_number_of_actions ≡ template_actions template.tasks)
      × (length (workflow_action_list_crd_to_proto w) ≡ template_actions template.tasks)
unfolding workflow_yaml_to_status workflow_action_list_crd_to_proto
workflow_yaml_to_status-start template w e = ground (
  arith,
  tasks-HasStatus template.tasks,
  tasks-successes template.tasks,
  tasks-count template.tasks,
  current_action_index-le w,
  total_number_of_actions-eq w,
  length-action_list w.status.tasks,
)
