-- ===== src/Tests/Resources.antt =====
-- Tests of the custom resources and their conversions.
use tink.Prelude.{◌+◌, ◌≡◌, refl, ◌⊎◌, [], ◌∷◌, length, get_elem?, All, some}
use tink.Proto.{state_pending}
use tink.V1alpha1.Types.{Workflow}
use tink.V1alpha1.Methods.{get_task_action_info}
use tink.V1alpha1.Methods.Scanning.{TaskPassed, successes, successes_of_tasks, count_actions}
use tink.V1alpha1.Methods.Current.{Place, IsCurrent, info_at, info_done, get_task_action_info-cases}
use tink.Convert.{
  action_of, workflow_yaml_to_status, workflow_action_list_crd_to_proto, merge_environment,
}
use tink.Convert.Actions.{TaskHasStatus, action_list-current}
use tink.Convert.Status.{template_actions, workflow_yaml_to_status-start}
use tink.Tests.Samples.{
  install, action_with, task_with, workflow_with, half_done, at_image, at_image-IsCurrent,
  half_done-TaskHasStatus,
}

half_done_info : get_task_action_info half_done ≡ record {
  current_worker = "m1";
  current_task = "os";
  current_task_index = 0;
  current_action = "image";
  current_action_index = 1;
  current_action_state = state_pending;
  total_number_of_actions = 3;
}
unfolding get_task_action_info
half_done_info = refl

get_task_action_info-cases_example :
    (All TaskPassed half_done.status.tasks
      × (get_task_action_info half_done
          ≡ info_done
              (successes_of_tasks half_done.status.tasks)
              (count_actions half_done.status.tasks)))
    ⊎ ((p : Place) × IsCurrent half_done.status.tasks p
        × (get_task_action_info half_done
            ≡ info_at p.task p.action
                (length p.tasks_before)
                (successes_of_tasks p.tasks_before + successes p.before)
                (count_actions half_done.status.tasks)))
get_task_action_info-cases_example = get_task_action_info-cases half_done

merged : merge_environment (("B", "1") ∷ ("A", "2") ∷ []) (("B", "3") ∷ []) ≡ "A=2" ∷ "B=3" ∷ []
unfolding merge_environment
merged = refl

action_list-current_example :
    let info = get_task_action_info half_done in
    let actions = workflow_action_list_crd_to_proto half_done in
    (length actions ≡ info.total_number_of_actions)
    × (get_elem? actions info.current_action_index ≡ some (action_of at_image.task at_image.action))
    × ((action_of at_image.task at_image.action).name ≡ info.current_action)
    × ((action_of at_image.task at_image.action).task_name ≡ info.current_task)
    × ((action_of at_image.task at_image.action).worker_id ≡ info.current_worker)
action_list-current_example =
    action_list-current half_done at_image half_done-TaskHasStatus at_image-IsCurrent

abbrev fresh : Workflow
fresh = workflow_with state_pending (
    task_with "os" "m1" (action_with "disk" state_pending ∷ action_with "image" state_pending ∷ [])
    ∷ task_with "post" "m2" (action_with "reboot" state_pending ∷ [])
    ∷ [])

fresh_tasks : fresh.status.tasks ≡ (workflow_yaml_to_status install).tasks
unfolding workflow_yaml_to_status
fresh_tasks = refl

fresh-starts :
    All TaskHasStatus fresh.status.tasks
    × ((get_task_action_info fresh).current_action_index ≡ 0)
    × ((get_task_action_info fresh).total_number_of_actions ≡ template_actions install.tasks)
    × (length (workflow_action_list_crd_to_proto fresh) ≡ template_actions install.tasks)
fresh-starts = workflow_yaml_to_status-start install fresh fresh_tasks
