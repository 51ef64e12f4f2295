-- ===== src/Tests/KubeServer.antt =====
-- Tests of the Kubernetes handlers, over a cluster that holds one workflow.
use tink.Prelude.{◌≡◌, ◌≢◌, refl, String, none, [], ◌∷◌, map, str_ne, str_eq, if◌then◌else◌}
use tink.Prelude.Int.{pos}
use tink.Prelude.Outcome.{ok, err}
use tink.Proto.{State, running, WorkflowActionStatus, not_found, pending}
use tink.V1alpha1.Types.{Workflow}
use tink.Prelude.Names.{contains}
use tink.Controllers.Index.{workflow_worker_non_terminal_state_index}
use tink.V1alpha1.Methods.{get_task_action_info}
use tink.Kube.Context.{get_workflow_context}
use tink.Kube.Handlers.{Client, invalid_workflow_id, get_workflow_contexts, report_action_status}
use tink.Kube.Handlers.Target.{Reports, reported}
use tink.Kube.Handlers.Report.{
  report_action_status-first_task, report_action_status-later_task, report_action_status-ok,
}
use tink.Kube.Handlers.Contexts.{IsListed, is_assigned, select, get_workflow_contexts-select}
use tink.Tests.Samples.{
  half_done, second_task, at_image, at_image-IsCurrent, at_image-IsDistinct,
  half_done-TaskHasStatus, at_reboot, at_reboot-IsCurrent, at_reboot-IsDistinct,
  second_task-TaskHasStatus,
}

-- A cluster is its one workflow.
abbrev client : Client Workflow
client = record {
  list_by_worker = λ c worker. ok (c ∷ []);
  get = λ c name namespace. if str_eq name c.name then ok c else err (not_found name);
  update_status = λ c wf. ok wf;
}

abbrev report : String → String → State → WorkflowActionStatus
report task action status = record {
  workflow_id = "wf1";
  task_name = task;
  action_name = action;
  action_status = status;
  seconds = pos 0;
  message = "";
  worker_id = "m1";
}

report-Reports : Reports (report "os" "image" running) at_image
report-Reports = record {
  with_id = str_ne "wf1" "" refl;
  with_task = str_ne "os" "" refl;
  with_action = str_ne "image" "" refl;
  task_named = refl;
  action_named = refl;
}

report_action_status-first_task_example :
    report_action_status client "default" (pos 7) half_done (report "os" "image" running)
    ≡ ok (reported (report "os" "image" running) (pos 7) half_done at_image)
report_action_status-first_task_example =
    report_action_status-first_task client "default" (pos 7) half_done (report "os" "image" running)
      half_done at_image refl half_done-TaskHasStatus at_image-IsCurrent at_image-IsDistinct
      report-Reports refl (λ e. cc)

reboot-Reports : Reports (report "post" "reboot" running) at_reboot
reboot-Reports = record {
  with_id = str_ne "wf1" "" refl;
  with_task = str_ne "post" "" refl;
  with_action = str_ne "reboot" "" refl;
  task_named = refl;
  action_named = refl;
}

report_action_status-later_task_example :
    report_action_status client "default" (pos 7) second_task (report "post" "reboot" running)
    ≡ err invalid_workflow_id
report_action_status-later_task_example =
    report_action_status-later_task client "default" (pos 7) second_task
      (report "post" "reboot" running) second_task at_reboot refl second_task-TaskHasStatus
      at_reboot-IsCurrent at_reboot-IsDistinct reboot-Reports (λ e. cc)

report_action_status-ok_example :
    (w : Workflow) × (client.get half_done "wf1" "default" ≡ ok w)
    × ((report "os" "image" running).workflow_id ≢ "")
    × ((report "os" "image" running).task_name ≡ (get_task_action_info w).current_task)
    × ((report "os" "image" running).action_name ≡ (get_task_action_info w).current_action)
    × ((report "os" "image" running).action_status ≢ pending)
report_action_status-ok_example =
    report_action_status-ok client "default" (pos 7) half_done
      (reported (report "os" "image" running) (pos 7) half_done at_image)
      (report "os" "image" running) report_action_status-first_task_example

half_done-IsListed : IsListed "m1" half_done
unfolding workflow_worker_non_terminal_state_index contains
half_done-IsListed = refl

get_workflow_contexts-select_example :
    get_workflow_contexts client (λ _. none) half_done "m1"
    ≡ ok (map get_workflow_context (select (is_assigned "m1") (half_done ∷ [])), none)
get_workflow_contexts-select_example =
    get_workflow_contexts-select client half_done "m1" (half_done ∷ []) (str_ne "m1" "" refl) refl
      (half_done-IsListed, tt)
