-- ===== src/Kube/Context.antt =====
-- The context of a workflow, as server/kubernetes_api_workflow.go and pkg/convert compute it.
use tink.Proto.{WorkflowContext, WorkflowActionStatus, state_value}
use tink.V1alpha1.Types.{Workflow}
use tink.V1alpha1.Methods.{get_task_action_info}

unfoldable pub get_workflow_context : Workflow → WorkflowContext
get_workflow_context wf =
    let info = get_task_action_info wf in
    record {
      workflow_id = wf.name;
      current_worker = info.current_worker;
      current_task = info.current_task;
      current_action = info.current_action;
      current_action_index = info.current_action_index;
      current_action_state = state_value info.current_action_state;
      total_number_of_actions = info.total_number_of_actions;
    }

unfoldable pub get_workflow_context_for_request : WorkflowActionStatus → Workflow → WorkflowContext
get_workflow_context_for_request req wf = record (get_workflow_context wf) {
  current_worker = req.worker_id;
  current_task = req.task_name;
  current_action_state = req.action_status;
  current_action_index = (get_task_action_info wf).current_action_index;
}
