-- ===== src/Kube/Handlers.antt =====
-- The handlers of server/kubernetes_api_workflow.go, over a client of the Kubernetes API. A handler
-- that changes the cluster returns the new one beside its result.
pub mod Target
pub mod Report
pub mod Contexts
use tink.Prelude.{String, Bool, Option, none, some, List, [], ◌∷◌, not, str_eq, if◌then◌else◌}
use tink.Prelude.Int.{ℤ}
use tink.Prelude.Outcome.{Outcome, ok, err, crash, index, ◌>>=◌, ◌>>◌}
use tink.Proto.{WorkflowContext, WorkflowActionStatus, WorkflowAction, Error, invalid_argument}
use tink.V1alpha1.Types.{Task, Workflow}
use tink.V1alpha1.Methods.{get_task_action_info}
use tink.Convert.{workflow_action_list_crd_to_proto}
use tink.Kube.Context.{get_workflow_context, get_workflow_context_for_request}
use tink.Kube.Modify.{modify_workflow_state}

-- What the handlers call of the Kubernetes client: a list by the index of non-terminal workflows, a
-- `Get` by name and namespace, and an update of a status, which gives the new cluster.
pub record Client (Cluster : Type 0) : Type 0 where
  pub list_by_worker : Cluster → String → Outcome Error (List Workflow)
  pub get : Cluster → String → String → Outcome Error Workflow
  pub update_status : Cluster → Workflow → Outcome Error Cluster

abbrev pub invalid_workflow_id : Error
invalid_workflow_id = invalid_argument "invalid workflow id"

abbrev pub invalid_task_name : Error
invalid_task_name = invalid_argument "invalid task name"

abbrev pub invalid_action_name : Error
invalid_action_name = invalid_argument "invalid action name"

abbrev pub invalid_task_reported : Error
invalid_task_reported =
    invalid_argument "reported task name does not match the current action details"

abbrev pub invalid_action_reported : Error
invalid_action_reported =
    invalid_argument "reported action name does not match the current action details"

abbrev pub fail_if : Bool → Error → Option Error
fail_if test e = if test then some e else none

unfoldable pub validate_action_status_request : WorkflowActionStatus → Option Error
validate_action_status_request req =
    if str_eq req.workflow_id ""
    then some invalid_workflow_id
    else if str_eq req.task_name ""
    then some invalid_task_name
    else fail_if (str_eq req.action_name "") invalid_action_name

-- An error of a call is replaced by another one.
abbrev pub replace_error {ℓ} : {A : Type ℓ} → Error → Outcome Error A → Outcome Error A
replace_error e (ok a) = ok a
replace_error e (err _) = err e
replace_error e crash = crash

module _ {Cluster : Type 0} (k : Client Cluster) where
  -- the loop over the listed workflows
  unfoldable pub assigned_to : String → List Workflow → Outcome Error (List Workflow)
  assigned_to worker_id [] = ok []
  assigned_to worker_id (wf ∷ rest) = do
    let more = assigned_to worker_id rest
    task ← index wf.status.tasks (get_task_action_info wf).current_task_index
    if str_eq task.worker_addr worker_id then (more >>= λ wfs. ok (wf ∷ wfs)) else more

  unfoldable pub get_current_assigned_non_terminal_workflows_for_worker :
      Cluster → String → Outcome Error (List Workflow)
  unfolding assigned_to
  get_current_assigned_non_terminal_workflows_for_worker c worker_id = do
    stored ← k.list_by_worker c worker_id
    assigned_to worker_id stored

  -- The stream takes the contexts in turn; `refuse` is what `Send` answers. The contexts that were
  -- sent are returned with the error that ended the loop.
  unfoldable pub send_all :
      (WorkflowContext → Option Error) → List Workflow → List WorkflowContext × Option Error
  send_all refuse [] = ([], none)
  send_all refuse (wf ∷ rest) =
      let (sent, e) = send_all refuse rest in
      elim (refuse (get_workflow_context wf)) [
        | some bad ↦ ([], some bad)
        | none ↦ (get_workflow_context wf ∷ sent, e)
      ]

  unfoldable pub get_workflow_contexts :
      (WorkflowContext → Option Error)
      → Cluster
      → String
      → Outcome Error (List WorkflowContext × Option Error)
  unfolding send_all get_current_assigned_non_terminal_workflows_for_worker
  get_workflow_contexts refuse c worker_id = do
    fail_if (str_eq worker_id "") invalid_workflow_id
    wflows ← get_current_assigned_non_terminal_workflows_for_worker c worker_id
    ok (send_all refuse wflows)

  unfoldable pub get_workflow_actions :
      String → Cluster → String → Outcome Error (List WorkflowAction)
  get_workflow_actions namespace c wf_id = do
    fail_if (str_eq wf_id "") invalid_workflow_id
    wf ← k.get c wf_id namespace
    ok (workflow_action_list_crd_to_proto wf)

  -- the update, after `modifyWorkflowState`
  unfoldable pub store_modified : Cluster → Option Workflow × Option Error → Outcome Error Cluster
  store_modified c (wf, some e) = err invalid_workflow_id
  store_modified c (none, none) = crash
  store_modified c (some wf, none) = replace_error invalid_workflow_id (k.update_status c wf)

  unfoldable pub report_action_status :
      String → ℤ → Cluster → WorkflowActionStatus → Outcome Error Cluster
  unfolding validate_action_status_request store_modified
  report_action_status namespace now c req = do
    validate_action_status_request req
    wf ← replace_error invalid_workflow_id (k.get c req.workflow_id namespace)
    let info = get_task_action_info wf
    fail_if (not (str_eq req.task_name info.current_task)) invalid_task_reported
    fail_if (not (str_eq req.action_name info.current_action)) invalid_action_reported
    store_modified c
        (modify_workflow_state now (some wf) (some (get_workflow_context_for_request req wf)))

-- The ephemeral data of a workflow is deprecated in this backend: reads are empty, writes are lost.
abbrev pub get_workflow_data : String
get_workflow_data = ""

abbrev pub update_workflow_data : {Cluster : Type 0} → Cluster → String → Cluster
update_workflow_data c content = c
