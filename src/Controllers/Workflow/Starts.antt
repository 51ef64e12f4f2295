-- ===== src/Controllers/Workflow/Starts.antt =====
-- How a new workflow is started, from its template to its first action.
use tink.Prelude.{◌≡◌, ◌≢◌, String, Bool, false, none, some, arith}
use tink.Prelude.Outcome.{ok}
use tink.Proto.{state_pending, blank}
use tink.Template.Render.{Engine}
use tink.Template.Render.Accepted.{render_template_hardware-IsRendered}
use tink.Convert.{workflow_yaml_to_status}
use tink.Convert.Status.{template_actions, workflow_yaml_to_status-start}
use tink.V1alpha1.Types.{Workflow}
use tink.V1alpha1.Methods.{get_task_action_info}
use tink.Controllers.Workflow.{
  Clock, Client, TemplateData, found, string_value, render_status, process_new_workflow,
  patch_changes, finish, reconcile_state, reconcile,
}
use tink.Controllers.Workflow.Steps.{IsStarted}

module _ (k : Client) (e : Engine TemplateData) (stored w' : Workflow)
    (x : IsStarted k e stored w') where
  renders : render_status e stored (string_value x.content) x.values ≡ ok w'
  unfolding render_status
  renders = ground (
    arith,
    x.result,
    (render_template_hardware-IsRendered e stored.name (string_value x.content) x.values x.template
          x.buf).1
        x.rendered,
  )

  processes : process_new_workflow k e stored ≡ ok (w', false)
  unfolding process_new_workflow
  processes = ground (arith, x.template_found, x.data_found, renders)

  pending_first : w'.status.state ≡ state_pending
  pending_first = ground (arith, x.result)

  tasks_of : w'.status.tasks ≡ (workflow_yaml_to_status x.template).tasks
  tasks_of = ground (arith, x.result)

-- A stored new workflow that is not being deleted, whose template is there, whose hardware is found or
-- is not there and not named, and whose template renders with this data to a valid one, is patched to Pending and not queued again, if the comparison tells states apart and the
-- patch is taken; then its current index is 0 and its total is the number of the template's actions.
pub reconcile-started :
    (k : Client) (e : Engine TemplateData) (c : Clock) (same : Workflow → Workflow → Bool)
    (name namespace : String) (stored w' : Workflow)
    → ((w v : Workflow) → w.status.state ≢ v.status.state → same w v ≡ false)
    → k.workflow name namespace ≡ found stored
    → stored.deletion_timestamp ≡ none
    → stored.status.state ≡ blank
    → (x : IsStarted k e stored w') → k.patch w' stored ≡ none
    → (reconcile k e c same name namespace ≡ (some w', ok false))
      × (w'.status.state ≡ state_pending)
      × ((get_task_action_info w').current_action_index ≡ 0)
      × ((get_task_action_info w').total_number_of_actions ≡ template_actions x.template.tasks)
unfolding reconcile reconcile_state finish patch_changes
reconcile-started k e c same name namespace stored w' differ f d b x p =
    let (statuses, first, total, listed) =
      workflow_yaml_to_status-start x.template w' (tasks_of k e stored w' x) in
    let distinct : w'.status.state ≢ stored.status.state =
      λ q. ground (arith, pending_first k e stored w' x) in
    (
      ground (arith, processes k e stored w' x, differ w' stored distinct),
      pending_first k e stored w' x,
      first,
      total,
    )
