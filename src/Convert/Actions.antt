-- ===== src/Convert/Actions.antt =====
-- The list of actions that a worker gets agrees with the context that it gets.
use tink.Prelude.{
  ◌+◌, ◌≡◌, ◌≢◌, refl, some, List, [], ◌∷◌, ◌++◌, map, arith, length, length-append, length-map,
  get_elem?, All, append_assoc, All-middle, get_elem?-append,
}
use mathlib.Core.Path.{subst}
use tink.Proto.{blank, WorkflowAction}
use tink.V1alpha1.Types.{Action, Task, Workflow}
use tink.V1alpha1.Methods.{get_task_action_info}
use tink.V1alpha1.Methods.Scanning.{
  Passed, TaskPassed, successes, successes_of_tasks, count_actions,
}
use tink.V1alpha1.Methods.Current.{Place, IsCurrent, get_task_action_info-current}
use tink.Convert.{action_of, action_list_of_tasks, workflow_action_list_crd_to_proto}

pub length-action_list : (ts : List Task) → length (action_list_of_tasks ts) ≡ count_actions ts
unfolding action_list_of_tasks
length-action_list [] = refl
length-action_list (t ∷ ts) = ground (
  arith,
  length-append (map (action_of t) t.actions) (action_list_of_tasks ts),
  length-map t.actions (action_of t),
  length-action_list ts,
)

action_list-append :
    (ts us : List Task)
    → action_list_of_tasks (ts ++ us) ≡ action_list_of_tasks ts ++ action_list_of_tasks us
unfolding action_list_of_tasks
action_list-append [] us = refl
action_list-append (t ∷ ts) us = rw (action_list-append ts us, append_assoc)

-- An action whose status is not blank; the controller writes no other.
abbrev pub HasStatus : Action → Type 0
HasStatus a = a.status ≢ blank

abbrev pub TaskHasStatus : Task → Type 0
TaskHasStatus t = All HasStatus t.actions

pub successes-Passed :
    (acts : List Action) → All HasStatus acts → All Passed acts → successes acts ≡ length acts
successes-Passed [] h p = refl
successes-Passed (a ∷ acts) h p = ground (arith, successes-Passed acts)

pub successes_of_tasks-passed :
    (ts : List Task)
    → All TaskHasStatus ts
    → All TaskPassed ts
    → successes_of_tasks ts ≡ count_actions ts
successes_of_tasks-passed [] h p = refl
successes_of_tasks-passed (t ∷ ts) h p =
    ground (arith, successes-Passed t.actions, successes_of_tasks-passed ts)

get_elem?-map_middle :
    (f : Action → WorkflowAction) (pre : List Action) (a : Action) (post : List Action)
    (rest : List WorkflowAction)
    → get_elem? (map f (pre ++ a ∷ post) ++ rest) (length pre) ≡ some (f a)
get_elem?-map_middle f [] a post rest = refl
get_elem?-map_middle f (b ∷ pre) a post rest = get_elem?-map_middle f pre a post rest

get_elem?-action_list :
    (ts us : List Task) (t : Task) (pre : List Action) (a : Action) (post : List Action)
    → t.actions ≡ pre ++ a ∷ post
    → get_elem? (action_list_of_tasks (ts ++ t ∷ us)) (count_actions ts + length pre)
      ≡ some (action_of t a)
unfolding action_list_of_tasks
get_elem?-action_list [] us t pre a post e =
    ground (arith, e, get_elem?-map_middle (action_of t) pre a post (action_list_of_tasks us))
get_elem?-action_list (u ∷ ts) us t pre a post e = ground (
  arith,
  get_elem?-append (map (action_of u) u.actions) (action_list_of_tasks (ts ++ t ∷ us))
      (count_actions ts + length pre),
  length-map u.actions (action_of u),
  get_elem?-action_list ts us t pre a post e,
)

pub has_before :
    (ts : List Task) (p : Place)
    → All TaskHasStatus ts
    → IsCurrent ts p
    → All TaskHasStatus p.tasks_before × TaskHasStatus p.task
has_before ts p h c =
    let (x, y, z) =
      All-middle TaskHasStatus p.tasks_before p.task p.tasks_after
        (subst (All TaskHasStatus) c.tasks_split h) in
    (x, y)

pub has_before_action :
    (ts : List Task) (p : Place) → All TaskHasStatus ts → IsCurrent ts p → All HasStatus p.before
has_before_action ts p h c =
    (All-middle HasStatus p.before p.action p.after
      (subst (All HasStatus) c.actions_split (has_before ts p h c).1)).0

-- For a workflow with no blank status and a current action, the list of actions has the total number
-- of actions of the context, and at the current index it holds the action that the context names,
-- with the current task's name and worker.
pub action_list-current :
    (w : Workflow) (p : Place)
    → All TaskHasStatus w.status.tasks
    → IsCurrent w.status.tasks p
    → let info = get_task_action_info w in
      let actions = workflow_action_list_crd_to_proto w in
      (length actions ≡ info.total_number_of_actions)
      × (get_elem? actions info.current_action_index ≡ some (action_of p.task p.action))
      × ((action_of p.task p.action).name ≡ info.current_action)
      × ((action_of p.task p.action).task_name ≡ info.current_task)
      × ((action_of p.task p.action).worker_id ≡ info.current_worker)
unfolding workflow_action_list_crd_to_proto action_of
action_list-current w p h c = ground (
  arith,
  get_task_action_info-current w p c,
  length-action_list w.status.tasks,
  has_before w.status.tasks p h c,
  has_before_action w.status.tasks p h c,
  successes_of_tasks-passed p.tasks_before,
  successes-Passed p.before,
  get_elem?-action_list p.tasks_before p.tasks_after p.task p.before p.action p.after
      c.actions_split,
)
