-- ===== src/V1alpha1/Methods/Counts.antt =====
-- The numbers in the context of a workflow.
use tink.Prelude.{◌+◌, ◌≤◌, ◌≡◌, ap, inl, inr, List, [], ◌∷◌, ◌++◌, arith}
use tink.V1alpha1.Types.{Action, Task, Workflow}
use tink.V1alpha1.Methods.{TaskInfo, get_task_action_info}
use tink.V1alpha1.Methods.Scanning.{successes, successes_of_tasks, count_actions}
use tink.V1alpha1.Methods.Current.{Place, IsCurrent, get_task_action_info-cases}

successes-append : (xs ys : List Action) → successes (xs ++ ys) ≡ successes xs + successes ys
successes-append [] ys = omega arith
successes-append (x ∷ xs) ys = ground (arith, successes-append xs ys)

successes_of_tasks-append :
    (xs ys : List Task)
    → successes_of_tasks (xs ++ ys) ≡ successes_of_tasks xs + successes_of_tasks ys
successes_of_tasks-append [] ys = omega arith
successes_of_tasks-append (x ∷ xs) ys = ground (arith, successes_of_tasks-append xs ys)

successes_before :
    (ts : List Task) (p : Place)
    → IsCurrent ts p
    → successes_of_tasks p.tasks_before + successes p.before ≤ successes_of_tasks ts
successes_before ts p h = ground (
  arith,
  successes_of_tasks-append p.tasks_before (p.task ∷ p.tasks_after),
  successes-append p.before (p.action ∷ p.after),
)

-- The index never passes the number of actions that have succeeded.
pub current_action_index-le :
    (w : Workflow)
    → (get_task_action_info w).current_action_index ≤ successes_of_tasks w.status.tasks
current_action_index-le w = elim (get_task_action_info-cases w) [
  | inl (all, e) ↦ omega (arith, ap (λ (i : TaskInfo). i.current_action_index) e)
  | inr (p, h, e) ↦
      omega (arith, ap (λ (i : TaskInfo). i.current_action_index) e, successes_before _ p h)
]

pub total_number_of_actions-eq :
    (w : Workflow) → (get_task_action_info w).total_number_of_actions ≡ count_actions w.status.tasks
total_number_of_actions-eq w = elim (get_task_action_info-cases w) [
  | inl (all, e) ↦ ap (λ (i : TaskInfo). i.total_number_of_actions) e
  | inr (p, h, e) ↦ ap (λ (i : TaskInfo). i.total_number_of_actions) e
]
