-- ===== src/V1alpha1/Methods/Current.antt =====
-- The current action of a workflow is its first action that has not succeeded.
use tink.Prelude.{
  ℕ, suc, ◌+◌, ◌≡◌, refl, ap, ◌⊎◌, inl, inr, true, false, none, some, List, [], ◌∷◌, ◌++◌, arith,
  length, get_elem?-middle, append-nil, All, Bool-cases,
}
use tink.Proto.{blank}
use tink.V1alpha1.Types.{Action, Task, Workflow}
use tink.V1alpha1.Methods.{
  TaskInfo, Scan, is_unfinished, scan_start, scan_tasks, get_task_action_info,
}
use tink.V1alpha1.Methods.Scanning.{
  Passed, TaskPassed, successes, successes_of_tasks, count_actions, count_actions-append,
  scan_actions-stop, scan_tasks-passed, scan_tasks-found,
}

-- how `getTaskActionInfo` names an action that has not finished
abbrev pub info_at : Task → Action → ℕ → ℕ → ℕ → TaskInfo
info_at t a ti index total = record {
  current_worker = t.worker_addr;
  current_task = t.name;
  current_task_index = ti;
  current_action = a.name;
  current_action_index = index;
  current_action_state = a.status;
  total_number_of_actions = total;
}

abbrev pub info_done : ℕ → ℕ → TaskInfo
info_done index total = record {
  current_worker = "";
  current_task = "";
  current_task_index = 0;
  current_action = "";
  current_action_index = index;
  current_action_state = blank;
  total_number_of_actions = total;
}

-- A place in a list of tasks: the task and the action there, and what stands before and after.
pub record Place : Type 0 where
  pub tasks_before : List Task
  pub task : Task
  pub tasks_after : List Task
  pub before : List Action
  pub action : Action
  pub after : List Action

-- The first action that has neither succeeded nor a blank status.
pub record IsCurrent (tasks : List Task) (p : Place) : Type 0 where
  pub tasks_split : tasks ≡ p.tasks_before ++ p.task ∷ p.tasks_after
  pub actions_split : p.task.actions ≡ p.before ++ p.action ∷ p.after
  pub tasks_passed : All TaskPassed p.tasks_before
  pub actions_passed : All Passed p.before
  pub unfinished : is_unfinished p.action.status ≡ true

-- the variables when the scan enters the task of the place, and when it leaves it
abbrev at_task : Place → Scan
at_task p = record {
  found = false;
  task_index = none;
  action_index = successes_of_tasks p.tasks_before;
  action_task_index = 0;
  action_count = count_actions p.tasks_before + length p.task.actions;
}

abbrev stopped : Place → Scan
stopped p = record {
  found = true;
  task_index = some (length p.tasks_before);
  action_index = successes_of_tasks p.tasks_before + successes p.before;
  action_task_index = length p.before;
  action_count = count_actions p.tasks_before + length p.task.actions;
}

scan_place :
    (tasks : List Task) (p : Place)
    → IsCurrent tasks p
    → scan_tasks 0 tasks scan_start ≡ record {
      found = true;
      task_index = some (length p.tasks_before);
      action_index = successes_of_tasks p.tasks_before + successes p.before;
      action_task_index = length p.before;
      action_count = count_actions tasks;
    }
unfolding scan_tasks
scan_place tasks p h = ground (
  arith,
  scan_tasks-passed 0 p.tasks_before (p.task ∷ p.tasks_after) scan_start h.tasks_passed,
  scan_actions-stop (length p.tasks_before) 0 p.before p.action p.after (at_task p)
      h.actions_passed,
  scan_tasks-found (suc (length p.tasks_before)) p.tasks_after (stopped p),
  count_actions-append p.tasks_before (p.task ∷ p.tasks_after),
)

-- The current worker, task, action and state are those of the first action that is unfinished, its
-- task's index is given, and the action's index is the number of actions that have succeeded in all
-- earlier tasks and earlier in its own.
pub get_task_action_info-current :
    (w : Workflow) (p : Place)
    → IsCurrent w.status.tasks p
    → get_task_action_info w
      ≡ info_at p.task p.action
          (length p.tasks_before)
          (successes_of_tasks p.tasks_before + successes p.before)
          (count_actions w.status.tasks)
unfolding get_task_action_info
get_task_action_info-current w p h = ground (
  arith,
  scan_place w.status.tasks p h,
  get_elem?-middle p.tasks_before p.task p.tasks_after,
  get_elem?-middle p.before p.action p.after,
)

-- When no action is unfinished the names are empty and the index is the number of successes.
pub get_task_action_info-passed :
    (w : Workflow)
    → All TaskPassed w.status.tasks
    → get_task_action_info w
      ≡ info_done (successes_of_tasks w.status.tasks) (count_actions w.status.tasks)
unfolding get_task_action_info scan_tasks
get_task_action_info-passed w h =
    ground (arith, append-nil w.status.tasks, scan_tasks-passed 0 w.status.tasks [] scan_start h)

split_actions :
    (acts : List Action)
    → All Passed acts
      ⊎ ((pre : List Action) × (a : Action) × (post : List Action) × (acts ≡ pre ++ a ∷ post)
          × All Passed pre
          × (is_unfinished a.status ≡ true))
split_actions [] = inl tt
split_actions (a ∷ rest) = elim (Bool-cases (is_unfinished a.status)) [
  | inl u ↦ inr ([], a, rest, refl, tt, u)
  | inr d ↦ elim (split_actions rest) [
    | inl passed ↦ inl (d, passed)
    | inr (pre, b, post, e, h, u) ↦ inr (a ∷ pre, b, post, ap (◌∷◌ a) e, (d, h), u)
  ]
]

place_or_end : (ts : List Task) → All TaskPassed ts ⊎ ((p : Place) × IsCurrent ts p)
place_or_end [] = inl tt
place_or_end (t ∷ rest) = elim (split_actions t.actions) [
  | inr (pre, a, post, e, h, u) ↦ inr (
    record {
      tasks_before = [];
      task = t;
      tasks_after = rest;
      before = pre;
      action = a;
      after = post;
    },
    record {
      tasks_split = refl;
      actions_split = e;
      tasks_passed = tt;
      actions_passed = h;
      unfinished = u;
    },
  )
  | inl passed ↦ elim (place_or_end rest) [
    | inl all ↦ inl (passed, all)
    | inr (p, h) ↦ inr (
      record p { tasks_before = t ∷ p.tasks_before },
      record {
        tasks_split = ap (◌∷◌ t) h.tasks_split;
        actions_split = h.actions_split;
        tasks_passed = (passed, h.tasks_passed);
        actions_passed = h.actions_passed;
        unfinished = h.unfinished;
      },
    )
  ]
]

-- Either every action has succeeded or is blank, and then the names are empty and the index is the
-- number of successes; or there is a first unfinished action, and then the worker, the task, its
-- index, the action and its state are those of that action, and the action's index is the number of
-- successes in all earlier tasks and earlier in its own. The total counts the actions of all tasks.
pub get_task_action_info-cases :
    (w : Workflow)
    → (All TaskPassed w.status.tasks
        × (get_task_action_info w
            ≡ info_done (successes_of_tasks w.status.tasks) (count_actions w.status.tasks)))
      ⊎ ((p : Place) × IsCurrent w.status.tasks p
          × (get_task_action_info w
              ≡ info_at p.task p.action
                  (length p.tasks_before)
                  (successes_of_tasks p.tasks_before + successes p.before)
                  (count_actions w.status.tasks)))
get_task_action_info-cases w = elim (place_or_end w.status.tasks) [
  | inl all ↦ inl (all, get_task_action_info-passed w all)
  | inr (p, h) ↦ inr (p, h, get_task_action_info-current w p h)
]
