-- ===== src/V1alpha1/Methods.antt =====
-- pkg/apis/core/v1alpha1/workflow_methods.go: the start time, the current action and the tinkerbell
-- id of a workflow.
pub mod Scanning
pub mod Current
pub mod Counts
use tink.Prelude.{
  ℕ, suc, ◌+◌, String, Bool, true, false, Option, none, some, List, [], ◌∷◌, length, get_elem?,
  str_eq, if◌then◌else◌,
}
use tink.Prelude.Int.{ℤ}
use tink.Proto.{
  WorkflowState, state_pending, state_running, state_failed, state_timeout, state_success, blank,
}
use tink.V1alpha1.Types.{Action, Task, Workflow}

pub record TaskInfo : Type 0 where
  pub current_worker : String
  pub current_task : String
  pub current_task_index : ℕ
  pub current_action : String
  pub current_action_index : ℕ
  pub current_action_state : WorkflowState
  pub total_number_of_actions : ℕ

-- The local variables of `getTaskActionInfo`; `none` is the index -1.
pub record Scan : Type 0 where
  pub found : Bool
  pub task_index : Option ℕ
  pub action_index : ℕ
  pub action_task_index : ℕ
  pub action_count : ℕ

abbrev pub scan_start : Scan
scan_start = record {
  found = false;
  task_index = none;
  action_index = 0;
  action_task_index = 0;
  action_count = 0;
}

-- the second case of the `switch`
abbrev pub is_unfinished : WorkflowState → Bool
is_unfinished state_pending = true
is_unfinished state_running = true
is_unfinished state_failed = true
is_unfinished state_timeout = true
is_unfinished state_success = false
is_unfinished blank = false

-- the first case of the `switch`: `actionIndex++`
abbrev pub is_success : WorkflowState → Bool
is_success state_success = true
is_success _ = false

abbrev pub add_success : WorkflowState → ℕ → ℕ
add_success s n = if is_success s then suc n else n

-- the loop INNER, from the action `ai` of the task `ti`
unfoldable pub scan_actions : ℕ → ℕ → List Action → Scan → Scan
scan_actions ti ai [] s = s
scan_actions ti ai (action ∷ rest) s =
    let more =
      scan_actions ti (suc ai) rest
        (record s { action_index = add_success action.status s.action_index }) in
    if is_unfinished action.status
    then record s { found = true; task_index = some ti; action_task_index = ai }
    else more

-- the loop over the tasks, from the task `ti`
unfoldable pub scan_tasks : ℕ → List Task → Scan → Scan
unfolding scan_actions
scan_tasks ti [] s = s
scan_tasks ti (task ∷ rest) s =
    let t = record s { action_count = s.action_count + length task.actions } in
    scan_tasks (suc ti) rest (if s.found then t else scan_actions ti 0 task.actions t)

-- what is filled in from the task and from its action
fill_action : List Action → ℕ → TaskInfo → TaskInfo
fill_action actions i info = elim (get_elem? actions i) [
  | none ↦ info
  | some a ↦ record info { current_action = a.name; current_action_state = a.status }
]

fill_task : List Task → Scan → TaskInfo → Option ℕ → TaskInfo
unfolding fill_action
fill_task tasks s info none = info
fill_task tasks s info (some ti) = elim (get_elem? tasks ti) [
  | none ↦ info
  | some t ↦ fill_action t.actions s.action_task_index (record info {
    current_worker = t.worker_addr;
    current_task = t.name;
    current_task_index = ti;
  })
]

info_of : List Task → Scan → TaskInfo
unfolding fill_task
info_of tasks s =
    fill_task tasks s
      (record {
        current_worker = "";
        current_task = "";
        current_task_index = 0;
        current_action = "";
        current_action_index = s.action_index;
        current_action_state = blank;
        total_number_of_actions = s.action_count;
      })
      s.task_index

-- The indices that the scan leaves are in range, so no case of `fill_task` is a panic of the source.
unfoldable pub get_task_action_info : Workflow → TaskInfo
unfolding scan_tasks info_of
get_task_action_info w = info_of w.status.tasks (scan_tasks 0 w.status.tasks scan_start)

-- the start time of the first action of the first task
start_of : List Action → Option ℤ
start_of [] = none
start_of (a ∷ rest) = a.started_at

start_of_tasks : List Task → Option ℤ
unfolding start_of
start_of_tasks [] = none
start_of_tasks (t ∷ rest) = start_of t.actions

unfoldable pub get_start_time : Workflow → Option ℤ
unfolding start_of_tasks
get_start_time w = start_of_tasks w.status.tasks

abbrev pub id_annotation : String
id_annotation = "workflow.tinkerbell.org/id"

-- `annotations[key]`, which is "" where the key is missing
unfoldable pub annotation : String → List (String × String) → String
annotation key [] = ""
annotation key ((k, v) ∷ rest) = if str_eq k key then v else annotation key rest

-- `annotations[key] = value`
unfoldable pub set_annotation : String → String → List (String × String) → List (String × String)
set_annotation key value [] = (key, value) ∷ []
set_annotation key value ((k, v) ∷ rest) =
    if str_eq k key then (key, value) ∷ rest else (k, v) ∷ set_annotation key value rest

unfoldable pub tink_id : Workflow → String
unfolding annotation
tink_id w = annotation id_annotation w.annotations

unfoldable pub set_tink_id : Workflow → String → Workflow
unfolding set_annotation
set_tink_id w id = record w { annotations = set_annotation id_annotation id w.annotations }
