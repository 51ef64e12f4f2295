-- ===== src/Db/Create.antt =====
-- `CreateWorkflow` and `insertActionList` of db/workflow.go. The lookup of a worker in the hardware
-- table, the package uuid and the order in which Go walks a map are parameters.
pub mod Start
use text.Mathlib.TextBridge.{to_list, of_list}
use Prim.Native.Char.{Char, code}
use tink.Prelude.{
  ℕ, String, Bool, true, false, ◌&&◌, Option, none, some, List, [], ◌∷◌, ◌++◌, map, append, str_eq,
  length, ◌==◌, if◌then◌else◌,
}
use tink.Prelude.Int.{ℤ}
use tink.Prelude.Outcome.{Outcome, ok, err, crash, or_fail, ◌>>=◌, ◌>>◌}
use tink.Proto.{pending, WorkflowAction}
use tink.Template.Types as Template
use tink.Convert.{put, put_all}
use tink.Db.Tables.{Casts, Tables, StateRow, WorkflowRow, DbError, wrapped}

-- The text up to the first colon, and the one after it: `v[0]` and the rest of `v`, joined again.
cut : List Char → List Char × List Char
cut [] = ([], [])
cut (c ∷ rest) =
    let (key, value) = cut rest in if code c == 58 then ([], rest) else (c ∷ key, value)

-- `volumes[v[0]] = strings.Join(v[1:], ":")` for each volume
unfoldable pub put_volumes : List String → List (String × String) → List (String × String)
unfolding cut put
put_volumes [] volumes = volumes
put_volumes (vol ∷ rest) volumes =
    let (key, value) = cut (to_list vol) in
    put_volumes rest (put (of_list key) (of_list value) volumes)

-- What the operation takes from elsewhere.
pub record Creation : Type 0 where
  -- wflow.Parse
  pub parse : String → Outcome DbError Template.Workflow
  -- getWorkerID, by the address of a task
  pub worker_id : String → Outcome DbError String
  -- uuid.Parse, and the id's own text
  pub parse_uuid : String → Option String
  -- the order of a map's entries
  pub order : List (String × String) → List (String × String)
  -- the columns template and devices of the workflow
  pub casts : Casts
  -- the answers of the database: to the transaction, to each insertion, to the commit
  pub on_begin : Option String
  pub on_state : Option String
  pub on_workflow : Option String
  pub on_commit : Option String
  pub on_worker : String → Option String

abbrev pub no_uuid : String
no_uuid = "00000000-0000-0000-0000-000000000000"

abbrev pub joined : String → List (String × String) → List String
joined mark entries = map (λ ((k, v) : String × String). append (append k mark) v) entries

abbrev pub fault : Option String → String → Option DbError
fault none message = none
fault (some cause) message = some (wrapped message cause)

is_in : String × String → List (String × String) → Bool
is_in e [] = false
is_in (wf, w) ((wf', w') ∷ rest) =
    let more = is_in (wf, w) rest in if str_eq wf wf' && str_eq w w' then true else more

-- INSERT … ON CONFLICT DO NOTHING
unfoldable pub add_worker : String → String → List (String × String) → List (String × String)
unfolding is_in
add_worker wf w rows = if is_in (wf, w) rows then rows else rows ++ (wf, w) ∷ []

-- INSERT … ON CONFLICT (workflow_id) DO UPDATE
unfoldable pub put_state : StateRow → List StateRow → List StateRow
put_state row [] = row ∷ []
put_state row (r ∷ rest) =
    if str_eq r.workflow_id row.workflow_id then row ∷ rest else r ∷ put_state row rest

-- INSERT … ON CONFLICT (id) DO UPDATE, which keeps the creation time
unfoldable pub put_workflow : String → String → String → ℤ → List WorkflowRow → List WorkflowRow
put_workflow id template devices now [] =
    record {
      id = id;
      template = template;
      devices = devices;
      created_at = now;
      updated_at = now;
      deleted_at = none;
    }
    ∷ []
put_workflow id template devices now (r ∷ rest) =
    if str_eq r.id id
    then record r { template = template; devices = devices; updated_at = now; deleted_at = none }
      ∷ rest
    else r ∷ put_workflow id template devices now rest

module _ (k : Creation) where
  unfoldable pub action_of : Template.Task → String → Template.Action → WorkflowAction
  unfolding put_volumes put_all
  action_of task worker a = record {
    task_name = task.name;
    name = a.name;
    image = a.image;
    timeout = a.timeout;
    command = a.command;
    on_timeout = a.on_timeout;
    on_failure = a.on_failure;
    worker_id = worker;
    volumes = joined ":" (k.order (put_volumes a.volumes (put_volumes task.volumes [])));
    environment = joined "=" (k.order (put_all a.environment (put_all task.environment [])));
    pid = a.pid;
  }

  -- The loop over the tasks, with `uniqueWorkerID`: the rows of the map of workers, and the actions.
  unfoldable pub tasks_of :
      String
      → String
      → List Template.Task
      → List (String × String)
      → Outcome DbError (List (String × String) × List WorkflowAction)
  unfolding action_of add_worker
  tasks_of id unique [] workers = ok (workers, [])
  tasks_of id unique (task ∷ rest) workers = do
    found ← k.worker_id task.worker_addr
    worker ← or_fail (k.parse_uuid found) (wrapped "" "invalid UUID")
    if str_eq unique worker
        then none
        else fault (k.on_worker worker) "INSERT in to workflow_worker_map"
    r ←
        tasks_of id worker rest
          (if str_eq unique worker then workers else add_worker id worker workers)
    ok (r.0, map (action_of task worker) task.actions ++ r.1)

  abbrev pub new_state : String → List WorkflowAction → StateRow
  new_state id actions = record {
    workflow_id = id;
    current_worker = "";
    current_task_name = "";
    current_action_name = "";
    current_action_state = pending;
    action_list = actions;
    current_action_index = 0;
    total_number_of_actions = length actions;
  }

  unfoldable pub insert_action_list : String → String → Tables → Outcome DbError Tables
  unfolding tasks_of put_state
  insert_action_list yaml id t = do
    wf ← k.parse yaml
    r ← tasks_of id no_uuid wf.tasks t.workflow_worker_map
    fault k.on_state "INSERT in to workflow_state"
    ok (record t {
      workflow_worker_map = r.0;
      workflow_state = put_state (new_state id r.1) t.workflow_state;
    })

  unfoldable pub create_workflow :
      String → String → String → String → ℤ → Tables → Outcome DbError Tables
  unfolding insert_action_list put_workflow
  create_workflow id template devices yaml now t = do
    fault k.on_begin "BEGIN transaction"
    t' ← insert_action_list yaml id t
    fault k.on_workflow "INSERT in to workflow"
    template' ←
        or_fail (k.casts.uuid template) (wrapped "INSERT in to workflow" "invalid input syntax")
    devices' ←
        or_fail (k.casts.jsonb devices) (wrapped "INSERT in to workflow" "invalid input syntax")
    fault k.on_commit "COMMIT"
    ok (record t' { workflow = put_workflow id template' devices' now t'.workflow })
