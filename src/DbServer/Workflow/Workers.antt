-- ===== src/DbServer/Workflow/Workers.antt =====
-- The workers of a created workflow: `insertActionList` with `getWorkerID` over the hardware table.
use tink.Prelude.{◌≡◌, String, true, some, List, In}
use tink.Prelude.Outcome.{Outcome, ok}
use tink.Proto.{WorkflowAction}
use tink.Template.Types as Template
use tink.Db.Tables.{Tables, Faults, DbError}
use tink.Db.Create.{Creation}
use tink.Db.Hardware.{HardwareRow, Jsonb, Net, is_live, get_worker_id}

-- The creation of workflows for the machines of a table.
abbrev pub with_machines : Jsonb → Faults → Net → List HardwareRow → Creation → Creation
with_machines k f n rows c = record c { worker_id = λ addr. get_worker_id k f n addr rows }

-- A live machine whose id is the worker of the action.
pub record IsAssigned (c : Creation) (rows : List HardwareRow) (a : WorkflowAction) : Type 0 where
  pub row : HardwareRow
  pub id : String
  pub there : In row rows
  pub live : is_live row.deleted_at ≡ true
  pub identified : row.id ≡ some id
  pub worker : c.parse_uuid id ≡ some a.worker_id

abbrev Found : List HardwareRow → Outcome DbError HardwareRow → Type 0
Found rows o = (r : HardwareRow) → o ≡ ok r → In r rows × (is_live r.deleted_at ≡ true)

-- A live row of the table whose id is the given one.
abbrev Named : List HardwareRow → String → Type 0
Named rows id = (r : HardwareRow) × In r rows × (is_live r.deleted_at ≡ true) × (r.id ≡ some id)

-- Each action has a worker that is a machine of the table.
abbrev pub AllAssigned : Creation → List HardwareRow → List WorkflowAction → Type 0
AllAssigned c rows actions = (a : WorkflowAction) → In a actions → IsAssigned c rows a

-- A creation that asks the table for its workers.
abbrev pub AsksTable : Creation → List HardwareRow → Type 0
AsksTable c rows = (addr id : String) → c.worker_id addr ≡ ok id → Named rows id
