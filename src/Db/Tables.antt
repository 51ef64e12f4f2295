-- ===== src/Db/Tables.antt =====
-- The tables of db/migration that the workflow operations use, as lists of rows, and the ways in
-- which a statement can fail. The SQL of db/workflow.go is written out as functions on the rows.
use tink.Prelude.{ℕ, String, Option, none, some, List}
use tink.Prelude.Int.{ℤ}
use tink.Proto.{State, WorkflowAction}

-- workflow_state; the JSON of the action list is the list itself
pub record StateRow : Type 0 where
  pub workflow_id : String
  pub current_worker : String
  pub current_task_name : String
  pub current_action_name : String
  pub current_action_state : State
  pub action_list : List WorkflowAction
  pub current_action_index : ℕ
  pub total_number_of_actions : ℕ

-- workflow_data; `data` is NULL where the version was cleaned
pub record DataRow : Type 0 where
  pub workflow_id : String
  pub version : ℕ
  pub metadata : String
  pub content : Option String

-- workflow_event
pub record EventRow : Type 0 where
  pub workflow_id : String
  pub worker_id : String
  pub task_name : String
  pub action_name : String
  pub execution_time : ℤ
  pub message : String
  pub status : State
  pub created_at : ℤ

-- workflow
pub record WorkflowRow : Type 0 where
  pub id : String
  pub template : String
  pub devices : String
  pub created_at : ℤ
  pub updated_at : ℤ
  pub deleted_at : Option ℤ

-- What the columns of the types uuid and jsonb give back for a text, or none for one they do not take.
pub record Casts : Type 0 where
  pub uuid : String → Option String
  pub jsonb : String → Option String

pub record Tables : Type 0 where
  pub workflow : List WorkflowRow
  pub workflow_state : List StateRow
  pub workflow_data : List DataRow
  pub workflow_event : List EventRow
  pub workflow_worker_map : List (String × String)

-- The calls of database/sql.
pub data Call : Type 0 where
  begin commit select insert update delete : Call

-- What the database answers to each call of an operation: an error, or nothing.
abbrev pub Faults : Type 0
Faults = Call → Option String

-- The error of a failing call, wrapped by the operation, and the errors that the operations make.
pub data DbError : Type 0 where
  wrapped : String → String → DbError
  no_workflow : String → DbError
  bad_input : String → DbError
  -- sql.ErrNoRows
  no_rows : DbError
  -- a NotFound status, with the id
  not_found : String → DbError
  -- no machine has the address
  no_worker : String → DbError

abbrev pub try : Faults → Call → String → Option DbError
try f c message = elim (f c) [ none ↦ none | some cause ↦ some (wrapped message cause) ]
