-- ===== src/Proto.antt =====
-- protos/workflow/workflow.pb.go: the messages of the workflow service. Indices and counts (int64)
-- are numbers, which the program starts at 0 and only adds to; seconds are integers.
pub mod Hardware
pub mod Template
use tink.Prelude.{ℕ, String, List}
use tink.Prelude.Int.{ℤ}

-- An enum of proto3 is open: `unrecognized n` is a wire value n outside the five.
pub data State : Type 0 where
  pending running failed timeout success : State
  unrecognized : ℕ → State

-- v1alpha1.WorkflowState, a string type, with its five constants. `blank` is the empty string, the
-- only other value that the program writes.
pub data WorkflowState : Type 0 where
  state_pending state_running state_failed state_timeout state_success blank : WorkflowState

-- State_name, which has no entry for other values
abbrev pub state_name : State → WorkflowState
state_name pending = state_pending
state_name running = state_running
state_name failed = state_failed
state_name timeout = state_timeout
state_name success = state_success
state_name (unrecognized n) = blank

-- State_value, whose default is 0
abbrev pub state_value : WorkflowState → State
state_value state_pending = pending
state_value state_running = running
state_value state_failed = failed
state_value state_timeout = timeout
state_value state_success = success
state_value blank = pending

pub record WorkflowContext : Type 0 where
  pub workflow_id : String
  pub current_worker : String
  pub current_task : String
  pub current_action : String
  pub current_action_index : ℕ
  pub current_action_state : State
  pub total_number_of_actions : ℕ

pub record WorkflowActionStatus : Type 0 where
  pub workflow_id : String
  pub task_name : String
  pub action_name : String
  pub action_status : State
  pub seconds : ℤ
  pub message : String
  pub worker_id : String

pub record WorkflowAction : Type 0 where
  pub task_name : String
  pub name : String
  pub image : String
  pub timeout : ℤ
  pub command : List String
  pub on_timeout : List String
  pub on_failure : List String
  pub worker_id : String
  pub volumes : List String
  pub environment : List String
  pub pid : String

-- The codes and messages of the gRPC errors that the handlers return; `plain` is an error that is
-- passed on as it came.
pub data Error : Type 0 where
  invalid_argument failed_precondition aborted not_found plain : String → Error
