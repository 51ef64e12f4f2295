-- ===== src/V1alpha1/Types.antt =====
-- pkg/apis/core/v1alpha1/workflow_types.go. A time is its distance in nanoseconds from a fixed
-- instant; a `*metav1.Time` is an option.
use tink.Prelude.{String, Option, List}
use tink.Prelude.Int.{ℤ}
use tink.Proto.{WorkflowState}

pub record Action : Type 0 where
  pub name : String
  pub image : String
  pub timeout : ℤ
  pub command : List String
  pub volumes : List String
  pub pid : String
  pub environment : List (String × String)
  pub status : WorkflowState
  pub started_at : Option ℤ
  pub seconds : ℤ
  pub message : String

pub record Task : Type 0 where
  pub name : String
  pub worker_addr : String
  pub actions : List Action
  pub volumes : List String
  pub environment : List (String × String)

pub record WorkflowStatus : Type 0 where
  pub state : WorkflowState
  pub global_timeout : ℤ
  pub tasks : List Task

pub record WorkflowSpec : Type 0 where
  pub template_ref : String
  pub hardware_ref : String
  pub hardware_map : List (String × String)

-- Of the metadata: the name, the namespace, the annotations and the two timestamps.
pub record Workflow : Type 0 where
  pub name : String
  pub namespace : String
  pub annotations : List (String × String)
  pub creation_timestamp : ℤ
  pub deletion_timestamp : Option ℤ
  pub spec : WorkflowSpec
  pub status : WorkflowStatus
