-- ===== src/Template/Types.antt =====
-- workflow/types.go: the workflow template as it is read from YAML. A Go map is the list of its
-- entries; `int` and `int64` are integers.
use tink.Prelude.{String, List}
use tink.Prelude.Int.{ℤ}

-- Action
pub record Action : Type 0 where
  pub name : String
  pub image : String
  pub timeout : ℤ
  pub command : List String
  pub on_timeout : List String
  pub on_failure : List String
  pub volumes : List String
  pub environment : List (String × String)
  pub pid : String

-- Task
pub record Task : Type 0 where
  pub name : String
  pub worker_addr : String
  pub actions : List Action
  pub volumes : List String
  pub environment : List (String × String)

-- Workflow
pub record Workflow : Type 0 where
  pub version : String
  pub name : String
  pub id : String
  pub global_timeout : ℤ
  pub tasks : List Task
