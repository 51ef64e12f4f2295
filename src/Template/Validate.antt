-- ===== src/Template/Validate.antt =====
-- workflow/template_validator.go: `validate` and its helpers. The image reference parser of
-- github.com/docker/distribution is the parameter `is_reference`.
pub mod Correct
use Prim.Native.String.{len}
use tink.Prelude.{
  String, Bool, true, false, not, Option, none, some, List, [], ◌∷◌, str_eq, ltb, if◌then◌else◌,
}
use tink.Prelude.Names.{contains}
use tink.Template.Types.{Action, Task, Workflow}

-- the errors that `validate` returns, one for each message
pub data Problem : Type 0 where
  empty_name no_tasks : Problem
  invalid_length invalid_version invalid_image duplicate_task duplicate_action : String → Problem

unfoldable pub has_empty_name : String → Bool
has_empty_name name = str_eq name ""

-- `len` counts bytes
unfoldable pub has_valid_length : String → Bool
has_valid_length name = ltb (len name) 200

-- `return` out of the inner loop, or go on
abbrev pub or_else : Option Problem → Option Problem → Option Problem
or_else none later = later
or_else (some e) later = some e

abbrev pub is_empty : List Task → Bool
is_empty [] = true
is_empty (t ∷ ts) = false

module _ (is_reference : String → Bool) where
  unfoldable pub has_valid_image_name : String → Bool
  has_valid_image_name name = is_reference name

  -- the inner loop; `seen` is `actionNameMap`
  unfoldable pub validate_actions : List String → List Action → Option Problem
  unfolding has_empty_name has_valid_length has_valid_image_name
  validate_actions seen [] = none
  validate_actions seen (action ∷ rest) =
      let later = validate_actions (action.name ∷ seen) rest in
      if has_empty_name action.name
      then some empty_name
      else if not (has_valid_length action.name)
      then some (invalid_length action.name)
      else if not (has_valid_image_name action.image)
      then some (invalid_image action.image)
      else if contains seen action.name
      then some (duplicate_action action.name)
      else later

  -- the outer loop; `seen` is `taskNameMap`
  unfoldable pub validate_tasks : List String → List Task → Option Problem
  unfolding has_empty_name has_valid_length
  validate_tasks seen [] = none
  validate_tasks seen (task ∷ rest) =
      let later = validate_tasks (task.name ∷ seen) rest in
      if has_empty_name task.name
      then some empty_name
      else if not (has_valid_length task.name)
      then some (invalid_length task.name)
      else if contains seen task.name
      then some (duplicate_task task.name)
      else or_else (validate_actions [] task.actions) later

  unfoldable pub validate : Workflow → Option Problem
  unfolding has_empty_name has_valid_length
  validate wf =
      if has_empty_name wf.name
      then some empty_name
      else if not (has_valid_length wf.name)
      then some (invalid_length wf.name)
      else if not (str_eq wf.version "0.1")
      then some (invalid_version wf.version)
      else if is_empty wf.tasks
      then some no_tasks
      else validate_tasks [] wf.tasks
