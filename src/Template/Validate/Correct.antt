-- ===== src/Template/Validate/Correct.antt =====
-- What an accepted template satisfies, and that every such template is accepted.
use Prim.Native.String.{len}
use mathlib.Core.List.{Nodup}
use tink.Prelude.{
  String, ◌<◌, ◌≡◌, ◌≢◌, refl, ◌↔◌, Bool, true, none, List, [], ◌∷◌, map, arith, All, eq_iff,
}
use tink.Prelude.Names.{contains-false_iff, Fresh, Fresh-iff}
use tink.Template.Types.{Action, Task, Workflow}
use tink.Template.Validate.{validate_actions, validate_tasks, validate}

-- A name is not empty and has fewer than 200 bytes.
abbrev pub IsName : String → Type 0
IsName n = (n ≢ "") × (len n < 200)

abbrev pub action_names : List Action → List String
action_names = map (λ (a : Action). a.name)

abbrev pub task_names : List Task → List String
task_names = map (λ (t : Task). t.name)

module _ (is_reference : String → Bool) where
  abbrev pub IsAction : Action → Type 0
  IsAction a = IsName a.name × (is_reference a.image ≡ true)

  abbrev pub IsTask : Task → Type 0
  IsTask t = IsName t.name × All IsAction t.actions × Nodup (action_names t.actions)

  -- What a template has to be; names are shorter than 200 bytes.
  pub record IsTemplate (wf : Workflow) : Type 0 where
    pub named : IsName wf.name
    pub versioned : wf.version ≡ "0.1"
    pub has_task : wf.tasks ≢ []
    pub tasks_valid : All IsTask wf.tasks
    pub tasks_distinct : Nodup (task_names wf.tasks)

  actions→ :
      (seen : List String) (acts : List Action)
      → validate_actions is_reference seen acts ≡ none
      → All IsAction acts × Fresh seen (action_names acts)
  unfolding validate_actions
  actions→ seen [] h = (tt, tt)
  actions→ seen (a ∷ rest) h =
      ground
        (arith, eq_iff a.name "", contains-false_iff seen a.name, actions→ (a.name ∷ seen) rest)

  actions← :
      (seen : List String) (acts : List Action)
      → All IsAction acts
      → Fresh seen (action_names acts)
      → validate_actions is_reference seen acts ≡ none
  unfolding validate_actions
  actions← seen [] h f = refl
  actions← seen (a ∷ rest) h f =
      ground
        (arith, eq_iff a.name "", contains-false_iff seen a.name, actions← (a.name ∷ seen) rest)

  tasks→ :
      (seen : List String) (ts : List Task)
      → validate_tasks is_reference seen ts ≡ none
      → All IsTask ts × Fresh seen (task_names ts)
  unfolding validate_tasks
  tasks→ seen [] h = (tt, tt)
  tasks→ seen (t ∷ rest) h = ground (
    arith,
    eq_iff t.name "",
    contains-false_iff seen t.name,
    actions→ [] t.actions,
    Fresh-iff (action_names t.actions),
    tasks→ (t.name ∷ seen) rest,
  )

  tasks← :
      (seen : List String) (ts : List Task)
      → All IsTask ts
      → Fresh seen (task_names ts)
      → validate_tasks is_reference seen ts ≡ none
  unfolding validate_tasks
  tasks← seen [] h f = refl
  tasks← seen (t ∷ rest) h f = ground (
    arith,
    eq_iff t.name "",
    contains-false_iff seen t.name,
    actions← [] t.actions h.0.1,
    Fresh-iff (action_names t.actions),
    tasks← (t.name ∷ seen) rest,
  )

  IsTemplate-of_validate : (wf : Workflow) → validate is_reference wf ≡ none → IsTemplate wf
  unfolding validate
  IsTemplate-of_validate wf h = ground (
    arith,
    eq_iff wf.name "",
    eq_iff wf.version "0.1",
    tasks→ [] wf.tasks,
    Fresh-iff (task_names wf.tasks),
  )

  validate-of_IsTemplate : (wf : Workflow) → IsTemplate wf → validate is_reference wf ≡ none
  unfolding validate
  validate-of_IsTemplate wf h = ground (
    arith,
    eq_iff wf.name "",
    eq_iff wf.version "0.1",
    tasks← [] wf.tasks,
    Fresh-iff (task_names wf.tasks),
  )

  -- `validate` accepts a template exactly when its name and those of its tasks and actions are not
  -- empty and shorter than 200 bytes, its version is 0.1, it has a task, no two tasks and no two
  -- actions of one task share a name, and every image is a valid reference. The message of the check
  -- of lengths allows 200 characters, which are one byte too many.
  pub validate-IsTemplate : (wf : Workflow) → (validate is_reference wf ≡ none) ↔ IsTemplate wf
  validate-IsTemplate wf = (IsTemplate-of_validate wf, validate-of_IsTemplate wf)
