-- ===== src/Kube/Modify/Search.antt =====
-- Where the search for the reported action ends.
use tink.Prelude.{
  ℕ, suc, ◌+◌, ◌≡◌, ◌≢◌, refl, Option, none, some, List, [], ◌∷◌, ◌++◌, arith, length, append-nil,
  All, eq_iff,
}
use tink.Proto.{WorkflowContext}
use tink.V1alpha1.Types.{Action, Task}
use tink.Kube.Modify.{find_action, find_task}

find_action-hit :
    (ctx : WorkflowContext) (ai : ℕ) (pre : List Action) (a : Action) (post : List Action)
    → ctx.current_action ≡ a.name
    → ctx.current_action_index ≡ ai + length pre
    → find_action ctx ai (pre ++ a ∷ post) ≡ some (ai + length pre)
unfolding find_action
find_action-hit ctx ai [] a post n i = ground (arith, eq_iff a.name ctx.current_action)
find_action-hit ctx ai (b ∷ pre) a post n i =
    ground (arith, eq_iff b.name ctx.current_action, find_action-hit ctx (suc ai) pre a post)

abbrev pub NameNe : WorkflowContext → Action → Type 0
NameNe ctx a = a.name ≢ ctx.current_action

find_action-none :
    (ctx : WorkflowContext) (ai : ℕ) (acts : List Action)
    → All (NameNe ctx) acts
    → find_action ctx ai acts ≡ none
unfolding find_action
find_action-none ctx ai [] h = refl
find_action-none ctx ai (b ∷ acts) h =
    ground (arith, eq_iff b.name ctx.current_action, find_action-none ctx (suc ai) acts)

find_action-miss :
    (ctx : WorkflowContext) (ai : ℕ) (pre : List Action) (a : Action) (post : List Action)
    → All (NameNe ctx) pre
    → All (NameNe ctx) post
    → ctx.current_action_index ≢ ai + length pre
    → find_action ctx ai (pre ++ a ∷ post) ≡ none
unfolding find_action
find_action-miss ctx ai [] a post h k i =
    ground (arith, eq_iff a.name ctx.current_action, find_action-none ctx (suc ai) post)
find_action-miss ctx ai (b ∷ pre) a post h k i =
    ground (arith, eq_iff b.name ctx.current_action, find_action-miss ctx (suc ai) pre a post)

abbrev pub TaskNe : WorkflowContext → Task → Type 0
TaskNe ctx t = t.name ≢ ctx.current_task

find_task-skip :
    (ctx : WorkflowContext) (ti : ℕ) (o : Option ℕ) (ts rest : List Task)
    → All (TaskNe ctx) ts
    → find_task ctx ti o (ts ++ rest) ≡ find_task ctx (ti + length ts) o rest
unfolding find_task
find_task-skip ctx ti o [] rest h = ground arith
find_task-skip ctx ti o (t ∷ ts) rest h =
    ground (arith, eq_iff ctx.current_task t.name, find_task-skip ctx (suc ti) o ts rest)

-- The search finds the action that has the reported name and stands at the reported index of the
-- first task that has the reported name.
pub find_task-hit :
    (ctx : WorkflowContext) (ts : List Task) (t : Task) (us : List Task) (pre : List Action)
    (a : Action) (post : List Action)
    → All (TaskNe ctx) ts
    → ctx.current_task ≡ t.name
    → t.actions ≡ pre ++ a ∷ post
    → ctx.current_action ≡ a.name
    → ctx.current_action_index ≡ length pre
    → find_task ctx 0 none (ts ++ t ∷ us) ≡ (some (length ts), some (length pre))
unfolding find_task
find_task-hit ctx ts t us pre a post h n e m i = ground (
  arith,
  find_task-skip ctx 0 none ts (t ∷ us) h,
  eq_iff ctx.current_task t.name,
  find_action-hit ctx 0 pre a post m,
)

-- Where the names are distinct and the action stands at another index, no action is found.
pub find_task-miss :
    (ctx : WorkflowContext) (ts : List Task) (t : Task) (us : List Task) (pre : List Action)
    (a : Action) (post : List Action)
    → All (TaskNe ctx) ts
    → All (TaskNe ctx) us
    → ctx.current_task ≡ t.name
    → t.actions ≡ pre ++ a ∷ post
    → All (NameNe ctx) pre
    → All (NameNe ctx) post
    → ctx.current_action_index ≢ length pre
    → find_task ctx 0 none (ts ++ t ∷ us) ≡ (some (length ts), none)
unfolding find_task
find_task-miss ctx ts t us pre a post h k n e np nq i = ground (
  arith,
  append-nil us,
  find_task-skip ctx 0 none ts (t ∷ us) h,
  find_task-skip ctx (suc (length ts)) (some (length ts)) us [] k,
  eq_iff ctx.current_task t.name,
  find_action-miss ctx 0 pre a post,
)
