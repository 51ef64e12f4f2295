-- ===== src/Kube/Handlers/Contexts.antt =====
-- What `GetWorkflowContexts` sends.
use tink.Prelude.{
  ◌<◌, ◌≡◌, ◌≢◌, refl, String, Bool, true, false, none, some, List, [], ◌∷◌, map, arith, length,
  length-append, get_elem?, get_elem?-lt, All, str_eq, eq_iff, not, if◌then◌else◌, inl, inr, ap,
}
use tink.Prelude.Names.{contains}
use tink.Prelude.Outcome.{ok}
use tink.V1alpha1.Types.{Task, Workflow}
use tink.V1alpha1.Methods.{TaskInfo, get_task_action_info}
use tink.V1alpha1.Methods.Current.{get_task_action_info-cases}
use tink.Controllers.Index.{is_active, worker_addrs, workflow_worker_non_terminal_state_index}
use tink.Kube.Context.{get_workflow_context}
use tink.Kube.Handlers.{Client, assigned_to, send_all, get_workflow_contexts}

-- The workflow has the worker in the index that the list is made by.
abbrev pub IsListed : String → Workflow → Type 0
IsListed worker_id wf = contains (workflow_worker_non_terminal_state_index wf) worker_id ≡ true

listed_task :
    (worker_id : String) (active : Bool) (ts : List Task)
    → contains (if not active then [] else worker_addrs ts) worker_id ≡ true
    → 0 < length ts
unfolding worker_addrs contains
listed_task worker_id true [] h = cc
listed_task worker_id false [] h = cc
listed_task worker_id active (t ∷ ts) h = omega arith

has_task : (worker_id : String) (wf : Workflow) → IsListed worker_id wf → 0 < length wf.status.tasks
unfolding workflow_worker_non_terminal_state_index contains
has_task worker_id wf h = listed_task worker_id (is_active wf.status.state) wf.status.tasks h

-- The index of the current task is in range where there is a task.
current_task_index-lt :
    (wf : Workflow)
    → 0 < length wf.status.tasks
    → (get_task_action_info wf).current_task_index < length wf.status.tasks
current_task_index-lt wf h = elim (get_task_action_info-cases wf) [
  | inl (all, e) ↦ omega (arith, ap (λ (i : TaskInfo). i.current_task_index) e)
  | inr (p, c, e) ↦ omega (
    arith,
    ap (λ (i : TaskInfo). i.current_task_index) e,
    ap length c.tasks_split,
    length-append p.tasks_before (p.task ∷ p.tasks_after),
  )
]

-- The current task of the workflow is the worker's.
unfoldable pub is_assigned : String → Workflow → Bool
is_assigned worker_id wf =
    elim (get_elem? wf.status.tasks (get_task_action_info wf).current_task_index) [
      | none ↦ false
      | some t ↦ str_eq t.worker_addr worker_id
    ]

unfoldable pub select : (Workflow → Bool) → List Workflow → List Workflow
select test [] = []
select test (wf ∷ rest) = let more = select test rest in if test wf then wf ∷ more else more

module _ {Cluster : Type 0} (k : Client Cluster) where
  assigned_to-select :
      (worker_id : String) (wfs : List Workflow)
      → All (IsListed worker_id) wfs
      → assigned_to k worker_id wfs ≡ ok (select (is_assigned worker_id) wfs)
  unfolding assigned_to select is_assigned
  assigned_to-select worker_id [] h = refl
  assigned_to-select worker_id (wf ∷ rest) h =
      let (t, e) =
        get_elem?-lt wf.status.tasks (get_task_action_info wf).current_task_index
          (current_task_index-lt wf (has_task worker_id wf h.0)) in
      ground (arith, e, assigned_to-select worker_id rest h.1)

  send_all-map :
      (wfs : List Workflow) → send_all k (λ _. none) wfs ≡ (map get_workflow_context wfs, none)
  unfolding send_all
  send_all-map [] = refl
  send_all-map (wf ∷ rest) = ground (arith, send_all-map rest)

  -- For a worker with an id, when the list holds only workflows that have the worker in the index and
  -- the stream takes all, the handler does not panic, and it sends the context of exactly the listed
  -- workflows whose current task is the worker's, in order.
  pub get_workflow_contexts-select :
      (c : Cluster) (worker_id : String) (wfs : List Workflow)
      → worker_id ≢ ""
      → k.list_by_worker c worker_id ≡ ok wfs
      → All (IsListed worker_id) wfs
      → get_workflow_contexts k (λ _. none) c worker_id
        ≡ ok (map get_workflow_context (select (is_assigned worker_id) wfs), none)
  unfolding get_workflow_contexts
  get_workflow_contexts-select c worker_id wfs n l h = ground (
    arith,
    eq_iff worker_id "",
    assigned_to-select worker_id wfs h,
    send_all-map (select (is_assigned worker_id) wfs),
  )
