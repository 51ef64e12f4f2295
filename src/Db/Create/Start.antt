-- ===== src/Db/Create/Start.antt =====
-- What the creation of a workflow leaves in the tables.
use tink.Prelude.{
  ◌≡◌, refl, String, some, List, [], ◌∷◌, map, arith, length, length-append, length-map, str_eq,
  eq_iff, eq_refl, if◌then◌else◌, Option-cases, inl, inr, Bool-cases,
}
use mathlib.Core.Path.{subst}
use tink.Prelude.Int.{ℤ}
use tink.Prelude.Outcome.{ok, Outcome-cases}
use tink.Proto.{WorkflowAction}
use tink.Template.Types as Template
use tink.Convert.Status.{template_actions}
use tink.Db.Tables.{Tables, StateRow}
use tink.Db.State.{find_state}
use tink.DbServer.Worker.Report.{IsConsistent, AllConsistent}
use tink.Db.Create.{
  Creation, action_of, add_worker, tasks_of, new_state, put_state, insert_action_list,
  create_workflow, no_uuid,
}

pub find_state-put :
    (row : StateRow) (id : String) (rows : List StateRow)
    → find_state id (put_state row rows)
      ≡ (if str_eq row.workflow_id id then some row else find_state id rows)
unfolding find_state put_state
find_state-put row id [] = ground arith
find_state-put row id (r ∷ rows) = ground (
  arith,
  eq_iff r.workflow_id row.workflow_id,
  eq_iff r.workflow_id id,
  eq_iff row.workflow_id id,
  find_state-put row id rows,
)

module _ (k : Creation) where
  tasks_of-length :
      (id unique : String) (ts : List Template.Task) (workers : List (String × String))
      (r : List (String × String) × List WorkflowAction)
      → tasks_of k id unique ts workers ≡ ok r
      → length r.1 ≡ template_actions ts
  unfolding tasks_of
  tasks_of-length id unique [] workers r h = ground arith
  tasks_of-length id unique (t ∷ ts) workers r h =
      elim (Outcome-cases (k.worker_id t.worker_addr)) [
        | inr (inl (x, p)) ↦ absurd (ground arith)
        | inr (inr p) ↦ absurd (ground arith)
        | inl (found, p) ↦ elim (Option-cases (k.parse_uuid found)) [
          | inl q ↦ absurd (ground arith)
          | inr (w, q) ↦
              let more = if str_eq unique w then workers else add_worker id w workers in
              elim (Outcome-cases (tasks_of k id w ts more)) [
                | inr (inl (x, s)) ↦ absurd (ground arith)
                | inr (inr s) ↦ absurd (ground arith)
                | inl (r', s) ↦ ground (
                  arith,
                  tasks_of-length id w ts more r' s,
                  length-append (map (action_of k t w) t.actions) r'.1,
                  length-map t.actions (action_of k t w),
                )
              ]
        ]
      ]

  -- what a creation without an error has read and stored
  pub record IsCreated (t t' : Tables) (id yaml : String) : Type 0 where
    pub template : Template.Workflow
    pub actions : List WorkflowAction
    pub parsed : k.parse yaml ≡ ok template
    pub workers : List (String × String)
    pub built : tasks_of k id no_uuid template.tasks t.workflow_worker_map ≡ ok (workers, actions)
    pub counted : length actions ≡ template_actions template.tasks
    pub stored : t'.workflow_state ≡ put_state (new_state k id actions) t.workflow_state

  pub create_workflow-IsCreated :
      (id template devices yaml : String) (now : ℤ) (t t' : Tables)
      → create_workflow k id template devices yaml now t ≡ ok t'
      → IsCreated t t' id yaml
  unfolding create_workflow insert_action_list
  create_workflow-IsCreated id template devices yaml now t t' h =
      elim (Outcome-cases (k.parse yaml)) [
        | inr (inl (x, p)) ↦ absurd (ground arith)
        | inr (inr p) ↦ absurd (ground arith)
        | inl (wf, p) ↦
            elim (Outcome-cases (tasks_of k id no_uuid wf.tasks t.workflow_worker_map)) [
              | inr (inl (x, q)) ↦ absurd (ground arith)
              | inr (inr q) ↦ absurd (ground arith)
              | inl (r, q) ↦ record {
                template = wf;
                actions = r.1;
                parsed = p;
                workers = r.0;
                built = q;
                counted = tasks_of-length id no_uuid wf.tasks t.workflow_worker_map r q;
                stored = ground arith;
              }
            ]
      ]

  new_state-IsConsistent :
      (id : String) (actions : List WorkflowAction) → IsConsistent (new_state k id actions)
  new_state-IsConsistent id actions = record {
    counted = refl;
    starts = λ e. refl;
    names = λ n. absurd (n refl);
  }

  created-IsConsistent :
      (t : Tables) (id : String) (actions : List WorkflowAction)
      → AllConsistent t
      → (other : String) (r : StateRow)
      → find_state other (put_state (new_state k id actions) t.workflow_state) ≡ some r
      → IsConsistent r
  created-IsConsistent t id actions all other r h = elim (Bool-cases (str_eq id other)) [
    | inl e ↦
        let same : new_state k id actions ≡ r =
          ground (arith, find_state-put (new_state k id actions) other t.workflow_state) in
        subst IsConsistent same (new_state-IsConsistent id actions)
    | inr e ↦
        all other r (ground (arith, find_state-put (new_state k id actions) other t.workflow_state))
  ]

  -- Creating a workflow without an error keeps every row consistent, and leaves the workflow a row
  -- with no current action, at index 0, whose total and list have one entry for each action of the
  -- template.
  pub create_workflow-AllConsistent :
      (id template devices yaml : String) (now : ℤ) (t t' : Tables)
      → create_workflow k id template devices yaml now t ≡ ok t'
      → AllConsistent t
      → AllConsistent t'
        × ((wf : Template.Workflow) × (actions : List WorkflowAction) × (k.parse yaml ≡ ok wf)
            × (length actions ≡ template_actions wf.tasks)
            × (find_state id t'.workflow_state ≡ some (new_state k id actions)))
  create_workflow-AllConsistent id template devices yaml now t t' h all =
      let x = create_workflow-IsCreated id template devices yaml now t t' h in
      (
        λ other r g.
            created-IsConsistent t id x.actions all other r
              (subst (λ rows. find_state other rows ≡ some r) x.stored g),
        (
          x.template,
          x.actions,
          x.parsed,
          x.counted,
          ground (
            arith,
            x.stored,
            eq_refl id,
            find_state-put (new_state k id x.actions) id t.workflow_state,
          ),
        ),
      )
