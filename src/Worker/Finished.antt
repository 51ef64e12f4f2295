-- ===== src/Worker/Finished.antt =====
-- A worker that has all the actions of a workflow finishes it.
use tink.Prelude.{
  ℕ, suc, ◌≡◌, ◌≢◌, refl, sym, ap, ◌∙◌, String, false, some, List, [], ◌∷◌, ◌++◌, arith, length,
  length-append, get_elem?, get_elem?-middle, append_assoc, All, eq_iff,
}
use tink.Prelude.Int.{ℤ}
use tink.Proto.{pending, success, WorkflowAction}
use tink.Db.Tables.{Tables, StateRow}
use tink.Db.State.{find_state}
use tink.Prelude.Outcome.{ok}
use tink.DbServer.Worker.{next_index}
use tink.DbServer.Worker.Report.{row_context}
use tink.Worker.{
  DataSteps, is_running, turn, from_index, process_context, Ran, finished, run_actions,
}
use tink.Worker.Reporting.{moved_row}
use tink.Worker.Complete.{
  World, call_in, IsQuiet, IsNamed, IsGood, IsReady, following_index, run_action-good,
  run_actions-next,
}

at_length :
    (actions before : List WorkflowAction) (a : WorkflowAction) (more : List WorkflowAction) (i : ℕ)
    → actions ≡ before ++ a ∷ more
    → i ≡ length before
    → get_elem? actions i ≡ some a
at_length actions before a more i e n = ground (arith, e, n, get_elem?-middle before a more)

-- What the table says of a workflow that is done.
pub record IsDone (t : Tables) (wf : String) (actions : List WorkflowAction) : Type 0 where
  pub row : StateRow
  pub stored : find_state wf t.workflow_state ≡ some row
  pub kept : row.action_list ≡ actions
  pub succeeded : row.current_action_state ≡ success
  pub at_end : suc row.current_action_index ≡ length actions

module _ (now : ℤ) (retries : ℕ) (k : DataSteps World) (quiet : IsQuiet k) (wf worker : String)
    (exec : ℕ → WorkflowAction → Ran) (named : wf ≢ "")
    (good : (i : ℕ) (a : WorkflowAction) → IsGood (exec i a)) where
  next-IsReady :
      (t : Tables) (r : StateRow) (i : ℕ) (a : WorkflowAction)
      → IsNamed a
      → r.total_number_of_actions ≡ length r.action_list
      → find_state wf t.workflow_state ≡ some (moved_row r a success i)
      → IsReady t wf (moved_row r a success i) (suc i)
  next-IsReady t r i a x c f = record {
    row = f;
    next = following_index r a i success x.named;
    counted = c;
  }

  run_actions-IsDone_from :
      (w : World) (r : StateRow) (i : ℕ) (before : List WorkflowAction) (a : WorkflowAction)
      (more : List WorkflowAction)
      → IsReady w.0 wf r i
      → r.action_list ≡ before ++ a ∷ more
      → i ≡ length before
      → All IsNamed (a ∷ more)
      → All (λ (b : WorkflowAction). b.worker_id ≡ worker) more
      → (w' : World) × (run_actions
            (call_in now)
            k
            (suc retries)
            false
            wf
            worker
            exec
            i
            (a ∷ more)
            w
          ≡ (w', finished))
        × IsDone w'.0 wf r.action_list
  unfolding run_actions
  run_actions-IsDone_from w r i before a [] h e n x v =
      let g = at_length r.action_list before a [] i e n in
      let (w', runs, row) =
        run_action-good now retries k wf w r i a (exec i a) named quiet x.0 (good i a) h g in
      (
        w',
        ground (arith, runs),
        record {
          row = moved_row r a success i;
          stored = row;
          kept = refl;
          succeeded = refl;
          at_end = ground (arith, e, n, length-append before (a ∷ []));
        },
      )
  run_actions-IsDone_from w r i before a (b ∷ more) h e n x v =
      let g = at_length r.action_list before a (b ∷ more) i e n in
      let (w1, first, row) =
        run_action-good now retries k wf w r i a (exec i a) named quiet x.0 (good i a) h g in
      let (w', runs, done) =
        run_actions-IsDone_from w1 (moved_row r a success i) (suc i) (before ++ a ∷ []) b more
          (next-IsReady w1.0 r i a x.0 h.counted row)
          (e ∙ sym (append_assoc before (a ∷ []) (b ∷ more)))
          (ground (arith, n, length-append before (a ∷ []))) x.1 v.1 in
      (
        w',
        run_actions-next now retries k false wf worker exec i a b more w w1 (w', finished) first v.0
            runs,
        done,
      )

  first_turn :
      (r : StateRow) (a : WorkflowAction) (more : List WorkflowAction)
      → r.current_action_name ≡ ""
      → a.worker_id ≡ worker
      → turn (a ∷ more) (row_context wf r) worker ≡ ok (some 0)
  unfolding turn
  first_turn r a more e v =
      ground (arith, eq_iff r.current_action_name "", eq_iff a.worker_id worker)

  first-IsReady :
      (t : Tables) (r : StateRow)
      → find_state wf t.workflow_state ≡ some r
      → r.current_action_name ≡ ""
      → r.current_action_index ≡ 0
      → r.total_number_of_actions ≡ length r.action_list
      → IsReady t wf r 0
  unfolding next_index
  first-IsReady t r f e z c = record {
    row = f;
    next = ground (arith, eq_iff r.current_action_name "", e, z);
    counted = c;
  }

  whole_context :
      (w w' : World) (r : StateRow) (a : WorkflowAction) (more : List WorkflowAction)
      → r.current_action_state ≡ pending
      → turn (a ∷ more) (row_context wf r) worker ≡ ok (some 0)
      → run_actions
          (call_in now)
          k
          (suc retries)
          false
          wf
          worker
          exec
          0
          (a ∷ more)
          (k.prepare wf w).0
        ≡ (w', finished)
      → process_context (call_in now) k (suc retries) worker exec (a ∷ more) (row_context wf r) w
        ≡ (w', some finished)
  unfolding process_context from_index
  whole_context w w' r a more p f x =
      ground (arith, f, x, p, ap is_running p, (quiet.prepared wf w).0)

  -- A Pending workflow that has a row with no current action at index 0, whose total is the length
  -- of its list and whose actions have names and are all the worker's, is finished by one context of
  -- the stream, when the workflow has an id, each action ends well, the worker reports at least
  -- once, no call of the database fails, and the steps of the data neither exit nor change the states:
  -- the row then has the same list and a success at its last index.
  pub process_context-IsDone :
      (w : World) (r : StateRow) (a : WorkflowAction) (more : List WorkflowAction)
      → find_state wf w.0.workflow_state ≡ some r
      → r.action_list ≡ a ∷ more
      → r.total_number_of_actions ≡ length r.action_list
      → r.current_action_name ≡ ""
      → r.current_action_index ≡ 0
      → r.current_action_state ≡ pending
      → All IsNamed (a ∷ more)
      → All (λ (b : WorkflowAction). b.worker_id ≡ worker) (a ∷ more)
      → (w' : World) × (process_context
            (call_in now)
            k
            (suc retries)
            worker
            exec
            (a ∷ more)
            (row_context wf r)
            w
          ≡ (w', some finished))
        × IsDone w'.0 wf r.action_list
  process_context-IsDone w r a more f l c e z p x v =
      let w0 = (k.prepare wf w).0 in
      let row = ap (find_state wf) (quiet.prepared wf w).1 ∙ f in
      let (w', runs, done) =
        run_actions-IsDone_from w0 r 0 [] a more (first-IsReady w0.0 r row e z c) l refl x v.1 in
      (w', whole_context w w' r a more p (first_turn r a more e v.0) runs, done)
