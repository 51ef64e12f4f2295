-- ===== src/Worker/Resumed.antt =====
-- A worker that is sent a context whose action already runs, as after a restart of the worker.
use tink.Prelude.{
  ℕ, suc, ◌≡◌, ◌≢◌, refl, ap, ◌∙◌, String, true, Option, none, some, List, [], ◌∷◌, ◌++◌, arith,
  length, get_elem?, eq_iff,
}
use tink.Prelude.Int.{ℤ}
use tink.Prelude.Outcome.{ok}
use tink.Proto.{running, success, WorkflowAction, Error}
use tink.Db.Tables.{Tables, StateRow}
use tink.Db.State.{find_state, context_of}
use tink.DbServer.Worker.{next_index}
use tink.DbServer.Worker.Report.{row_context}
use tink.Worker.{
  DataSteps, is_running, turn, from_index, process_context, success_of, Ran, exited, report_start,
  report_end, run_action, run_actions,
}
use tink.Worker.Reporting.{call, moved_row, Matches}
use tink.Worker.Complete.{
  World, call_in, IsQuiet, IsNamed, IsGood, check_status, run_action-ends, run_actions-next,
}
use tink.Worker.Refused.{call_refused, retries_refused}

from_index-append :
    (before rest : List WorkflowAction) → from_index (length before) (before ++ rest) ≡ rest
unfolding from_index
from_index-append [] rest = refl
from_index-append (a ∷ before) rest = from_index-append before rest

-- The row of a workflow whose action at an index runs.
pub record IsInterrupted (t : Tables) (wf : String) (r : StateRow) (a : WorkflowAction)
    : Type 0 where
  pub row : find_state wf t.workflow_state ≡ some r
  pub runs : r.current_action_state ≡ running
  pub counted : r.total_number_of_actions ≡ length r.action_list
  pub action : get_elem? r.action_list r.current_action_index ≡ some a
  pub current : r.current_action_name ≡ a.name

success_index : (r : StateRow) → next_index (context_of r) success ≡ r.current_action_index
unfolding next_index
success_index r = ground arith

module _ (now : ℤ) (retries : ℕ) (k : DataSteps World) (quiet : IsQuiet k) (wf worker : String)
    (exec : ℕ → WorkflowAction → Ran) (named : wf ≢ "")
    (good : (i : ℕ) (a : WorkflowAction) → IsGood (exec i a)) where
  first_Matches :
      (t : Tables) (r : StateRow) (a : WorkflowAction)
      → IsNamed a
      → IsInterrupted t wf r a
      → (t' : Tables) → t'.workflow_state ≡ t.workflow_state
      → Matches t' (success_of wf a (exec r.current_action_index a)) r a r.current_action_index
  first_Matches t r a x h t' e = record {
    row = ap (find_state wf) e ∙ h.row;
    valid =
        check_status wf a success (exec r.current_action_index a).elapsed
          "finished execution successfully" named x;
    place = success_index r;
    action = h.action;
    counted = h.counted;
    task_named = refl;
    action_named = refl;
  }

  resumes :
      (a : WorkflowAction) (w : World)
      → report_start (call_in now) (suc retries) true wf a w ≡ (w, none)
  unfolding report_start
  resumes a w = refl

  -- an action whose success is refused, after its data was fetched
  refused :
      (b : WorkflowAction) (ran : Ran) (w : World) (e : Error)
      → IsGood ran
      → call now (k.get_workflow_data wf w).0.0 (success_of wf b ran)
        ≡ ((k.get_workflow_data wf w).0.0, some e)
      → run_action (call_in now) k (suc retries) true wf b ran w
        ≡ ((k.get_workflow_data wf w).0, some (exited e))
  unfolding run_action report_start report_end
  refused b ran w e g c =
      let w' = (k.get_workflow_data wf w).0 in
      let tried : call_in now w' (success_of wf b ran) ≡ (w', some e) =
        ap (λ (o : Tables × Option Error). ((o.0, w'.1), o.1)) c in
      ground (
        arith,
        g.no_error,
        g.succeeded,
        (quiet.got wf w).0,
        retries_refused (call_in now) w' (success_of wf b ran) e retries none tried,
      )

  second_refused :
      (w : World) (r : StateRow) (a b : WorkflowAction) (ran : Ran)
      → IsGood ran
      → IsNamed b
      → b.name ≢ a.name
      → r.total_number_of_actions ≡ length r.action_list
      → get_elem? r.action_list r.current_action_index ≡ some a
      → find_state wf w.0.workflow_state ≡ some (moved_row r a success r.current_action_index)
      → (e : Error) × (run_action (call_in now) k (suc retries) true wf b ran w
          ≡ ((k.get_workflow_data wf w).0, some (exited e)))
        × (find_state wf (k.get_workflow_data wf w).0.0.workflow_state
            ≡ some (moved_row r a success r.current_action_index))
  second_refused w r a b ran g y n c q f =
      let w' = (k.get_workflow_data wf w).0 in
      let moved = moved_row r a success r.current_action_index in
      let row = ap (find_state wf) (quiet.got wf w).1 ∙ f in
      let (e, x) =
        call_refused now w'.0 (success_of wf b ran) moved a r.current_action_index row
          (check_status wf b success ran.elapsed "finished execution successfully" named y)
          (success_index moved) q c n in
      (e, refused b ran w e g x, row)

  own_action :
      (t : Tables) (r : StateRow) (a : WorkflowAction)
      → IsNamed a
      → IsInterrupted t wf r a
      → a.worker_id ≡ worker
      → turn r.action_list (row_context wf r) worker ≡ ok (some r.current_action_index)
  unfolding turn
  own_action t r a x h v = ground (
    arith,
    h.runs,
    h.action,
    h.current,
    x.named,
    v,
    eq_iff r.current_action_name "",
    eq_iff a.worker_id worker,
  )

  exits_at :
      (i : ℕ) (b : WorkflowAction) (more : List WorkflowAction) (w w' : World) (e : Error)
      → run_action (call_in now) k (suc retries) true wf b (exec i b) w ≡ (w', some (exited e))
      → run_actions (call_in now) k (suc retries) true wf worker exec i (b ∷ more) w
        ≡ (w', exited e)
  unfolding run_actions
  exits_at i b [] w w' e h = ground (arith, h)
  exits_at i b (c ∷ more) w w' e h = ground (arith, h)

  whole_context :
      (w w' : World) (r : StateRow) (rest : List WorkflowAction) (e : Error)
      → r.current_action_state ≡ running
      → turn r.action_list (row_context wf r) worker ≡ ok (some r.current_action_index)
      → from_index r.current_action_index r.action_list ≡ rest
      → run_actions
          (call_in now)
          k
          (suc retries)
          true
          wf
          worker
          exec
          r.current_action_index
          rest
          (k.prepare wf w).0
        ≡ (w', exited e)
      → process_context (call_in now) k (suc retries) worker exec r.action_list (row_context wf r) w
        ≡ (w', some (exited e))
  unfolding process_context
  whole_context w w' r rest e s f l h =
      ground (arith, s, f, l, h, ap is_running s, (quiet.prepared wf w).0)

  -- When the context of a running action that is the worker's is sent, the next action is the
  -- worker's too and has another name, both have names and end well, the total is the length of the
  -- list, no call of the database fails, and the steps of the data neither exit nor change the states,
  -- the worker exits on a refused report, and the row of the workflow then names the first action with
  -- a success.
  pub process_context-exited :
      (w : World) (r : StateRow) (before : List WorkflowAction) (a b : WorkflowAction)
      (more : List WorkflowAction)
      → IsInterrupted w.0 wf r a
      → r.action_list ≡ before ++ a ∷ b ∷ more
      → r.current_action_index ≡ length before
      → IsNamed a
      → IsNamed b
      → a.worker_id ≡ worker
      → b.worker_id ≡ worker
      → b.name ≢ a.name
      → (w' : World) × (e : Error) × (process_context
            (call_in now)
            k
            (suc retries)
            worker
            exec
            r.action_list
            (row_context wf r)
            w
          ≡ (w', some (exited e)))
        × (find_state wf w'.0.workflow_state ≡ some (moved_row r a success r.current_action_index))
  process_context-exited w r before a b more h l i x y v u n =
      let w0 = (k.prepare wf w).0 in
      let at = r.current_action_index in
      let (w1, first, row) =
        run_action-ends now retries k true wf a (exec at a) w0 w0 r at quiet (good at a)
          (resumes a w0) (λ t e. first_Matches w.0 r a x h t (e ∙ (quiet.prepared wf w).1)) in
      let (e, second, kept) =
        second_refused w1 r a b (exec (suc at) b) (good (suc at) b) y n h.counted h.action row in
      let w2 = (k.get_workflow_data wf w1).0 in
      (
        w2,
        e,
        whole_context w w2 r (a ∷ b ∷ more) e h.runs (own_action w.0 r a x h v)
            (ground (arith, l, i, from_index-append before (a ∷ b ∷ more)))
            (run_actions-next now retries k true wf worker exec at a b more w0 w1 (w2, exited e)
              first u (exits_at (suc at) b more w1 w2 e second)),
        kept,
      )
