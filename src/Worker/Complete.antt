-- ===== src/Worker/Complete.antt =====
-- A worker that runs all the actions of a workflow against the database server.
use tink.Prelude.{
  Bool, List, ◌∷◌, Option, ap, ◌∙◌, ℕ, suc, ◌≡◌, ◌≢◌, refl, String, false, none, some, arith,
  length, get_elem?, eq_iff,
}
use tink.Prelude.Int.{ℤ, pos}
use tink.Proto.{WorkflowActionStatus, Error, State, running, success, WorkflowAction}
use tink.Db.Tables.{Tables, StateRow}
use tink.Db.State.{find_state, context_of}
use tink.DbServer.Worker.{check_request, next_index}
use tink.DbServer.Worker.Effects.{accepted}
use tink.Worker.DataFile.{Files}
use tink.Worker.{
  End, run_actions, Ran, DataSteps, status_of, success_of, report_action_status, report_start,
  report_end, run_action,
}
use tink.Worker.Reporting.{call, moved_row, Matches, next_of, call-Matches, accepted-row}

-- An action that a report can name.
pub record IsNamed (a : WorkflowAction) : Type 0 where
  pub named : a.name ≢ ""
  pub task_named : a.task_name ≢ ""

-- An action that ends well.
pub record IsGood (ran : Ran) : Type 0 where
  pub no_error : ran.error ≡ none
  pub succeeded : ran.state ≡ success

-- The table has a row of the workflow whose next action is the one at an index.
pub record IsReady (t : Tables) (wf : String) (r : StateRow) (i : ℕ) : Type 0 where
  pub row : find_state wf t.workflow_state ≡ some r
  pub next : next_index (context_of r) running ≡ i
  pub counted : r.total_number_of_actions ≡ length r.action_list

pub check_status :
    (wf : String) (a : WorkflowAction) (status : State) (n : ℤ) (m : String)
    → wf ≢ ""
    → IsNamed a
    → check_request (status_of wf a status n m) ≡ none
unfolding check_request
check_status wf a status n m w x =
    ground (arith, x.named, x.task_named, eq_iff wf "", eq_iff a.name "", eq_iff a.task_name "")

start_Matches :
    (t : Tables) (wf : String) (r : StateRow) (i : ℕ) (a : WorkflowAction) (n : ℤ) (m : String)
    → wf ≢ ""
    → IsNamed a
    → IsReady t wf r i
    → get_elem? r.action_list i ≡ some a
    → Matches t (status_of wf a running n m) r a i
start_Matches t wf r i a n m w x h g = record {
  row = h.row;
  valid = check_status wf a running n m w x;
  place = h.next;
  action = g;
  counted = h.counted;
  task_named = refl;
  action_named = refl;
}

-- A success is reported at the index of the start.
pub same_index :
    (r : StateRow) (a : WorkflowAction) (i : ℕ) (status : State)
    → next_index (context_of (moved_row r a status i)) success ≡ i
unfolding next_index
same_index r a i status = ground arith

-- The next start is reported at the next index.
pub following_index :
    (r : StateRow) (a : WorkflowAction) (i : ℕ) (status : State)
    → a.name ≢ ""
    → next_index (context_of (moved_row r a status i)) running ≡ suc i
unfolding next_index
following_index r a i status n = ground (arith, eq_iff a.name "")

success_Matches :
    (t : Tables) (wf : String) (r : StateRow) (i : ℕ) (a : WorkflowAction) (n : ℤ) (m : String)
    → wf ≢ ""
    → IsNamed a
    → find_state wf t.workflow_state ≡ some (moved_row r a running i)
    → r.total_number_of_actions ≡ length r.action_list
    → get_elem? r.action_list i ≡ some a
    → Matches t (status_of wf a success n m) (moved_row r a running i) a i
success_Matches t wf r i a n m w x h c g = record {
  row = h;
  valid = check_status wf a success n m w x;
  place = same_index r a i running;
  action = g;
  counted = c;
  task_named = refl;
  action_named = refl;
}

-- the server's tables, and the files of the worker
abbrev pub World : Type 0
World = Tables × Files

abbrev pub call_in : ℤ → World → WorkflowActionStatus → World × Option Error
call_in now (t, files) req = let (t', e) = call now t req in ((t', files), e)

-- A step that does not exit and keeps the states of the workflows.
abbrev pub Passes : World × Bool → World → Type 0
Passes (w', dies) w = (dies ≡ false) × (w'.0.workflow_state ≡ w.0.workflow_state)

-- The steps of the data do not exit, and keep the states of the workflows.
pub record IsQuiet (k : DataSteps World) : Type 0 where
  pub prepared : (id : String) (w : World) → Passes (k.prepare id w) w
  pub got : (id : String) (w : World) → Passes (k.get_workflow_data id w) w
  pub updated : (req : WorkflowActionStatus) (w : World) → Passes (k.update_workflow_data req w) w

accepted_in : ℤ → World → WorkflowActionStatus → StateRow → WorkflowAction → ℕ → World
accepted_in now w req r a i = (accepted w.0 req now (next_of req r a i), w.1)

abbrev pub start_of : String → WorkflowAction → WorkflowActionStatus
start_of wf a = status_of wf a running (pos 0) "Started execution"

module _ (now : ℤ) (retries : ℕ) (k : DataSteps World) where
  reported :
      (w : World) (req : WorkflowActionStatus) (r : StateRow) (a : WorkflowAction) (i : ℕ)
      → Matches w.0 req r a i
      → report_action_status (call_in now) (suc retries) none w req
        ≡ (accepted_in now w req r a i, none)
  unfolding report_action_status accepted_in
  reported w req r a i m = ground (arith, call-Matches now w.0 req r a i m)

  steps-run :
      (resumed : Bool) (wf : String) (a : WorkflowAction) (ran : Ran) (w w1 w2 w3 w4 : World)
      → IsGood ran
      → report_start (call_in now) (suc retries) resumed wf a w ≡ (w1, none)
      → k.get_workflow_data wf w1 ≡ (w2, false)
      → report_action_status (call_in now) (suc retries) none w2 (success_of wf a ran) ≡ (w3, none)
      → k.update_workflow_data (success_of wf a ran) w3 ≡ (w4, false)
      → run_action (call_in now) k (suc retries) resumed wf a ran w ≡ (w4, none)
  unfolding run_action report_end
  steps-run resumed wf a ran w w1 w2 w3 w4 g p q h u =
      ground (arith, p, q, h, u, g.no_error, g.succeeded)

  passed : (o : World × Bool) (w : World) → Passes o w → o ≡ (o.0, false)
  passed o w (d, e) = ap (λ b. (o.0, b)) d

  -- Once the start is done, an action that ends well leaves its success in the row.
  pub run_action-ends :
      (resumed : Bool) (wf : String) (a : WorkflowAction) (ran : Ran) (w w1 : World) (r : StateRow)
      (i : ℕ)
      → IsQuiet k
      → IsGood ran
      → report_start (call_in now) (suc retries) resumed wf a w ≡ (w1, none)
      → ((t : Tables)
          → t.workflow_state ≡ w1.0.workflow_state
          → Matches t (success_of wf a ran) r a i)
      → (w' : World) × (run_action (call_in now) k (suc retries) resumed wf a ran w ≡ (w', none))
        × (find_state wf w'.0.workflow_state ≡ some (moved_row r a success i))
  unfolding accepted_in
  run_action-ends resumed wf a ran w w1 r i quiet g p matches =
      let req = success_of wf a ran in
      let w2 = (k.get_workflow_data wf w1).0 in
      let got = quiet.got wf w1 in
      let m = matches w2.0 got.1 in
      let w3 = accepted_in now w2 req r a i in
      let o = k.update_workflow_data req w3 in
      let updated = quiet.updated req w3 in
      (
        o.0,
        steps-run resumed wf a ran w w1 w2 w3 o.0 g p (passed (k.get_workflow_data wf w1) w1 got)
            (reported w2 req r a i m) (passed o w3 updated),
        ap (find_state wf) updated.1 ∙ accepted-row now w2.0 req r a i m,
      )

  started :
      (wf : String) (w : World) (r : StateRow) (i : ℕ) (a : WorkflowAction)
      → wf ≢ ""
      → IsNamed a
      → IsReady w.0 wf r i
      → get_elem? r.action_list i ≡ some a
      → report_start (call_in now) (suc retries) false wf a w
        ≡ (accepted_in now w (start_of wf a) r a i, none)
  unfolding report_start
  started wf w r i a n x h g =
      reported w (start_of wf a) r a i
        (start_Matches w.0 wf r i a (pos 0) "Started execution" n x h g)

  pub run_action-good :
      (wf : String) (w : World) (r : StateRow) (i : ℕ) (a : WorkflowAction) (ran : Ran)
      → wf ≢ ""
      → IsQuiet k
      → IsNamed a
      → IsGood ran
      → IsReady w.0 wf r i
      → get_elem? r.action_list i ≡ some a
      → (w' : World) × (run_action (call_in now) k (suc retries) false wf a ran w ≡ (w', none))
        × (find_state wf w'.0.workflow_state ≡ some (moved_row r a success i))
  unfolding accepted_in
  run_action-good wf w r i a ran n quiet x y h g =
      let m = start_Matches w.0 wf r i a (pos 0) "Started execution" n x h g in
      run_action-ends false wf a ran w (accepted_in now w (start_of wf a) r a i)
        (moved_row r a running i) i quiet y (started wf w r i a n x h g)
        (λ t e.
          success_Matches t wf r i a ran.elapsed "finished execution successfully" n x
            (ap (find_state wf) e ∙ accepted-row now w.0 (start_of wf a) r a i m) h.counted g)

  -- The loop goes on with the next action of the same worker.
  pub run_actions-next :
      (resumed : Bool) (wf worker : String) (exec : ℕ → WorkflowAction → Ran) (i : ℕ)
      (a b : WorkflowAction) (more : List WorkflowAction) (w w1 : World) (o : World × End)
      → run_action (call_in now) k (suc retries) resumed wf a (exec i a) w ≡ (w1, none)
      → b.worker_id ≡ worker
      → run_actions (call_in now) k (suc retries) resumed wf worker exec (suc i) (b ∷ more) w1 ≡ o
      → run_actions (call_in now) k (suc retries) resumed wf worker exec i (a ∷ b ∷ more) w ≡ o
  unfolding run_actions
  run_actions-next resumed wf worker exec i a b more w w1 o h v q =
      ground (arith, h, v, q, eq_iff b.worker_id worker)
