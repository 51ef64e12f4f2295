-- ===== src/DbServer/Worker/Due.antt =====
-- The worker whose turn at a workflow it is.
use tink.Prelude.{
  ℕ, zero, suc, ◌<◌, ◌≡◌, ◌≢◌, ◌↔◌, refl, ap, Bool-cases, String, Bool, true, false, none, some,
  List, arith, length, get_elem?, str_eq, eq_iff, if◌then◌else◌, inl, inr, ◌⊎◌, lt-of-get_elem?,
  get_elem?-lt,
}
use tink.Prelude.Outcome.{ok, err, crash}
use tink.Proto.{State, pending, running, failed, timeout, success, unrecognized, WorkflowAction}
use tink.Db.Tables.{Tables, StateRow, Faults, select}
use tink.Db.State.{find_state, get_workflow_contexts, get_workflow_actions}
use tink.DbServer.Worker.{
  is_success, is_final, is_applicable_to, is_applicable_to_send, list_actions, context_to_send,
}
use tink.DbServer.Worker.Report.{row_context}

-- A worker's turn at a workflow, as the server decides it.
pub data IsDue (r : StateRow) (worker : String) : Type 0 where
  current :
      (a : WorkflowAction)
      → is_final r.current_action_state ≡ false
      → is_success r.current_action_state ≡ false
      → get_elem? r.action_list r.current_action_index ≡ some a
      → a.worker_id ≡ worker
      → IsDue r worker
  handed_over :
      (a : WorkflowAction)
      → r.current_action_state ≡ success
      → r.current_action_index ≡ 0
      → get_elem? r.action_list 1 ≡ some a
      → a.worker_id ≡ worker
      → IsDue r worker

pub context_of_row :
    (f g : Faults) (t : Tables) (worker id : String) (r : StateRow)
    → find_state id t.workflow_state ≡ some r
    → f select ≡ none
    → g select ≡ none
    → context_to_send f g t worker id ≡ (
        if is_final r.current_action_state
        then ok none
        else elim (is_applicable_to r.action_list (row_context id r) worker) [
          | ok send ↦ ok (if send then some (row_context id r) else none)
          | err e ↦ err e
          | crash ↦ crash
        ])
unfolding context_to_send is_applicable_to_send list_actions get_workflow_contexts
    get_workflow_actions
context_of_row f g t worker id r e p q = ground arith

pub final_not :
    (r : StateRow) (worker : String) → is_final r.current_action_state ≡ true → ¬ IsDue r worker
final_not r w e (current a f s g h) = ground arith
final_not r w e (handed_over a s z g h) = ground (arith, ap is_final s)

module _ (worker id : String) (r : StateRow) (live : is_final r.current_action_state ≡ false) where
  waiting :
      (a : WorkflowAction)
      → is_success r.current_action_state ≡ false
      → get_elem? r.action_list r.current_action_index ≡ some a
      → is_applicable_to r.action_list (row_context id r) worker ≡ ok (str_eq a.worker_id worker)
  unfolding is_applicable_to
  waiting a s e = ground arith

  pub succeeded_later :
      r.current_action_state ≡ success
      → r.current_action_index ≢ 0
      → is_applicable_to r.action_list (row_context id r) worker ≡ ok false
  unfolding is_applicable_to
  succeeded_later s n = ground (arith, ap is_success s)

  succeeded_first :
      (a : WorkflowAction)
      → r.current_action_state ≡ success
      → r.current_action_index ≡ 0
      → get_elem? r.action_list 1 ≡ some a
      → is_applicable_to r.action_list (row_context id r) worker ≡ ok (str_eq a.worker_id worker)
  unfolding is_applicable_to
  succeeded_first a s z e = ground (arith, ap is_success s, lt-of-get_elem? r.action_list 1 e)

  succeeded_last :
      r.current_action_state ≡ success
      → r.current_action_index ≡ 0
      → length r.action_list ≡ 1
      → is_applicable_to r.action_list (row_context id r) worker ≡ ok false
  unfolding is_applicable_to
  succeeded_last s z e = ground (arith, ap is_success s)

is_success-eq : (s : State) → is_success s ≡ true → s ≡ success
is_success-eq success h = refl
is_success-eq pending h = absurd (ground arith)
is_success-eq running h = absurd (ground arith)
is_success-eq failed h = absurd (ground arith)
is_success-eq timeout h = absurd (ground arith)
is_success-eq (unrecognized n) h = absurd (ground arith)

zero_or : (n : ℕ) → (n ≡ 0) ⊎ (n ≢ 0)
zero_or zero = inl refl
zero_or (suc n) = inr (λ h. omega arith)

-- A decision that is true exactly for the workers whose turn it is.
unfoldable pub IsDecided : List WorkflowAction → String → StateRow → String → Type 0
IsDecided actions id r worker =
    (send : Bool) × (is_applicable_to actions (row_context id r) worker ≡ ok send)
    × ((send ≡ true) ↔ IsDue r worker)

module _ (worker id : String) (r : StateRow) (live : is_final r.current_action_state ≡ false) where
  due_waiting :
      (a : WorkflowAction)
      → is_success r.current_action_state ≡ false
      → get_elem? r.action_list r.current_action_index ≡ some a
      → IsDue r worker
      → a.worker_id ≡ worker
  due_waiting a s e (current b f g x h) = ground (arith, x, h)
  due_waiting a s e (handed_over b f g x h) = ground (arith, ap is_success f)

  due_success :
      r.current_action_state ≡ success
      → IsDue r worker
      → (r.current_action_index ≡ 0)
        × ((a : WorkflowAction) × (get_elem? r.action_list 1 ≡ some a) × (a.worker_id ≡ worker))
  due_success s (current b f g x h) = absurd (ground (arith, ap is_success s))
  due_success s (handed_over b f g x h) = (g, (b, x, h))

  IsDecided-waiting :
      is_success r.current_action_state ≡ false
      → r.current_action_index < length r.action_list
      → IsDecided r.action_list id r worker
  unfolding IsDecided
  IsDecided-waiting s i =
      let (a, e) = get_elem?-lt r.action_list r.current_action_index i in
      (
        str_eq a.worker_id worker,
        waiting worker id r live a s e,
        (
          λ q. current a live s e ((eq_iff a.worker_id worker).0 q),
          λ d. (eq_iff a.worker_id worker).1 (due_waiting a s e d),
        ),
      )

  IsDecided-first :
      r.current_action_state ≡ success
      → r.current_action_index ≡ 0
      → (1 < length r.action_list) ⊎ (length r.action_list ≡ 1)
      → IsDecided r.action_list id r worker
  unfolding IsDecided
  IsDecided-first s z (inl i) =
      let (a, e) = get_elem?-lt r.action_list 1 i in
      (
        str_eq a.worker_id worker,
        succeeded_first worker id r live a s z e,
        (
          λ q. handed_over a s z e ((eq_iff a.worker_id worker).0 q),
          λ d. let (_, (b, x, h)) = due_success s d in ground (arith, eq_iff a.worker_id worker),
        ),
      )
  IsDecided-first s z (inr n) = (
    false,
    succeeded_last worker id r live s z n,
    (
      λ q. absurd (ground arith),
      λ d.
          let (_, (b, x, h)) = due_success s d in
          absurd (omega (arith, lt-of-get_elem? r.action_list 1 x)),
    ),
  )

  IsDecided-later :
      r.current_action_state ≡ success
      → r.current_action_index ≢ 0
      → IsDecided r.action_list id r worker
  unfolding IsDecided
  IsDecided-later s n = (
    false,
    succeeded_later worker id r live s n,
    (λ q. absurd (ground arith), λ d. absurd (n (due_success s d).0)),
  )

  pub decided : r.current_action_index < length r.action_list → IsDecided r.action_list id r worker
  decided i = elim (Bool-cases (is_success r.current_action_state)) [
    | inr f ↦ IsDecided-waiting f i
    | inl e ↦ elim (zero_or r.current_action_index) [
      | inr n ↦ IsDecided-later (is_success-eq _ e) n
      | inl z ↦ IsDecided-first (is_success-eq _ e) z ground arith
    ]
  ]
