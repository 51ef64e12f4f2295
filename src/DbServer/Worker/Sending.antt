-- ===== src/DbServer/Worker/Sending.antt =====
-- Which workflows a worker is sent.
use tink.Prelude.{
  ◌<◌, ◌≡◌, refl, ◌∙◌, Bool-cases, String, true, false, Option, none, some, arith, length,
  if◌then◌else◌, inl, inr, ◌⊎◌,
}
use tink.Prelude.Outcome.{Outcome, ok, err, crash}
use tink.Proto.{WorkflowContext, Error}
use tink.Db.Tables.{Tables, StateRow, Faults, select}
use tink.Db.State.{find_state}
use tink.DbServer.Worker.{is_final, is_applicable_to, context_to_send}
use tink.DbServer.Worker.Report.{row_context}
use tink.DbServer.Worker.Due.{IsDecided, IsDue, context_of_row, final_not, decided}

-- The loop's answer for a row: its context for a worker whose turn it is, and nothing for another.
abbrev pub Sent : Outcome Error (Option WorkflowContext) → String → StateRow → String → Type 0
Sent answer id r worker =
    ((answer ≡ ok (some (row_context id r))) × IsDue r worker)
    ⊎ ((answer ≡ ok none) × (¬ IsDue r worker))

sent :
    (worker id : String) (r : StateRow) (answer : Outcome Error (Option WorkflowContext))
    → is_final r.current_action_state ≡ false
    → answer ≡ (
        if is_final r.current_action_state
        then ok none
        else elim (is_applicable_to r.action_list (row_context id r) worker) [
          | ok send ↦ ok (if send then some (row_context id r) else none)
          | err e ↦ err e
          | crash ↦ crash
        ])
    → IsDecided r.action_list id r worker
    → Sent answer id r worker
unfolding IsDecided
sent worker id r answer live q (true, e, due) = inl (ground arith, due.0 refl)
sent worker id r answer live q (false, e, due) =
    inr (ground arith, λ d. absurd (ground (arith, due.1 d)))

-- Where both queries answer and the row's index lies in its list, a worker is sent the workflow
-- exactly in two cases: the current action is the worker's and has neither ended in failure or
-- timeout nor succeeded; or the action at index 0 has succeeded and the one at index 1 is the worker's.
pub context_to_send-IsDue :
    (f g : Faults) (t : Tables) (worker id : String) (r : StateRow)
    → find_state id t.workflow_state ≡ some r
    → f select ≡ none
    → g select ≡ none
    → r.current_action_index < length r.action_list
    → Sent (context_to_send f g t worker id) id r worker
context_to_send-IsDue f g t worker id r e p q i =
    elim (Bool-cases (is_final r.current_action_state)) [
      | inl done ↦
          inr (context_of_row f g t worker id r e p q ∙ ground arith, final_not r worker done)
      | inr live ↦
          sent worker id r (context_to_send f g t worker id) live
            (context_of_row f g t worker id r e p q) (decided worker id r live i)
    ]
