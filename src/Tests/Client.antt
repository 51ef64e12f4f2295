-- ===== src/Tests/Client.antt =====
-- Tests of the command line client.
use tink.Prelude.{ℕ, ◌≤◌, ◌≡◌, ◌↔◌, refl, arith, some, [], ◌∷◌, str_eq, true, false, if◌then◌else◌}
use tink.Prelude.Int.{pos, quot_ℤ, wrap64, ◌*ℤ◌}
use tink.Prelude.Outcome.{ok}
use tink.Proto.{WorkflowContext, success}
use tink.DbServer.Status.{state_of}
use tink.Cli.{progress, progress-le, update_request, verify_uuids, push_check}
use tink.Tests.Templates.{engine}

-- the second action of three has succeeded
abbrev context : WorkflowContext
context = record {
  workflow_id = "wf1";
  current_worker = "m1";
  current_task = "os";
  current_action = "image";
  current_action_index = 1;
  current_action_state = success;
  total_number_of_actions = 3;
}

progress-le_example :
    (p : ℕ) × (progress 1 3 success ≡ pos p)
    × (p ≤ 100)
    × ((p ≡ 100) ↔ (state_of context ≡ success))
progress-le_example = progress-le context (omega arith) (omega arith)

two_of_three : progress 1 3 success ≡ pos 66
unfolding progress quot_ℤ wrap64 ◌*ℤ◌
two_of_three = refl

-- an empty file
blank_update : update_request engine "t1" "" ≡ ok (record { id = "t1"; name = ""; content = "" })
unfolding update_request
blank_update = refl

-- the second id is none
not_uuid :
    verify_uuids (λ id. if str_eq id "x" then false else true) ("a" ∷ "x" ∷ [])
    ≡ some "invalid uuid"
unfolding verify_uuids
not_uuid = refl

no_id : push_check (λ text. some "") "{}" ≡ some "invalid json, ID is required"
unfolding push_check
no_id = refl
