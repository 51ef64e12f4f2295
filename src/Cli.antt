-- ===== src/Cli.antt =====
-- The command line client, cmd/tink-cli/cmd: the progress that workflow/state.go prints, and the requests
-- of hardware/push.go, template/create.go and template/update.go. Files, prompts and prints are left out.
use tink.Prelude.{
  ℕ, suc, ◌*◌, ◌/◌, ◌^◌, ◌≤◌, ◌<◌, ◌≡◌, ◌↔◌, ap, ◌∙◌, String, Bool, not, ◌&&◌, ◌||◌, Option, none,
  some, List, [], ◌∷◌, append, str_eq, ◌==◌, arith, if◌then◌else◌,
}
use tink.Prelude.Small.{wrap64-small, quot_pos}
use tink.Prelude.Int.{ℤ, pos, quot_ℤ, wrap64, ◌*ℤ◌}
use tink.Prelude.Outcome.{Outcome, ok, ◌>>=◌}
use native.Mathlib.Nat.{div-le_of_le-mul, le-div_iff_mul-le, zero-div, mul-div_cancel_left}
use tink.Proto.{State, success, WorkflowContext}
use tink.DbServer.Status.{state_of}
use tink.Template.Render.{decimal, Engine, RenderError, parse}
use tink.DbServer.Worker.{is_success}

-- `taskCompleted`, in int64
abbrev pub completed : ℕ → State → ℤ
completed cur state = if is_success state then wrap64 (pos (suc cur)) else pos cur

-- the percentage, in int64, of an index and a count that are not negative
unfoldable pub progress : ℕ → ℕ → State → ℤ
progress cur total state =
    if total == 0 || ((cur == 0) && not (is_success state))
    then pos 0
    else quot_ℤ (wrap64 (completed cur state *ℤ pos 100)) total

unfoldable pub cal_workflow_progress : ℕ → ℕ → State → String
unfolding progress
cal_workflow_progress cur total state = append (decimal (progress cur total state)) "%"

-- A message of the template service, as the client fills it in.
pub record TemplateRequest : Type 0 where
  pub id : String
  pub name : String
  pub content : String

-- The request of `template update`; an empty file makes one without a name and without data.
unfoldable pub update_request :
    {H : Type 0} → Engine H → String → String → Outcome RenderError TemplateRequest
unfolding parse
update_request e id text =
    if str_eq text ""
    then ok (record { id = id; name = ""; content = "" })
    else (parse e text >>= λ wf. ok (record { id = id; name = wf.name; content = text }))

-- the request of `template create`
unfoldable pub create_request :
    {H : Type 0} → Engine H → String → Outcome RenderError TemplateRequest
unfolding parse
create_request e text =
    parse e text >>= λ wf. ok (record { id = ""; name = wf.name; content = text })

-- The checks of `hardware push` before its call: `id` decodes the field of that name.
unfoldable pub push_check : (String → Option String) → String → Option String
push_check id text = elim (id text) [
  | none ↦ some "invalid json"
  | some i ↦ if str_eq i "" then some "invalid json, ID is required" else none
]

-- validateID and verifyUUIDs
unfoldable pub verify_uuids : (String → Bool) → List String → Option String
verify_uuids is_uuid [] = some "requires at least one id"
verify_uuids is_uuid (arg ∷ []) = if is_uuid arg then none else some "invalid uuid"
verify_uuids is_uuid (arg ∷ next ∷ rest) =
    let more = verify_uuids is_uuid (next ∷ rest) in
    if is_uuid arg then more else some "invalid uuid"

times_hundred : (c : ℕ) → pos c *ℤ pos 100 ≡ pos (c * 100)
unfolding ◌*ℤ◌
times_hundred c = ground arith

-- the number of actions that are done
abbrev done_of : ℕ → State → ℕ
done_of cur state = if is_success state then suc cur else cur

completed-eq :
    (cur : ℕ) (state : State) → suc cur < 2 ^ 63 → completed cur state ≡ pos (done_of cur state)
completed-eq cur state h = ground (arith, wrap64-small (suc cur) h)

done_of-le : (cur total : ℕ) (state : State) → cur < total → done_of cur state ≤ total
done_of-le cur total state h = ground arith

quotient-eq :
    (cur total : ℕ) (state : State)
    → cur < total
    → total < 2 ^ 56
    → quot_ℤ (wrap64 (completed cur state *ℤ pos 100)) total ≡ pos (done_of cur state * 100 / total)
quotient-eq cur total state h b =
    let d = done_of cur state in
    let small = done_of-le cur total state h in
    ap (λ x. quot_ℤ (wrap64 (x *ℤ pos 100)) total) (completed-eq cur state omega arith)
    ∙ ap (λ x. quot_ℤ (wrap64 x) total) (times_hundred d)
    ∙ ap (λ x. quot_ℤ x total) (wrap64-small (d * 100) omega arith)
    ∙ quot_pos (d * 100) total omega arith

progress-eq :
    (cur total : ℕ) (state : State)
    → cur < total
    → total < 2 ^ 56
    → progress cur total state ≡ pos (done_of cur state * 100 / total)
unfolding progress
progress-eq cur total state h b = ground (arith, quotient-eq cur total state h b, zero-div total)

done_of-all :
    (ctx : WorkflowContext)
    → ctx.current_action_index < ctx.total_number_of_actions
    → (done_of ctx.current_action_index ctx.current_action_state ≡ ctx.total_number_of_actions)
      ↔ (state_of ctx ≡ success)
unfolding state_of
done_of-all ctx h = ground arith

all_percent : (d t : ℕ) → 0 < t → d ≤ t → (d * 100 / t ≡ 100) ↔ (d ≡ t)
all_percent d t p h = (
  λ e. omega (arith, (le-div_iff_mul-le {k = t} {x = 100} {y = d * 100} p).0 (omega (arith, e)), h),
  λ e. ap (λ x. x * 100 / t) e ∙ mul-div_cancel_left 100 {n = t} p,
)

-- For a context whose index is inside its actions, the printed progress is a number of at most 100, and
-- it is 100 exactly when the server gives the workflow the state Success; with fewer than 2^56 actions,
-- so that int64 does not overflow.
pub progress-le :
    (ctx : WorkflowContext)
    → ctx.current_action_index < ctx.total_number_of_actions
    → ctx.total_number_of_actions < 2 ^ 56
    → (p : ℕ) × (progress ctx.current_action_index ctx.total_number_of_actions
          ctx.current_action_state
        ≡ pos p)
      × (p ≤ 100)
      × ((p ≡ 100) ↔ (state_of ctx ≡ success))
progress-le ctx h b =
    let d = done_of ctx.current_action_index ctx.current_action_state in
    let t = ctx.total_number_of_actions in
    let small = done_of-le ctx.current_action_index t ctx.current_action_state h in
    let whole = all_percent d t (omega (arith, h)) small in
    let same = done_of-all ctx h in
    (
      d * 100 / t,
      progress-eq ctx.current_action_index t ctx.current_action_state h b,
      div-le_of_le-mul t omega (arith, small),
      (λ e. same.0 (whole.0 e), λ e. whole.1 (same.1 e)),
    )
