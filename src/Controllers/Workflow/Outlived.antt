-- ===== src/Controllers/Workflow/Outlived.antt =====
-- What a running workflow and its actions become.
use tink.Prelude.{
  ℕ, zero, suc, ◌+◌, ◌≡◌, sym, ap, true, Option, none, some, List, [], ◌∷◌, arith, get_elem?,
  if◌then◌else◌, Option-cases, inl, inr, ◌⊎◌, Bool-cases,
}
use mathlib.Core.Path.{subst}
use tink.Prelude.Int.{ℤ}
use tink.Prelude.Outcome.{ok}
use tink.Proto.{WorkflowState, state_timeout}
use tink.V1alpha1.Types.{Action, Task, Workflow}
use tink.V1alpha1.Methods.{get_start_time}
use tink.Controllers.Workflow.{
  Clock, is_over, expire, expire_actions, expire_tasks, process_running_workflow,
}
use tink.Controllers.Workflow.Running.{
  IsExpired, timed_out, expire-none, expire-some, SomeTaskExpired, tasks-Verdict,
}

-- the action `ai` of the task `ti`
abbrev pub action_at : List Task → ℕ → ℕ → Option Action
action_at ts ti ai = elim (get_elem? ts ti) [ none ↦ none | some t ↦ get_elem? t.actions ai ]

-- What becomes of an action: the fields of a timeout if it has expired, nothing otherwise.
abbrev pub Outlived : ℤ → ℤ → Action → Option Action → Type 0
Outlived now stamp a after =
    ((x : IsExpired now a) × (after ≡ some (timed_out stamp x.start a)))
    ⊎ ((¬ IsExpired now a) × (after ≡ some a))

abbrev fate : ℤ → ℤ → Action → Action
fate now stamp a = elim (expire now stamp a) [ none ↦ a | some a' ↦ a' ]

fate-Outlived : (now stamp : ℤ) (a : Action) → Outlived now stamp a (some (fate now stamp a))
fate-Outlived now stamp a = elim (Option-cases (expire now stamp a)) [
  | inl e ↦ inr (expire-none now stamp a e, ground arith)
  | inr (a', e) ↦ let (x, y) = expire-some now stamp a a' e in inl (x, ground (arith, e, y))
]

shift : (k i : ℕ) → suc k + i ≡ k + suc i
shift k i = omega arith

from_zero : (n : ℕ) → 0 + n ≡ n
from_zero n = omega arith

actions-fate :
    (c : Clock) (ti k : ℕ) (acts : List Action) (state : WorkflowState) (i : ℕ) (a : Action)
    → get_elem? acts i ≡ some a
    → get_elem? (expire_actions c ti k acts state).0 i
      ≡ some (fate (c.at_test ti (k + i)) (c.at_stamp ti (k + i)) a)
unfolding expire_actions
actions-fate c ti k [] state i a h = absurd (ground arith)
actions-fate c ti k (b ∷ rest) state zero a h = ground arith
actions-fate c ti k (b ∷ rest) state (suc i) a h =
    elim (Option-cases (expire (c.at_test ti k) (c.at_stamp ti k) b)) [
      | inl e ↦ ground (
        arith,
        ap (c.at_test ti) (shift k i),
        ap (c.at_stamp ti) (shift k i),
        actions-fate c ti (suc k) rest state i a h,
      )
      | inr (b', e) ↦ ground (
        arith,
        ap (c.at_test ti) (shift k i),
        ap (c.at_stamp ti) (shift k i),
        actions-fate c ti (suc k) rest state_timeout i a h,
      )
    ]

tasks-fate :
    (c : Clock) (k : ℕ) (ts : List Task) (state : WorkflowState) (ti ai : ℕ) (a : Action)
    → action_at ts ti ai ≡ some a
    → action_at (expire_tasks c k ts state).0 ti ai
      ≡ some (fate (c.at_test (k + ti) ai) (c.at_stamp (k + ti) ai) a)
unfolding expire_tasks
tasks-fate c k [] state ti ai a h = absurd (ground arith)
tasks-fate c k (t ∷ rest) state zero ai a h =
    ground (arith, actions-fate c k 0 t.actions state ai a)
tasks-fate c k (t ∷ rest) state (suc ti) ai a h = ground (
  arith,
  ap (λ n. c.at_test n ai) (shift k ti),
  ap (λ n. c.at_stamp n ai) (shift k ti),
  tasks-fate c (suc k) rest (expire_actions c k 0 t.actions state).1 ti ai a h,
)

-- The state of the workflow when the actions are looked at: its global timeout comes first.
abbrev first_state : Clock → Workflow → ℤ → WorkflowState
first_state c w start =
    if is_over c.at_start start w.status.global_timeout then state_timeout else w.status.state

abbrev pub TimesOut : Clock → Workflow → ℤ → Type 0
TimesOut c w start =
    (is_over c.at_start start w.status.global_timeout ≡ true) ⊎ SomeTaskExpired c 0 w.status.tasks

after_loop : Clock → Workflow → ℤ → Workflow
after_loop c w start =
    let (tasks, end) = expire_tasks c 0 w.status.tasks (first_state c w start) in
    record w { status = record w.status { state = end; tasks = tasks } }

runs_to :
    (c : Clock) (w : Workflow) (start : ℤ) {E : Type 0}
    → get_start_time w ≡ some start
    → process_running_workflow {E = E} c w ≡ ok (after_loop c w start)
unfolding process_running_workflow after_loop
runs_to c w start e = ground arith

loop_state :
    (c : Clock) (w : Workflow) (start : ℤ)
    → (TimesOut c w start × ((after_loop c w start).status.state ≡ state_timeout))
      ⊎ ((¬ TimesOut c w start) × (after_loop c w start ≡ w))
unfolding after_loop
loop_state c w start = elim (Bool-cases (is_over c.at_start start w.status.global_timeout)) [
  | inl over ↦ inl (
    inl over,
    elim (tasks-Verdict c 0 w.status.tasks (first_state c w start)) [
      | inl (x, y) ↦ y
      | inr (n, y) ↦ ground arith
    ],
  )
  | inr intime ↦ elim (tasks-Verdict c 0 w.status.tasks (first_state c w start)) [
    | inl (x, y) ↦ inl (inr x, y)
    | inr (n, y) ↦ inr ((λ z. elim z [ inl u ↦ absurd (ground arith) | inr v ↦ n v ]), ground arith)
  ]
]

loop_action :
    (c : Clock) (w : Workflow) (start : ℤ) (ti ai : ℕ) (a : Action)
    → action_at w.status.tasks ti ai ≡ some a
    → action_at (after_loop c w start).status.tasks ti ai
      ≡ some (fate (c.at_test ti ai) (c.at_stamp ti ai) a)
unfolding after_loop
loop_action c w start ti ai a h =
    subst
      (λ n.
        action_at (expire_tasks c 0 w.status.tasks (first_state c w start)).0 ti ai
        ≡ some (fate (c.at_test n ai) (c.at_stamp n ai) a))
      (from_zero ti) (tasks-fate c 0 w.status.tasks (first_state c w start) ti ai a h)

-- A workflow whose first action has a start time is processed without a panic. It becomes Timeout if
-- its global timeout is over or some running action's is, and is left as it was otherwise. Each action
-- is left as it was, unless it runs, has a start time and is over its timeout: then it becomes Timeout,
-- with the message and the seconds since its start.
pub process_running_workflow-Outlived :
    {E : Type 0} (c : Clock) (w : Workflow) (start : ℤ)
    → get_start_time w ≡ some start
    → (w' : Workflow) × (process_running_workflow {E = E} c w ≡ ok w')
      × ((TimesOut c w start × (w'.status.state ≡ state_timeout))
          ⊎ ((¬ TimesOut c w start) × (w' ≡ w)))
      × ((ti ai : ℕ) (a : Action)
          → action_at w.status.tasks ti ai ≡ some a
          → Outlived (c.at_test ti ai) (c.at_stamp ti ai) a (action_at w'.status.tasks ti ai))
process_running_workflow-Outlived c w start e = (
  after_loop c w start,
  runs_to c w start e,
  loop_state c w start,
  λ ti ai a h.
      subst (Outlived (c.at_test ti ai) (c.at_stamp ti ai) a)
        (sym (loop_action c w start ti ai a h))
        (fate-Outlived (c.at_test ti ai) (c.at_stamp ti ai) a),
)
