-- ===== src/Controllers/Workflow/Running.antt =====
-- What happens to the actions and the state of a running workflow.
use tink.Prelude.{
  ℕ, suc, ◌≡◌, refl, ap, true, none, some, List, [], ◌∷◌, arith, Option-cases, inl, inr, ◌⊎◌,
}
use tink.Prelude.Int.{ℤ}
use tink.Prelude.Time.{seconds_since}
use tink.Proto.{
  WorkflowState, state_pending, state_running, state_failed, state_success, state_timeout, blank,
}
use tink.V1alpha1.Types.{Action, Task}
use tink.Controllers.Workflow.{Clock, is_running, is_over, expire, expire_actions, expire_tasks}

-- An action that runs and whose time is over at an instant.
pub record IsExpired (now : ℤ) (a : Action) : Type 0 where
  pub start : ℤ
  pub runs : a.status ≡ state_running
  pub started : a.started_at ≡ some start
  pub over : is_over now start a.timeout ≡ true

-- the action with the fields of a timeout
abbrev pub timed_out : ℤ → ℤ → Action → Action
timed_out stamp start a = record a {
  status = state_timeout;
  message = "Action timed out";
  seconds = seconds_since stamp start;
}

is_running-eq : (s : WorkflowState) → is_running s ≡ true → s ≡ state_running
is_running-eq state_running h = refl
is_running-eq state_pending h = absurd (ground arith)
is_running-eq state_failed h = absurd (ground arith)
is_running-eq state_success h = absurd (ground arith)
is_running-eq state_timeout h = absurd (ground arith)
is_running-eq blank h = absurd (ground arith)

pub expire-none : (now stamp : ℤ) (a : Action) → expire now stamp a ≡ none → ¬ IsExpired now a
unfolding expire
expire-none now stamp a h x = ground (arith, x.runs, x.started, x.over, ap is_running x.runs)

pub expire-some :
    (now stamp : ℤ) (a a' : Action)
    → expire now stamp a ≡ some a'
    → (x : IsExpired now a) × (a' ≡ timed_out stamp x.start a)
unfolding expire
expire-some now stamp a a' h = elim (Option-cases a.started_at) [
  | inl e ↦ absurd (ground arith)
  | inr (s, e) ↦
      let runs : is_running a.status ≡ true = ground arith in
      (
        record { start = s; runs = is_running-eq a.status runs; started = e; over = ground arith },
        ground arith,
      )
]

-- some action of the list expires, the first one being the action `ai` of the task `ti`
abbrev pub SomeExpired : Clock → ℕ → ℕ → List Action → Type 0
SomeExpired c ti ai [] = ⊥
SomeExpired c ti ai (a ∷ rest) = IsExpired (c.at_test ti ai) a ⊎ SomeExpired c ti (suc ai) rest

abbrev pub SomeTaskExpired : Clock → ℕ → List Task → Type 0
SomeTaskExpired c ti [] = ⊥
SomeTaskExpired c ti (t ∷ rest) = SomeExpired c ti 0 t.actions ⊎ SomeTaskExpired c (suc ti) rest

abbrev pub Verdict {ℓ} : {A : Type ℓ} → Type 0 → A → WorkflowState → A × WorkflowState → Type ℓ
Verdict expired same state after =
    (expired × (after.1 ≡ state_timeout)) ⊎ ((¬ expired) × (after ≡ (same, state)))

actions-Verdict :
    (c : Clock) (ti ai : ℕ) (acts : List Action) (state : WorkflowState)
    → Verdict (SomeExpired c ti ai acts) acts state (expire_actions c ti ai acts state)
unfolding expire_actions
actions-Verdict c ti ai [] state = inr ((λ x. x), refl)
actions-Verdict c ti ai (a ∷ rest) state =
    elim (Option-cases (expire (c.at_test ti ai) (c.at_stamp ti ai) a)) [
      | inl e ↦ elim (actions-Verdict c ti (suc ai) rest state) [
        | inl (x, y) ↦ inl (inr x, ground arith)
        | inr (n, y) ↦
            inr ((λ z. elim z [ inl u ↦ expire-none _ _ a e u | inr v ↦ n v ]), ground arith)
      ]
      | inr (a', e) ↦ inl (
        inl (expire-some _ _ a a' e).0,
        elim (actions-Verdict c ti (suc ai) rest state_timeout) [
          | inl (x, y) ↦ ground arith
          | inr (n, y) ↦ ground arith
        ],
      )
    ]

pub tasks-Verdict :
    (c : Clock) (ti : ℕ) (ts : List Task) (state : WorkflowState)
    → Verdict (SomeTaskExpired c ti ts) ts state (expire_tasks c ti ts state)
unfolding expire_tasks
tasks-Verdict c ti [] state = inr ((λ x. x), refl)
tasks-Verdict c ti (t ∷ rest) state =
    let mid = (expire_actions c ti 0 t.actions state).1 in
    elim (actions-Verdict c ti 0 t.actions state) [
      | inl (x, y) ↦ inl (
        inl x,
        elim (tasks-Verdict c (suc ti) rest mid) [
          | inl (u, v) ↦ ground arith
          | inr (n, v) ↦ ground arith
        ],
      )
      | inr (n, y) ↦ elim (tasks-Verdict c (suc ti) rest mid) [
        | inl (u, v) ↦ inl (inr u, ground arith)
        | inr (m, v) ↦ inr ((λ z. elim z [ inl p ↦ n p | inr q ↦ m q ]), ground arith)
      ]
    ]
