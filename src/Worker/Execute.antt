-- ===== src/Worker/Execute.antt =====
-- `execute` and `executeReaction`, with the container manager of container_manager.go. What Docker
-- answers is a parameter. A list of a message is nil exactly when it is empty.
use tink.Prelude.{
  ℕ, ◌↔◌, ◌≡◌, refl, String, Bool, true, false, Option, none, some, List, [], ◌∷◌, ◌==◌,
  if◌then◌else◌, arith, Option-cases, inl, inr, ◌⊎◌,
}
use tink.Prelude.Int.{ℤ, pos, ltb_ℤ}
use tink.Prelude.Time.{seconds}
use tink.Proto.{State, running, failed, timeout, success, WorkflowAction}

-- How a wait for a container ends: it exits with a code, the wait fails, or the context is done first.
pub data Ending : Type 0 where
  exit_code : ℕ → Ending
  wait_error done : String → Ending

-- The answers of the Docker client about one container.
pub record Container : Type 0 where
  pub create : Option String
  pub start : Option String
  pub inspect : Option String
  pub wait : Ending

-- What Docker answers for the action's container, within a time limit, and for that of the reaction.
pub record Docker : Type 0 where
  pub pull : Option String
  pub action : ℤ → Container
  pub reaction : Container

-- What `execute` did: the commands of the containers that it created, its state and its error.
pub record Execution : Type 0 where
  pub commands : List (List String)
  pub state : State
  pub error : Option String

abbrev pub state_of_code : ℕ → State
state_of_code code = if code == 0 then success else failed

-- a failing inspection is no error
unfoldable pub wait_for_container : Container → State × Option String
wait_for_container c = elim c.inspect [
  | some e ↦ (failed, none)
  | none ↦ elim c.wait [
    | exit_code code ↦ (state_of_code code, none)
    | wait_error e ↦ (failed, some e)
    | done e ↦ (timeout, some e)
  ]
]

-- the time limit of an action, an hour if it names none
unfoldable pub time_limit : ℤ → ℤ
unfolding seconds ltb_ℤ
time_limit limit = if ltb_ℤ (pos 0) limit then seconds limit else seconds (pos 3600)

-- An error of the reaction's container is only logged, so its command is all that is left of it.
unfoldable pub execute_reaction : Container → List String → List (List String)
execute_reaction c command = elim c.create [ some e ↦ [] | none ↦ command ∷ [] ]

abbrev pub is_timeout : State → Bool
is_timeout timeout = true
is_timeout _ = false

abbrev pub is_success : State → Bool
is_success success = true
is_success _ = false

abbrev pub is_nil : List String → Bool
is_nil [] = true
is_nil (s ∷ rest) = false

-- the reaction to a state that is no success
unfoldable pub react : Container → WorkflowAction → State → List (List String)
unfolding execute_reaction
react c a state =
    if is_timeout state
    then if is_nil a.on_timeout
      then if is_nil a.on_failure then [] else execute_reaction c a.on_failure
      else execute_reaction c a.on_timeout
    else if is_nil a.on_failure
    then []
    else execute_reaction c a.on_failure

-- after the wait, which gave a state and an error
unfoldable pub ended : Docker → WorkflowAction → State × Option String → Execution
unfolding react
ended d a (state, some e) = record { commands = a.command ∷ []; state = state; error = some e }
ended d a (state, none) = record {
  commands = a.command ∷ (if is_success state then [] else react d.reaction a state);
  state = state;
  error = none;
}

-- an execution that was cut off by an error before the wait
abbrev pub cut_off : List (List String) → String → Execution
cut_off commands e = record { commands = commands; state = running; error = some e }

unfoldable pub execute : Docker → WorkflowAction → Execution
unfolding time_limit wait_for_container ended
execute d a =
    let c = d.action (time_limit a.timeout) in
    elim d.pull [
      | some e ↦ cut_off [] e
      | none ↦ elim c.create [
        | some e ↦ cut_off [] e
        | none ↦ elim c.start [
          | some e ↦ cut_off (a.command ∷ []) e
          | none ↦ ended d a (wait_for_container c)
        ]
      ]
    ]

-- A wait that times out returns an error too.
wait-timeout :
    (c : Container) (d : Docker) (a : WorkflowAction)
    → ended d a (wait_for_container c)
      ≡ ended d (record a { on_timeout = [] }) (wait_for_container c)
unfolding wait_for_container ended react
wait-timeout c d a = elim (Option-cases c.inspect) [
  | inr (e, i) ↦ ground arith
  | inl i ↦ ground arith
]

-- The on-timeout command of an action changes nothing, whatever Docker answers: without it, the same
-- commands run and the result is the same.
pub execute-on_timeout :
    (d : Docker) (a : WorkflowAction) → execute d a ≡ execute d (record a { on_timeout = [] })
unfolding execute
execute-on_timeout d a = ground (arith, wait-timeout (d.action (time_limit a.timeout)) d a)

-- Everything that Docker is asked for the action's container goes well.
pub record IsSmooth (d : Docker) (a : WorkflowAction) : Type 0 where
  pub pulled : d.pull ≡ none
  pub created : (d.action (time_limit a.timeout)).create ≡ none
  pub started : (d.action (time_limit a.timeout)).start ≡ none
  pub inspected : (d.action (time_limit a.timeout)).inspect ≡ none
  pub exited : (d.action (time_limit a.timeout)).wait ≡ exit_code 0

Ending-cases :
    (w : Ending)
    → ((n : ℕ) × (w ≡ exit_code n))
      ⊎ (((e : String) × (w ≡ wait_error e)) ⊎ ((e : String) × (w ≡ done e)))
Ending-cases (exit_code n) = inl (n, refl)
Ending-cases (wait_error e) = inr (inl (e, refl))
Ending-cases (done e) = inr (inr (e, refl))

waited :
    (d : Docker) (a : WorkflowAction) (c : Container)
    → (ended d a (wait_for_container c)).state ≡ success
    → (ended d a (wait_for_container c)).error ≡ none
    → (c.inspect ≡ none) × (c.wait ≡ exit_code 0)
unfolding ended wait_for_container
waited d a c s e = elim (Option-cases c.inspect) [
  | inr (x, i) ↦ absurd (ground arith)
  | inl i ↦ elim (Ending-cases c.wait) [
    | inl (n, w) ↦ (i, ground arith)
    | inr (inl (x, w)) ↦ absurd (ground arith)
    | inr (inr (x, w)) ↦ absurd (ground arith)
  ]
]

smooth→ :
    (d : Docker) (a : WorkflowAction)
    → ((execute d a).state ≡ success) × ((execute d a).error ≡ none)
    → IsSmooth d a
unfolding execute
smooth→ d a (s, e) = elim (Option-cases d.pull) [
  | inr (x, p) ↦ absurd (ground arith)
  | inl p ↦ elim (Option-cases (d.action (time_limit a.timeout)).create) [
    | inr (x, c) ↦ absurd (ground arith)
    | inl c ↦ elim (Option-cases (d.action (time_limit a.timeout)).start) [
      | inr (x, t) ↦ absurd (ground arith)
      | inl t ↦
          let (i, w) = waited d a (d.action (time_limit a.timeout)) (ground arith) (ground arith) in
          record { pulled = p; created = c; started = t; inspected = i; exited = w }
    ]
  ]
]

smooth← :
    (d : Docker) (a : WorkflowAction)
    → IsSmooth d a
    → ((execute d a).state ≡ success) × ((execute d a).error ≡ none)
unfolding execute ended wait_for_container
smooth← d a h = ground (arith, h.pulled, h.created, h.started, h.inspected, h.exited)

-- An action ends well exactly when its image is pulled, its container is created, started and
-- inspected without an error, and exits with code 0 within the action's time limit.
pub execute-IsSmooth :
    (d : Docker) (a : WorkflowAction)
    → (((execute d a).state ≡ success) × ((execute d a).error ≡ none)) ↔ IsSmooth d a
execute-IsSmooth d a = (smooth→ d a, smooth← d a)
