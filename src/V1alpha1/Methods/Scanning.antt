-- ===== src/V1alpha1/Methods/Scanning.antt =====
-- The loops of `getTaskActionInfo`: what they leave in the variables.
use tink.Prelude.{ℕ, suc, ◌+◌, ◌≡◌, true, false, some, List, [], ◌∷◌, ◌++◌, arith, length, All}
use tink.V1alpha1.Types.{Action, Task}
use tink.V1alpha1.Methods.{Scan, is_unfinished, add_success, scan_actions, scan_tasks}

abbrev pub Passed : Action → Type 0
Passed a = is_unfinished a.status ≡ false

abbrev pub TaskPassed : Task → Type 0
TaskPassed t = All Passed t.actions

-- how many actions have succeeded
abbrev pub successes : List Action → ℕ
successes [] = 0
successes (a ∷ rest) = add_success a.status (successes rest)

abbrev pub successes_of_tasks : List Task → ℕ
successes_of_tasks [] = 0
successes_of_tasks (t ∷ rest) = successes t.actions + successes_of_tasks rest

abbrev pub count_actions : List Task → ℕ
count_actions [] = 0
count_actions (t ∷ rest) = length t.actions + count_actions rest

pub scan_actions-Passed :
    (ti ai : ℕ) (acts : List Action) (s : Scan)
    → All Passed acts
    → scan_actions ti ai acts s ≡ record s { action_index = s.action_index + successes acts }
unfolding scan_actions
scan_actions-Passed ti ai [] s h = ground arith
scan_actions-Passed ti ai (a ∷ rest) s h = ground (
  arith,
  scan_actions-Passed ti (suc ai) rest
      (record s { action_index = add_success a.status s.action_index }),
)

pub scan_actions-stop :
    (ti ai : ℕ) (pre : List Action) (a : Action) (post : List Action) (s : Scan)
    → All Passed pre
    → is_unfinished a.status ≡ true
    → scan_actions ti ai (pre ++ a ∷ post) s ≡ record s {
      found = true;
      task_index = some ti;
      action_index = s.action_index + successes pre;
      action_task_index = ai + length pre;
    }
unfolding scan_actions
scan_actions-stop ti ai [] a post s h u = ground arith
scan_actions-stop ti ai (b ∷ pre) a post s h u = ground (
  arith,
  scan_actions-stop ti (suc ai) pre a post
      (record s { action_index = add_success b.status s.action_index }),
)

pub scan_tasks-passed :
    (ti : ℕ) (ts rest : List Task) (s : Scan)
    → All TaskPassed ts
    → s.found ≡ false
    → scan_tasks ti (ts ++ rest) s
      ≡ scan_tasks (ti + length ts) rest (record s {
        action_index = s.action_index + successes_of_tasks ts;
        action_count = s.action_count + count_actions ts;
      })
unfolding scan_tasks
scan_tasks-passed ti [] rest s h f = ground arith
scan_tasks-passed ti (t ∷ ts) rest s h f = ground (
  arith,
  scan_actions-Passed ti 0 t.actions (record s { action_count = s.action_count + length t.actions })
      h.0,
  scan_tasks-passed (suc ti) ts rest
      (record s {
        action_index = s.action_index + successes t.actions;
        action_count = s.action_count + length t.actions;
      })
      h.1,
)

pub scan_tasks-found :
    (ti : ℕ) (ts : List Task) (s : Scan)
    → s.found ≡ true
    → scan_tasks ti ts s ≡ record s { action_count = s.action_count + count_actions ts }
unfolding scan_tasks
scan_tasks-found ti [] s f = ground arith
scan_tasks-found ti (t ∷ ts) s f = ground (
  arith,
  scan_tasks-found (suc ti) ts (record s { action_count = s.action_count + length t.actions }),
)

pub count_actions-append :
    (ts us : List Task) → count_actions (ts ++ us) ≡ count_actions ts + count_actions us
count_actions-append [] us = omega arith
count_actions-append (t ∷ ts) us = omega (arith, count_actions-append ts us)
