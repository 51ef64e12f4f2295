-- ===== src/Db/Workflows/Events.antt =====
-- The order of the events that `ShowWorkflowEvents` shows.
use tink.Prelude.{
  ◌≡◌, sym, ap, ◌∙◌, String, true, false, Option, none, List, [], ◌∷◌, ◌++◌, append_assoc,
  append-nil, All, arith, Bool-cases, inl, inr,
}
use mathlib.Core.Path.{subst}
use mathlib.Core.List.{Perm}
use mathlib.Core.List.Perm
use tink.Prelude.Int.{ℤ, ltb_ℤ}
use tink.Db.Tables.{Tables, EventRow, Faults, DbError, select}
use tink.Db.Workflows.{insert_event, sort_events, events_of, each_event, show_workflow_events}

ltb_ℤ-trans : (a b c : ℤ) → ltb_ℤ b a ≡ false → ltb_ℤ c b ≡ false → ltb_ℤ c a ≡ false
unfolding ltb_ℤ
ltb_ℤ-trans a b c h g = ground arith

ltb_ℤ-asym : (a b : ℤ) → ltb_ℤ a b ≡ true → ltb_ℤ b a ≡ false
unfolding ltb_ℤ
ltb_ℤ-asym a b h = ground arith

-- not before the time
abbrev IsAfter : ℤ → EventRow → Type 0
IsAfter t x = ltb_ℤ x.created_at t ≡ false

-- no event stands before an earlier one
abbrev pub IsOrdered : List EventRow → Type 0
IsOrdered [] = Unit
IsOrdered (e ∷ rest) = All (λ x. ltb_ℤ x.created_at e.created_at ≡ false) rest × IsOrdered rest

All-later :
    (a b : ℤ) (xs : List EventRow) → ltb_ℤ b a ≡ false → All (IsAfter b) xs → All (IsAfter a) xs
All-later a b [] h g = tt
All-later a b (x ∷ xs) h g = (ltb_ℤ-trans a b x.created_at h g.0, All-later a b xs h g.1)

All-insert :
    (t : ℤ) (e : EventRow) (xs : List EventRow)
    → IsAfter t e
    → All (IsAfter t) xs
    → All (IsAfter t) (insert_event e xs)
unfolding insert_event
All-insert t e [] h g = (h, tt)
All-insert t e (x ∷ xs) h g = elim (Bool-cases (ltb_ℤ x.created_at e.created_at)) [
  | inl b ↦ ground (arith, b, All-insert t e xs h g.1)
  | inr b ↦ ground (arith, b)
]

insert_event-IsOrdered :
    (e : EventRow) (xs : List EventRow) → IsOrdered xs → IsOrdered (insert_event e xs)
unfolding insert_event
insert_event-IsOrdered e [] h = (tt, tt)
insert_event-IsOrdered e (x ∷ xs) h = elim (Bool-cases (ltb_ℤ x.created_at e.created_at)) [
  | inl b ↦
      let later = All-insert x.created_at e xs (ltb_ℤ-asym x.created_at e.created_at b) h.0 in
      ground (arith, b, later, insert_event-IsOrdered e xs h.1)
  | inr b ↦ let later = All-later e.created_at x.created_at xs b h.0 in ground (arith, b, later)
]

sort_events-IsOrdered : (xs : List EventRow) → IsOrdered (sort_events xs)
unfolding sort_events
sort_events-IsOrdered [] = tt
sort_events-IsOrdered (e ∷ xs) =
    insert_event-IsOrdered e (sort_events xs) (sort_events-IsOrdered xs)

insert_event-Perm : (e : EventRow) (xs : List EventRow) → Perm (insert_event e xs) (e ∷ xs)
unfolding insert_event
insert_event-Perm e [] = Perm.refl (e ∷ [])
insert_event-Perm e (x ∷ xs) = elim (Bool-cases (ltb_ℤ x.created_at e.created_at)) [
  | inl b ↦
      subst (λ l. Perm l (e ∷ x ∷ xs)) ground (arith, b)
        (Perm.trans (Perm.cons x (insert_event-Perm e xs)) (Perm.swap e x xs))
  | inr b ↦ subst (λ l. Perm l (e ∷ x ∷ xs)) ground (arith, b) (Perm.refl (e ∷ x ∷ xs))
]

sort_events-Perm : (xs : List EventRow) → Perm (sort_events xs) xs
unfolding sort_events
sort_events-Perm [] = Perm.refl []
sort_events-Perm (e ∷ xs) =
    Perm.trans (insert_event-Perm e (sort_events xs)) (Perm.cons e (sort_events-Perm xs))

-- a callback that collects what it is given
abbrev pub collect : List EventRow → EventRow → List EventRow × Option DbError
collect seen e = (seen ++ e ∷ [], none)

each_event-collect : (seen xs : List EventRow) → each_event collect seen xs ≡ (seen ++ xs, none)
unfolding each_event
each_event-collect seen [] = ap (λ x. (x, none)) (sym (append-nil seen))
each_event-collect seen (e ∷ xs) =
    each_event-collect (seen ++ e ∷ []) xs ∙ ap (λ x. (x, none)) (append_assoc seen (e ∷ []) xs)

-- The callback is given exactly the events of the workflow, none before an earlier one, if the query
-- answers and the callback does not fail.
pub show_workflow_events-IsOrdered :
    (f : Faults) (id : String) (t : Tables)
    → f select ≡ none
    → (shown : List EventRow) × (show_workflow_events f collect [] id t ≡ (shown, none))
      × IsOrdered shown
      × Perm shown (events_of id t.workflow_event)
unfolding show_workflow_events
show_workflow_events-IsOrdered f id t s =
    let events = events_of id t.workflow_event in
    (
      sort_events events,
      ground (arith, s, each_event-collect [] (sort_events events)),
      sort_events-IsOrdered events,
      sort_events-Perm events,
    )
