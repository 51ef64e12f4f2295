-- ===== src/DbServer/Hardware/Watch/Reachable.antt =====
-- Every step of the watchers and of the calls keeps the map of channels sound.
use tink.Prelude.{◌≡◌, ◌⊎◌, sym, none, inl, inr, refl, ap, ◌∙◌, String, some, [], arith}
use mathlib.Core.Path.{subst}
use mathlib.Core.Bool.{false≢true}
use tink.Db.Tables.{DbError}
use tink.Prelude.Outcome.{Outcome, ok, crash, Outcome-cases, ◌>>=◌}
use tink.DbServer.Hardware.{Server, Json, entry, notify}
use tink.DbServer.Hardware.Watch.{
  register, leaving, Watching, receive, leave_map, close_own, move, Event, called, notified,
  received, disconnected, left, closed, step, Reached, begun, stepped, at_select, at_defer,
  at_close,
}
use tink.DbServer.Hardware.Watch.Calls.{IsKept, register-IsKept, notify-IsKept}
use tink.DbServer.Hardware.Watch.Open.{IsSound-phase}
use tink.DbServer.Hardware.Watch.Entries.{In-get}
use tink.DbServer.Hardware.Watch.Moves.{
  by_watcher-ok, at_select-ok, at_defer-ok, at_close-ok, receive-IsKept, leave_map-IsKept,
  close_own-IsKept,
}

notified-ok :
    (id text : String) (w w' : Watching)
    → (notify id text w.server >>= λ s. ok (record w { server = s })) ≡ ok w'
    → (s : Server) × (notify id text w.server ≡ ok s) × (record w { server = s } ≡ w')
notified-ok id text w w' h = elim (Outcome-cases (notify id text w.server)) [
  | inl (s, c) ↦ (s, c, ground (arith, c))
  | inr (inl (y, c)) ↦ absurd ground (arith, c)
  | inr (inr c) ↦ absurd ground (arith, c)
]

ok-eq : {A : Type 0} (a b : A) (m : Outcome DbError A) → m ≡ ok a → m ≡ ok b → a ≡ b
ok-eq a b m p q = ground arith

step-IsKept : (j : Json) (e : Event) (w w' : Watching) → IsKept w → step j e w ≡ ok w' → IsKept w'
unfolding step
step-IsKept j (called id) w w' k h = register-IsKept id w w' k h
step-IsKept j (notified id text) w w' k h =
    let (s, q, p) = notified-ok id text w w' h in
    let (s', q', k') = notify-IsKept id text w k in
    subst IsKept (ap (λ x. record w { server = x }) (ok-eq s' s (notify id text w.server) q' q) ∙ p)
      k'
step-IsKept j (received sent n) w w' k h =
    let (x, g, r) = by_watcher-ok n w w' (λ x. at_select x.phase (receive j sent n x w)) h in
    receive-IsKept j sent n x w w' (In-get w.watchers n x g) k
      (at_select-ok x.phase (receive j sent n x w) w' r)
step-IsKept j (disconnected n) w w' (es, e, s) h =
    let (x, g, r) = by_watcher-ok n w w' (λ x. at_select x.phase (ok (move n x leaving w))) h in
    subst IsKept (ok-eq _ _ _ refl (at_select-ok x.phase (ok (move n x leaving w)) w' r)) (
      es,
      e,
      IsSound-phase es w.server.channels w.watchers n x leaving s (In-get w.watchers n x g)
          (λ t. absurd (false≢true t)),
    )
step-IsKept j (left n) w w' k h =
    let (x, g, r) = by_watcher-ok n w w' (λ x. at_defer x.phase (ok (leave_map n x w))) h in
    subst IsKept (ok-eq _ _ _ refl (at_defer-ok x.phase (ok (leave_map n x w)) w' r))
      (leave_map-IsKept n x w (In-get w.watchers n x g) k)
step-IsKept j (closed n) w w' k h =
    let (x, g, r) = by_watcher-ok n w w' (λ x. at_close x.phase (close_own n x w)) h in
    let (c, o) = at_close-ok x.phase (close_own n x w) w' r in
    close_own-IsKept n x w w' (In-get w.watchers n x g) o k c

Reached-IsKept : (j : Json) (start w : Watching) → IsKept start → Reached j start w → IsKept w
Reached-IsKept j start w k begun = k
Reached-IsKept j start w k (stepped e v _ r h) =
    step-IsKept j e v w (Reached-IsKept j start v k r) h

empty-IsKept : (s : Server) → s.watch ≡ some [] → IsKept (record { server = s; watchers = [] })
unfolding entry
empty-IsKept s e = (
  [],
  e,
  record {
    usable = λ i c h. absurd ground arith;
    alone = λ i j c h g. absurd ground arith;
    made = λ x a. absurd a;
    named = λ x i a h. absurd a;
    out = λ x a. absurd a;
  },
)

abbrev at_start : Server → Watching
at_start s = record { server = s; watchers = [] }

-- With a nil map nothing that can happen changes anything.
nil-step :
    (j : Json) (e : Event) (s : Server) (w' : Watching)
    → s.watch ≡ none
    → step j e (at_start s) ≡ ok w'
    → w' ≡ at_start s
unfolding step register notify
nil-step j (called id) s w' n h = absurd ground (arith, n)
nil-step j (notified id text) s w' n h = ground (arith, n)
nil-step j (received sent k) s w' n h = absurd ground arith
nil-step j (disconnected k) s w' n h = absurd ground arith
nil-step j (left k) s w' n h = absurd ground arith
nil-step j (closed k) s w' n h = absurd ground arith

nil-Reached :
    (j : Json) (s : Server) (w : Watching)
    → s.watch ≡ none
    → Reached j (at_start s) w
    → w ≡ at_start s
nil-Reached j s w n begun = refl
nil-Reached j s w n (stepped e v _ r h) =
    nil-step j e s w n (subst (λ x. step j e x ≡ ok w) (nil-Reached j s v n r) h)

nil-called :
    (j : Json) (s : Server) (id : String) → s.watch ≡ none → step j (called id) (at_start s) ≡ crash
unfolding step register
nil-called j s id n = ground (arith, n)

nil-notify : (s : Server) (id text : String) → s.watch ≡ none → notify id text s ≡ ok s
unfolding notify
nil-notify s id text n = ground (arith, n)

-- However the calls of watchers, their ends and the notifications interleave, from a server without
-- watchers whose map is nil, as the server is made, or empty, a notification does not panic: it never
-- sends to a closed channel. If the map was nil, then nothing has changed, so that it still is, and
-- every call of a watcher panics.
pub notify-Reached :
    (j : Json) (s : Server) (w : Watching)
    → (s.watch ≡ none) ⊎ (s.watch ≡ some [])
    → Reached j (record { server = s; watchers = [] }) w
    → ((id text : String) → (s' : Server) × (notify id text w.server ≡ ok s'))
      × ((s.watch ≡ some [])
          ⊎ ((w ≡ record { server = s; watchers = [] })
              × ((id : String) → step j (called id) w ≡ crash)))
notify-Reached j s w (inl n) r =
    let same = nil-Reached j s w n r in
    (
      λ id text. (
        w.server,
        ap (notify id text) (ap (λ x. x.server) same)
            ∙ nil-notify s id text n
            ∙ ap ok (sym (ap (λ x. x.server) same)),
      ),
      inr (same, λ id. ap (step j (called id)) same ∙ nil-called j s id n),
    )
notify-Reached j s w (inr e) r = (
  λ id text.
      let (s', q, k) =
        notify-IsKept id text w (Reached-IsKept j (at_start s) w (empty-IsKept s e) r) in
      (s', q),
  inl e,
)
