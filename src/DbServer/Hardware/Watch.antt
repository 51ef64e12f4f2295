-- ===== src/DbServer/Hardware/Watch.antt =====
-- `DeprecatedWatch` of server/dbserver_hardware.go: one goroutine for each watcher, with a channel that
-- the map `watch` has under the machine's id. A step is what a goroutine does at once.
pub mod Entries
pub mod Open
pub mod Calls
pub mod Moves
pub mod Reachable
use tink.Prelude.{
  ℕ, ◌≡◌, String, Bool, true, false, Option, none, some, List, [], ◌∷◌, ◌++◌, str_eq, set,
  get_elem?, length, if◌then◌else◌,
}
use tink.Prelude.Outcome.{Outcome, ok, err, crash, or_fail, ◌>>=◌}
use tink.Proto.Hardware.{Hardware}
use tink.Db.Tables.{DbError, bad_input}
use tink.Convert.{put}
use tink.DbServer.Hardware.{Channel, Server, Json, entry, notify}

-- Where a watcher is: at the select, after a return with `disconnect` set, after the deletion from the
-- map, or at its end.
pub data Phase : Type 0 where
  waiting leaving closing gone : Phase

pub record Watcher : Type 0 where
  pub id : String
  pub channel : ℕ
  pub phase : Phase

pub record Watching : Type 0 where
  pub server : Server
  pub watchers : List Watcher

-- `close(ch)`, which panics on a closed channel
unfoldable pub close_channel : ℕ → List Channel → Outcome DbError (List Channel)
close_channel c channels = elim (get_elem? channels c) [
  | none ↦ crash
  | some ch ↦ if ch.closed then crash else ok (set channels c (record ch { closed = true }))
]

-- `delete(s.watch, id)`
unfoldable pub drop_entry : String → List (String × ℕ) → List (String × ℕ)
drop_entry id [] = []
drop_entry id ((i, c) ∷ rest) =
    let more = drop_entry id rest in if str_eq i id then more else (i, c) ∷ more

abbrev pub drop_from : String → Option (List (String × ℕ)) → Option (List (String × ℕ))
drop_from id none = none
drop_from id (some entries) = some (drop_entry id entries)

-- a watcher that is there already is evicted
abbrev pub evict : Option ℕ → List Channel → Outcome DbError (List Channel)
evict none channels = ok channels
evict (some old) channels = close_channel old channels

abbrev pub new_channel : Channel
new_channel = record { buffer = none; closed = false }

abbrev pub registered : String → List (String × ℕ) → List Channel → Watching → Watching
registered id entries channels w =
    let c = length channels in
    record {
      server = record w.server {
        watch = some (put id c entries);
        channels = channels ++ new_channel ∷ [];
      };
      watchers = w.watchers ++ record { id = id; channel = c; phase = waiting } ∷ [];
    }

-- The call up to its loop. A write to a nil map panics.
unfoldable pub register : String → Watching → Outcome DbError Watching
unfolding entry close_channel
register id w = elim w.server.watch [
  | none ↦ crash
  | some entries ↦ evict (entry id entries) w.server.channels >>= λ channels.
      ok (registered id entries channels w)
]

-- A step that the goroutine cannot take now.
abbrev pub blocked {ℓ} : {A : Type ℓ} → Outcome DbError A
blocked = err (bad_input "blocked")

abbrev pub move : ℕ → Watcher → Phase → Watching → Watching
move n x phase w = record w { watchers = set w.watchers n (record x { phase = phase }) }

-- the phase after a value: `json.Unmarshal` or `stream.Send` may fail
abbrev pub phase_after : Option Hardware → Bool → Phase
phase_after none sent = leaving
phase_after (some hw) sent = if sent then waiting else leaving

-- `case j, ok := <-ch`; a closed channel gives its value first
unfoldable pub receive : Json → Bool → ℕ → Watcher → Watching → Outcome DbError Watching
receive j sent n x w = elim (get_elem? w.server.channels x.channel) [
  | none ↦ blocked
  | some ch ↦ elim ch.buffer [
    | some text ↦ ok (
        move n x (phase_after (j.unmarshal text) sent) (record w {
          server = record (w.server) {
            channels = set w.server.channels x.channel (record ch { buffer = none });
          };
        }))
    | none ↦ if ch.closed then ok (move n x gone w) else blocked
  ]
]

-- the deferred function: the deletion under the lock, then the close
unfoldable pub leave_map : ℕ → Watcher → Watching → Watching
unfolding drop_entry
leave_map n x w =
    move n x closing
      (record w { server = record (w.server) { watch = drop_from x.id w.server.watch } })

unfoldable pub close_own : ℕ → Watcher → Watching → Outcome DbError Watching
unfolding close_channel
close_own n x w = close_channel x.channel w.server.channels >>= λ channels.
    ok (move n x gone (record w { server = record (w.server) { channels = channels } }))

-- What can happen: a call, a push or a deletion that notifies, and the steps of the watcher at a place;
-- `disconnected` is the end of the server or of the client.
pub data Event : Type 0 where
  called : String → Event
  notified : String → String → Event
  received : Bool → ℕ → Event
  disconnected left closed : ℕ → Event

abbrev pub at_select : Phase → Outcome DbError Watching → Outcome DbError Watching
at_select waiting next = next
at_select _ next = blocked

abbrev pub at_defer : Phase → Outcome DbError Watching → Outcome DbError Watching
at_defer leaving next = next
at_defer _ next = blocked

abbrev pub at_close : Phase → Outcome DbError Watching → Outcome DbError Watching
at_close closing next = next
at_close _ next = blocked

-- a step of the watcher at a place
abbrev pub by_watcher :
    ℕ → Watching → (Watcher → Outcome DbError Watching) → Outcome DbError Watching
by_watcher n w go = elim (get_elem? w.watchers n) [ none ↦ blocked | some x ↦ go x ]

unfoldable pub step : Json → Event → Watching → Outcome DbError Watching
unfolding register receive leave_map close_own notify
step j (called id) w = register id w
step j (notified id text) w = notify id text w.server >>= λ s. ok (record w { server = s })
step j (received sent n) w = by_watcher n w (λ x. at_select x.phase (receive j sent n x w))
step j (disconnected n) w = by_watcher n w (λ x. at_select x.phase (ok (move n x leaving w)))
step j (left n) w = by_watcher n w (λ x. at_defer x.phase (ok (leave_map n x w)))
step j (closed n) w = by_watcher n w (λ x. at_close x.phase (close_own n x w))

-- The states that a run passes through, whatever the order of its steps.
pub data Reached (j : Json) (start : Watching) : Watching → Type 0 where
  begun : Reached j start start
  stepped :
      (e : Event) (w w' : Watching) → Reached j start w → step j e w ≡ ok w' → Reached j start w'
