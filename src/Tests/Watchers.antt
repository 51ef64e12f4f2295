-- ===== src/Tests/Watchers.antt =====
-- Tests of the watchers of the hardware service.
use tink.Prelude.{◌⊎◌, inl, String, ◌≡◌, refl, true, false, none, some, [], ◌∷◌}
use tink.Prelude.Outcome.{ok, crash}
use tink.DbServer.Hardware.{Server, notify}
use tink.DbServer.Hardware.Watch.{Watching, waiting, begun, stepped, called, notified, step}
use tink.DbServer.Hardware.Watch.Reachable.{notify-Reached}
use tink.Convert.{put}
use tink.Tests.Machines.{json, server_of}

-- one watcher of the machine 1, and a push of it
abbrev watched : Watching
watched = record {
  server = record {
    ready = true;
    watch = some (("1", 0) ∷ []);
    channels = record { buffer = none; closed = false } ∷ [];
    hardware = [];
  };
  watchers = record { id = "1"; channel = 0; phase = waiting } ∷ [];
}

abbrev start : Watching
start = record { server = server_of []; watchers = [] }

watched-step : step json (called "1") start ≡ ok watched
unfolding step put
watched-step = refl

one_watcher_notified : (s : Server) × (notify "1" "one" watched.server ≡ ok s)
unfolding notify
one_watcher_notified = (_, refl)

-- the server as NewDBServer leaves it, before and after a notification
abbrev made : Server
made = record (server_of []) { watch = none }

abbrev unwatched : Watching
unwatched = record { server = made; watchers = [] }

notified-step : step json (notified "1" "one") unwatched ≡ ok unwatched
unfolding step
notified-step = refl

notify-Reached_example :
    ((id text : String) → (s : Server) × (notify id text made ≡ ok s))
    × ((made.watch ≡ some [])
        ⊎ ((unwatched ≡ record { server = made; watchers = [] })
            × ((id : String) → step json (called id) unwatched ≡ crash)))
notify-Reached_example =
    notify-Reached json made unwatched (inl refl)
      (stepped (notified "1" "one") unwatched unwatched begun notified-step)
