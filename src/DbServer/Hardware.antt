-- ===== src/DbServer/Hardware.antt =====
-- server/dbserver_hardware.go, without `DeprecatedWatch`: the hardware service over db/hardware.go. The
-- package encoding/json and strings.ToLower are parameters.
pub mod Watch
pub mod Unique
pub mod Checked
pub mod Preserved
pub mod Answers
use tink.Prelude.{
  ℕ, String, Bool, true, false, not, ◌&&◌, Option, none, some, List, [], ◌∷◌, ◌++◌, map, str_eq,
  set, get_elem?, if◌then◌else◌,
}
use tink.Prelude.Int.{ℤ}
use tink.Prelude.Outcome.{Outcome, ok, err, crash, or_fail, ◌>>=◌, ◌>>◌}
use tink.Proto.Hardware.{Hardware, Interface, Network, Dhcp, interfaces_of, mac_of}
use tink.Db.Tables.{Faults, DbError, bad_input, wrapped}
use tink.Db.Hardware.{
  HardwareRow, Jsonb, insert_into_db, delete_from_db, get_by_mac, get_by_ip, get_by_id, get_all,
}

-- A `chan string` of capacity one.
pub record Channel : Type 0 where
  pub buffer : Option String
  pub closed : Bool

-- The state of a DBServer with its database. A nil map of watchers is `none`; a channel is its place in
-- the list of those made so far.
pub record Server : Type 0 where
  pub ready : Bool
  pub watch : Option (List (String × ℕ))
  pub channels : List Channel
  pub hardware : List HardwareRow

pub record Json : Type 0 where
  pub marshal : Hardware → Option String
  pub unmarshal : String → Option Hardware
  -- strings.ToLower
  pub to_lower : String → String

-- the map's entry, as `ch := s.watch[id]` reads it
unfoldable pub entry : String → List (String × ℕ) → Option ℕ
entry id [] = none
entry id ((i, c) ∷ rest) = let more = entry id rest in if str_eq i id then some c else more

abbrev pub channel_of : String → Option (List (String × ℕ)) → Option ℕ
channel_of id none = none
channel_of id (some entries) = entry id entries

-- `select { case ch <- text: default: }`: a send to a closed channel panics, to a full one is skipped
abbrev pub send_to : ℕ → String → Channel → Server → Outcome DbError Server
send_to c text ch s = if ch.closed then crash else elim ch.buffer [
  | some waiting ↦ ok s
  | none ↦ ok (record s { channels = set s.channels c (record ch { buffer = some text }) })
]

unfoldable pub notify : String → String → Server → Outcome DbError Server
unfolding entry
notify id text s = elim (channel_of id s.watch) [
  | none ↦ ok s
  | some c ↦ elim (get_elem? s.channels c) [ none ↦ ok s | some ch ↦ send_to c text ch s ]
]

-- the state and the answer of a handler that ends with `notify`
abbrev pub answer :
    Outcome DbError Server → Server → Option DbError → Server × Outcome DbError (Unit {0})
answer (ok s') s none = (s', ok tt)
answer (ok s') s (some e) = (s', err e)
answer (err e) s end = (s, err e)
answer crash s end = (s, crash)

abbrev pub error_of {ℓ} : {A : Type ℓ} → Outcome DbError A → Option DbError
error_of (ok a) = none
error_of (err e) = some e
error_of crash = none

abbrev pub rows_after : Outcome DbError (List HardwareRow) → List HardwareRow → List HardwareRow
rows_after (ok rows') rows = rows'
rows_after _ rows = rows

abbrev pub text_of : Option String → String
text_of none = ""
text_of (some text) = text

module _ (j : Json) where
  abbrev pub lower_mac : Dhcp → Dhcp
  lower_mac d = if str_eq d.mac "" then d else record d { mac = j.to_lower d.mac }

  abbrev pub normalize_interface : Interface → Interface
  normalize_interface i = elim i.dhcp [ none ↦ i | some d ↦ record i { dhcp = some (lower_mac d) } ]

  unfoldable pub normalize_hardware_data : Hardware → Hardware
  normalize_hardware_data hw = elim hw.network [
    | none ↦ hw
    | some n ↦ record hw {
      network = some (record { interfaces = map normalize_interface n.interfaces });
    }
  ]

-- `data, _ := s.db.GetByMAC(ctx, mac)`
abbrev pub data_of : Outcome DbError String → String
data_of (ok text) = text
data_of _ = ""

module _ (k : Jsonb) (j : Json) (f : Faults) (rows : List HardwareRow) where
  -- The loop of `validateHardwareData`: an error, or nothing.
  unfoldable pub validate_interfaces : Hardware → List Interface → Option DbError
  unfolding get_by_mac
  validate_interfaces hw [] = none
  validate_interfaces hw (i ∷ rest) =
      let text = data_of (get_by_mac k f (mac_of i.dhcp) rows) in
      let more = validate_interfaces hw rest in
      if str_eq text "" then more else elim (j.unmarshal text) [
        | none ↦ some (bad_input "json")
        | some new_hw ↦
            if str_eq new_hw.id hw.id
            then none
            else some (bad_input "conflicting hardware MAC address")
      ]

  abbrev pub validate_hardware_data : Hardware → Option DbError
  validate_hardware_data hw = validate_interfaces hw (interfaces_of hw.network)

module _ (k : Jsonb) (j : Json) (f : Faults) where
  abbrev pub pushed :
      Hardware
      → String
      → Outcome DbError (List HardwareRow)
      → Server
      → Server × Outcome DbError (Unit {0})
  pushed hw text end s =
      let s' = record s { hardware = rows_after end s.hardware } in
      answer (notify hw.id text s') s' (error_of end)

  unfoldable pub push : ℤ → Option Hardware → Server → Server × Outcome DbError (Unit {0})
  unfolding normalize_hardware_data validate_interfaces insert_into_db notify
  push now none s = (s, err (bad_input "expected data not to be nil"))
  push now (some hw) s =
      if str_eq hw.id ""
      then (s, err (bad_input "id must be set to a UUID"))
      else let hw' = normalize_hardware_data j hw in
        let text = text_of (j.marshal hw') in
        elim (validate_hardware_data k j f s.hardware hw') [
          | some e ↦ (s, err e)
          | none ↦ pushed hw' text (insert_into_db k f text now s.hardware) s
        ]

  unfoldable pub delete : ℤ → String → Server → Server × Outcome DbError (Unit {0})
  unfolding delete_from_db notify
  delete now id s =
      if str_eq id ""
      then (s, err (bad_input "id must be set to a UUID"))
      else let end = delete_from_db k f id now s.hardware in
        let s' = record s { hardware = rows_after end s.hardware } in
        answer (notify id id s') s' (error_of end)

  unfoldable pub by : Bool → Outcome DbError String → Outcome DbError Hardware
  by ready found = do
    text ← found
    if str_eq text "" && not ready then some (bad_input "DB is not ready") else none
    or_fail (j.unmarshal text) (bad_input "json")

  abbrev pub by_mac : String → Server → Outcome DbError Hardware
  by_mac mac s = by s.ready (get_by_mac k f mac s.hardware)

  abbrev pub by_ip : String → Server → Outcome DbError Hardware
  by_ip ip s = by s.ready (get_by_ip k f ip s.hardware)

  abbrev pub by_id : String → Server → Outcome DbError Hardware
  by_id id s = by s.ready (get_by_id k f id s.hardware)

  -- The callback of `All`, with the hardware sent so far; `send` is what the stream answers next.
  abbrev pub send_hardware :
      (List Hardware → Option DbError) → List Hardware → String → List Hardware × Option DbError
  send_hardware send sent text = elim (j.unmarshal text) [
    | none ↦ (sent, some (bad_input "json"))
    | some hw ↦ elim (send sent) [ none ↦ (sent ++ hw ∷ [], none) | some e ↦ (sent, some e) ]
  ]

  unfoldable pub all : (List Hardware → Option DbError) → Server → List Hardware × Option DbError
  unfolding get_all
  all send s =
      if s.ready
      then get_all f (send_hardware send) [] s.hardware
      else ([], some (bad_input "DB is not ready"))
