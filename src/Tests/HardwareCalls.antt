-- ===== src/Tests/HardwareCalls.antt =====
-- Tests of the hardware table and of the hardware service.
use tink.Prelude.{
  ◌≡◌, ◌≢◌, ◌⊎◌, inl, inr, refl, sym, ap, String, Bool, true, false, none, some, List, [], ◌∷◌,
  arith, In,
}
use mathlib.Core.Path.{subst}
use tink.Prelude.Int.{pos}
use tink.Prelude.Outcome.{ok, err}
use tink.Proto.Hardware.{Hardware, Interface, interfaces_of, mac_of}
use tink.Db.Tables.{Faults, no_worker, bad_input}
use tink.Db.Hardware.{
  HardwareRow, Net, is_live, has_id, has_key, put_hardware, mark_hardware, insert_into_db,
  delete_from_db, get, get_by_id, get_by_mac, get_worker_id,
}
use tink.Db.Hardware.Lookup.{insert_into_db-get_by_id, delete_from_db-get}
use tink.DbServer.Hardware.{push, all, data_of, normalize_hardware_data, validate_interfaces}
use tink.Prelude.Plain.{is_plain}
use tink.DbServer.Hardware.Unique.{IsUnique, answers_to}
use tink.DbServer.Hardware.Preserved.{push-IsUnique}
use tink.DbServer.Hardware.Answers.{get_worker_id-cases, all-machines, machines}
use tink.Tests.Machines.{port, machine, json, jsonb, json-IsDocumented, row_of, server_of}

abbrev no_faults : Faults
no_faults c = none

abbrev one : HardwareRow
one = row_of "one"

abbrev two : HardwareRow
two = row_of "two"

stored :
    (rows : List HardwareRow) × (insert_into_db jsonb no_faults "two" (pos 1) (one ∷ []) ≡ ok rows)
unfolding insert_into_db put_hardware
stored = (_, refl)

insert_into_db-get_by_id_example :
    ((id : String) → jsonb.uuid id ≡ some "2" → get_by_id jsonb no_faults id stored.0 ≡ ok "two")
    × ((id other : String)
        → jsonb.uuid id ≡ some other
        → other ≢ "2"
        → get_by_id jsonb no_faults id stored.0 ≡ get_by_id jsonb no_faults id (one ∷ []))
insert_into_db-get_by_id_example =
    insert_into_db-get_by_id jsonb no_faults no_faults "two" "two" "2" (pos 1) (one ∷ []) stored.0
      stored.1 refl refl refl

marked :
    (rows : List HardwareRow) × (delete_from_db jsonb no_faults "1" (pos 2) (one ∷ two ∷ [])
      ≡ ok rows)
unfolding delete_from_db mark_hardware
marked = (_, refl)

delete_from_db-get_example :
    (has_key "1" (one ∷ two ∷ []) ≡ true)
    × ((p : HardwareRow → Bool) (r : HardwareRow)
        → get no_faults p marked.0 ≡ ok r
        → has_id "1" r.id ≡ false)
    × ((i other : String)
        → jsonb.uuid i ≡ some other
        → other ≢ "1"
        → get_by_id jsonb no_faults i marked.0 ≡ get_by_id jsonb no_faults i (one ∷ two ∷ []))
delete_from_db-get_example =
    delete_from_db-get jsonb no_faults no_faults "1" "1" (pos 2) (one ∷ two ∷ []) marked.0 marked.1
      refl

no_machine-IsUnique : IsUnique jsonb json []
no_machine-IsUnique = record { pushed = λ r a. absurd a; one = λ m r s p a. absurd a }

abbrev IsPlain : Hardware → Type 0
IsPlain hw =
    (i : Interface)
    → In i (interfaces_of (normalize_hardware_data json hw).network)
    → is_plain (mac_of i.dhcp) ≡ true

IsPlain-one : IsPlain (machine "1" (port "aa" ∷ []))
unfolding normalize_hardware_data is_plain
IsPlain-one i (inl e) = ap (λ (x : Interface). is_plain (mac_of x.dhcp)) (sym e)
IsPlain-one i (inr a) = absurd a

IsPlain-two : IsPlain (machine "2" (port "bb" ∷ []))
unfolding normalize_hardware_data is_plain
IsPlain-two i (inl e) = ap (λ (x : Interface). is_plain (mac_of x.dhcp)) (sym e)
IsPlain-two i (inr a) = absurd a

pushed_one :
    (push jsonb json no_faults
      (pos 1)
      (some (machine "1" (port "aa" ∷ [])))
      (server_of [])).0.hardware
    ≡ one ∷ []
unfolding push
pushed_one = refl

plain_aa : is_plain "aa" ≡ true
unfolding is_plain
plain_aa = refl

one-IsUnique : IsUnique jsonb json (one ∷ [])
one-IsUnique = subst (IsUnique jsonb json) pushed_one (
    push-IsUnique jsonb json no_faults (pos 1) (machine "1" (port "aa" ∷ [])) (server_of [])
      json-IsDocumented no_machine-IsUnique refl IsPlain-one (inl λ r hw a. absurd a))

-- a second machine
push-IsUnique_example :
    IsUnique jsonb json
      (push jsonb json no_faults
        (pos 2)
        (some (machine "2" (port "bb" ∷ [])))
        (server_of (one ∷ []))).0.hardware
unfolding normalize_hardware_data
push-IsUnique_example =
    push-IsUnique jsonb json no_faults (pos 2) (machine "2" (port "bb" ∷ [])) (server_of (one ∷ []))
      json-IsDocumented one-IsUnique refl IsPlain-two (inr (omega arith))

two_stored :
    (push jsonb json no_faults
      (pos 2)
      (some (machine "2" (port "bb" ∷ [])))
      (server_of (one ∷ []))).0.hardware
    ≡ one ∷ record two { inserted_at = pos 2 } ∷ []
unfolding push
two_stored = refl

data_one : data_of (get_by_mac jsonb no_faults "aa" (one ∷ two ∷ [])) ≡ "one"
unfolding get_by_mac
data_one = refl

data_two : data_of (get_by_mac jsonb no_faults "bb" (one ∷ two ∷ [])) ≡ "two"
unfolding get_by_mac
data_two = refl

-- the machine 1 pushed with the address of the machine 2 behind its own, and before it
-- the machine 1 pushed with the address of the machine 2 behind its own, and before it
abbrev thief : List Interface → Hardware
thief interfaces = machine "1" interfaces

second_skipped :
    validate_interfaces jsonb json no_faults
      (one ∷ two ∷ [])
      (thief (port "aa" ∷ port "bb" ∷ []))
      (port "aa" ∷ port "bb" ∷ [])
    ≡ none
unfolding validate_interfaces get_by_mac
second_skipped = refl

first_refused :
    validate_interfaces jsonb json no_faults
      (one ∷ two ∷ [])
      (thief (port "bb" ∷ port "aa" ∷ []))
      (port "bb" ∷ port "aa" ∷ [])
    ≡ some (bad_input "conflicting hardware MAC address")
unfolding validate_interfaces get_by_mac
first_refused = refl

net : Net
net = record { parse_mac = λ addr. some addr; is_ipv4 = λ addr. false }

get_worker_id-cases_example :
    ((id : String) × (r : HardwareRow) × (get_worker_id jsonb no_faults net "aa" (one ∷ []) ≡ ok id)
      × In r (one ∷ [])
      × (is_live r.deleted_at ≡ true)
      × (answers_to jsonb "aa" r ≡ true)
      × (r.id ≡ some id))
    ⊎ ((get_worker_id jsonb no_faults net "aa" (one ∷ []) ≡ err (no_worker "aa"))
        × ((r : HardwareRow)
            → In r (one ∷ [])
            → is_live r.deleted_at ≡ true
            → answers_to jsonb "aa" r ≡ false))
unfolding net
get_worker_id-cases_example =
    get_worker_id-cases jsonb json no_faults net "aa" "aa" (one ∷ []) json-IsDocumented one-IsUnique
      refl refl plain_aa

decodes :
    (r : HardwareRow)
    → In r (one ∷ two ∷ [])
    → is_live r.deleted_at ≡ true
    → (hw : Hardware) × (json.unmarshal r.doc ≡ some hw)
decodes r (inl e) l =
    (machine "1" (port "aa" ∷ []), ap (λ (x : HardwareRow). json.unmarshal x.doc) (sym e))
decodes r (inr (inl e)) l =
    (machine "2" (port "bb" ∷ []), ap (λ (x : HardwareRow). json.unmarshal x.doc) (sym e))
decodes r (inr (inr a)) l = absurd a

machines_sent :
    all jsonb json no_faults (λ sent. none) (server_of (one ∷ two ∷ []))
    ≡ (machines json (one ∷ two ∷ []), none)
machines_sent = all-machines jsonb json no_faults (server_of (one ∷ two ∷ [])) refl refl decodes
