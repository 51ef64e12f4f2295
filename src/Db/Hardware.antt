-- ===== src/Db/Hardware.antt =====
-- db/hardware.go, and `get` of db/db.go with `getWorkerID` of db/workflow.go: the hardware table. The
-- type jsonb, the type uuid and the parsers of the package net are parameters; the rows stand in the
-- order in which the database walks them.
pub mod Rows
pub mod Lookup
use tink.Prelude.{
  String, Bool, true, false, ◌&&◌, ◌||◌, Option, none, some, List, [], ◌∷◌, ◌++◌, append, str_eq,
  if◌then◌else◌,
}
use tink.Prelude.Int.{ℤ}
use tink.Prelude.Outcome.{Outcome, ok, err, crash, or_fail, ◌>>=◌, ◌>>◌}
use tink.Db.Tables.{
  Faults, DbError, wrapped, no_rows, not_found, no_worker, bad_input, try, begin, commit, select,
  insert, update,
}

-- The table `hardware`; its id is unique but may be NULL.
pub record HardwareRow : Type 0 where
  pub id : Option String
  pub inserted_at : ℤ
  pub deleted_at : Option ℤ
  pub doc : String

-- What the statements take from the database's types.
pub record Jsonb : Type 0 where
  -- `$1::jsonb`, as the text that the value is read back as
  pub cast : String → Option String
  -- `$1::uuid`, as its text
  pub uuid : String → Option String
  -- `(data ->> 'id')::uuid`, which is NULL where the key is missing
  pub id : String → Option (Option String)
  -- `data @> $1`
  pub includes : String → String → Bool

abbrev pub is_live : Option ℤ → Bool
is_live none = true
is_live (some t) = false

abbrev pub has_id : String → Option String → Bool
has_id id none = false
has_id id (some i) = str_eq i id

abbrev pub mac_query : String → String
mac_query mac = append (append "{\"network\":{\"interfaces\":[{\"dhcp\":{\"mac\":\"" mac) "\"}}]}}"

abbrev pub instance_query : String → String
instance_query ip = append (append "{\"instance\":{\"ip_addresses\":[{\"address\":\"" ip) "\"}]}}"

abbrev pub interface_query : String → String
interface_query ip =
    append (append "{\"network\":{\"interfaces\":[{\"dhcp\":{\"ip\":{\"address\":\"" ip) "\"}}}]}}"

-- the first row that is not deleted and has the property
unfoldable pub first : (HardwareRow → Bool) → List HardwareRow → Option HardwareRow
first p [] = none
first p (r ∷ rest) = let more = first p rest in if is_live r.deleted_at && p r then some r else more

abbrev pub has_key : String → List HardwareRow → Bool
has_key id [] = false
has_key id (r ∷ rest) = has_id id r.id || has_key id rest

abbrev write : ℤ → String → HardwareRow → HardwareRow
write now doc r = record r { inserted_at = now; deleted_at = none; doc = doc }

abbrev overwrite : String → ℤ → String → List HardwareRow → List HardwareRow
overwrite id now doc [] = []
overwrite id now doc (r ∷ rest) =
    (if has_id id r.id then write now doc r else r) ∷ overwrite id now doc rest

abbrev pub new_row : Option String → ℤ → String → HardwareRow
new_row id now doc = record { id = id; inserted_at = now; deleted_at = none; doc = doc }

-- INSERT … ON CONFLICT (id) DO UPDATE; NULL is in conflict with nothing
unfoldable pub put_hardware : Option String → ℤ → String → List HardwareRow → List HardwareRow
put_hardware none now doc rows = rows ++ new_row none now doc ∷ []
put_hardware (some id) now doc rows =
    if has_key id rows then overwrite id now doc rows else rows ++ new_row (some id) now doc ∷ []

-- UPDATE hardware SET deleted_at = NOW() WHERE id = $1
unfoldable pub mark_hardware : String → ℤ → List HardwareRow → List HardwareRow
mark_hardware id now [] = []
mark_hardware id now (r ∷ rest) =
    (if has_id id r.id then record r { deleted_at = some now } else r) ∷ mark_hardware id now rest

-- `get`, after the casts of the arguments
unfoldable pub get : Faults → (HardwareRow → Bool) → List HardwareRow → Outcome DbError HardwareRow
unfolding first
get f p rows = do try f select "SELECT"; or_fail (first p rows) no_rows

unfoldable pub cast_query : Jsonb → String → Outcome DbError String
cast_query k q = or_fail (k.cast q) (wrapped "SELECT" "invalid input syntax for type json")

module _ (k : Jsonb) (f : Faults) where
  -- The new rows and the error; a transaction that fails leaves the rows alone.
  unfoldable pub insert_into_db : String → ℤ → List HardwareRow → Outcome DbError (List HardwareRow)
  unfolding put_hardware
  insert_into_db text now rows = do
    try f begin "BEGIN transaction"
    try f insert "INSERT"
    doc ← or_fail (k.cast text) (wrapped "INSERT" "invalid input syntax for type json")
    id ← or_fail (k.id doc) (wrapped "INSERT" "invalid input syntax for type uuid")
    try f commit "COMMIT"
    ok (put_hardware id now doc rows)

  unfoldable pub delete_from_db : String → ℤ → List HardwareRow → Outcome DbError (List HardwareRow)
  unfolding mark_hardware
  delete_from_db id now rows = do
    try f begin "BEGIN transaction"
    try f update "DELETE"
    key ← or_fail (k.uuid id) (wrapped "DELETE" "invalid input syntax for type uuid")
    if has_key key rows then none else some (not_found id)
    try f commit "COMMIT"
    ok (mark_hardware key now rows)

  unfoldable pub row_by_mac : String → List HardwareRow → Outcome DbError HardwareRow
  unfolding get cast_query
  row_by_mac mac rows = do q ← cast_query k (mac_query mac); get f (λ r. k.includes r.doc q) rows

  unfoldable pub row_by_ip : String → List HardwareRow → Outcome DbError HardwareRow
  unfolding get cast_query
  row_by_ip ip rows = do
    q ← cast_query k (instance_query ip)
    q' ← cast_query k (interface_query ip)
    get f (λ r. k.includes r.doc q || k.includes r.doc q') rows

  unfoldable pub get_by_mac : String → List HardwareRow → Outcome DbError String
  unfolding row_by_mac
  get_by_mac mac rows = do r ← row_by_mac mac rows; ok r.doc

  unfoldable pub get_by_ip : String → List HardwareRow → Outcome DbError String
  unfolding row_by_ip
  get_by_ip ip rows = do r ← row_by_ip ip rows; ok r.doc

  unfoldable pub get_by_id : String → List HardwareRow → Outcome DbError String
  unfolding get
  get_by_id id rows = do
    key ← or_fail (k.uuid id) (wrapped "SELECT" "invalid input syntax for type uuid")
    r ← get f (λ r. has_id key r.id) rows
    ok r.doc

-- The loop of `GetAll` over the rows, up to the first error of the callback, which may change a state
-- of its own.
unfoldable pub each_hardware {ℓ} :
    {S : Type ℓ} → (S → String → S × Option DbError) → S → List HardwareRow → S × Option DbError
each_hardware fn s [] = (s, none)
each_hardware fn s (r ∷ rest) =
    if is_live r.deleted_at
    then (let (s', e) = fn s r.doc in
        elim e [ none ↦ each_hardware fn s' rest | some e' ↦ (s', some e') ])
    else each_hardware fn s rest

unfoldable pub get_all {ℓ} :
    {S : Type ℓ}
    → Faults
    → (S → String → S × Option DbError)
    → S
    → List HardwareRow
    → S × Option DbError
unfolding each_hardware
get_all f fn s rows = elim (try f select "SELECT") [
  | some e ↦ (s, some e)
  | none ↦ each_hardware fn s rows
]

-- The package net.
pub record Net : Type 0 where
  -- net.ParseMAC, and the text of the address
  pub parse_mac : String → Option String
  -- net.ParseIP gives an address that has a form of four bytes
  pub is_ipv4 : String → Bool

-- an id that is NULL does not scan into a string
abbrev pub scan_id : HardwareRow → Outcome DbError String
scan_id r = or_fail r.id (wrapped "SELECT" "converting NULL to string is unsupported")

-- sql.ErrNoRows becomes an error that names the address
abbrev pub named : String → Outcome DbError HardwareRow → Outcome DbError String
named addr (ok r) = scan_id r
named addr (err no_rows) = err (no_worker addr)
named addr (err e) = err e
named addr crash = crash

module _ (k : Jsonb) (f : Faults) (n : Net) where
  unfoldable pub get_worker_id : String → List HardwareRow → Outcome DbError String
  unfolding row_by_mac row_by_ip
  get_worker_id addr rows = elim (n.parse_mac addr) [
    | some mac ↦ named mac (row_by_mac k f mac rows)
    | none ↦ if n.is_ipv4 addr then named addr (row_by_ip k f addr rows) else err (bad_input addr)
  ]
