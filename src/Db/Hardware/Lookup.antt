-- ===== src/Db/Hardware/Lookup.antt =====
-- What the operations of db/hardware.go do to a lookup by id.
use tink.Prelude.{
  ◌≡◌, ◌≢◌, refl, sym, ap, ◌∙◌, String, Bool, true, false, Option, none, some, List, [], ◌∷◌, arith,
}
use tink.Prelude.Int.{ℤ}
use tink.Prelude.Outcome.{ok}
use tink.Db.Tables.{Faults, select}
use tink.Db.Hardware.{
  HardwareRow, Jsonb, has_id, first, has_key, put_hardware, mark_hardware, insert_into_db,
  delete_from_db, get, get_by_id,
}
use tink.Db.Hardware.Rows.{by_id, has_id-other, put_hardware_self, put_hardware-other}

pub inserted :
    (k : Jsonb) (f : Faults) (text doc : String) (id : Option String) (now : ℤ)
    (rows rows' : List HardwareRow)
    → insert_into_db k f text now rows ≡ ok rows'
    → k.cast text ≡ some doc
    → k.id doc ≡ some id
    → put_hardware id now doc rows ≡ rows'
unfolding insert_into_db
inserted k f text doc id now rows rows' h c i = ground (arith, c, i)

get_by_id-of_first :
    (k : Jsonb) (f : Faults) (id key : String) (rows : List HardwareRow) (r : HardwareRow)
    → f select ≡ none
    → k.uuid id ≡ some key
    → first (by_id key) rows ≡ some r
    → get_by_id k f id rows ≡ ok r.doc
unfolding get_by_id get
get_by_id-of_first k f id key rows r s u h = ground (arith, s, u, h)

get_by_id-eq :
    (k : Jsonb) (f : Faults) (id key : String) (rows rows' : List HardwareRow)
    → k.uuid id ≡ some key
    → first (by_id key) rows ≡ first (by_id key) rows'
    → get_by_id k f id rows ≡ get_by_id k f id rows'
unfolding get_by_id get
get_by_id-eq k f id key rows rows' u h = ground (arith, u, h)

-- After an insertion that succeeds, a lookup of the id that the document names gives the document,
-- whether the row was there, was deleted or is new, and a lookup of another id gives what it gave
-- before; as long as the query answers.
pub insert_into_db-get_by_id :
    (k : Jsonb) (f g : Faults) (text doc key : String) (now : ℤ) (rows rows' : List HardwareRow)
    → insert_into_db k f text now rows ≡ ok rows'
    → k.cast text ≡ some doc
    → k.id doc ≡ some (some key)
    → g select ≡ none
    → ((id : String) → k.uuid id ≡ some key → get_by_id k g id rows' ≡ ok doc)
      × ((id other : String)
          → k.uuid id ≡ some other
          → other ≢ key
          → get_by_id k g id rows' ≡ get_by_id k g id rows)
insert_into_db-get_by_id k f g text doc key now rows rows' h c i s =
    let e = inserted k f text doc (some key) now rows rows' h c i in
    let (r, q, d) = put_hardware_self key now doc rows in
    (
      λ id u.
          get_by_id-of_first k g id key rows' r s u (ap (first (by_id key)) (sym e) ∙ q) ∙ ap ok d,
      λ id other u n.
          get_by_id-eq k g id other rows' rows u
            (ap (first (by_id other)) (sym e) ∙ put_hardware-other key other now doc rows n),
    )

first-mark :
    (p : HardwareRow → Bool) (key : String) (now : ℤ) (rows : List HardwareRow) (r : HardwareRow)
    → first p (mark_hardware key now rows) ≡ some r
    → by_id key r ≡ false
unfolding first mark_hardware
first-mark p key now [] r h = absurd (ground arith)
first-mark p key now (x ∷ rest) r h = ground (arith, first-mark p key now rest r)

first-mark_other :
    (key other : String) (now : ℤ) (rows : List HardwareRow)
    → other ≢ key
    → first (by_id other) (mark_hardware key now rows) ≡ first (by_id other) rows
unfolding first mark_hardware
first-mark_other key other now [] n = refl
first-mark_other key other now (x ∷ rest) n =
    ground (arith, has_id-other key other x.id n, first-mark_other key other now rest n)

deleted :
    (k : Jsonb) (f : Faults) (id key : String) (now : ℤ) (rows rows' : List HardwareRow)
    → delete_from_db k f id now rows ≡ ok rows'
    → k.uuid id ≡ some key
    → (mark_hardware key now rows ≡ rows') × (has_key key rows ≡ true)
unfolding delete_from_db
deleted k f id key now rows rows' h u = (ground (arith, u), ground (arith, u))

got :
    (f : Faults) (p : HardwareRow → Bool) (rows : List HardwareRow) (r : HardwareRow)
    → get f p rows ≡ ok r
    → first p rows ≡ some r
unfolding get
got f p rows r h = ground arith

-- A deletion that succeeds was of an id in the table. After it no lookup, whatever it asks for, gives a
-- row with that id, and the lookups of other ids give what they gave before.
pub delete_from_db-get :
    (k : Jsonb) (f g : Faults) (id key : String) (now : ℤ) (rows rows' : List HardwareRow)
    → delete_from_db k f id now rows ≡ ok rows'
    → k.uuid id ≡ some key
    → (has_key key rows ≡ true)
      × ((p : HardwareRow → Bool) (r : HardwareRow)
          → get g p rows' ≡ ok r
          → has_id key r.id ≡ false)
      × ((i other : String)
          → k.uuid i ≡ some other
          → other ≢ key
          → get_by_id k g i rows' ≡ get_by_id k g i rows)
delete_from_db-get k f g id key now rows rows' h u =
    let (e, found) = deleted k f id key now rows rows' h u in
    (
      found,
      λ p r q. first-mark p key now rows r (ap (first p) e ∙ got g p rows' r q),
      λ i other v n.
          get_by_id-eq k g i other rows' rows v
            (ap (first (by_id other)) (sym e) ∙ first-mark_other key other now rows n),
    )
