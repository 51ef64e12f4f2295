-- ===== src/DbServer/Hardware/Unique.antt =====
-- What `validateHardwareData` protects: a MAC address belongs to one machine.
use tink.Prelude.{
  ◌≡◌, ◌≢◌, ◌⊎◌, inl, inr, refl, sym, ap, ◌∙◌, String, Bool, true, false, not, ◌&&◌, Option, none,
  some, Option-cases, List, ◌∷◌, map, arith, eq_iff, In, str_eq,
}
use mathlib.Core.Bool.{true≢false}
use tink.Prelude.Plain.{is_plain}
use tink.Prelude.Names.{contains}
use tink.Proto.Hardware.{Hardware, Interface, interfaces_of, mac_of}
use tink.Db.Tables.{Faults, select}
use tink.Db.Hardware.{
  HardwareRow, Jsonb, is_live, mac_query, first, get_by_mac, row_by_mac, get, cast_query,
}
use tink.Db.Hardware.Rows.{first-some, first-none}
use tink.DbServer.Hardware.{Json, validate_interfaces, data_of}

abbrev pub macs : List Interface → List String
macs is = map (λ (i : Interface). mac_of i.dhcp) is

abbrev pub macs_of : Hardware → List String
macs_of hw = macs (interfaces_of hw.network)

-- an empty address is left out of the JSON
abbrev pub has_mac : String → Hardware → Bool
has_mac m hw = not (str_eq m "") && contains (macs_of hw) m

abbrev pub key_of : Option String → Option (Option String)
key_of none = none
key_of (some u) = some (some u)

-- A stored document as the hardware that was marshalled.
pub record Encodes (k : Jsonb) (j : Json) (hw : Hardware) (doc : String) : Type 0 where
  pub decoded : (old : Hardware) × (j.unmarshal doc ≡ some old) × (old.id ≡ hw.id)
  pub present : str_eq doc "" ≡ false
  pub keyed : str_eq hw.id "" ≡ false → k.id doc ≡ key_of (k.uuid hw.id)
  pub found :
      (m q : String)
      → is_plain m ≡ true
      → k.cast (mac_query m) ≡ some q
      → k.includes doc q ≡ has_mac m hw

-- What encoding/json and PostgreSQL document of the documents in use.
pub record IsDocumented (k : Jsonb) (j : Json) : Type 0 where
  -- the empty text is not a JSON document
  pub no_document : k.cast "" ≡ none
  pub query : (m : String) → is_plain m ≡ true → (q : String) × (k.cast (mac_query m) ≡ some q)
  pub document :
      (hw : Hardware) (text doc : String)
      → j.marshal hw ≡ some text
      → k.cast text ≡ some doc
      → Encodes k j hw doc

-- A row that a push has written.
pub record IsPushed (k : Jsonb) (j : Json) (r : HardwareRow) : Type 0 where
  pub machine : Hardware
  pub named : str_eq machine.id "" ≡ false
  pub encodes : Encodes k j machine r.doc
  pub keyed : k.uuid machine.id ≡ r.id
  pub key : String
  pub identified : r.id ≡ some key

-- the query for the address finds the row
unfoldable pub answers_to : Jsonb → String → HardwareRow → Bool
answers_to k m r = elim (k.cast (mac_query m)) [ none ↦ false | some q ↦ k.includes r.doc q ]

-- Every row was pushed, and two live rows that have an address in common have the same id.
pub record IsUnique (k : Jsonb) (j : Json) (rows : List HardwareRow) : Type 0 where
  pub pushed : (r : HardwareRow) → In r rows → IsPushed k j r
  pub one :
      (m : String) (r s : HardwareRow)
      → is_plain m ≡ true
      → In r rows
      → In s rows
      → is_live r.deleted_at ≡ true
      → is_live s.deleted_at ≡ true
      → answers_to k m r ≡ true
      → answers_to k m s ≡ true
      → r.id ≡ s.id

-- No live row is of a machine with this id.
abbrev pub IsNew : Json → String → List HardwareRow → Type 0
IsNew j id rows =
    (r : HardwareRow) (hw : Hardware)
    → In r rows
    → is_live r.deleted_at ≡ true
    → j.unmarshal r.doc ≡ some hw
    → hw.id ≢ id

-- Whoever has the address already is the machine itself.
abbrev pub Checked : Jsonb → Hardware → List HardwareRow → String → Type 0
Checked k hw rows m =
    (s : HardwareRow)
    → In s rows
    → is_live s.deleted_at ≡ true
    → answers_to k m s ≡ true
    → s.id ≡ k.uuid hw.id

pub answers_to-eq :
    (k : Jsonb) (m q : String) (r : HardwareRow)
    → k.cast (mac_query m) ≡ some q
    → answers_to k m r ≡ k.includes r.doc q
unfolding answers_to
answers_to-eq k m q r c = ground (arith, c)

abbrev doc_of : Option HardwareRow → String
doc_of none = ""
doc_of (some r) = r.doc

module _ (k : Jsonb) (j : Json) (f : Faults) (rows : List HardwareRow) where
  data_of-first :
      (m q : String)
      → f select ≡ none
      → k.cast (mac_query m) ≡ some q
      → data_of (get_by_mac k f m rows) ≡ doc_of (first (λ r. k.includes r.doc q) rows)
  unfolding get_by_mac row_by_mac get cast_query
  data_of-first m q s c = ground (arith, s, c)

  validate-none :
      (hw : Hardware) (i : Interface) (rest : List Interface) (text : String)
      → data_of (get_by_mac k f (mac_of i.dhcp) rows) ≡ text
      → str_eq text "" ≡ true
      → validate_interfaces k j f rows hw (i ∷ rest) ≡ validate_interfaces k j f rows hw rest
  unfolding validate_interfaces
  validate-none hw i rest text e h = ground (arith, e, h)

  validate-some :
      (hw old : Hardware) (i : Interface) (rest : List Interface) (text : String)
      → data_of (get_by_mac k f (mac_of i.dhcp) rows) ≡ text
      → str_eq text "" ≡ false
      → j.unmarshal text ≡ some old
      → validate_interfaces k j f rows hw (i ∷ rest) ≡ none
      → old.id ≡ hw.id
  unfolding validate_interfaces
  validate-some hw old i rest text e h u v = ground (arith, e, h, u, v, eq_iff old.id hw.id)

  -- the checks on an interface, by what the lookup of its address finds
  pub Checked-cons :
      (hw : Hardware) (i : Interface) (rest : List Interface)
      → IsDocumented k j
      → IsUnique k j rows
      → f select ≡ none
      → is_plain (mac_of i.dhcp) ≡ true
      → validate_interfaces k j f rows hw (i ∷ rest) ≡ none
      → Checked k hw rows (mac_of i.dhcp)
        × ((validate_interfaces k j f rows hw rest ≡ none)
            ⊎ ((r : HardwareRow) × (old : Hardware) × In r rows
                × (is_live r.deleted_at ≡ true)
                × (j.unmarshal r.doc ≡ some old)
                × (old.id ≡ hw.id)))
  Checked-cons hw i rest d u s p v =
      let m = mac_of i.dhcp in
      let (q, c) = d.query m p in
      let test = λ (r : HardwareRow). k.includes r.doc q in
      elim (Option-cases (first test rows)) [
        | inl n ↦ (
          λ r a l h.
              absurd (true≢false (sym h ∙ answers_to-eq k m q r c ∙ first-none test rows r n a l)),
          inl (sym (validate-none hw i rest "" (data_of-first m q s c ∙ ap doc_of n) refl) ∙ v),
        )
        | inr (r, e) ↦
            let (a, l, h) = first-some test rows r e in
            let old = u.pushed r a in
            let (found, decoded, named) = old.encodes.decoded in
            let same =
              validate-some hw found i rest r.doc (data_of-first m q s c ∙ ap doc_of e)
                old.encodes.present decoded v in
            (
              λ r' a' l' h'.
                  u.one m r' r p a' a l' l h' (answers_to-eq k m q r c ∙ h)
                  ∙ sym old.keyed
                  ∙ ap k.uuid (sym named ∙ same),
              inr (r, found, a, l, decoded, same),
            )
      ]
