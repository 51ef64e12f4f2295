-- ===== src/DbServer/Hardware/Checked.antt =====
-- What the validation of a push has checked, and what the insertion after it keeps.
use tink.Prelude.{
  ◌≤◌, ◌≡◌, ◌⊎◌, inl, inr, refl, sym, ap, ◌∙◌, String, true, false, Option, none, some, Bool-cases,
  List, [], ◌∷◌, length, arith, eq_iff, In, str_eq,
}
use mathlib.Core.Path.{subst}
use tink.Prelude.Names.{contains}
use tink.Prelude.Int.{ℤ}
use tink.Proto.Hardware.{Hardware, Interface, interfaces_of, mac_of}
use tink.Db.Tables.{Faults, select}
use tink.Db.Hardware.{HardwareRow, Jsonb, is_live, put_hardware}
use tink.Db.Hardware.Rows.{In-put_hardware}
use tink.DbServer.Hardware.{Json, validate_interfaces}
use tink.Prelude.Plain.{is_plain}
use tink.DbServer.Hardware.Unique.{
  macs, has_mac, key_of, Encodes, IsDocumented, answers_to, IsUnique, IsNew, Checked, Checked-cons,
  answers_to-eq,
}

pub contains-macs :
    (is : List Interface) (m : String)
    → contains (macs is) m ≡ true
    → (i : Interface) × In i is × (mac_of i.dhcp ≡ m)
unfolding contains
contains-macs [] m h = absurd ground arith
contains-macs (i ∷ is) m h = elim (Bool-cases (str_eq (mac_of i.dhcp) m)) [
  | inl e ↦ (i, inl refl, (eq_iff (mac_of i.dhcp) m).0 e)
  | inr e ↦ let (i', a, q) = contains-macs is m ground (arith, e) in (i', inr a, q)
]

-- the two cases in which one look at the first stored address is enough
abbrev pub IsSimple : Json → Hardware → List HardwareRow → List Interface → Type 0
IsSimple j hw rows is = IsNew j hw.id rows ⊎ (length is ≤ 1)

pub IsSimple-tail :
    (j : Json) (hw : Hardware) (rows : List HardwareRow) (i : Interface) (rest : List Interface)
    → IsSimple j hw rows (i ∷ rest)
    → IsSimple j hw rows rest
IsSimple-tail j hw rows i rest (inl n) = inl n
IsSimple-tail j hw rows i rest (inr n) = inr omega arith

pub no_more :
    (i : Interface) (rest : List Interface) → length (i ∷ rest) ≤ 1 → (x : Interface) → ¬ In x rest
no_more i [] h x a = a
no_more i (y ∷ rest) h x a = omega arith

module _ (k : Jsonb) (j : Json) (f : Faults) (rows : List HardwareRow) (hw : Hardware) where
  pub Checked-rest :
      (i : Interface) (rest : List Interface)
      → IsSimple j hw rows (i ∷ rest)
      → ((validate_interfaces k j f rows hw rest ≡ none)
          ⊎ ((r : HardwareRow) × (old : Hardware) × In r rows
              × (is_live r.deleted_at ≡ true)
              × (j.unmarshal r.doc ≡ some old)
              × (old.id ≡ hw.id)))
      → (validate_interfaces k j f rows hw rest ≡ none) ⊎ ((x : Interface) → ¬ In x rest)
  Checked-rest i rest n (inl v) = inl v
  Checked-rest i rest (inl n) (inr (r, old, a, l, u, e)) = absurd (n r old a l u e)
  Checked-rest i rest (inr n) (inr x) = inr (no_more i rest n)

  pub Checked-all :
      (is : List Interface)
      → IsDocumented k j
      → IsUnique k j rows
      → f select ≡ none
      → IsSimple j hw rows is
      → ((i : Interface) → In i is → is_plain (mac_of i.dhcp) ≡ true)
      → validate_interfaces k j f rows hw is ≡ none
      → (i : Interface) → In i is
      → Checked k hw rows (mac_of i.dhcp)
  Checked-all [] d u s n p v i a = absurd a
  Checked-all (i ∷ rest) d u s n p v i' (inl e) =
      subst (λ (x : Interface). Checked k hw rows (mac_of x.dhcp)) e
        (Checked-cons k j f rows hw i rest d u s (p i (inl refl)) v).0
  Checked-all (i ∷ rest) d u s n p v i' (inr a) =
      elim (Checked-rest i rest n (Checked-cons k j f rows hw i rest d u s (p i (inl refl)) v).1) [
        | inl w ↦
            Checked-all rest d u s (IsSimple-tail j hw rows i rest n) (λ x b. p x (inr b)) w i' a
        | inr none_left ↦ absurd (none_left i' a)
      ]

pub has_mac-In :
    (m : String) (hw : Hardware)
    → has_mac m hw ≡ true
    → (i : Interface) × In i (interfaces_of hw.network) × (mac_of i.dhcp ≡ m)
has_mac-In m hw h = contains-macs (interfaces_of hw.network) m ground arith

pub keyed_by :
    (o id : Option String) → key_of o ≡ some id → (key : String) × (id ≡ some key) × (o ≡ some key)
keyed_by none id h = absurd (ground arith)
keyed_by (some u) id h = (u, ground arith, refl)

-- the rows after the insertion of a document whose addresses were checked
module _ (k : Jsonb) (j : Json) (rows : List HardwareRow) (hw : Hardware) (doc : String)
    (now : ℤ) where
  -- a row that has an address in common with the new row is the machine's
  pub shared :
      (key m : String) (r s : HardwareRow)
      → IsDocumented k j
      → Encodes k j hw doc
      → k.uuid hw.id ≡ some key
      → ((i : Interface) → In i (interfaces_of hw.network) → Checked k hw rows (mac_of i.dhcp))
      → is_plain m ≡ true
      → r.doc ≡ doc
      → answers_to k m r ≡ true
      → In s rows
      → is_live s.deleted_at ≡ true
      → answers_to k m s ≡ true
      → s.id ≡ some key
  shared key m r s d e uk checked p x hr a l hs =
      let (q, c) = d.query m p in
      let (i, b, same) = has_mac-In m hw (
        sym (e.found m q p c)
        ∙ ap (λ t. k.includes t q) (sym x)
        ∙ sym (answers_to-eq k m q r c)
        ∙ hr) in
      subst (Checked k hw rows) same (checked i b) s a l hs ∙ uk

  pub put_hardware-IsUnique :
      (key : String)
      → IsDocumented k j
      → IsUnique k j rows
      → str_eq hw.id "" ≡ false
      → Encodes k j hw doc
      → k.uuid hw.id ≡ some key
      → ((i : Interface) → In i (interfaces_of hw.network) → Checked k hw rows (mac_of i.dhcp))
      → IsUnique k j (put_hardware (some key) now doc rows)
  put_hardware-IsUnique key d u nonempty e uk checked = record {
    pushed = λ r a. elim (In-put_hardware key now doc rows r a) [
      | inl (i, x) ↦ record {
        machine = hw;
        named = nonempty;
        encodes = subst (Encodes k j hw) (sym x) e;
        keyed = uk ∙ sym i;
        key = key;
        identified = i;
      }
      | inr (b, n) ↦ u.pushed r b
    ];
    one = λ m r s p a b lr ls hr hs. elim (In-put_hardware key now doc rows r a) [
      | inl (ir, xr) ↦ elim (In-put_hardware key now doc rows s b) [
        | inl (is, xs) ↦ ir ∙ sym is
        | inr (bs, ns) ↦ absurd (ns (shared key m r s d e uk checked p xr hr bs ls hs))
      ]
      | inr (br, nr) ↦ elim (In-put_hardware key now doc rows s b) [
        | inl (is, xs) ↦ absurd (nr (shared key m s r d e uk checked p xs hs br lr hr))
        | inr (bs, ns) ↦ u.one m r s p br bs lr ls hr hs
      ]
    ];
  }
