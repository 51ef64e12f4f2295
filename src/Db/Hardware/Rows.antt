-- ===== src/Db/Hardware/Rows.antt =====
-- The rows of the hardware table after an insertion.
use tink.Prelude.{
  ◌≡◌, ◌≢◌, ◌⊎◌, inl, inr, refl, sym, ap, String, Bool, true, false, Option, none, some, Bool-cases,
  List, [], ◌∷◌, ◌++◌, arith, eq_iff, eq_refl, In,
}
use mathlib.Core.Path.{subst}
use tink.Prelude.Int.{ℤ}
use tink.Db.Hardware.{
  HardwareRow, is_live, has_id, first, has_key, write, overwrite, new_row, put_hardware,
}

pub first-some :
    (p : HardwareRow → Bool) (rows : List HardwareRow) (r : HardwareRow)
    → first p rows ≡ some r
    → In r rows × (is_live r.deleted_at ≡ true) × (p r ≡ true)
unfolding first
first-some p [] r h = absurd (ground arith)
first-some p (x ∷ rest) r h = ground (arith, first-some p rest r)

pub first-none :
    (p : HardwareRow → Bool) (rows : List HardwareRow) (r : HardwareRow)
    → first p rows ≡ none
    → In r rows
    → is_live r.deleted_at ≡ true
    → p r ≡ false
unfolding first
first-none p [] r h i l = absurd i
first-none p (x ∷ rest) r h i l = ground (arith, first-none p rest r)

pub has_id-eq : (id : String) (o : Option String) → has_id id o ≡ true → o ≡ some id
has_id-eq id none h = absurd (ground arith)
has_id-eq id (some i) h = ground (arith, eq_iff i id)

pub has_id-ne : (id : String) (o : Option String) → has_id id o ≡ false → o ≢ some id
has_id-ne id none h e = absurd (ground arith)
has_id-ne id (some i) h e = ground (arith, eq_iff i id)

-- the row that a lookup of an id finds
abbrev pub by_id : String → HardwareRow → Bool
by_id id r = has_id id r.id

pub overwrite_self :
    (id : String) (now : ℤ) (doc : String) (rows : List HardwareRow)
    → has_key id rows ≡ true
    → (r : HardwareRow) × (first (by_id id) (overwrite id now doc rows) ≡ some r) × (r.doc ≡ doc)
unfolding first
overwrite_self id now doc [] h = absurd (ground arith)
overwrite_self id now doc (x ∷ rest) h = elim (Bool-cases (has_id id x.id)) [
  | inl e ↦ (write now doc x, ground arith, refl)
  | inr e ↦
      let (r, q, d) = overwrite_self id now doc rest (ground arith) in (r, ground (arith, q), d)
]

pub has_id-other :
    (id other : String) (o : Option String)
    → other ≢ id
    → has_id id o ≡ true
    → has_id other o ≡ false
has_id-other id other none n h = refl
has_id-other id other (some i) n h = ground (arith, eq_iff i id, eq_iff i other)

pub first-overwrite :
    (id other : String) (now : ℤ) (doc : String) (rows : List HardwareRow)
    → other ≢ id
    → first (by_id other) (overwrite id now doc rows) ≡ first (by_id other) rows
unfolding first
first-overwrite id other now doc [] n = refl
first-overwrite id other now doc (x ∷ rest) n =
    ground (arith, has_id-other id other x.id n, first-overwrite id other now doc rest n)

pub append_self :
    (id : String) (now : ℤ) (doc : String) (rows : List HardwareRow)
    → has_key id rows ≡ false
    → first (by_id id) (rows ++ new_row (some id) now doc ∷ []) ≡ some (new_row (some id) now doc)
unfolding first
append_self id now doc [] h = ground (arith, eq_refl id)
append_self id now doc (x ∷ rest) h = ground (arith, append_self id now doc rest)

pub first-append :
    (id other : String) (now : ℤ) (doc : String) (rows : List HardwareRow)
    → other ≢ id
    → first (by_id other) (rows ++ new_row (some id) now doc ∷ []) ≡ first (by_id other) rows
unfolding first
first-append id other now doc [] n = ground (arith, eq_iff id other)
first-append id other now doc (x ∷ rest) n = ground (arith, first-append id other now doc rest n)

pub put_hardware_self :
    (key : String) (now : ℤ) (doc : String) (rows : List HardwareRow)
    → (r : HardwareRow) × (first (by_id key) (put_hardware (some key) now doc rows) ≡ some r)
      × (r.doc ≡ doc)
unfolding put_hardware
put_hardware_self key now doc rows = elim (Bool-cases (has_key key rows)) [
  | inl h ↦ let (r, q, d) = overwrite_self key now doc rows h in (r, ground (arith, q), d)
  | inr h ↦ (new_row (some key) now doc, ground (arith, append_self key now doc rows h), refl)
]

pub put_hardware-other :
    (key other : String) (now : ℤ) (doc : String) (rows : List HardwareRow)
    → other ≢ key
    → first (by_id other) (put_hardware (some key) now doc rows) ≡ first (by_id other) rows
unfolding put_hardware
put_hardware-other key other now doc rows n =
    ground (arith, first-append key other now doc rows n, first-overwrite key other now doc rows n)

pub has_key-In :
    (key : String) (rows : List HardwareRow) (r : HardwareRow)
    → has_key key rows ≡ false
    → In r rows
    → r.id ≢ some key
has_key-In key [] r h i e = absurd i
has_key-In key (x ∷ rest) r h (inl p) e = ground (arith, p, eq_refl key)
has_key-In key (x ∷ rest) r h (inr i) e = has_key-In key rest r ground arith i e

pub In-overwrite :
    (key : String) (now : ℤ) (doc : String) (rows : List HardwareRow) (r : HardwareRow)
    → In r (overwrite key now doc rows)
    → ((r.id ≡ some key) × (r.doc ≡ doc)) ⊎ (In r rows × (r.id ≢ some key))
In-overwrite key now doc [] r i = absurd i
In-overwrite key now doc (x ∷ rest) r (inl p) = elim (Bool-cases (has_id key x.id)) [
  | inl h ↦ inl (ground (arith, has_id-eq key x.id h, p), ground (arith, p))
  | inr h ↦ inr (inl ground (arith, p), λ e. has_id-ne key x.id h ground (arith, p, e))
]
In-overwrite key now doc (x ∷ rest) r (inr i) = elim (In-overwrite key now doc rest r i) [
  | inl a ↦ inl a
  | inr (a, n) ↦ inr (inr a, n)
]

pub In-append :
    (rows : List HardwareRow) (new r : HardwareRow)
    → In r (rows ++ new ∷ [])
    → (new ≡ r) ⊎ In r rows
In-append [] new r (inl p) = inl p
In-append [] new r (inr i) = absurd i
In-append (x ∷ rest) new r (inl p) = inr (inl p)
In-append (x ∷ rest) new r (inr i) = elim (In-append rest new r i) [
  | inl p ↦ inl p
  | inr a ↦ inr (inr a)
]

pub put_branch :
    (key : String) (now : ℤ) (doc : String) (rows : List HardwareRow)
    → ((has_key key rows ≡ true)
        × (put_hardware (some key) now doc rows ≡ overwrite key now doc rows))
      ⊎ ((has_key key rows ≡ false)
          × (put_hardware (some key) now doc rows ≡ rows ++ new_row (some key) now doc ∷ []))
unfolding put_hardware
put_branch key now doc rows = elim (Bool-cases (has_key key rows)) [
  | inl h ↦ inl (h, ground (arith, h))
  | inr h ↦ inr (h, ground (arith, h))
]

pub In-put_hardware :
    (key : String) (now : ℤ) (doc : String) (rows : List HardwareRow) (r : HardwareRow)
    → In r (put_hardware (some key) now doc rows)
    → ((r.id ≡ some key) × (r.doc ≡ doc)) ⊎ (In r rows × (r.id ≢ some key))
In-put_hardware key now doc rows r i = elim (put_branch key now doc rows) [
  | inl (h, e) ↦ In-overwrite key now doc rows r (subst (In r) e i)
  | inr (h, e) ↦ elim (In-append rows (new_row (some key) now doc) r (subst (In r) e i)) [
    | inl p ↦ inl (ap (λ x. x.id) (sym p), ap (λ x. x.doc) (sym p))
    | inr a ↦ inr (a, has_key-In key rows r h a)
  ]
]
