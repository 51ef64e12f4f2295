-- ===== src/DbServer/Hardware/Preserved.antt =====
-- A push keeps the addresses of the machines apart: `Push` with `validateHardwareData`.
use tink.Prelude.{
  ℕ, ◌≤◌, ◌≡◌, ◌⊎◌, inl, inr, sym, ap, ◌∙◌, String, true, false, Option, none, some, Bool-cases,
  Option-cases, List, length, get_elem?, arith, In, str_eq,
}
use mathlib.Core.Path.{subst}
use tink.Prelude.Int.{ℤ}
use tink.Prelude.Outcome.{Outcome, ok, Outcome-cases}
use tink.Proto.Hardware.{Hardware, Interface, interfaces_of, mac_of}
use tink.Db.Tables.{Faults, DbError, select}
use tink.Db.Hardware.{HardwareRow, Jsonb, insert_into_db, put_hardware}
use tink.Db.Hardware.Lookup.{inserted}
use tink.DbServer.Hardware.{
  Json, Server, validate_interfaces, text_of, push, normalize_hardware_data, answer, notify, pushed,
  rows_after, error_of, Channel, send_to, channel_of,
}
use tink.Prelude.Plain.{is_plain}
use tink.DbServer.Hardware.Unique.{Encodes, IsDocumented, IsUnique, IsNew}
use tink.DbServer.Hardware.Checked.{Checked-all, keyed_by, put_hardware-IsUnique}

send_to-hardware :
    (c : ℕ) (text : String) (ch : Channel) (s s' : Server)
    → send_to c text ch s ≡ ok s'
    → s'.hardware ≡ s.hardware
send_to-hardware c text ch s s' h = ground arith

notify-hardware :
    (id text : String) (s s' : Server) → notify id text s ≡ ok s' → s'.hardware ≡ s.hardware
unfolding notify
notify-hardware id text s s' h = elim (Option-cases (channel_of id s.watch)) [
  | inl n ↦ ground (arith, n)
  | inr (c, e) ↦ elim (Option-cases (get_elem? s.channels c)) [
    | inl n ↦ ground (arith, e, n)
    | inr (ch, g) ↦ send_to-hardware c text ch s s' ground (arith, e, g)
  ]
]

answer-hardware :
    (id text : String) (s : Server) (end : Option DbError)
    → (answer (notify id text s) s end).0.hardware ≡ s.hardware
answer-hardware id text s end = elim (Outcome-cases (notify id text s)) [
  | inl (s', e) ↦ elim (Option-cases end) [
    | inl n ↦
        ap (λ x. (answer x s end).0.hardware) e
        ∙ ap (λ x. (answer (ok s') s x).0.hardware) n
        ∙ notify-hardware id text s s' e
    | inr (x, n) ↦
        ap (λ x. (answer x s end).0.hardware) e
        ∙ ap (λ x. (answer (ok s') s x).0.hardware) n
        ∙ notify-hardware id text s s' e
  ]
  | inr (inl (x, e)) ↦ ap (λ x. (answer x s end).0.hardware) e
  | inr (inr e) ↦ ap (λ x. (answer x s end).0.hardware) e
]

insert_parts :
    (k : Jsonb) (f : Faults) (text : String) (now : ℤ) (rows rows' : List HardwareRow)
    → insert_into_db k f text now rows ≡ ok rows'
    → (doc : String) × (id : Option String) × (k.cast text ≡ some doc) × (k.id doc ≡ some id)
unfolding insert_into_db
insert_parts k f text now rows rows' h = elim (Option-cases (k.cast text)) [
  | inl n ↦ absurd ground (arith, n)
  | inr (doc, c) ↦ elim (Option-cases (k.id doc)) [
    | inl n ↦ absurd ground (arith, c, n)
    | inr (id, i) ↦ (doc, id, c, i)
  ]
]

push-pushed :
    (k : Jsonb) (j : Json) (f : Faults) (now : ℤ) (hw : Hardware) (s : Server)
    → let hw' = normalize_hardware_data j hw in
      str_eq hw.id "" ≡ false
      → validate_interfaces k j f s.hardware hw' (interfaces_of hw'.network) ≡ none
      → push k j f now (some hw) s
        ≡ pushed k j f hw'
            (text_of (j.marshal hw'))
            (insert_into_db k f (text_of (j.marshal hw')) now s.hardware)
            s
unfolding push
push-pushed k j f now hw s b v = ground (arith, b, v)

pushed-hardware :
    (k : Jsonb) (j : Json) (f : Faults) (hw : Hardware) (text : String)
    (end : Outcome DbError (List HardwareRow)) (s : Server)
    → (pushed k j f hw text end s).0.hardware ≡ rows_after end s.hardware
pushed-hardware k j f hw text end s =
    answer-hardware hw.id text (record s { hardware = rows_after end s.hardware }) (error_of end)

-- What a push leaves in the table: what it found, or the rows of an insertion that was validated.
push-hardware :
    (k : Jsonb) (j : Json) (f : Faults) (now : ℤ) (hw : Hardware) (s : Server)
    → let hw' = normalize_hardware_data j hw in
      ((push k j f now (some hw) s).0.hardware ≡ s.hardware)
      ⊎ ((rows' : List HardwareRow) × (str_eq hw.id "" ≡ false)
          × (validate_interfaces k j f s.hardware hw' (interfaces_of hw'.network) ≡ none)
          × (insert_into_db k f (text_of (j.marshal hw')) now s.hardware ≡ ok rows')
          × ((push k j f now (some hw) s).0.hardware ≡ rows'))
unfolding push
push-hardware k j f now hw s =
    let hw' = normalize_hardware_data j hw in
    let text = text_of (j.marshal hw') in
    elim (Bool-cases (str_eq hw.id "")) [
      | inl b ↦ inl ground (arith, b)
      | inr b ↦
          elim (Option-cases
            (validate_interfaces k j f s.hardware hw' (interfaces_of hw'.network))) [
              | inr (e, v) ↦ inl ground (arith, b, v)
              | inl v ↦
                  let end = insert_into_db k f text now s.hardware in
                  let left =
                    ap (λ x. x.0.hardware) (push-pushed k j f now hw s b v)
                    ∙ pushed-hardware k j f hw' text end s in
                  elim (Outcome-cases end) [
                    | inl (rows', e) ↦
                        inr (rows', b, v, e, left ∙ ap (λ x. rows_after x s.hardware) e)
                    | inr (inl (x, e)) ↦ inl (left ∙ ap (λ x. rows_after x s.hardware) e)
                    | inr (inr e) ↦ inl (left ∙ ap (λ x. rows_after x s.hardware) e)
                  ]
            ]
    ]

normalize-id : (j : Json) (hw : Hardware) → (normalize_hardware_data j hw).id ≡ hw.id
unfolding normalize_hardware_data
normalize-id j hw = ground arith

marshalled :
    (k : Jsonb) (j : Json) (hw : Hardware) (doc : String)
    → IsDocumented k j
    → k.cast (text_of (j.marshal hw)) ≡ some doc
    → Encodes k j hw doc
marshalled k j hw doc d c = elim (Option-cases (j.marshal hw)) [
  | inl n ↦ absurd ground (arith, n, d.no_document)
  | inr (text, m) ↦ d.document hw text doc m ground (arith, m)
]

-- A push, whatever it answers, leaves each MAC address to one machine, where it was so and every row
-- was pushed, if the query of the validation answers, the addresses of the machine are plain texts, and
-- the machine is new or has at most one interface.
pub push-IsUnique :
    (k : Jsonb) (j : Json) (f : Faults) (now : ℤ) (hw : Hardware) (s : Server)
    → IsDocumented k j
    → IsUnique k j s.hardware
    → f select ≡ none
    → ((i : Interface)
        → In i (interfaces_of (normalize_hardware_data j hw).network)
        → is_plain (mac_of i.dhcp) ≡ true)
    → IsNew j hw.id s.hardware ⊎ (length (interfaces_of (normalize_hardware_data j hw).network) ≤ 1)
    → IsUnique k j (push k j f now (some hw) s).0.hardware
push-IsUnique k j f now hw s d u q p simple =
    let hw' = normalize_hardware_data j hw in
    let same = normalize-id j hw in
    elim (push-hardware k j f now hw s) [
      | inl e ↦ subst (IsUnique k j) (sym e) u
      | inr (rows', b, v, i, e) ↦
          let text = text_of (j.marshal hw') in
          let (doc, id, c, ki) = insert_parts k f text now s.hardware rows' i in
          let enc = marshalled k j hw' doc d c in
          let nonempty = ap (λ x. str_eq x "") same ∙ b in
          let (key, ke, uk) = keyed_by (k.uuid hw'.id) id (sym (enc.keyed nonempty) ∙ ki) in
          let simple' =
            subst (λ x. IsNew j x s.hardware ⊎ (length (interfaces_of hw'.network) ≤ 1)) (sym same)
              simple in
          subst (IsUnique k j)
            (ap (λ x. put_hardware x now doc s.hardware) (sym ke)
              ∙ inserted k f text doc id now s.hardware rows' i c ki
              ∙ sym e)
            (put_hardware-IsUnique k j s.hardware hw' doc now key d u nonempty enc uk
              (Checked-all k j f s.hardware hw' (interfaces_of hw'.network) d u q simple' p v))
    ]
