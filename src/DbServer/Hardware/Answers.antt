-- ===== src/DbServer/Hardware/Answers.antt =====
-- What the reads of the hardware service and of the creation of workflows answer.
use tink.Prelude.{
  ◌≡◌, ◌⊎◌, inl, inr, refl, sym, ap, ◌∙◌, String, true, false, none, some, Option-cases, Bool-cases,
  List, [], ◌∷◌, ◌++◌, append_assoc, append-nil, arith, In, if◌then◌else◌,
}
use tink.Prelude.Outcome.{ok, err, or_fail}
use tink.Proto.Hardware.{Hardware}
use tink.Db.Tables.{Faults, select, no_worker, no_rows, wrapped}
use tink.Db.Hardware.{
  HardwareRow, Jsonb, Net, is_live, mac_query, first, row_by_mac, get, cast_query, named,
  get_worker_id, each_hardware, get_all,
}
use tink.Db.Hardware.Rows.{first-some, first-none}
use tink.DbServer.Hardware.{Json, Server, send_hardware, all}
use tink.Prelude.Plain.{is_plain}
use tink.DbServer.Hardware.Unique.{IsDocumented, IsUnique, answers_to, answers_to-eq}

get_worker_id-mac :
    (k : Jsonb) (f : Faults) (n : Net) (addr m q : String) (rows : List HardwareRow)
    → f select ≡ none
    → n.parse_mac addr ≡ some m
    → k.cast (mac_query m) ≡ some q
    → get_worker_id k f n addr rows
      ≡ named m (or_fail (first (λ r. k.includes r.doc q) rows) no_rows)
unfolding get_worker_id row_by_mac get cast_query
get_worker_id-mac k f n addr m q rows s p c = ground (arith, s, p, c)

-- For a plain MAC address, in a table whose rows were all pushed and of whose live machines no two share
-- an address, if the query answers: the worker of a task is the id of a live machine with the task's
-- address, or the lookup fails with an error that names the address, and then no live machine has it.
pub get_worker_id-cases :
    (k : Jsonb) (j : Json) (f : Faults) (n : Net) (addr m : String) (rows : List HardwareRow)
    → IsDocumented k j
    → IsUnique k j rows
    → f select ≡ none
    → n.parse_mac addr ≡ some m
    → is_plain m ≡ true
    → ((id : String) × (r : HardwareRow) × (get_worker_id k f n addr rows ≡ ok id)
        × In r rows
        × (is_live r.deleted_at ≡ true)
        × (answers_to k m r ≡ true)
        × (r.id ≡ some id))
      ⊎ ((get_worker_id k f n addr rows ≡ err (no_worker m))
          × ((r : HardwareRow)
              → In r rows
              → is_live r.deleted_at ≡ true
              → answers_to k m r ≡ false))
get_worker_id-cases k j f n addr m rows d u s p plain =
    let (q, c) = d.query m plain in
    let test = λ (r : HardwareRow). k.includes r.doc q in
    let result = get_worker_id-mac k f n addr m q rows s p c in
    elim (Option-cases (first test rows)) [
      | inl e ↦ inr (
        result ∙ ap (λ o. named m (or_fail o no_rows)) e,
        λ r a l. answers_to-eq k m q r c ∙ first-none test rows r e a l,
      )
      | inr (r, e) ↦
          let (a, l, h) = first-some test rows r e in
          let row = u.pushed r a in
          inl (
            row.key,
            r,
            result
                ∙ ap (λ o. named m (or_fail o no_rows)) e
                ∙ ap (λ o. or_fail o (wrapped "SELECT" "converting NULL to string is unsupported"))
                    row.identified,
            a,
            l,
            answers_to-eq k m q r c ∙ h,
            row.identified,
          )
    ]

-- the machines of the rows that are not deleted
abbrev pub machines : Json → List HardwareRow → List Hardware
machines j [] = []
machines j (r ∷ rest) =
    let more = machines j rest in
    if is_live r.deleted_at
    then elim (j.unmarshal r.doc) [ none ↦ more | some hw ↦ hw ∷ more ]
    else more

module _ (k : Jsonb) (j : Json) (f : Faults) where
  each_hardware-machines :
      (sent : List Hardware) (rows : List HardwareRow)
      → ((r : HardwareRow)
          → In r rows
          → is_live r.deleted_at ≡ true
          → (hw : Hardware) × (j.unmarshal r.doc ≡ some hw))
      → each_hardware (send_hardware k j f (λ so_far. none)) sent rows
        ≡ (sent ++ machines j rows, none)
  unfolding each_hardware
  each_hardware-machines sent [] h = ap (λ x. (x, none)) (sym (append-nil sent))
  each_hardware-machines sent (r ∷ rest) h = elim (Bool-cases (is_live r.deleted_at)) [
    | inl l ↦
        let (hw, u) = h r (inl refl) l in
        let again = each_hardware-machines (sent ++ hw ∷ []) rest (λ x a. h x (inr a)) in
        ground (arith, l, u, again, append_assoc sent (hw ∷ []) (machines j rest))
    | inr l ↦
        let again = each_hardware-machines sent rest (λ x a. h x (inr a)) in
        ground (arith, l, again)
  ]

  -- On a server that is ready, whose table's live documents all decode, `All` sends exactly the live
  -- machines, in the table's order, to a stream that takes them.
  pub all-machines :
      (s : Server)
      → s.ready ≡ true
      → f select ≡ none
      → ((r : HardwareRow)
          → In r s.hardware
          → is_live r.deleted_at ≡ true
          → (hw : Hardware) × (j.unmarshal r.doc ≡ some hw))
      → all k j f (λ sent. none) s ≡ (machines j s.hardware, none)
  unfolding all get_all
  all-machines s r q h = ground (arith, r, q, each_hardware-machines [] s.hardware h)
