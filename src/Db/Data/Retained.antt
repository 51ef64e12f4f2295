-- ===== src/Db/Data/Retained.antt =====
-- Which versions of a workflow's data can be read back.
use tink.Prelude.{
  Option, Option-cases, ◌⊎◌, inl, inr, ℕ, suc, ◌+◌, ◌-◌, ◌^◌, ◌<◌, ◌≤◌, ◌≡◌, ◌≢◌, String, none,
  some, List, [], ◌∷◌, ◌++◌, arith, length, length-append, get_elem?, eq_iff, eq_refl, ltb,
  if◌then◌else◌, append-nil, lt-of-get_elem?,
}
use tink.Prelude.Outcome.{ok, err}
use tink.Db.Tables.{DataRow, Tables, Faults, DbError, wrapped}
use tink.Db.Data.{
  rows_for, clear_version, get_latest_version_wf_data, insert_into_wf_data_table,
  get_from_wf_data_table, get_workflow_metadata,
}
use tink.Db.Data.History.{
  stored, length-stored, stored-append, clear-stored, stored-young, rows_for-append, rows_for-clear,
  rows_for-clear_ne, find_version-stored,
}

-- The updates of a workflow, oldest first, each the texts that jsonb gives back for its metadata and its
-- data.
abbrev pub Updates : Type 0
Updates = List (String × String)

-- The table holds these updates of the workflow, with the data of the last `max` of them.
abbrev pub Holds : ℕ → Tables → String → Updates → Type 0
Holds max t id h = rows_for id t.workflow_data ≡ stored id max (length h) 0 h

abbrev pub no_faults : Faults
no_faults c = none

-- the new row, and the rows after the clearing of an old one
abbrev new_row : String → ℕ → String → String → DataRow
new_row id v m c = record { workflow_id = id; version = v; metadata = m; content = some c }

abbrev after_insert : ℕ → Tables → String → String → String → ℕ → List DataRow
after_insert max t id m c n =
    let rows = t.workflow_data ++ new_row id (suc n) m c ∷ [] in
    if ltb max (suc n) then clear_version id (suc n - max) rows else rows

latest_version :
    (max : ℕ) (t : Tables) (id : String) (h : Updates)
    → Holds max t id h
    → suc (length h) < 2 ^ 31
    → get_latest_version_wf_data no_faults t id ≡ ok (length h)
unfolding get_latest_version_wf_data
latest_version max t id h e b = ground (arith, length-stored id max (length h) 0 h)

insert_runs :
    (jsonb : String → Option String) (max : ℕ) (t : Tables) (id metadata content m c : String)
    (h : Updates)
    → jsonb metadata ≡ some m
    → jsonb content ≡ some c
    → Holds max t id h
    → suc (length h) < 2 ^ 31
    → max < 2 ^ 31
    → insert_into_wf_data_table jsonb max no_faults t id metadata content
      ≡ ok (record t { workflow_data = after_insert max t id m c (length h) })
unfolding insert_into_wf_data_table
insert_runs jsonb max t id metadata content m c h p q e b x =
    ground (arith, p, q, latest_version max t id h e b)

rows_for-new :
    (t : Tables) (id m c : String) (v : ℕ)
    → rows_for id (t.workflow_data ++ new_row id v m c ∷ [])
      ≡ rows_for id t.workflow_data ++ new_row id v m c ∷ []
unfolding rows_for
rows_for-new t id m c v =
    ground (arith, eq_refl id, rows_for-append id t.workflow_data (new_row id v m c ∷ []))

rows_for-new_ne :
    (t : Tables) (id other m c : String) (v : ℕ)
    → other ≢ id
    → rows_for other (t.workflow_data ++ new_row id v m c ∷ []) ≡ rows_for other t.workflow_data
unfolding rows_for
rows_for-new_ne t id other m c v d = ground (
  arith,
  eq_iff id other,
  append-nil (rows_for other t.workflow_data),
  rows_for-append other t.workflow_data (new_row id v m c ∷ []),
)

after_insert-old :
    (max : ℕ) (t : Tables) (id m c : String) (h : Updates)
    → Holds max t id h
    → max ≤ length h
    → rows_for id (
        clear_version id
          (suc (length h) - max)
          (t.workflow_data ++ new_row id (suc (length h)) m c ∷ []))
      ≡ stored id max (length (h ++ (m, c) ∷ [])) 0 (h ++ (m, c) ∷ [])
after_insert-old max t id m c h e x = ground (
  arith,
  rows_for-clear id (suc (length h) - max)
      (t.workflow_data ++ new_row id (suc (length h)) m c ∷ []),
  rows_for-new t id m c (suc (length h)),
  stored-append id max (length h) 0 h m c,
  clear-stored id max (length h) 0 (suc (length h) - max) (h ++ (m, c) ∷ []),
  length-append h ((m, c) ∷ []),
)

after_insert-young :
    (max : ℕ) (t : Tables) (id m c : String) (h : Updates)
    → Holds max t id h
    → length h < max
    → rows_for id (t.workflow_data ++ new_row id (suc (length h)) m c ∷ [])
      ≡ stored id max (length (h ++ (m, c) ∷ [])) 0 (h ++ (m, c) ∷ [])
after_insert-young max t id m c h e x = ground (
  arith,
  rows_for-new t id m c (suc (length h)),
  stored-append id max (length h) 0 h m c,
  stored-young id max (length h) 0 (h ++ (m, c) ∷ []) x,
  length-append h ((m, c) ∷ []),
)

after_insert-Holds :
    (max : ℕ) (t : Tables) (id m c : String) (h : Updates)
    → Holds max t id h
    → Holds max
        (record t { workflow_data = after_insert max t id m c (length h) })
        id
        (h ++ (m, c) ∷ [])
after_insert-Holds max t id m c h e =
    ground (arith, after_insert-old max t id m c h e, after_insert-young max t id m c h e)

after_insert_ne :
    (max : ℕ) (t : Tables) (id other m c : String) (n : ℕ)
    → other ≢ id
    → rows_for other (after_insert max t id m c n) ≡ rows_for other t.workflow_data
after_insert_ne max t id other m c n d = ground (
  arith,
  rows_for-new_ne t id other m c (suc n) d,
  rows_for-clear_ne id other (suc n - max) (t.workflow_data ++ new_row id (suc n) m c ∷ []) d,
)

abbrev not_json : DbError
not_json = wrapped "INSERT Into workflow_data" "invalid input syntax for type json"

insert_refused :
    (jsonb : String → Option String) (max : ℕ) (t : Tables) (id metadata content : String)
    (h : Updates)
    → (jsonb metadata ≡ none) ⊎ (jsonb content ≡ none)
    → Holds max t id h
    → suc (length h) < 2 ^ 31
    → insert_into_wf_data_table jsonb max no_faults t id metadata content ≡ err not_json
unfolding insert_into_wf_data_table
insert_refused jsonb max t id metadata content h (inl p) e b =
    ground (arith, p, latest_version max t id h e b)
insert_refused jsonb max t id metadata content h (inr q) e b =
    elim (Option-cases (jsonb metadata)) [
      | inl p ↦ ground (arith, p, latest_version max t id h e b)
      | inr (m, p) ↦ ground (arith, p, q, latest_version max t id h e b)
    ]

-- The table is t' after the update, or the update has failed.
abbrev pub IsStored :
    (String → Option String) → ℕ → Tables → String → String → String → Updates → Tables → Type 0
IsStored jsonb max t id metadata content h t' =
    (m : String) × (c : String) × (jsonb metadata ≡ some m)
    × (jsonb content ≡ some c)
    × Holds max t' id (h ++ (m, c) ∷ [])
    × ((other : String)
        → other ≢ id
        → rows_for other t'.workflow_data ≡ rows_for other t.workflow_data)

-- When the table holds a history of updates of a workflow, no call of the database fails otherwise, and
-- the new version and the maximum stay below 2^31: if the metadata and the data are texts of jsonb, the
-- update is stored: the table then holds the history longer by what jsonb gives back for the two texts,
-- of which the last `max` have data, and the rows of every other workflow are as before. If one is no
-- such text, the update fails.
pub insert_into_wf_data_table-Holds :
    (jsonb : String → Option String) (max : ℕ) (t : Tables) (id metadata content : String)
    (h : Updates)
    → Holds max t id h
    → suc (length h) < 2 ^ 31
    → max < 2 ^ 31
    → ((t' : Tables) × (insert_into_wf_data_table jsonb max no_faults t id metadata content ≡ ok t')
        × IsStored jsonb max t id metadata content h t')
      ⊎ (((jsonb metadata ≡ none) ⊎ (jsonb content ≡ none))
          × ((e : DbError) × (insert_into_wf_data_table jsonb max no_faults t id metadata content
                ≡ err e)))
insert_into_wf_data_table-Holds jsonb max t id metadata content h e b x =
    elim (Option-cases (jsonb metadata)) [
      | inl p ↦
          inr (inl p, (not_json, insert_refused jsonb max t id metadata content h (inl p) e b))
      | inr (m, p) ↦ elim (Option-cases (jsonb content)) [
        | inl q ↦
            inr (inr q, (not_json, insert_refused jsonb max t id metadata content h (inr q) e b))
        | inr (c, q) ↦ inl (
          record t { workflow_data = after_insert max t id m c (length h) },
          insert_runs jsonb max t id metadata content m c h p q e b x,
          (
            m,
            c,
            p,
            q,
            after_insert-Holds max t id m c h e,
            λ other d. after_insert_ne max t id other m c (length h) d,
          ),
        )
      ]
    ]

-- When the table holds a history of updates, each as the texts that jsonb gives back, with the next
-- version below 2^31, and no call of the database fails, reading version k + 1 gives the text of its
-- data if it is one of the last `max` versions and the empty text otherwise; its metadata is always there; and version 0 reads the latest one.
pub get_from_wf_data_table-Holds :
    (max : ℕ) (t : Tables) (id m c : String) (h : Updates) (k : ℕ)
    → Holds max t id h
    → suc (length h) < 2 ^ 31
    → get_elem? h k ≡ some (m, c)
    → (get_from_wf_data_table no_faults t id (suc k)
        ≡ ok (if ltb (length h) (suc k + max) then c else ""))
      × (get_workflow_metadata no_faults t id (suc k) ≡ ok m)
      × (get_from_wf_data_table no_faults t id 0 ≡ get_from_wf_data_table no_faults t id (length h))
      × (get_workflow_metadata no_faults t id 0 ≡ get_workflow_metadata no_faults t id (length h))
unfolding get_from_wf_data_table get_workflow_metadata
get_from_wf_data_table-Holds max t id m c h k e b g = ground (
  arith,
  find_version-stored id max (length h) 0 k h m c g,
  latest_version max t id h e b,
  lt-of-get_elem? h k g,
)
