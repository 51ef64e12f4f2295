-- ===== src/Tests/Histories.antt =====
-- Tests of the ephemeral data of a workflow, over the history of its updates.
use tink.Prelude.{
  ◌⊎◌, Option, str_eq, ◌≡◌, refl, String, none, some, [], ◌∷◌, arith, ltb, if◌then◌else◌,
}
use tink.Prelude.Outcome.{ok, err}
use tink.Db.Tables.{Tables, DbError}
use tink.Db.Data.{
  rows_for, insert_into_wf_data_table, get_from_wf_data_table, get_workflow_metadata,
}
use tink.Db.Data.Retained.{
  IsStored, Holds, no_faults, insert_into_wf_data_table-Holds, get_from_wf_data_table-Holds,
}

abbrev pub no_rows : Tables
no_rows = record {
  workflow = [];
  workflow_state = [];
  workflow_data = [];
  workflow_event = [];
  workflow_worker_map = [];
}

no_rows-Holds : Holds 1 no_rows "wf1" []
unfolding rows_for
no_rows-Holds = refl

-- jsonb puts a blank behind each colon
abbrev jsonb : String → Option String
jsonb text =
    if str_eq text "{\"a\":1}"
    then some "{\"a\": 1}"
    else if str_eq text "{}"
    then some text
    else none

insert_into_wf_data_table-Holds_example :
    ((t' : Tables) × (insert_into_wf_data_table jsonb 1 no_faults no_rows "wf1" "{}" "{\"a\":1}"
        ≡ ok t')
      × IsStored jsonb 1 no_rows "wf1" "{}" "{\"a\":1}" [] t')
    ⊎ (((jsonb "{}" ≡ none) ⊎ (jsonb "{\"a\":1}" ≡ none))
        × ((e : DbError) × (insert_into_wf_data_table jsonb 1 no_faults no_rows "wf1" "{}"
                "{\"a\":1}"
              ≡ err e)))
insert_into_wf_data_table-Holds_example =
    insert_into_wf_data_table-Holds jsonb 1 no_rows "wf1" "{}" "{\"a\":1}" [] no_rows-Holds
      (omega arith) (omega arith)

-- Two updates with one version kept: the data of the first is gone.
abbrev two_updates : Tables
two_updates = record no_rows {
  workflow_data =
      record { workflow_id = "wf1"; version = 1; metadata = "m1"; content = none }
      ∷ record { workflow_id = "wf1"; version = 2; metadata = "m2"; content = some "c2" }
      ∷ [];
}

two_updates-Holds : Holds 1 two_updates "wf1" (("m1", "c1") ∷ ("m2", "c2") ∷ [])
unfolding rows_for
two_updates-Holds = refl

get_from_wf_data_table-Holds_example :
    (get_from_wf_data_table no_faults two_updates "wf1" 2 ≡ ok (if ltb 2 3 then "c2" else ""))
    × (get_workflow_metadata no_faults two_updates "wf1" 2 ≡ ok "m2")
    × (get_from_wf_data_table no_faults two_updates "wf1" 0
        ≡ get_from_wf_data_table no_faults two_updates "wf1" 2)
    × (get_workflow_metadata no_faults two_updates "wf1" 0
        ≡ get_workflow_metadata no_faults two_updates "wf1" 2)
get_from_wf_data_table-Holds_example =
    get_from_wf_data_table-Holds 1 two_updates "wf1" "m2" "c2" (("m1", "c1") ∷ ("m2", "c2") ∷ []) 1
      two_updates-Holds (omega arith) refl
