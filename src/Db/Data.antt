-- ===== src/Db/Data.antt =====
-- The ephemeral data of a workflow in db/workflow.go: each update inserts a new version, and clears
-- the data of the version that is `maxVersions` older. An int32 is its bit pattern, below 2^32. The
-- columns metadata and data are JSONB: a row has the texts that jsonb gives back, and the cast of a text
-- to jsonb and back, which re-formats it or fails, is a parameter.
pub mod History
pub mod Retained
use tink.Prelude.{
  ℕ, suc, ◌+◌, ◌-◌, ◌%◌, ◌^◌, String, Bool, true, false, ◌&&◌, Option, none, some, List, [], ◌∷◌,
  ◌++◌, length, str_eq, ltb, ◌==◌, if◌then◌else◌,
}
use tink.Prelude.Outcome.{Outcome, or_fail, ok, err, ◌>>=◌, ◌>>◌}
use tink.Db.Tables.{
  DataRow, Tables, Faults, DbError, wrapped, try, begin, commit, select, insert, update,
}

-- `a > b` of int32
abbrev pub int32_gt : ℕ → ℕ → Bool
int32_gt a b = ltb ((b + 2 ^ 31) % 2 ^ 32) ((a + 2 ^ 31) % 2 ^ 32)

abbrev pub int32_add : ℕ → ℕ → ℕ
int32_add a b = (a + b) % 2 ^ 32

abbrev pub int32_sub : ℕ → ℕ → ℕ
int32_sub a b = (a + 2 ^ 32 - b) % 2 ^ 32

-- WHERE workflow_id = $1
unfoldable pub rows_for : String → List DataRow → List DataRow
rows_for id [] = []
rows_for id (r ∷ rest) =
    let more = rows_for id rest in if str_eq r.workflow_id id then r ∷ more else more

-- SELECT COUNT(*), scanned into an int32: a larger count is an error
unfoldable pub get_latest_version_wf_data : Faults → Tables → String → Outcome DbError ℕ
unfolding rows_for
get_latest_version_wf_data f t wf_id =
    let n = length (rows_for wf_id t.workflow_data) in
    try f select "" >> (if ltb n (2 ^ 31) then ok n else err (wrapped "" "value out of range"))

-- UPDATE … SET data = NULL WHERE workflow_id = $1 AND version = $2
unfoldable pub clear_version : String → ℕ → List DataRow → List DataRow
clear_version id v [] = []
clear_version id v (r ∷ rest) =
    (if str_eq r.workflow_id id && (r.version == v) then record r { content = none } else r)
    ∷ clear_version id v rest

unfoldable pub insert_into_wf_data_table :
    (String → Option String)
    → ℕ
    → Faults
    → Tables
    → String
    → String
    → String
    → Outcome DbError Tables
unfolding get_latest_version_wf_data clear_version
insert_into_wf_data_table jsonb max_versions f t wf_id metadata content = do
  latest ← get_latest_version_wf_data f t wf_id
  let version = int32_add latest 1
  try f begin "BEGIN transaction"
  try f insert "INSERT Into workflow_data"
  m ←
      or_fail (jsonb metadata)
        (wrapped "INSERT Into workflow_data" "invalid input syntax for type json")
  c ←
      or_fail (jsonb content)
        (wrapped "INSERT Into workflow_data" "invalid input syntax for type json")
  let row : DataRow = record {
    workflow_id = wf_id;
    version = version;
    metadata = m;
    content = some c;
  }
  let rows = t.workflow_data ++ row ∷ []
  if int32_gt version max_versions then try f update "UPDATE" else none
  let kept =
      if int32_gt version max_versions
      then clear_version wf_id (int32_sub version max_versions) rows
      else rows
  try f commit "COMMIT"
  ok (record t { workflow_data = kept })

-- The row of a version; the tables hold each version of a workflow once.
unfoldable pub find_version : ℕ → List DataRow → Option DataRow
find_version v [] = none
find_version v (r ∷ rest) = if r.version == v then some r else find_version v rest

-- the version of a request, or the latest one for 0
unfoldable pub requested_version : Faults → Tables → String → ℕ → Outcome DbError ℕ
unfolding get_latest_version_wf_data
requested_version f t wf_id version =
    if version == 0 then get_latest_version_wf_data f t wf_id else ok version

-- NULL and a missing row are read as no bytes, and so is a row that cannot be read.
abbrev pub content_of : Option DataRow → String
content_of none = ""
content_of (some r) = elim r.content [ none ↦ "" | some c ↦ c ]

abbrev pub metadata_of : Option DataRow → String
metadata_of none = ""
metadata_of (some r) = r.metadata

abbrev pub read_row : Faults → Option DataRow → Option DataRow
read_row f r = elim (f select) [ none ↦ r | some e ↦ none ]

unfoldable pub get_from_wf_data_table : Faults → Tables → String → ℕ → Outcome DbError String
unfolding requested_version find_version
get_from_wf_data_table f t wf_id version = do
  v ← requested_version f t wf_id version
  ok (content_of (read_row f (find_version v (rows_for wf_id t.workflow_data))))

unfoldable pub get_workflow_metadata : Faults → Tables → String → ℕ → Outcome DbError String
unfolding requested_version find_version
get_workflow_metadata f t wf_id version = do
  v ← requested_version f t wf_id version
  ok (metadata_of (read_row f (find_version v (rows_for wf_id t.workflow_data))))
