-- ===== src/Worker/DataFile.antt =====
-- The data file of a workflow in worker.go: `getWorkflowData` before an action and `updateWorkflowData`
-- after it. Bytes are numbers; the checksum with its base64 text, strings.EqualFold and the test for a
-- JSON object are parameters.
use tink.Prelude.{
  ℕ, ◌≤◌, ◌≡◌, ◌↔◌, refl, sym, ap, ◌∙◌, String, Bool, ◌&&◌, Option, none, some, List, [], ◌∷◌, ◌++◌,
  append-nil, length, leb, str_eq, eq_refl, arith, if◌then◌else◌,
}
use tink.Prelude.Outcome.{Outcome, ok}
use tink.Proto.{WorkflowActionStatus, Error}
use tink.Convert.{put}

abbrev pub Bytes : Type 0
Bytes = List ℕ

-- The files under the directory of the worker, and `workflowDataSHA`, by the id of the workflow.
pub record Files : Type 0 where
  pub content : List (String × Bytes)
  pub sums : List (String × String)

pub record Tools : Type 0 where
  -- base64.StdEncoding.EncodeToString(sha256.New().Sum(data))
  pub checksum : Bytes → String
  -- strings.EqualFold
  pub equal_fold : String → String → Bool
  -- json.Unmarshal into a map
  pub is_object : Bytes → Bool
  pub max_size : ℕ

unfoldable pub find_entry {ℓ} : {V : Type ℓ} → String → List (String × V) → Option V
find_entry key [] = none
find_entry key ((k, v) ∷ rest) =
    let more = find_entry key rest in if str_eq k key then some v else more

abbrev bytes_of : Option Bytes → Bytes
bytes_of none = []
bytes_of (some b) = b

-- `openDataFile` makes an empty file where there is none, and truncates none.
unfoldable pub open_data_file : String → Files → Bytes
unfolding find_entry
open_data_file id s = bytes_of (find_entry id s.content)

-- a write at the start of a file
unfoldable pub overwrite : Bytes → Bytes → Bytes
overwrite [] old = old
overwrite (b ∷ bs) [] = b ∷ bs
overwrite (b ∷ bs) (o ∷ old) = b ∷ overwrite bs old

-- A call that fails has no data.
unfoldable pub get_workflow_data : Tools → Outcome Error Bytes → String → Files → Files
unfolding open_data_file overwrite put
get_workflow_data k (ok []) id s = s
get_workflow_data k (ok (b ∷ bs)) id s = record {
  content = put id (overwrite (b ∷ bs) (open_data_file id s)) s.content;
  sums = put id (k.checksum (b ∷ bs)) s.sums;
}
get_workflow_data k _ id s = s

unfoldable pub is_valid_data_file : Tools → Bytes → Bool
is_valid_data_file k content = k.is_object content && leb (length content) k.max_size

module _ {Server : Type 0} (call : Server → String → Bytes → String → Server × Option Error) where
  -- `sendUpdate`: the request has the data and the checksum in its metadata; an error ends the worker
  abbrev send_update :
      Files → WorkflowActionStatus → Bytes → String → Server → Server × Files × Option Error
  send_update s status content sum server =
      let (server', e) = call server status.workflow_id content sum in (server', s, e)

  unfoldable pub update_workflow_data :
      Tools → WorkflowActionStatus → Files → Server → Server × Files × Option Error
  unfolding open_data_file is_valid_data_file find_entry put
  update_workflow_data k status s server =
      let id = status.workflow_id in
      let content = open_data_file id s in
      let sum = k.checksum content in
      if is_valid_data_file k content
      then elim (find_entry id s.sums) [
        | none ↦ send_update (record s { sums = put id sum s.sums }) status content sum server
        | some old ↦
            if k.equal_fold old sum
            then (server, s, none)
            else send_update s status content sum server
      ]
      else (server, s, none)

length-overwrite :
    (bs old : Bytes)
    → length (overwrite bs old) ≡ (if leb (length old) (length bs) then length bs else length old)
unfolding overwrite
length-overwrite [] [] = refl
length-overwrite [] (o ∷ old) = ground arith
length-overwrite (b ∷ bs) [] = ground arith
length-overwrite (b ∷ bs) (o ∷ old) = ground (arith, length-overwrite bs old)

overwrite-long : (bs old : Bytes) → length old ≤ length bs → overwrite bs old ≡ bs
unfolding overwrite
overwrite-long [] [] h = refl
overwrite-long [] (o ∷ old) h = absurd omega arith
overwrite-long (b ∷ bs) [] h = refl
overwrite-long (b ∷ bs) (o ∷ old) h = ap (◌∷◌ b) (overwrite-long bs old omega arith)

kept_short : (bs old : Bytes) → overwrite bs old ≡ bs → length old ≤ length bs
kept_short bs old e = ground (arith, ap (length {A = ℕ}) e, length-overwrite bs old)

find_entry-put :
    {V : Type 0} (key : String) (v : V) (xs : List (String × V))
    → find_entry key (put key v xs) ≡ some v
unfolding find_entry put
find_entry-put key v [] = ground (arith, eq_refl key)
find_entry-put key v ((k, w) ∷ rest) = ground (arith, eq_refl key, find_entry-put key v rest)

-- the rest behind as many bytes as the first list has
abbrev pub behind : Bytes → Bytes → Bytes
behind [] old = old
behind (b ∷ bs) [] = []
behind (b ∷ bs) (o ∷ old) = behind bs old

overwrite-behind : (bs old : Bytes) → overwrite bs old ≡ bs ++ behind bs old
unfolding overwrite
overwrite-behind [] old = refl
overwrite-behind (b ∷ bs) [] = ap (◌∷◌ b) (sym (append-nil bs))
overwrite-behind (b ∷ bs) (o ∷ old) = ap (◌∷◌ b) (overwrite-behind bs old)

-- After the data of a workflow is fetched, when there is any, the file is the data and then the bytes of
-- the old file behind as many as the data has; it is as long as the longer of the
-- data and the old file, and it is the data exactly when the old file was not longer.
pub get_workflow_data-length :
    (k : Tools) (b : ℕ) (bs : Bytes) (id : String) (s : Files)
    → let file = open_data_file id (get_workflow_data k (ok (b ∷ bs)) id s) in
      let old = open_data_file id s in
      (file ≡ (b ∷ bs) ++ behind (b ∷ bs) old)
      × (length file ≡ (if leb (length old) (length (b ∷ bs)) then length (b ∷ bs) else length old))
      × ((file ≡ b ∷ bs) ↔ (length old ≤ length (b ∷ bs)))
unfolding get_workflow_data open_data_file
get_workflow_data-length k b bs id s =
    let old = open_data_file id s in
    let now : open_data_file id (get_workflow_data k (ok (b ∷ bs)) id s) ≡ overwrite (b ∷ bs) old =
      ap bytes_of (find_entry-put id (overwrite (b ∷ bs) old) s.content) in
    (
      now ∙ overwrite-behind (b ∷ bs) old,
      ap length now ∙ length-overwrite (b ∷ bs) old,
      (λ e. kept_short (b ∷ bs) old (sym now ∙ e), λ h. now ∙ overwrite-long (b ∷ bs) old h),
    )
