-- ===== src/Worker/Steps.antt =====
-- The steps of a workflow's data in worker.go, over the files of the worker and a server, with their
-- calls of os.Exit. What the operating system answers is a parameter; writes that succeed are whole.
use tink.Prelude.{String, Bool, true, false, Option, none, some, [], ◌∷◌, if◌then◌else◌}
use tink.Prelude.Outcome.{Outcome, ok}
use tink.Proto.{WorkflowActionStatus, Error}
use tink.Convert.{put}
use tink.Worker.{DataSteps}
use tink.Worker.DataFile.{Bytes, Files, Tools, open_data_file, overwrite}
use tink.Worker.DataFile as DataFile

-- What the operating system answers, by the id of the workflow.
pub record Disk : Type 0 where
  -- os.IsNotExist of os.Stat on the directory
  pub is_missing : String → Bool
  -- os.MkdirAll, and the opening, the write and the close of the new data file
  pub on_create : String → Option String
  -- os.OpenFile before an action and after it
  pub on_get : String → Option String
  pub on_update : String → Option String

abbrev is_some {ℓ} : {A : Type ℓ} → Option A → Bool
is_some none = false
is_some (some a) = true

-- an empty JSON object
abbrev empty_object : Bytes
empty_object = 123 ∷ 125 ∷ []

-- the new directory and its file
unfoldable pub create_directory : Disk → String → Files → Files × Bool
unfolding open_data_file overwrite put
create_directory d id s =
    if d.is_missing id
    then if is_some (d.on_create id) then (s, true) else (
      record s { content = put id (overwrite empty_object (open_data_file id s)) s.content },
      false,
    )
    else (s, false)

abbrev is_empty : Outcome Error Bytes → Bool
is_empty (ok (b ∷ bs)) = false
is_empty _ = true

-- a file is opened only for data that is not empty
unfoldable pub fetch : Tools → Disk → Outcome Error Bytes → String → Files → Files × Bool
unfolding DataFile.get_workflow_data
fetch k d answer id s =
    if is_empty answer
    then (s, false)
    else if is_some (d.on_get id)
    then (s, true)
    else (DataFile.get_workflow_data k answer id s, false)

module _ {Server : Type 0} (call : Server → String → Bytes → String → Server × Option Error) where
  unfoldable pub send :
      Tools → Disk → WorkflowActionStatus → Server × Files → (Server × Files) × Bool
  unfolding DataFile.update_workflow_data
  send k d status (server, s) =
      if is_some (d.on_update status.workflow_id)
      then ((server, s), true)
      else (let (server', s', e) = DataFile.update_workflow_data call k status s server in
          ((server', s'), is_some e))

  unfoldable pub data_steps :
      (Server → String → Server × Outcome Error Bytes) → Tools → Disk → DataSteps (Server × Files)
  unfolding create_directory fetch send
  data_steps ask k d = record {
    prepare = λ id w. let (s', dies) = create_directory d id w.1 in ((w.0, s'), dies);
    get_workflow_data = λ id w.
        let (server', answer) = ask w.0 id in
        let (s', dies) = fetch k d answer id w.1 in ((server', s'), dies);
    update_workflow_data = send k d;
  }
