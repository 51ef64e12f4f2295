-- ===== src/Worker/Quiet.antt =====
-- The steps of a workflow's data, when no file and no call of the server's data fails.
use tink.Prelude.{◌≡◌, refl, String, false, Option, none, Option-cases, inl, inr, arith}
use tink.Prelude.Outcome.{Outcome}
use tink.Proto.{WorkflowActionStatus, Error}
use tink.Db.Tables.{Tables}
use tink.Worker.DataFile.{Bytes, Files, Tools, open_data_file, find_entry, update_workflow_data}
use tink.Worker.Steps.{Disk, create_directory, fetch, send, data_steps}
use tink.Worker.Complete.{World, Passes, IsQuiet}

-- No file of the worker fails to open, to be written or to be closed.
pub record IsCalm (d : Disk) : Type 0 where
  pub created : (id : String) → d.on_create id ≡ none
  pub got : (id : String) → d.on_get id ≡ none
  pub updated : (id : String) → d.on_update id ≡ none

module _ (call : Tables → String → Bytes → String → Tables × Option Error)
    (ask : Tables → String → Tables × Outcome Error Bytes) (k : Tools) (d : Disk) (calm : IsCalm d)
    (asked : (t : Tables) (id : String) → (ask t id).0.workflow_state ≡ t.workflow_state)
    (called : (t : Tables) (id : String) (b : Bytes) (sum : String)
      → ((call t id b sum).1 ≡ none)
        × ((call t id b sum).0.workflow_state ≡ t.workflow_state)) where
  create_directory-lives : (id : String) (s : Files) → (create_directory d id s).1 ≡ false
  unfolding create_directory
  create_directory-lives id s = ground (arith, calm.created id)

  fetch-lives : (o : Outcome Error Bytes) (id : String) (s : Files) → (fetch k d o id s).1 ≡ false
  unfolding fetch
  fetch-lives o id s = ground (arith, calm.got id)

  send-Passes : (req : WorkflowActionStatus) (w : World) → Passes (send call k d req w) w
  unfolding send update_workflow_data
  send-Passes req (t, s) =
      let content = open_data_file req.workflow_id s in
      let x = called t req.workflow_id content (k.checksum content) in
      elim (Option-cases (find_entry req.workflow_id s.sums)) [
        | inl n ↦ (
          ground (arith, calm.updated req.workflow_id, n, x.0),
          ground (arith, calm.updated req.workflow_id, n, x.1),
        )
        | inr (old, n) ↦ (
          ground (arith, calm.updated req.workflow_id, n, x.0),
          ground (arith, calm.updated req.workflow_id, n, x.1),
        )
      ]

  -- No step exits, and the states of the workflows are kept, where every call of the server's data
  -- succeeds and keeps them.
  pub data_steps-IsQuiet : IsQuiet (data_steps call ask k d)
  unfolding data_steps
  data_steps-IsQuiet = record {
    prepared = λ id w. (create_directory-lives id w.1, refl);
    got = λ id w. (fetch-lives (ask w.0 id).1 id w.1, asked w.0 id);
    updated = λ req w. send-Passes req w;
  }
