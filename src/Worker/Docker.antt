-- ===== src/Worker/Docker.antt =====
-- The calls of Docker in container_manager.go and registry.go: the configuration of a container, and the
-- answers to the download of an image. The Docker client, path.Join and the encoding of the credentials
-- are parameters.
use tink.Prelude.{
  ◌≡◌, ◌⊎◌, inl, inr, refl, String, Bool, Option, none, some, List, [], ◌∷◌, append, str_eq, eq_iff,
  All, arith, if◌then◌else◌,
}
use tink.Proto.{State, failed, timeout, WorkflowAction}
use tink.Worker.Execute.{Ending, exit_code, wait_error, done, state_of_code}

-- container.Config
pub record Config : Type 0 where
  pub image : String
  pub attach_stdout : Bool
  pub attach_stderr : Bool
  pub cmd : List String
  pub tty : Bool
  pub env : List String

-- container.HostConfig; an empty mode of the process ids is Docker's own
pub record HostConfig : Type 0 where
  pub privileged : Bool
  pub binds : List String
  pub pid_mode : String

pub record Registry : Type 0 where
  pub registry : String
  pub username : String
  pub password : String

-- one message of the stream that answers a download
pub record ImagePullStatus : Type 0 where
  pub status : String
  pub error : String

-- What a decoding of the stream gives, until its end: a message, which is not the JSON null, or an error.
pub data Decoded : Type 0 where
  message : ImagePullStatus → Decoded
  broken : String → Decoded

pub data DockerError : Type 0 where
  create start pull auth stop : String → DockerError

abbrev wrap : (String → DockerError) → Option String → Option DockerError
wrap make none = none
wrap make (some cause) = some (make cause)

-- the loop over the stream, up to its end or the first error
unfoldable pub read_status : List Decoded → Option DockerError
read_status [] = none
read_status (broken cause ∷ rest) = some (pull cause)
read_status (message m ∷ rest) =
    let more = read_status rest in if str_eq m.error "" then more else some (pull m.error)

module _ (join : String → String → String) (r : Registry) where
  unfoldable pub config_of : List String → WorkflowAction → Bool → Config
  config_of cmd action capture_logs = record {
    image = join r.registry action.image;
    attach_stdout = capture_logs;
    attach_stderr = capture_logs;
    cmd = cmd;
    tty = capture_logs;
    env = action.environment;
  }

  unfoldable pub host_config_of : String → WorkflowAction → Bool → HostConfig
  host_config_of wf_id action privileged = record {
    privileged = privileged;
    binds = append (join "/worker" wf_id) ":/workflow" ∷ action.volumes;
    pid_mode = action.pid;
  }

  -- The id of the container, by the client's `ContainerCreate`.
  unfoldable pub create_container :
      (Config → HostConfig → String → String ⊎ String)
      → List String
      → String
      → WorkflowAction
      → Bool
      → Bool
      → DockerError ⊎ String
  unfolding config_of host_config_of
  create_container client cmd wf_id action capture_logs privileged =
      elim (client (config_of cmd action capture_logs) (host_config_of wf_id action privileged)
        action.name) [ inl cause ↦ inl (create cause) | inr id ↦ inr id ]

  abbrev pub start_container : (String → Option String) → String → Option DockerError
  start_container client id = wrap start (client id)

  abbrev pub remove_container : (String → Option String) → String → Option DockerError
  remove_container client id = wrap stop (client id)

  -- The credentials as the client wants them, or an error of json.Marshal; the client answers a
  -- download with an error or a stream.
  unfoldable pub pull_image :
      (Registry → String ⊎ String)
      → (String → String → String ⊎ List Decoded)
      → String
      → Option DockerError
  unfolding read_status
  pull_image encode client image = elim (encode r) [
    | inl cause ↦ some (auth cause)
    | inr credentials ↦ elim (client (join r.registry image) credentials) [
      | inl cause ↦ some (pull cause)
      | inr stream ↦ read_status stream
    ]
  ]

-- `WaitForFailedContainer`: what it sends to its channel
unfoldable pub wait_for_failed_container : Ending → State
wait_for_failed_container (exit_code code) = state_of_code code
wait_for_failed_container (wait_error e) = failed
wait_for_failed_container (done e) = timeout

-- a message without an error
abbrev pub IsProgress : Decoded → Type 0
IsProgress (broken cause) = ⊥
IsProgress (message m) = m.error ≡ ""

-- A download succeeds exactly when every message of its stream decodes and has no error.
read_status-IsProgress :
    (stream : List Decoded)
    → (read_status stream ≡ none → All IsProgress stream)
      × (All IsProgress stream → read_status stream ≡ none)
unfolding read_status
read_status-IsProgress [] = (λ h. tt, λ h. refl)
read_status-IsProgress (broken cause ∷ rest) = (λ h. absurd ground arith, λ h. absurd h.0)
read_status-IsProgress (message m ∷ rest) =
    let (to, from) = read_status-IsProgress rest in
    (
      λ h. (ground (arith, eq_iff m.error ""), to ground (arith, h)),
      λ h. ground (arith, eq_iff m.error "", h.0, from h.1),
    )
