-- ===== src/Template/Render.antt =====
-- workflow/template_validator.go and workflow/funcs.go: parsing, rendering and the template function
-- `formatPartition`. The YAML and JSON decoders and the engine of text/template are parameters.
pub mod Accepted
use text.Mathlib.Text.{starts_with}
use tink.Prelude.{
  ℕ, zero, suc, ◌+◌, ◌/◌, ◌%◌, String, Bool, Option, none, some, List, [], ◌∷◌, ◌≡◌, refl, str_eq,
  ltb, ◌==◌, append, if◌then◌else◌,
}
use tink.Prelude.Int.{ℤ, pos, negsuc}
use tink.Prelude.Outcome.{Outcome, ok, err, or_fail, ◌>>=◌, ◌>>◌}
use tink.Template.Types.{Task, Workflow}
use tink.Template.Validate.{Problem, validate}

digit : ℕ → String
digit n =
    if n == 0
    then "0"
    else if n == 1
    then "1"
    else if n == 2
    then "2"
    else if n == 3
    then "3"
    else if n == 4
    then "4"
    else if n == 5
    then "5"
    else if n == 6
    then "6"
    else if n == 7
    then "7"
    else if n == 8
    then "8"
    else "9"

-- the digits of `n`, with `n + 1` rounds at most
digits : ℕ → ℕ → String
unfolding digit
digits zero n = ""
digits (suc fuel) n =
    let more = append (digits fuel (n / 10)) (digit (n % 10)) in if ltb n 10 then digit n else more

-- `%v` of an int
unfoldable pub decimal : ℤ → String
unfolding digits
decimal (pos n) = digits (suc n) n
decimal (negsuc n) = append "-" (digits (suc (suc n)) (suc n))

unfoldable pub format_partition : String → ℤ → String
unfolding decimal
format_partition dev partition =
    if starts_with dev "/dev/nvme"
    then append (append dev "p") (decimal partition)
    else if starts_with dev "/dev/sd"
    then append dev (decimal partition)
    else dev

format_partition_nvme : format_partition "/dev/nvme0n1" (pos 0) ≡ "/dev/nvme0n1p0"
unfolding format_partition
format_partition_nvme = refl

format_partition_sda : format_partition "/dev/sda" (pos 10) ≡ "/dev/sda10"
unfolding format_partition
format_partition_sda = refl

-- The errors of parsing and rendering; `parsing id` wraps `errTemplateParsing`.
pub data RenderError : Type 0 where
  yaml invalid_address : RenderError
  parsing : String → RenderError
  invalid : Problem → RenderError

-- What the program takes from other packages: the reference parser, `yaml.UnmarshalStrict`, the
-- template engine (with the data it is executed on) and `json.Unmarshal`.
pub record Engine (Hardware : Type 0) : Type 0 where
  pub is_reference : String → Bool
  pub unmarshal_yaml : String → Option Workflow
  pub execute : String → Hardware → Option String
  pub unmarshal_json : String → Option Hardware

-- `task.WorkerAddr == ""` for some task
unfoldable pub check_addresses : List Task → Option RenderError
check_addresses [] = none
check_addresses (task ∷ rest) =
    if str_eq task.worker_addr "" then some invalid_address else check_addresses rest

module _ {Hardware : Type 0} (e : Engine Hardware) where
  abbrev pub wrap_problem : Option Problem → Option RenderError
  wrap_problem none = none
  wrap_problem (some p) = some (invalid p)

  unfoldable pub parse : String → Outcome RenderError Workflow
  parse content = do
    wf ← or_fail (e.unmarshal_yaml content) yaml
    wrap_problem (validate e.is_reference wf)
    ok wf

  unfoldable pub render_template_hardware :
      String → String → Hardware → Outcome RenderError (Workflow × String)
  unfolding parse check_addresses
  render_template_hardware template_id template_data hardware = do
    buf ← or_fail (e.execute template_data hardware) (parsing template_id)
    wf ← parse buf
    check_addresses wf.tasks
    ok (wf, buf)

  unfoldable pub render_template : String → String → String → Outcome RenderError String
  unfolding render_template_hardware
  render_template template_id template_data devices = do
    hardware ← or_fail (e.unmarshal_json devices) (parsing template_id)
    r ← render_template_hardware template_id template_data hardware
    ok r.1
