-- ===== src/Tests/Placements.antt =====
-- Tests of the creation of a workflow for the machines of the hardware table.
use tink.Prelude.{false, none, some, List, [], ◌∷◌}
use tink.Prelude.Outcome.{ok}
use tink.Db.Tables.{Tables, Faults}
use tink.Db.Create.{Creation}
use tink.Db.Hardware.{HardwareRow, Net}
use tink.DbServer.Workflow.Workers.{with_machines}
use tink.Tests.Samples.{install, template_task, template_action}
use tink.Tests.Creations.{creation}
use tink.Tests.Machines.{jsonb, row_of}

abbrev answering : Faults
answering c = none

abbrev rack : List HardwareRow
rack = row_of "one" ∷ row_of "two" ∷ []

abbrev macs : Net
macs = record { parse_mac = λ addr. some addr; is_ipv4 = λ addr. false }

-- a workflow with one task for each of the two machines
abbrev for_rack : Creation
for_rack = record creation {
  parse = λ yaml. ok (record install {
    tasks =
        template_task "os" "aa" (template_action "disk" ∷ [])
        ∷ template_task "post" "bb" (template_action "reboot" ∷ [])
        ∷ [];
  });
}

abbrev placed : Creation
placed = with_machines jsonb answering macs rack for_rack
