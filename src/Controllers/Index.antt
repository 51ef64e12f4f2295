-- ===== src/Controllers/Index.antt =====
-- pkg/controllers/manager.go: the functions that extract the index values of a workflow and of a hardware. (An object
-- of another kind has no values; the manager registers each function for its own kind.)
use tink.Prelude.{
  Option, none, some, String, Bool, true, false, not, List, [], ◌∷◌, str_eq, if◌then◌else◌,
}
use tink.Proto.{WorkflowState, state_pending, state_running}
use tink.V1alpha1.Types.{Task, Workflow}
use tink.V1alpha1.Resources.{Hardware, Interface, Dhcp}

-- the loop of both worker indexes
unfoldable pub worker_addrs : List Task → List String
worker_addrs [] = []
worker_addrs (task ∷ rest) =
    let more = worker_addrs rest in
    if not (str_eq task.worker_addr "") then task.worker_addr ∷ more else more

unfoldable pub workflow_worker_addr_index : Workflow → List String
unfolding worker_addrs
workflow_worker_addr_index wf = worker_addrs wf.status.tasks

abbrev pub is_active : WorkflowState → Bool
is_active state_running = true
is_active state_pending = true
is_active _ = false

unfoldable pub workflow_worker_non_terminal_state_index : Workflow → List String
unfolding worker_addrs
workflow_worker_non_terminal_state_index wf =
    if not (is_active wf.status.state) then [] else worker_addrs wf.status.tasks

unfoldable pub workflow_state_index : Workflow → List WorkflowState
workflow_state_index wf = wf.status.state ∷ []

-- the indexes of hardware by its addresses; an empty address is left out
unfoldable pub mac_index : List Interface → List String
mac_index [] = []
mac_index (i ∷ rest) =
    let more = mac_index rest in
    elim i.dhcp [ none ↦ more | some d ↦ if not (str_eq d.mac "") then d.mac ∷ more else more ]

abbrev ip_address : Option Dhcp → String
ip_address none = ""
ip_address (some d) = elim d.ip [ none ↦ "" | some ip ↦ ip.address ]

unfoldable pub ip_index : List Interface → List String
ip_index [] = []
ip_index (i ∷ rest) =
    let more = ip_index rest in
    let address = ip_address i.dhcp in if not (str_eq address "") then address ∷ more else more

unfoldable pub hardware_mac_index : Hardware → List String
unfolding mac_index
hardware_mac_index h = mac_index h.interfaces

unfoldable pub hardware_ip_index : Hardware → List String
unfolding ip_index
hardware_ip_index h = ip_index h.interfaces
