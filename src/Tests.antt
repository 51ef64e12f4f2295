-- ===== src/Tests.antt =====
-- Runs of the definitions on small inputs, and the theorems at inputs that meet their hypotheses.
mod Samples
mod Templates
mod Resources
mod KubeServer
mod Histories
mod Database
mod Controller
mod WorkerRuns
mod WorkerLoops
mod Creations
mod Machines
mod HardwareCalls
mod Watchers
mod Placements
mod TemplateCalls
mod Client
mod Waits
