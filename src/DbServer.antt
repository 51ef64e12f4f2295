-- ===== src/DbServer.antt =====
-- server/dbserver_worker_workflow.go and `getWorkflowState`: the services over the database.
pub mod Worker
pub mod Status
pub mod Hardware
pub mod Template
pub mod Workflow
