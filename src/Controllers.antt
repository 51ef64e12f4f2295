-- ===== src/Controllers.antt =====
-- pkg/controllers: the field indexes of the manager, and the workflow controller.
pub mod Index
pub mod Workflow
