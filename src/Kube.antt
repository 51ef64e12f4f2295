-- ===== src/Kube.antt =====
-- server/kubernetes_api_workflow.go: the workflow service over the custom resources.
pub mod Context
pub mod Modify
pub mod Handlers
