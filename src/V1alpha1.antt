-- ===== src/V1alpha1.antt =====
-- pkg/apis/core/v1alpha1: the custom resources.
pub mod Types
pub mod Methods
pub mod Resources
