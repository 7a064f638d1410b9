-- ===== src/Runtime.antt =====
-- The generic reconcilers of pkg/spruntime.
pub mod Status
pub mod Context
pub mod Clusters
pub mod Domain
pub mod Reconcile
pub mod Config
pub mod Polling
pub mod Annotations
pub mod Updates
