-- ===== src/System/Origins.antt =====
-- What the whole controller does has a reason in what was answered before.
pub mod Defs
pub mod Secrets
pub mod Kubeconfig
pub mod Releases
pub mod Install
pub mod Access
pub mod Delegation
pub mod Remove
pub mod Reconcile
