-- ===== src/Controller.antt =====
-- The domain logic of internal/controller: what is installed for a Kro object, and its removal.
pub mod Names
pub mod HelmValues
pub mod Secrets
pub mod Releases
pub mod Install
pub mod Remove
