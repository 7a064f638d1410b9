-- ===== src/System/Leaving.antt =====
-- A deletion of a Kro object that nothing is in the way of.
pub mod Defs
pub mod Removal
pub mod Access
pub mod Domain
