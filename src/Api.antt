-- ===== src/Api.antt =====
-- The API types of api/v1alpha1.
pub mod ProviderConfig
pub mod Kro
