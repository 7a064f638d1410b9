-- ===== src/DeepCopy.antt =====
-- api/v1alpha1/zz_generated.deepcopy.go: a module for each type, with its DeepCopyInto, DeepCopy and,
-- if it is an object of the API, DeepCopyObject.
pub mod Structs
pub mod Cells
pub mod Meanings
pub mod ConfigMeanings
pub mod Laws
pub mod Objects
pub mod ManagedResource
pub mod KroSpec
pub mod KroStatus
pub mod Kro
pub mod KroList
pub mod KroVersion
pub mod ProviderConfigSpec
pub mod ProviderConfigStatus
pub mod ProviderConfig
pub mod ProviderConfigList
