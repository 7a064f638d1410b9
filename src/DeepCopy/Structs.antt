-- ===== src/DeepCopy/Structs.antt =====
-- The Go types of api/v1alpha1 as they lie in memory, where a pointer is an address, or none for nil,
-- and a slice is the address of an array with all its elements, or none for nil. Each type takes
-- the types of those fields that have a part elsewhere in memory, so that it also serves for the
-- values that it stands for, which have no addresses.
use service_provider_kro.Base.{String, Option}
use service_provider_kro.Api.Kro.{InstancePhase, ResourceLocation, KroSpec}
use service_provider_kro.Memory.{Addr}

-- `metav1.TypeMeta`
pub record TypeMeta : Type 0 where
  pub kind : String
  pub api_version : String

pub record ManagedResource (Reference : Type 0) : Type 0 where
  pub reference : Reference
  pub phase : InstancePhase
  pub message : String
  pub location : ResourceLocation

pub record KroStatus (Status Resources : Type 0) : Type 0 where
  pub status : Status
  pub resources : Resources

pub record Kro (ObjectMeta Status : Type 0) : Type 0 where
  pub type_meta : TypeMeta
  pub object_meta : ObjectMeta
  pub spec : KroSpec
  pub status : Status

pub record KroList (ListMeta Items : Type 0) : Type 0 where
  pub type_meta : TypeMeta
  pub list_meta : ListMeta
  pub items : Items

pub record KroVersion (ChartUrl HelmValues : Type 0) : Type 0 where
  pub version : String
  pub chart_version : String
  pub chart_url : ChartUrl
  pub chart_pull_secret : String
  pub helm_values : HelmValues

pub record ProviderConfigSpec (Versions PollInterval : Type 0) : Type 0 where
  pub versions : Versions
  pub poll_interval : PollInterval

pub record ProviderConfigStatus (Conditions : Type 0) : Type 0 where
  pub conditions : Conditions

pub record ProviderConfig (ObjectMeta Spec Status : Type 0) : Type 0 where
  pub type_meta : TypeMeta
  pub object_meta : ObjectMeta
  pub spec : Spec
  pub status : Status

pub record ProviderConfigList (ListMeta Items : Type 0) : Type 0 where
  pub type_meta : TypeMeta
  pub list_meta : ListMeta
  pub items : Items

-- The types of the libraries: `metav1.ObjectMeta`, `metav1.ListMeta`, `commonapi.Status`,
-- `corev1.TypedObjectReference`, `metav1.Condition` and `apiextensionsv1.JSON`, and what the
-- libraries keep in memory behind them
pub record Structs : Type 1 where
  pub ObjectMeta : Type 0
  pub ListMeta : Type 0
  pub Status : Type 0
  pub Reference : Type 0
  pub Condition : Type 0
  pub Json : Type 0
  pub Inner : Type 0

-- What lies in memory
abbrev pub RawKroVersion : Type 0
RawKroVersion = KroVersion (Option Addr) (Option Addr)

abbrev pub RawProviderConfigSpec : Type 0
RawProviderConfigSpec = ProviderConfigSpec (Option Addr) (Option Addr)

abbrev pub RawProviderConfigStatus : Type 0
RawProviderConfigStatus = ProviderConfigStatus (Option Addr)

module _ (s : Structs) where
  abbrev pub RawManagedResource : Type 0
  RawManagedResource = ManagedResource s.Reference

  abbrev pub RawKroStatus : Type 0
  RawKroStatus = KroStatus s.Status (Option Addr)

  abbrev pub RawKro : Type 0
  RawKro = Kro s.ObjectMeta RawKroStatus

  abbrev pub RawKroList : Type 0
  RawKroList = KroList s.ListMeta (Option Addr)

  abbrev pub RawProviderConfig : Type 0
  RawProviderConfig = ProviderConfig s.ObjectMeta RawProviderConfigSpec RawProviderConfigStatus

  abbrev pub RawProviderConfigList : Type 0
  RawProviderConfigList = ProviderConfigList s.ListMeta (Option Addr)
