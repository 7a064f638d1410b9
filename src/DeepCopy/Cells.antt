-- ===== src/DeepCopy/Cells.antt =====
-- What a piece of memory holds: the target of a pointer, or the elements of an array.
use service_provider_kro.Base.{String, Option, some, none, List, refl}
use service_provider_kro.Go.{Duration}
use service_provider_kro.Api.Kro.{KroSpec}
use service_provider_kro.Memory.{Addr, Box, Copier}
use service_provider_kro.DeepCopy.Structs.{
  Structs, RawManagedResource, RawKroStatus, RawKro, RawKroList, RawKroVersion,
  RawProviderConfigSpec, RawProviderConfigStatus, RawProviderConfig, RawProviderConfigList,
}

pub data Cell (s : Structs) : Type 0 where
  text : String → Cell s
  duration : Duration → Cell s
  json : s.Json → Cell s
  inner : s.Inner → Cell s
  managed_resources : List (RawManagedResource s) → Cell s
  kro_versions : List RawKroVersion → Cell s
  conditions : List s.Condition → Cell s
  kros : List (RawKro s) → Cell s
  provider_configs : List (RawProviderConfig s) → Cell s
  managed_resource : RawManagedResource s → Cell s
  kro_spec : KroSpec → Cell s
  kro_status : RawKroStatus s → Cell s
  kro : RawKro s → Cell s
  kro_list : RawKroList s → Cell s
  kro_version : RawKroVersion → Cell s
  provider_config_spec : RawProviderConfigSpec → Cell s
  provider_config_status : RawProviderConfigStatus → Cell s
  provider_config : RawProviderConfig s → Cell s
  provider_config_list : RawProviderConfigList s → Cell s

module _ {s : Structs} where
  abbrev pub to_text : Cell s → Option String
  to_text (text x) = some x
  to_text _ = none

  abbrev pub text_box : Box (Cell s) String
  text_box = record { put = text; get = to_text; get-put = λ x. refl }

  abbrev pub to_duration : Cell s → Option Duration
  to_duration (duration x) = some x
  to_duration _ = none

  abbrev pub duration_box : Box (Cell s) Duration
  duration_box = record { put = duration; get = to_duration; get-put = λ x. refl }

  abbrev pub to_json : Cell s → Option s.Json
  to_json (json x) = some x
  to_json _ = none

  abbrev pub json_box : Box (Cell s) s.Json
  json_box = record { put = json; get = to_json; get-put = λ x. refl }

  abbrev pub to_inner : Cell s → Option s.Inner
  to_inner (inner x) = some x
  to_inner _ = none

  abbrev pub inner_box : Box (Cell s) s.Inner
  inner_box = record { put = inner; get = to_inner; get-put = λ x. refl }

  abbrev pub to_managed_resources : Cell s → Option (List (RawManagedResource s))
  to_managed_resources (managed_resources x) = some x
  to_managed_resources _ = none

  abbrev pub managed_resources_box : Box (Cell s) (List (RawManagedResource s))
  managed_resources_box = record {
    put = managed_resources;
    get = to_managed_resources;
    get-put = λ x. refl;
  }

  abbrev pub to_kro_versions : Cell s → Option (List RawKroVersion)
  to_kro_versions (kro_versions x) = some x
  to_kro_versions _ = none

  abbrev pub kro_versions_box : Box (Cell s) (List RawKroVersion)
  kro_versions_box = record { put = kro_versions; get = to_kro_versions; get-put = λ x. refl }

  abbrev pub to_conditions : Cell s → Option (List s.Condition)
  to_conditions (conditions x) = some x
  to_conditions _ = none

  abbrev pub conditions_box : Box (Cell s) (List s.Condition)
  conditions_box = record { put = conditions; get = to_conditions; get-put = λ x. refl }

  abbrev pub to_kros : Cell s → Option (List (RawKro s))
  to_kros (kros x) = some x
  to_kros _ = none

  abbrev pub kros_box : Box (Cell s) (List (RawKro s))
  kros_box = record { put = kros; get = to_kros; get-put = λ x. refl }

  abbrev pub to_provider_configs : Cell s → Option (List (RawProviderConfig s))
  to_provider_configs (provider_configs x) = some x
  to_provider_configs _ = none

  abbrev pub provider_configs_box : Box (Cell s) (List (RawProviderConfig s))
  provider_configs_box = record {
    put = provider_configs;
    get = to_provider_configs;
    get-put = λ x. refl;
  }

  abbrev pub to_managed_resource : Cell s → Option (RawManagedResource s)
  to_managed_resource (managed_resource x) = some x
  to_managed_resource _ = none

  abbrev pub managed_resource_box : Box (Cell s) (RawManagedResource s)
  managed_resource_box = record {
    put = managed_resource;
    get = to_managed_resource;
    get-put = λ x. refl;
  }

  abbrev pub to_kro_spec : Cell s → Option KroSpec
  to_kro_spec (kro_spec x) = some x
  to_kro_spec _ = none

  abbrev pub kro_spec_box : Box (Cell s) KroSpec
  kro_spec_box = record { put = kro_spec; get = to_kro_spec; get-put = λ x. refl }

  abbrev pub to_kro_status : Cell s → Option (RawKroStatus s)
  to_kro_status (kro_status x) = some x
  to_kro_status _ = none

  abbrev pub kro_status_box : Box (Cell s) (RawKroStatus s)
  kro_status_box = record { put = kro_status; get = to_kro_status; get-put = λ x. refl }

  abbrev pub to_kro : Cell s → Option (RawKro s)
  to_kro (kro x) = some x
  to_kro _ = none

  abbrev pub kro_box : Box (Cell s) (RawKro s)
  kro_box = record { put = kro; get = to_kro; get-put = λ x. refl }

  abbrev pub to_kro_list : Cell s → Option (RawKroList s)
  to_kro_list (kro_list x) = some x
  to_kro_list _ = none

  abbrev pub kro_list_box : Box (Cell s) (RawKroList s)
  kro_list_box = record { put = kro_list; get = to_kro_list; get-put = λ x. refl }

  abbrev pub to_kro_version : Cell s → Option RawKroVersion
  to_kro_version (kro_version x) = some x
  to_kro_version _ = none

  abbrev pub kro_version_box : Box (Cell s) RawKroVersion
  kro_version_box = record { put = kro_version; get = to_kro_version; get-put = λ x. refl }

  abbrev pub to_provider_config_spec : Cell s → Option RawProviderConfigSpec
  to_provider_config_spec (provider_config_spec x) = some x
  to_provider_config_spec _ = none

  abbrev pub provider_config_spec_box : Box (Cell s) RawProviderConfigSpec
  provider_config_spec_box = record {
    put = provider_config_spec;
    get = to_provider_config_spec;
    get-put = λ x. refl;
  }

  abbrev pub to_provider_config_status : Cell s → Option RawProviderConfigStatus
  to_provider_config_status (provider_config_status x) = some x
  to_provider_config_status _ = none

  abbrev pub provider_config_status_box : Box (Cell s) RawProviderConfigStatus
  provider_config_status_box = record {
    put = provider_config_status;
    get = to_provider_config_status;
    get-put = λ x. refl;
  }

  abbrev pub to_provider_config : Cell s → Option (RawProviderConfig s)
  to_provider_config (provider_config x) = some x
  to_provider_config _ = none

  abbrev pub provider_config_box : Box (Cell s) (RawProviderConfig s)
  provider_config_box = record {
    put = provider_config;
    get = to_provider_config;
    get-put = λ x. refl;
  }

  abbrev pub to_provider_config_list : Cell s → Option (RawProviderConfigList s)
  to_provider_config_list (provider_config_list x) = some x
  to_provider_config_list _ = none

  abbrev pub provider_config_list_box : Box (Cell s) (RawProviderConfigList s)
  provider_config_list_box = record {
    put = provider_config_list;
    get = to_provider_config_list;
    get-put = λ x. refl;
  }

-- The `DeepCopyInto` of the library types
pub record Copiers (s : Structs) : Type 0 where
  pub object_meta : Copier (Cell s) s.ObjectMeta
  pub list_meta : Copier (Cell s) s.ListMeta
  pub status : Copier (Cell s) s.Status
  pub reference : Copier (Cell s) s.Reference
  pub condition : Copier (Cell s) s.Condition
  pub json : Copier (Cell s) s.Json

-- A value of the interface `runtime.Object` that is not nil: a pointer, possibly nil, with its type
pub data RuntimeObject : Type 0 where
  kro_object kro_list_object provider_config_object provider_config_list_object :
      Option Addr → RuntimeObject
