-- ===== src/DeepCopy/ConfigMeanings.antt =====
-- What the types of the provider config stand for.
use service_provider_kro.Base.{String, Option, ◌≡◌}
use service_provider_kro.Go.{Duration}
use service_provider_kro.Memory.{Addr, Heap}
use service_provider_kro.Memory.Layout.{Meaning, plain, pointer, slice, Stable}
use service_provider_kro.DeepCopy.Structs.{
  Structs, KroVersion, ProviderConfigSpec, ProviderConfigStatus, ProviderConfig, ProviderConfigList,
  RawKroVersion, RawProviderConfigSpec, RawProviderConfigStatus, RawProviderConfig,
  RawProviderConfigList,
}
use service_provider_kro.DeepCopy.Cells.{
  Cell, text_box, json_box, kro_versions_box, duration_box, conditions_box, provider_configs_box,
}
use service_provider_kro.DeepCopy.Meanings.{Meanings}

module _ {s : Structs} (m : Meanings s) where
  abbrev pub text_pointer : Meaning (Cell s) (Option Addr)
  text_pointer = pointer text_box (plain String)

  abbrev pub json_pointer : Meaning (Cell s) (Option Addr)
  json_pointer = pointer json_box m.json

  pub record KroVersionFits (r : RawKroVersion)
      (v : KroVersion text_pointer.Value json_pointer.Value) (h : Heap (Cell s)) : Type 0 where
    pub version : r.version ≡ v.version
    pub chart_version : r.chart_version ≡ v.chart_version
    pub chart_url : text_pointer.holds r.chart_url v.chart_url h
    pub chart_pull_secret : r.chart_pull_secret ≡ v.chart_pull_secret
    pub helm_values : json_pointer.holds r.helm_values v.helm_values h

  pub KroVersionFits-Stable : Stable KroVersionFits
  KroVersionFits-Stable r v h g k fits = record {
    version = fits.version;
    chart_version = fits.chart_version;
    chart_url = text_pointer.stable r.chart_url v.chart_url h g k fits.chart_url;
    chart_pull_secret = fits.chart_pull_secret;
    helm_values = json_pointer.stable r.helm_values v.helm_values h g k fits.helm_values;
  }

  abbrev pub kro_version : Meaning (Cell s) RawKroVersion
  kro_version = record {
    Value = KroVersion text_pointer.Value json_pointer.Value;
    holds = KroVersionFits;
    stable = KroVersionFits-Stable;
  }

  abbrev pub kro_version_slice : Meaning (Cell s) (Option Addr)
  kro_version_slice = slice kro_versions_box kro_version

  abbrev pub duration_pointer : Meaning (Cell s) (Option Addr)
  duration_pointer = pointer duration_box (plain Duration)

  pub record ProviderConfigSpecFits (r : RawProviderConfigSpec)
      (v : ProviderConfigSpec kro_version_slice.Value duration_pointer.Value) (h : Heap (Cell s))
      : Type 0 where
    pub versions : kro_version_slice.holds r.versions v.versions h
    pub poll_interval : duration_pointer.holds r.poll_interval v.poll_interval h

  pub ProviderConfigSpecFits-Stable : Stable ProviderConfigSpecFits
  ProviderConfigSpecFits-Stable r v h g k fits = record {
    versions = kro_version_slice.stable r.versions v.versions h g k fits.versions;
    poll_interval =
        duration_pointer.stable r.poll_interval v.poll_interval h g k fits.poll_interval;
  }

  abbrev pub provider_config_spec : Meaning (Cell s) RawProviderConfigSpec
  provider_config_spec = record {
    Value = ProviderConfigSpec kro_version_slice.Value duration_pointer.Value;
    holds = ProviderConfigSpecFits;
    stable = ProviderConfigSpecFits-Stable;
  }

  abbrev pub condition_slice : Meaning (Cell s) (Option Addr)
  condition_slice = slice conditions_box m.condition

  pub record ProviderConfigStatusFits (r : RawProviderConfigStatus)
      (v : ProviderConfigStatus condition_slice.Value) (h : Heap (Cell s)) : Type 0 where
    pub conditions : condition_slice.holds r.conditions v.conditions h

  pub ProviderConfigStatusFits-Stable : Stable ProviderConfigStatusFits
  ProviderConfigStatusFits-Stable r v h g k fits = record {
    conditions = condition_slice.stable r.conditions v.conditions h g k fits.conditions;
  }

  abbrev pub provider_config_status : Meaning (Cell s) RawProviderConfigStatus
  provider_config_status = record {
    Value = ProviderConfigStatus condition_slice.Value;
    holds = ProviderConfigStatusFits;
    stable = ProviderConfigStatusFits-Stable;
  }

  pub record ProviderConfigFits (r : RawProviderConfig s)
      (v : ProviderConfig m.object_meta.Value provider_config_spec.Value
        provider_config_status.Value)
      (h : Heap (Cell s)) : Type 0 where
    pub type_meta : r.type_meta ≡ v.type_meta
    pub object_meta : m.object_meta.holds r.object_meta v.object_meta h
    pub spec : provider_config_spec.holds r.spec v.spec h
    pub status : provider_config_status.holds r.status v.status h

  pub ProviderConfigFits-Stable : Stable ProviderConfigFits
  ProviderConfigFits-Stable r v h g k fits = record {
    type_meta = fits.type_meta;
    object_meta = m.object_meta.stable r.object_meta v.object_meta h g k fits.object_meta;
    spec = provider_config_spec.stable r.spec v.spec h g k fits.spec;
    status = provider_config_status.stable r.status v.status h g k fits.status;
  }

  abbrev pub provider_config : Meaning (Cell s) (RawProviderConfig s)
  provider_config = record {
    Value =
        ProviderConfig m.object_meta.Value provider_config_spec.Value provider_config_status.Value;
    holds = ProviderConfigFits;
    stable = ProviderConfigFits-Stable;
  }

  abbrev pub provider_config_slice : Meaning (Cell s) (Option Addr)
  provider_config_slice = slice provider_configs_box provider_config

  pub record ProviderConfigListFits (r : RawProviderConfigList s)
      (v : ProviderConfigList m.list_meta.Value provider_config_slice.Value) (h : Heap (Cell s))
      : Type 0 where
    pub type_meta : r.type_meta ≡ v.type_meta
    pub list_meta : m.list_meta.holds r.list_meta v.list_meta h
    pub items : provider_config_slice.holds r.items v.items h

  pub ProviderConfigListFits-Stable : Stable ProviderConfigListFits
  ProviderConfigListFits-Stable r v h g k fits = record {
    type_meta = fits.type_meta;
    list_meta = m.list_meta.stable r.list_meta v.list_meta h g k fits.list_meta;
    items = provider_config_slice.stable r.items v.items h g k fits.items;
  }

  abbrev pub provider_config_list : Meaning (Cell s) (RawProviderConfigList s)
  provider_config_list = record {
    Value = ProviderConfigList m.list_meta.Value provider_config_slice.Value;
    holds = ProviderConfigListFits;
    stable = ProviderConfigListFits-Stable;
  }
