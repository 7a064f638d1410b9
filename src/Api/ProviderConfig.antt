-- ===== src/Api/ProviderConfig.antt =====
-- api/v1alpha1/providerconfig_types.go: the versions on offer, and what each of them installs.
pub mod Resolve
pub mod ChartUrl
use service_provider_kro.Base.{
  String, ◌<>◌, ◌==◌, starts_with, Option, none, some, List, [], ◌∷◌, ◌++◌, ◌⊎◌, inl, inr,
  join_with, if◌then◌else◌,
}
use service_provider_kro.Go.{Error, invalid_user_input, wrap, Duration, minute}
use service_provider_kro.Kube.{Time}

-- `HelmValues` is the raw JSON text, if any.
pub record KroVersion : Type 0 where
  pub version : String
  pub chart_version : String
  pub chart_url : Option String
  pub chart_pull_secret : String
  pub helm_values : Option String

pub record ProviderConfigSpec : Type 0 where
  pub versions : List KroVersion
  pub poll_interval : Option Duration

pub record ProviderConfig : Type 0 where
  pub name : String
  pub deletion_timestamp : Option Time
  pub spec : ProviderConfigSpec

abbrev pub default_chart_url : String
default_chart_url = "oci://registry.k8s.io/kro/charts/kro"

abbrev pub default_poll_interval : Duration
default_poll_interval = minute

-- `PollInterval`, of a pointer that may be nil
unfoldable pub poll_interval : Option ProviderConfig → Duration
poll_interval none = default_poll_interval
poll_interval (some pc) = elim pc.spec.poll_interval [ none ↦ default_poll_interval | some d ↦ d ]

abbrev pub err_version_not_available : Error
err_version_not_available = wrap "" invalid_user_input ": requested version is not available"

-- `quote` is the verb `%q` of package fmt.
module _ (quote : String → String) where
  abbrev pub no_config_error : String → Error
  no_config_error version =
      wrap "" err_version_not_available
        (": " <> (quote version <> ", no provider config is configured"))

  -- The errors behind the loop of `ResolveVersion`.
  abbrev pub not_available_error : String → List String → Error
  not_available_error version [] =
      wrap "" err_version_not_available
        (": " <> (quote version <> ", the provider config offers no versions"))
  not_available_error version (v ∷ available) =
      wrap "" err_version_not_available (
        ": " <> (quote version <> (", available versions are: " <> join_with ", " (v ∷ available))))

  -- The loop of `ResolveVersion`, over the candidates left and the versions passed.
  unfoldable pub resolve_loop : String → List String → List KroVersion → Error ⊎ KroVersion
  resolve_loop version available [] = inl (not_available_error version available)
  resolve_loop version available (candidate ∷ rest) =
      let later = resolve_loop version (available ++ candidate.version ∷ []) rest in
      if candidate.version == version then inr candidate else later

  unfoldable pub resolve_version : Option ProviderConfig → String → Error ⊎ KroVersion
  unfolding resolve_loop
  resolve_version none version = inl (no_config_error version)
  resolve_version (some pc) version = resolve_loop version [] pc.spec.versions

unfoldable pub ensure_oci_scheme : String → String
ensure_oci_scheme url = if starts_with url "oci://" then url else "oci://" <> url

unfoldable pub get_chart_url : KroVersion → String
unfolding ensure_oci_scheme
get_chart_url v = elim v.chart_url [
  | none ↦ default_chart_url
  | some url ↦ if url == "" then default_chart_url else ensure_oci_scheme url
]
