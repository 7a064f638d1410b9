-- ===== src/Examples/Values.antt =====
-- The theorems on versions and URLs, applied.
use service_provider_kro.Base.{true, some, [], ◌∷◌, ◌≡◌, refl}
use service_provider_kro.Go.{is_invalid_user_input}
use service_provider_kro.Api.ProviderConfig.{
  KroVersion, not_available_error, resolve_version, get_chart_url,
}
use service_provider_kro.Api.ProviderConfig.Resolve.{resolve_version-IsInvalid}
use service_provider_kro.Api.ProviderConfig.ChartUrl.{ChartUrlOf, get_chart_url_lem}
use service_provider_kro.Examples.World.{config, version_1}

abbrev bare_version : KroVersion
bare_version = record version_1 { chart_url = some "registry.example.org/kro" }

resolve_version-IsInvalid_example :
    is_invalid_user_input (not_available_error (λ s. s) "2.0.0" ("1.0.0" ∷ [])) ≡ true
unfolding resolve_version
resolve_version-IsInvalid_example = resolve_version-IsInvalid (λ s. s) (some config) "2.0.0" refl

-- The configured URL lacks the scheme.
get_chart_url_lem_example : ChartUrlOf bare_version.chart_url (get_chart_url bare_version)
get_chart_url_lem_example = get_chart_url_lem bare_version
