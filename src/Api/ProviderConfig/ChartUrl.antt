-- ===== src/Api/ProviderConfig/ChartUrl.antt =====
-- GetChartURL of api/v1alpha1/providerconfig_types.go: which URL is used, and in what form.
use service_provider_kro.Base.{
  String, ◌<>◌, ◌==◌, starts_with, starts_with_iff, eq_iff, true, false, Option, none, some, ◌⊎◌,
  inl, inr, ◌≡◌, ◌≢◌, refl, ap, Bool-cases,
}
use text.Mathlib.TextLemmas.{prefix-append}
use service_provider_kro.Api.ProviderConfig.{KroVersion, ensure_oci_scheme, get_chart_url}

abbrev pub scheme : String
scheme = "oci://"

pub ensure_oci_scheme-starts_with :
    (url : String) → starts_with (ensure_oci_scheme url) scheme ≡ true
unfolding ensure_oci_scheme
ensure_oci_scheme-starts_with url = elim (Bool-cases (starts_with url scheme)) [
  | inl has ↦ rw has has
  | inr lacks ↦ rw lacks ((starts_with_iff (scheme <> url) scheme).1 (prefix-append scheme url))
]

-- To add the scheme twice is to add it once.
ensure_oci_scheme_idem :
    (url : String) → ensure_oci_scheme (ensure_oci_scheme url) ≡ ensure_oci_scheme url
ensure_oci_scheme_idem url = ensure_of (ensure_oci_scheme url) (ensure_oci_scheme-starts_with url)
  where
    ensure_of : (u : String) → starts_with u scheme ≡ true → ensure_oci_scheme u ≡ u
    ensure_of u h = unfold ensure_oci_scheme in rw h refl

-- The result has the scheme: it is the URL where that has it, and else the URL behind it.
abbrev pub WithScheme : String → String → Type 0
WithScheme url result =
    ((starts_with url scheme ≡ true) × (result ≡ url))
    ⊎ ((starts_with url scheme ≡ false) × (result ≡ scheme <> url))

ensure_oci_scheme-WithScheme : (url : String) → WithScheme url (ensure_oci_scheme url)
unfolding ensure_oci_scheme
ensure_oci_scheme-WithScheme url = elim (Bool-cases (starts_with url scheme)) [
  | inl has ↦ rw has (inl (refl, refl))
  | inr lacks ↦ rw lacks (inr (refl, refl))
]

-- No URL is configured.
abbrev pub Unset : Option String → Type 0
Unset chart_url = (chart_url ≡ none) ⊎ (chart_url ≡ some "")

-- What is used for the configured URL, if any.
abbrev pub ChartUrlOf : Option String → String → Type 0
ChartUrlOf chart_url result =
    (Unset chart_url × (result ≡ "oci://registry.k8s.io/kro/charts/kro"))
    ⊎ ((url : String) × (chart_url ≡ some url) × (url ≢ "") × WithScheme url result)

chart_url_cases :
    (v : KroVersion) (u : Option String) → v.chart_url ≡ u → ChartUrlOf u (get_chart_url v)
unfolding get_chart_url
chart_url_cases v none e = rw e (inl (inl refl, refl))
chart_url_cases v (some url) e = elim (Bool-cases (url == "")) [
  | inl empty ↦ rw (e, empty) (inl (inr (ap some ((eq_iff url "").0 empty)), refl))
  | inr given ↦ rw (e, given) (inr (url, refl, is_given given, ensure_oci_scheme-WithScheme url))
]
  where
    is_given : (url == "") ≡ false → url ≢ ""
    is_given differs same = cc ((eq_iff url "").1 same)

-- The default URL is used where no URL is configured, or the empty one. A configured URL is used as
-- it is where it has the scheme, and else behind the scheme.
pub get_chart_url_lem : (v : KroVersion) → ChartUrlOf v.chart_url (get_chart_url v)
get_chart_url_lem v = chart_url_cases v v.chart_url refl
