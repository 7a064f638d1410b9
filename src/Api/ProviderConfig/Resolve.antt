-- ===== src/Api/ProviderConfig/Resolve.antt =====
-- `ResolveVersion` against a search by the definition of "offered": the first entry of the version.
use mathlib.Core.List.{append_assoc, append-nil}
use service_provider_kro.Base.{
  Bool, subst, String, ◌==◌, eq_iff, true, false, Option, none, some, List, [], ◌∷◌, ◌++◌, map, ◌⊎◌,
  inl, inr, contains, ◌≡◌, refl, sym, ◌∙◌, ap, Bool-cases, if◌then◌else◌, arith,
}
use service_provider_kro.Go.{Error, is_invalid_user_input}
use service_provider_kro.Api.ProviderConfig.{
  KroVersion, ProviderConfig, not_available_error, resolve_loop, resolve_version,
}

-- The first entry with the version.
abbrev pub first_with : String → List KroVersion → Option KroVersion
first_with version [] = none
first_with version (v ∷ vs) =
    let later = first_with version vs in if v.version == version then some v else later

abbrev pub versions_of : ProviderConfig → List String
versions_of pc = map (λ v. v.version) pc.spec.versions

module _ (quote : String → String) where
  abbrev or_error : String → List String → Option KroVersion → Error ⊎ KroVersion
  or_error version available none = inl (not_available_error quote version available)
  or_error version available (some v) = inr v

  resolve_loop_lem :
      (version : String) (available : List String) (vs : List KroVersion)
      → resolve_loop quote version available vs
        ≡ or_error version (available ++ map (λ v. v.version) vs) (first_with version vs)
  unfolding resolve_loop
  resolve_loop_lem version available [] = rw append-nil
  resolve_loop_lem version available (v ∷ vs) = elim (Bool-cases (v.version == version)) [
    | inl same ↦ rw same refl
    | inr differ ↦ rw differ (
        resolve_loop_lem version (available ++ v.version ∷ []) vs
        ∙ ap (λ l. or_error version l (first_with version vs))
            (append_assoc available (v.version ∷ []) (map (λ v. v.version) vs)))
  ]

  pub resolve_version_lem :
      (pc : ProviderConfig) (version : String)
      → resolve_version quote (some pc) version
        ≡ or_error version (versions_of pc) (first_with version pc.spec.versions)
  unfolding resolve_version
  resolve_version_lem pc version = resolve_loop_lem version [] pc.spec.versions

  not_available_error-IsInvalid :
      (version : String) (available : List String)
      → is_invalid_user_input (not_available_error quote version available) ≡ true
  unfolding is_invalid_user_input
  not_available_error-IsInvalid version [] = refl
  not_available_error-IsInvalid version (v ∷ available) = refl

  or_error-IsInvalid :
      (version : String) (available : List String) (found : Option KroVersion) {e : Error}
      → or_error version available found ≡ inl e
      → is_invalid_user_input e ≡ true
  or_error-IsInvalid version available none h =
      subst (λ r. is_invalid_of r ≡ true) h (not_available_error-IsInvalid version available)
    where
      is_invalid_of : Error ⊎ KroVersion → Bool
      is_invalid_of (inl e) = is_invalid_user_input e
      is_invalid_of (inr v) = true
  or_error-IsInvalid version available (some v) h = cc

  -- Whatever the config, an error of the resolution is a fault of the user's input.
  pub resolve_version-IsInvalid :
      (config : Option ProviderConfig) (version : String) {e : Error}
      → resolve_version quote config version ≡ inl e
      → is_invalid_user_input e ≡ true
  resolve_version-IsInvalid none version {e} h =
      subst (λ r. is_invalid_of r ≡ true) h (unfold resolve_version is_invalid_user_input in refl)
    where
      is_invalid_of : Error ⊎ KroVersion → Bool
      is_invalid_of (inl e) = is_invalid_user_input e
      is_invalid_of (inr v) = true
  resolve_version-IsInvalid (some pc) version h =
      or_error-IsInvalid version (versions_of pc) (first_with version pc.spec.versions)
        (sym (resolve_version_lem pc version) ∙ h)

-- What `first_with` finds is on offer under the version, and nothing before it is.
pub first_with-append :
    (version : String) (before after : List KroVersion) (v : KroVersion)
    → contains (map (λ w. w.version) before) version ≡ false
    → v.version ≡ version
    → first_with version (before ++ v ∷ after) ≡ some v
first_with-append version [] after v _ e = rw ((eq_iff v.version version).1 e)
first_with-append version (w ∷ before) after v h e =
    ground (arith, first_with-append version before after v, eq_iff w.version version)
