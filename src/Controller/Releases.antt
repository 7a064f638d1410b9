-- ===== src/Controller/Releases.antt =====
-- internal/controller/kro_controller.go: the Flux objects that the controller writes.
use service_provider_kro.Base.{String, ◌<>◌, ◌==◌, true, Option, none, some, List, if◌then◌else◌}
use service_provider_kro.Go.{wrap, minute}
use service_provider_kro.Kube.{AccessRequest}
use service_provider_kro.Flux.{
  OciRepositorySpec, OciRepository, CrdsPolicy, skip, create_replace, rollback, SecretKeyReference,
  HelmReleaseSpec, HelmRelease, PostRenderer,
}
use service_provider_kro.Api.ProviderConfig.{KroVersion, get_chart_url}
use service_provider_kro.Api.Kro.{Kro, default_release_name}
use service_provider_kro.Runtime.Context.{ClusterContext}
use service_provider_kro.Env.{
  Env, upserted_oci_repository, upserted_helm_release, got_access_request,
}
use service_provider_kro.Exec.{Exec, pure, fail, panic, call, checked, unchanged, on_error, ◌>>=◌}
use service_provider_kro.Controller.Names.{
  oci_repository_name, helm_release_name, mcp_helm_release_name, kro_system_namespace,
  request_suffix_workload, cluster_access_name, KroReconciler,
}
use service_provider_kro.Controller.HelmValues.{kubeconfig_post_renderers, crd_only_post_renderers}
use service_provider_kro.Controller.Secrets.{key_in}

-- The `Spec` that `createOciRepository` builds.
unfoldable pub create_oci_repository : KroVersion → OciRepositorySpec
unfolding get_chart_url
create_oci_repository version = record {
  interval = minute;
  url = get_chart_url version;
  secret_ref = if version.chart_pull_secret == "" then none else some version.chart_pull_secret;
  tag = version.chart_version;
}

-- The literal that both releases share, in the fields where they differ.
abbrev helm_release_spec :
    String
    → CrdsPolicy
    → Option String
    → SecretKeyReference
    → List PostRenderer
    → String
    → HelmReleaseSpec
helm_release_spec release_name crds values kube_config post_renderers namespace = record {
  release_name = release_name;
  interval = minute;
  target_namespace = kro_system_namespace;
  storage_namespace = kro_system_namespace;
  install = record { crds = crds; create_namespace = true; retries = 3 };
  upgrade = record { crds = crds; cleanup_on_fail = true; retries = 3; strategy = rollback };
  chart_ref = record { kind = "OCIRepository"; name = oci_repository_name; namespace = namespace };
  values = values;
  kube_config = kube_config;
  post_renderers = post_renderers;
}

-- The `Spec` that `createHelmRelease` builds, from the secret of the workload access.
unfoldable pub workload_release_spec : String → Option String → SecretKeyReference → HelmReleaseSpec
unfolding kubeconfig_post_renderers
workload_release_spec namespace values kube_config =
    helm_release_spec default_release_name skip values kube_config kubeconfig_post_renderers
      namespace

-- The `Spec` in `createOrUpdateMCPCRDsHelmRelease`.
unfoldable pub crds_release_spec : String → ClusterContext → HelmReleaseSpec
unfolding crd_only_post_renderers
crds_release_spec namespace ctx =
    helm_release_spec "kro-crds" create_replace none
      (record { name = ctx.mcp_access_secret_key.name; key = "kubeconfig" }) crd_only_post_renderers
      namespace

module _ (env : Env) (r : KroReconciler) where
  unfoldable pub create_or_update_oci_repository : KroVersion → String → Exec OciRepository
  unfolding create_oci_repository
  create_or_update_oci_repository version namespace = do
    let key = key_in namespace oci_repository_name
    let spec = create_oci_repository version
    done ←
        call (λ log. env.upsert_oci_repository log r.platform_cluster key spec)
          (upserted_oci_repository r.platform_cluster key spec)
    unchanged done

  -- `workloadAccessRequest.Status.SecretRef.Name`, where a nil `SecretRef` panics
  unfoldable pub flux_config_of : AccessRequest → Exec SecretKeyReference
  flux_config_of request = elim request.secret_ref [
    | none ↦ panic
    | some name ↦ pure (record { name = name; key = "kubeconfig" })
  ]

  unfoldable pub get_workload_flux_config : String → String → Exec SecretKeyReference
  unfolding flux_config_of
  get_workload_flux_config namespace object_name = do
    let key =
        key_in namespace
          (env.stable_request_name cluster_access_name object_name <> request_suffix_workload)
    got ←
        call (λ log. env.get_access_request log r.platform_cluster key)
          (got_access_request r.platform_cluster key)
    request ← checked "failed to get Workload AccessRequest: " got
    flux_config_of request

  unfoldable pub create_helm_release : String → String → Option String → Exec HelmReleaseSpec
  unfolding get_workload_flux_config workload_release_spec
  create_helm_release namespace object_name values = do
    flux_config ←
        on_error (get_workload_flux_config namespace object_name)
          (λ e. fail (wrap "failed to get workload FluxConfig: " e ""))
    pure (workload_release_spec namespace values flux_config)

  unfoldable pub create_or_update_helm_release : String → Kro → Option String → Exec HelmRelease
  unfolding create_helm_release
  create_or_update_helm_release namespace svcobj values = do
    spec ←
        on_error (create_helm_release namespace svcobj.name values)
          (λ e. fail (wrap "failed to create helm release: " e ""))
    let key = key_in namespace helm_release_name
    done ←
        call (λ log. env.upsert_helm_release log r.platform_cluster key spec)
          (upserted_helm_release r.platform_cluster key spec)
    unchanged done

  unfoldable pub create_or_update_mcp_crds_helm_release : String → ClusterContext → Exec HelmRelease
  unfolding crds_release_spec
  create_or_update_mcp_crds_helm_release namespace ctx = do
    let spec = crds_release_spec namespace ctx
    let key = key_in namespace mcp_helm_release_name
    done ←
        call (λ log. env.upsert_helm_release log r.platform_cluster key spec)
          (upserted_helm_release r.platform_cluster key spec)
    unchanged done
