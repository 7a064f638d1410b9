-- ===== src/Controller/Install/Completes.antt =====
-- Where the outside accepts every call, `CreateOrUpdate` comes to its end.
use service_provider_kro.Base.{String, ◌==◌, Option, none, some, List, [], ◌∷◌, inr, ◌≡◌, refl}
use service_provider_kro.Base.Lists.{lookup}
use service_provider_kro.Kube.{Key, Cluster, Secret, AccessRequest, CtrlResult, no_requeue}
use service_provider_kro.Flux.{OciRepositorySpec, OciRepository, HelmReleaseSpec, HelmRelease}
use service_provider_kro.Api.ProviderConfig.{KroVersion}
use service_provider_kro.Api.Kro.{Kro}
use service_provider_kro.Env.{Env, Log}
use service_provider_kro.Exec.Completes.{
  Accepted, Any, Completes, Completes-pure, Completes-gets, Completes-from_either, Completes-if,
  Completes-on_error, Completes-modify, Completes-bind, Completes-asked, Completes-asked_then,
}
use service_provider_kro.Runtime.Context.{ClusterContext}
use service_provider_kro.Runtime.Status.Completes.{set_status-Completes}
use service_provider_kro.Controller.Names.{mcp_kubeconfig_key, KroReconciler}
use service_provider_kro.Controller.HelmValues.{HelmValues, extract_helm_values}
use service_provider_kro.Controller.Secrets.{
  replicate_chart_pull_secret, ensure_namespace, replicate_image_pull_secret,
  copy_image_pull_secrets, replicate_named_secrets, replicate_image_pull_secrets,
  write_mcp_kubeconfig, copy_mcp_kubeconfig, replicate_mcp_kubeconfig,
}
use service_provider_kro.Controller.Releases.{
  create_or_update_oci_repository, flux_config_of, get_workload_flux_config, create_helm_release,
  create_or_update_helm_release, create_or_update_mcp_crds_helm_release,
}
use service_provider_kro.Controller.Install.{report_installed, install_version}

-- The calls of an installation are accepted, the kubeconfig is in its secret, and the access of the
-- workload cluster is granted.
pub record Accepting (env : Env) (r : KroReconciler) (ctx : ClusterContext) : Type 0 where
  pub get_secret :
      (log : Log) (key : Key) → Accepted Any (env.get_secret log r.platform_cluster key)
  pub kubeconfig :
      (log : Log)
      → Accepted
          (λ (s : Secret). (v : String) × (lookup mcp_kubeconfig_key s.content ≡ some v))
          (env.get_secret log r.platform_cluster ctx.mcp_access_secret_key)
  pub upsert_secret :
      (log : Log) (c : Cluster) (key : Key) (x : Secret)
      → Accepted Any (env.upsert_secret log c key x)
  pub upsert_namespace :
      (log : Log) (c : Cluster) (name : String) → Accepted Any (env.upsert_namespace log c name)
  pub upsert_oci_repository :
      (log : Log) (c : Cluster) (key : Key) (spec : OciRepositorySpec)
      → Accepted Any (env.upsert_oci_repository log c key spec)
  pub upsert_helm_release :
      (log : Log) (c : Cluster) (key : Key) (spec : HelmReleaseSpec)
      → Accepted Any (env.upsert_helm_release log c key spec)
  pub granted :
      (log : Log) (key : Key)
      → Accepted
          (λ (q : AccessRequest). (name : String) × (q.secret_ref ≡ some name))
          (env.get_access_request log r.platform_cluster key)

-- No further run is asked for.
abbrev pub IsFinal : CtrlResult → Type 0
IsFinal res = res ≡ no_requeue

module _ (env : Env) (r : KroReconciler) (ctx : ClusterContext)
    (accepting : Accepting env r ctx) where
  ensure_namespace-Completes :
      (workload : Cluster) → Completes Any (ensure_namespace env r workload)
  unfolding ensure_namespace
  ensure_namespace-Completes workload =
      Completes-asked _ _ _ (λ log. accepting.upsert_namespace log _ _)

  chart_pull_secret-Completes :
      (name tenant_namespace : String)
      → Completes Any (replicate_chart_pull_secret env r name tenant_namespace)
  unfolding replicate_chart_pull_secret
  chart_pull_secret-Completes name tenant_namespace =
      Completes-if (name == "") _ _ (Completes-pure _ tt) (
        Completes-asked_then Any _ _ _ _ (λ log. accepting.get_secret log _)
          (λ source _. Completes-asked _ _ _ (λ log. accepting.upsert_secret log _ _ _)))

  image_pull_secret-Completes :
      (workload : Cluster) (name : String)
      → Completes Any (replicate_image_pull_secret env r workload name)
  unfolding replicate_image_pull_secret
  image_pull_secret-Completes workload name =
      Completes-asked_then Any _ _ _ _ (λ log. accepting.get_secret log _)
        (λ source _. Completes-asked _ _ _ (λ log. accepting.upsert_secret log _ _ _))

  copy_image_pull_secrets-Completes :
      (workload : Cluster) (names : List String)
      → Completes Any (copy_image_pull_secrets env r workload names)
  unfolding copy_image_pull_secrets
  copy_image_pull_secrets-Completes workload [] = Completes-pure _ tt
  copy_image_pull_secrets-Completes workload (name ∷ names) =
      Completes-bind _ _ (image_pull_secret-Completes workload name)
        (λ _ _. copy_image_pull_secrets-Completes workload names)

  named_secrets-Completes :
      (workload : Cluster) (names : List String)
      → Completes Any (replicate_named_secrets env r (some workload) names)
  unfolding replicate_named_secrets
  named_secrets-Completes workload [] = Completes-pure _ tt
  named_secrets-Completes workload (name ∷ names) =
      Completes-bind _ _ (ensure_namespace-Completes workload)
        (λ _ _. copy_image_pull_secrets-Completes workload (name ∷ names))

  write_mcp_kubeconfig-Completes :
      (workload : Cluster) (key : Key) (found : Option String) (kubeconfig : String)
      → found ≡ some kubeconfig
      → Completes Any (write_mcp_kubeconfig env r workload key found)
  unfolding write_mcp_kubeconfig
  write_mcp_kubeconfig-Completes workload key none kubeconfig e = absurd (cc)
  write_mcp_kubeconfig-Completes workload key (some v) kubeconfig e =
      Completes-bind _ _ (ensure_namespace-Completes workload)
        (λ _ _. Completes-asked _ _ _ (λ log. accepting.upsert_secret log _ _ _))

  mcp_kubeconfig-Completes :
      (workload : Cluster)
      → ctx.workload_cluster ≡ some workload
      → Completes Any (replicate_mcp_kubeconfig env r ctx)
  unfolding replicate_mcp_kubeconfig copy_mcp_kubeconfig
  mcp_kubeconfig-Completes workload e = rw e (
      Completes-asked_then
        (λ (x : Secret). (v : String) × (lookup mcp_kubeconfig_key x.content ≡ some v)) _ _ _ _
        accepting.kubeconfig
        (λ source (v, found). write_mcp_kubeconfig-Completes workload _ _ v found))

  granted_access :
      (request : AccessRequest) (name : String)
      → request.secret_ref ≡ some name
      → Completes Any (flux_config_of env r request)
  unfolding flux_config_of
  granted_access request name e = rw e (Completes-pure _ tt)

  helm_release-Completes :
      (tenant_namespace : String) (svcobj : Kro) (values : Option String)
      → Completes Any (create_or_update_helm_release env r tenant_namespace svcobj values)
  unfolding create_or_update_helm_release create_helm_release get_workload_flux_config
  helm_release-Completes tenant_namespace svcobj values =
      Completes-bind _ _
        (Completes-on_error _ _ (
          Completes-bind _ _
            (Completes-on_error _ _ (
              Completes-asked_then
                (λ (q : AccessRequest). (name : String) × (q.secret_ref ≡ some name)) _ _ _ _
                (λ log. accepting.granted log _)
                (λ request (name, e). granted_access request name e)))
            (λ reference _. Completes-pure {R = Any} _ tt)))
        (λ spec _. Completes-asked _ _ _ (λ log. accepting.upsert_helm_release log _ _ _))

  crds_helm_release-Completes :
      (tenant_namespace : String)
      → Completes Any (create_or_update_mcp_crds_helm_release env r tenant_namespace ctx)
  unfolding create_or_update_mcp_crds_helm_release
  crds_helm_release-Completes tenant_namespace =
      Completes-asked _ _ _ (λ log. accepting.upsert_helm_release log _ _ _)

  report_installed-Completes :
      (tenant_namespace : String) (oci : OciRepository) (crds hr : HelmRelease)
      → Completes IsFinal (report_installed env tenant_namespace oci crds hr)
  unfolding report_installed
  report_installed-Completes tenant_namespace oci crds hr =
      Completes-bind _ _ (Completes-modify _) λ _ _.
        Completes-bind _ _
          (Completes-if _ _ _ (set_status-Completes env _ _ _ _) (set_status-Completes env _ _ _ _))
          (λ _ _. Completes-pure _ refl)

  module _ (version : KroVersion) (workload : Cluster) (helm_values : HelmValues)
      (extracted : extract_helm_values env version.helm_values ≡ inr helm_values)
      (reachable : ctx.workload_cluster ≡ some workload) where
    image_pull_secrets-Completes :
        Completes Any (replicate_image_pull_secrets env r ctx.workload_cluster version.helm_values)
    unfolding replicate_image_pull_secrets
    image_pull_secrets-Completes = rw reachable (
        Completes-bind _ _ (Completes-from_either {R = Any} _ _ extracted tt)
          (λ found _. named_secrets-Completes workload found.image_pull_secrets))

    pub install_version-Completes :
        (tenant_namespace : String)
        → Completes IsFinal (install_version env r ctx tenant_namespace version)
    unfolding install_version create_or_update_oci_repository
    install_version-Completes tenant_namespace =
        Completes-bind _ _ (Completes-on_error _ _ (chart_pull_secret-Completes _ _)) λ _ _.
          Completes-bind _ _
            (Completes-on_error _ _
              (Completes-asked {R = Any} _ _ _ (λ log. accepting.upsert_oci_repository log _ _ _)))
            λ oci _. Completes-bind _ _ (Completes-on_error _ _ image_pull_secrets-Completes) λ _ _.
              Completes-bind _ _
                (Completes-on_error _ _ (mcp_kubeconfig-Completes workload reachable))
                λ _ _.
                  Completes-bind _ _
                    (Completes-on_error _ _ (crds_helm_release-Completes tenant_namespace))
                    λ crds _. Completes-bind _ _ (Completes-gets {R = Any} _ (λ s. tt)) λ svcobj _.
                      Completes-bind _ _
                        (Completes-on_error _ _ (helm_release-Completes _ svcobj _))
                        (λ hr _. report_installed-Completes _ oci crds hr)
