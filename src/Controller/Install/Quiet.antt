-- ===== src/Controller/Install/Quiet.antt =====
-- The parts of an installation that leave the object alone keep whatever no event breaks.
use service_provider_kro.Base.{String, Option, none, some, List, [], ◌∷◌, ◌≡◌, refl}
use service_provider_kro.Kube.{Key, Cluster, AccessRequest}
use service_provider_kro.Api.ProviderConfig.{KroVersion}
use service_provider_kro.Api.Kro.{Kro}
use service_provider_kro.Env.{Env, Event}
use service_provider_kro.Exec.{State, Exec}
use service_provider_kro.Exec.Keeps.{
  Keeps, keeps_rules, Keeps-pure, Keeps-fail, Keeps-panic, Keeps-bind,
}
use service_provider_kro.Runtime.Context.{ClusterContext}
use service_provider_kro.Controller.Names.{KroReconciler}
use service_provider_kro.Controller.Secrets.{
  replicate_chart_pull_secret, ensure_namespace, replicate_image_pull_secret,
  copy_image_pull_secrets, replicate_named_secrets, replicate_image_pull_secrets,
  write_mcp_kubeconfig, copy_mcp_kubeconfig, replicate_mcp_kubeconfig,
}
use service_provider_kro.Controller.Releases.{
  create_or_update_oci_repository, flux_config_of, get_workload_flux_config, create_helm_release,
  create_or_update_helm_release, create_or_update_mcp_crds_helm_release,
}

module _ (P : State → Type 0)
    (stays : (e : Event) (s : State) → P s → P (record s { log = e ∷ s.log })) (env : Env)
    (r : KroReconciler) where
  abbrev Quiet : {A : Type 0} → Exec A → Type 0
  Quiet m = Keeps P stays m

  pub chart_pull_secret-Keeps :
      (name tenant_namespace : String)
      → Quiet (replicate_chart_pull_secret env r name tenant_namespace)
  unfolding replicate_chart_pull_secret
  chart_pull_secret-Keeps name tenant_namespace = search keeps_rules

  ensure_namespace-Keeps : (workload : Cluster) → Quiet (ensure_namespace env r workload)
  unfolding ensure_namespace
  ensure_namespace-Keeps workload = search keeps_rules

  image_pull_secret-Keeps :
      (workload : Cluster) (name : String) → Quiet (replicate_image_pull_secret env r workload name)
  unfolding replicate_image_pull_secret
  image_pull_secret-Keeps workload name = search keeps_rules

  copy_image_pull_secrets-Keeps :
      (workload : Cluster) (names : List String)
      → Quiet (copy_image_pull_secrets env r workload names)
  unfolding copy_image_pull_secrets
  copy_image_pull_secrets-Keeps workload [] = Keeps-pure _ _ _
  copy_image_pull_secrets-Keeps workload (name ∷ names) =
      Keeps-bind _ _ _ _ (image_pull_secret-Keeps workload name)
        (λ _. copy_image_pull_secrets-Keeps workload names)

  named_secrets-Keeps :
      (workload : Option Cluster) (names : List String)
      → Quiet (replicate_named_secrets env r workload names)
  unfolding replicate_named_secrets
  named_secrets-Keeps none [] = Keeps-pure _ _ _
  named_secrets-Keeps none (name ∷ names) = Keeps-fail _ _ _
  named_secrets-Keeps (some workload) [] = Keeps-pure _ _ _
  named_secrets-Keeps (some workload) (name ∷ names) =
      Keeps-bind _ _ _ _ (ensure_namespace-Keeps workload)
        (λ _. copy_image_pull_secrets-Keeps workload (name ∷ names))

  pub image_pull_secrets-Keeps :
      (workload : Option Cluster) (values : Option String)
      → Quiet (replicate_image_pull_secrets env r workload values)
  unfolding replicate_image_pull_secrets
  image_pull_secrets-Keeps workload values = search (keeps_rules, named_secrets-Keeps)

  write_mcp_kubeconfig-Keeps :
      (workload : Cluster) (key : Key) (found : Option String)
      → Quiet (write_mcp_kubeconfig env r workload key found)
  unfolding write_mcp_kubeconfig
  write_mcp_kubeconfig-Keeps workload key none = Keeps-fail _ _ _
  write_mcp_kubeconfig-Keeps workload key (some v) = search (keeps_rules, ensure_namespace-Keeps)

  pub mcp_kubeconfig-Keeps :
      (ctx : ClusterContext) (workload : Option Cluster)
      → ctx.workload_cluster ≡ workload
      → Quiet (replicate_mcp_kubeconfig env r ctx)
  unfolding replicate_mcp_kubeconfig copy_mcp_kubeconfig
  mcp_kubeconfig-Keeps ctx none e = rw e (Keeps-fail _ _ _)
  mcp_kubeconfig-Keeps ctx (some workload) e =
      rw e (search (keeps_rules, write_mcp_kubeconfig-Keeps))

  pub oci_repository-Keeps :
      (version : KroVersion) (namespace : String)
      → Quiet (create_or_update_oci_repository env r version namespace)
  unfolding create_or_update_oci_repository
  oci_repository-Keeps version namespace = search keeps_rules

  flux_config-Keeps :
      (request : AccessRequest) (name : Option String)
      → request.secret_ref ≡ name
      → Quiet (flux_config_of env r request)
  unfolding flux_config_of
  flux_config-Keeps request none e = rw e (Keeps-panic _ _)
  flux_config-Keeps request (some name) e = rw e (Keeps-pure _ _ _)

  granted-Keeps : (request : AccessRequest) → Quiet (flux_config_of env r request)
  granted-Keeps request = flux_config-Keeps request request.secret_ref refl

  pub helm_release-Keeps :
      (tenant_namespace : String) (svcobj : Kro) (values : Option String)
      → Quiet (create_or_update_helm_release env r tenant_namespace svcobj values)
  unfolding create_or_update_helm_release create_helm_release get_workload_flux_config
  helm_release-Keeps tenant_namespace svcobj values = search (keeps_rules, granted-Keeps) depth 12

  pub crds_helm_release-Keeps :
      (tenant_namespace : String) (ctx : ClusterContext)
      → Quiet (create_or_update_mcp_crds_helm_release env r tenant_namespace ctx)
  unfolding create_or_update_mcp_crds_helm_release
  crds_helm_release-Keeps tenant_namespace ctx = search keeps_rules
