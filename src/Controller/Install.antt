-- ===== src/Controller/Install.antt =====
-- internal/controller/kro_controller.go: `CreateOrUpdate`, and the status that it reports.
pub mod Plan
pub mod Counts
pub mod Desired
pub mod Refines
pub mod Report
pub mod Panics
pub mod Completes
pub mod Installs
pub mod Quiet
pub mod Bounds
pub mod Restamped
use service_provider_kro.Base.{
  String, Bool, true, false, ◌&&◌, Option, none, some, List, [], ◌∷◌, ◌⊎◌, inl, inr, if◌then◌else◌,
}
use service_provider_kro.Go.{Error, error_text, wrap}
use service_provider_kro.Kube.{Condition, CtrlResult, no_requeue}
use service_provider_kro.Flux.{OciRepository, HelmRelease}
use service_provider_kro.Api.ProviderConfig.{ProviderConfig, KroVersion, resolve_version}
use service_provider_kro.Api.Kro.{
  InstancePhase, progressing, ready, platform_cluster, ObjectReference, ManagedResource,
  set_resources,
}
use service_provider_kro.Runtime.Context.{ClusterContext}
use service_provider_kro.Env.{Env}
use service_provider_kro.Exec.{Exec, pure, fail, gets, modify, checked, on_error, ◌>>=◌, ◌>>◌}
use service_provider_kro.Runtime.Status.{set_status, status_progressing, status_ready}
use service_provider_kro.Controller.Names.{
  oci_repository_name, helm_release_name, mcp_helm_release_name, condition_reason_error,
  KroReconciler,
}
use service_provider_kro.Controller.Secrets.{
  replicate_chart_pull_secret, replicate_image_pull_secrets, replicate_mcp_kubeconfig,
}
use service_provider_kro.Controller.Releases.{
  create_or_update_oci_repository, create_or_update_helm_release,
  create_or_update_mcp_crds_helm_release,
}

abbrev pub is_ready : InstancePhase → Bool
is_ready ready = true
is_ready _ = false

module _ (env : Env) where
  abbrev message_of : Option Condition → String
  message_of none = ""
  message_of (some c) = c.message

  unfoldable pub resource_status : List Condition → InstancePhase × String
  resource_status conditions =
      if env.is_status_condition_true conditions env.ready_condition
      then (ready, "")
      else (progressing, message_of (env.find_status_condition conditions env.ready_condition))

  -- A reference to an object of the tenant's namespace.
  abbrev pub reference_to : String → String → String → String → ObjectReference
  reference_to group kind name tenant_namespace = record {
    api_group = some group;
    kind = kind;
    name = name;
    namespace = some tenant_namespace;
  }

  abbrev pub resource : String → String → String → String → InstancePhase × String → ManagedResource
  resource group kind name tenant_namespace (phase, message) = record {
    reference = reference_to group kind name tenant_namespace;
    phase = phase;
    message = message;
    location = platform_cluster;
  }

  -- `svcobj.Status.Resources` at the end of `CreateOrUpdate`
  unfoldable pub installed_resources :
      String
      → InstancePhase × String
      → InstancePhase × String
      → InstancePhase × String
      → List ManagedResource
  installed_resources tenant_namespace oci hr mcp_crds =
      resource env.source_group "OCIRepository" oci_repository_name tenant_namespace oci
      ∷ resource env.helm_group "HelmRelease" helm_release_name tenant_namespace hr
      ∷ resource env.helm_group "HelmRelease" mcp_helm_release_name tenant_namespace mcp_crds
      ∷ []

  -- The repeated handler: report the error in the status, and return it wrapped.
  unfoldable pub progressing_error : String → Error → {A : Type 0} → Exec A
  progressing_error text e = do
    status_progressing env condition_reason_error (error_text env.invalid_user_input_text e)
    fail (wrap text e "")

  abbrev pub or_progressing : {A : Type 0} → Exec A → String → Exec A
  or_progressing m text = on_error m (λ e. progressing_error text e)

  -- The end of `CreateOrUpdate`, from the statuses of the three objects.
  unfoldable pub report_installed :
      String → OciRepository → HelmRelease → HelmRelease → Exec CtrlResult
  report_installed tenant_namespace oci_repo mcp_crds_rel helm_rel = do
    let oci = resource_status oci_repo.conditions
    let hr = resource_status helm_rel.conditions
    let mcp_crds = resource_status mcp_crds_rel.conditions
    modify (set_resources (installed_resources tenant_namespace oci hr mcp_crds))
    if is_ready oci.0 && (is_ready hr.0 && is_ready mcp_crds.0)
        then status_ready env
        else status_progressing env "Reconciling" "Waiting for managed resources to become ready"
    pure no_requeue

  -- `CreateOrUpdate` with the version that it resolved
  unfoldable pub install_version :
      KroReconciler → ClusterContext → String → KroVersion → Exec CtrlResult
  unfolding report_installed resource_status installed_resources replicate_chart_pull_secret
      replicate_image_pull_secrets replicate_mcp_kubeconfig create_or_update_oci_repository
      create_or_update_helm_release create_or_update_mcp_crds_helm_release progressing_error
  install_version r ctx tenant_namespace version = do
    or_progressing (replicate_chart_pull_secret env r version.chart_pull_secret tenant_namespace)
        "failed to replicate chart pull secret: "
    oci_repo ←
        or_progressing (create_or_update_oci_repository env r version tenant_namespace)
          "failed to reconcile OCI Repository: "
    or_progressing (replicate_image_pull_secrets env r ctx.workload_cluster version.helm_values)
        "failed to replicate image pull secrets to workload cluster: "
    or_progressing (replicate_mcp_kubeconfig env r ctx)
        "failed to replicate MCP kubeconfig to workload cluster: "
    mcp_crds_rel ←
        or_progressing (create_or_update_mcp_crds_helm_release env r tenant_namespace ctx)
          "failed to reconcile MCP CRDs HelmRelease: "
    svcobj ← gets (λ s. s.obj)
    helm_rel ←
        or_progressing
          (create_or_update_helm_release env r tenant_namespace svcobj version.helm_values)
          "failed to reconcile HelmRelease: "
    report_installed tenant_namespace oci_repo mcp_crds_rel helm_rel

  -- `return ctrl.Result{}, ctrlerrors.IgnoreInvalidUserInput(err)`
  abbrev pub return_unless : Option Error → Exec CtrlResult
  return_unless none = pure no_requeue
  return_unless (some e) = fail e

  -- `CreateOrUpdate` with the outcome of `ResolveVersion`
  unfoldable pub install :
      KroReconciler → ClusterContext → String → Error ⊎ KroVersion → Exec CtrlResult
  unfolding install_version
  install r ctx tenant_namespace (inl e) = do
    status_progressing env condition_reason_error (error_text env.invalid_user_input_text e)
    return_unless (env.ignore_invalid_user_input e)
  install r ctx tenant_namespace (inr version) = install_version r ctx tenant_namespace version

  unfoldable pub create_or_update :
      KroReconciler → Option ProviderConfig → ClusterContext → Exec CtrlResult
  unfolding install resolve_version
  create_or_update r provider_config ctx = do
    status_progressing env "Reconciling" "Reconcile in progress"
    svcobj ← gets (λ s. s.obj)
    tenant_namespace ←
        checked "failed to determine stable namespace for Kro instance: "
          (env.stable_mcp_namespace svcobj.name svcobj.namespace)
    install r ctx tenant_namespace (resolve_version env.quote provider_config svcobj.spec.version)
