-- ===== src/Controller/Names.antt =====
-- internal/controller/kro_controller.go: the constants and the reconciler's fields.
use service_provider_kro.Base.{String}
use service_provider_kro.Kube.{Cluster}
use service_provider_kro.Api.Kro.{group}

abbrev pub helm_release_name : String
helm_release_name = "kro-helm-release"

abbrev pub mcp_helm_release_name : String
mcp_helm_release_name = "kro-mcp-crds-helm-release"

abbrev pub oci_repository_name : String
oci_repository_name = "kro-oci-repository"

abbrev pub kro_system_namespace : String
kro_system_namespace = "kro-system"

abbrev pub request_suffix_workload : String
request_suffix_workload = "--wl"

abbrev pub mcp_kubeconfig_secret_name : String
mcp_kubeconfig_secret_name = "kro-mcp-kubeconfig"

abbrev pub mcp_kubeconfig_mount_path : String
mcp_kubeconfig_mount_path = "/etc/kro/kubeconfig"

abbrev pub mcp_kubeconfig_key : String
mcp_kubeconfig_key = "kubeconfig"

abbrev pub condition_reason_error : String
condition_reason_error = "ReconcileError"

abbrev pub cluster_access_name : String
cluster_access_name = group

pub record KroReconciler : Type 0 where
  pub onboarding_cluster : Cluster
  pub platform_cluster : Cluster
  pub pod_namespace : String
