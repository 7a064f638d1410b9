-- ===== src/Start/Wiring.antt =====
-- The reconcilers and their builders (pkg/spruntime/spreconciler.go, pcreconciler.go), the schemes,
-- and how cmd/service-provider-kro/main.go puts them together.
use service_provider_kro.Base.{String, Bool, true, false, Option, none, some, List, [], ◌∷◌}
use service_provider_kro.Go.{Duration, ten_seconds}
use service_provider_kro.Kube.{Cluster}
use service_provider_kro.Api.Kro.{group}
use service_provider_kro.Api.ProviderConfig.{ProviderConfig}

-- The packages whose `AddToScheme` is called. That `utilruntime.Must` panics where one fails is left
-- out.
pub data ApiPackage : Type 0 where
  client_go : ApiPackage
  api_extensions : ApiPackage
  kros : ApiPackage
  openmcp_clusters : ApiPackage
  openmcp_provider : ApiPackage
  flux_source : ApiPackage
  flux_helm : ApiPackage

abbrev pub Scheme : Type 0
Scheme = List ApiPackage

abbrev pub platform_scheme : Scheme
platform_scheme =
    client_go ∷ api_extensions ∷ kros ∷ openmcp_clusters ∷ openmcp_provider ∷ flux_source
    ∷ flux_helm ∷ []

abbrev pub onboarding_scheme : Scheme
onboarding_scheme = client_go ∷ api_extensions ∷ kros ∷ []

abbrev pub mcp_scheme : Scheme
mcp_scheme = client_go ∷ api_extensions ∷ flux_source ∷ flux_helm ∷ []

abbrev pub workload_scheme : Scheme
workload_scheme = client_go ∷ []

-- `rbacv1.PolicyRule`
pub record PolicyRule : Type 0 where
  pub api_groups : List String
  pub resources : List String
  pub verbs : List String

-- `clustersv1alpha1.PermissionsRequest`, by its rules
abbrev pub PermissionsRequest : Type 0
PermissionsRequest = List PolicyRule

abbrev pub admin_permissions : List PermissionsRequest
admin_permissions =
    (record { api_groups = "*" ∷ []; resources = "*" ∷ []; verbs = "*" ∷ [] } ∷ []) ∷ []

-- `common.RoleRef`
pub record RoleRef : Type 0 where
  pub name : String
  pub kind : String

abbrev pub cluster_admin : List RoleRef
cluster_admin = record { name = "cluster-admin"; kind = "ClusterRole" } ∷ []

-- What `main` sets of the library's `ClusterAccessReconciler`.
pub record AccessSettings : Type 0 where
  pub platform_cluster : Cluster
  pub controller_name : String
  pub mcp_scheme : Scheme
  pub workload_scheme : Scheme
  pub retry_interval : Duration
  pub mcp_permissions : List PermissionsRequest
  pub mcp_role_refs : List RoleRef
  pub workload_permissions : List PermissionsRequest
  pub workload_role_refs : List RoleRef

abbrev pub access_settings : Cluster → AccessSettings
access_settings platform = record {
  platform_cluster = platform;
  controller_name = group;
  mcp_scheme = mcp_scheme;
  workload_scheme = workload_scheme;
  retry_interval = ten_seconds;
  mcp_permissions = admin_permissions;
  mcp_role_refs = cluster_admin;
  workload_permissions = admin_permissions;
  workload_role_refs = cluster_admin;
}

-- `controller.KroReconciler` as `main` fills it in, where the onboarding cluster may be nil.
pub record KroFields : Type 0 where
  pub onboarding_cluster : Option Cluster
  pub platform_cluster : Cluster
  pub pod_namespace : String

-- `SPReconciler`, for a service provider of type `P`; a field that is not set is none.
pub record SpReconciler (P : Type 0) : Type 0 where
  pub platform_cluster : Option Cluster
  pub onboarding_cluster : Option Cluster
  pub cluster_access_reconciler : Option AccessSettings
  pub service_provider_reconciler : Option P
  pub provider_config : Option ProviderConfig
  pub with_workload_cluster : Bool
  pub secret_namespace : String

module _ {P : Type 0} where
  abbrev pub new_sp_reconciler : SpReconciler P
  new_sp_reconciler = record {
    platform_cluster = none;
    onboarding_cluster = none;
    cluster_access_reconciler = none;
    service_provider_reconciler = none;
    provider_config = none;
    with_workload_cluster = false;
    secret_namespace = "";
  }

  abbrev pub with_platform_cluster : Cluster → SpReconciler P → SpReconciler P
  with_platform_cluster c r = record r { platform_cluster = some c }

  -- A nil pointer leaves the field nil.
  abbrev pub with_onboarding_cluster : Option Cluster → SpReconciler P → SpReconciler P
  with_onboarding_cluster c r = record r { onboarding_cluster = c }

  abbrev pub with_cluster_access_reconciler : AccessSettings → SpReconciler P → SpReconciler P
  with_cluster_access_reconciler car r = record r { cluster_access_reconciler = some car }

  abbrev pub with_service_provider_reconciler : P → SpReconciler P → SpReconciler P
  with_service_provider_reconciler dsr r = record r { service_provider_reconciler = some dsr }

  abbrev pub with_workload_cluster : Bool → SpReconciler P → SpReconciler P
  with_workload_cluster b r = record r { with_workload_cluster = b }

  abbrev pub with_secret_namespace : String → SpReconciler P → SpReconciler P
  with_secret_namespace ns r = record r { secret_namespace = ns }

  abbrev pub with_provider_config : ProviderConfig → SpReconciler P → SpReconciler P
  with_provider_config config r = record r { provider_config = some config }

-- `PCReconciler`; its update channel is the one that `SPReconciler.SetupWithManager` is given.
pub record PcReconciler : Type 0 where
  pub provider_name : String
  pub platform_cluster : Option Cluster

abbrev pub new_pc_reconciler : String → PcReconciler
new_pc_reconciler provider_name = record { provider_name = provider_name; platform_cluster = none }

-- `(*PCReconciler).WithPlatformCluster`
abbrev pub watching_cluster : Cluster → PcReconciler → PcReconciler
watching_cluster c r = record r { platform_cluster = some c }

-- The source that `(*PCReconciler).SetupWithManager` watches: the configs of exactly one name and
-- namespace on a cluster; and the name of the controller.
pub record ConfigSource : Type 0 where
  pub cluster : Option Cluster
  pub exact_name : String
  pub exact_namespace : String
  pub controller : String

abbrev pub config_source : PcReconciler → ConfigSource
config_source r = record {
  cluster = r.platform_cluster;
  exact_name = r.provider_name;
  exact_namespace = "";
  controller = "providerconfig";
}

-- The two reconcilers of `main`.
abbrev pub kro_controller : Cluster → Option Cluster → String → SpReconciler KroFields
kro_controller platform onboarding pod_namespace =
    with_cluster_access_reconciler (access_settings platform) (
      with_service_provider_reconciler
        (record {
          onboarding_cluster = onboarding;
          platform_cluster = platform;
          pod_namespace = pod_namespace;
        })
        (with_workload_cluster true
          (with_onboarding_cluster onboarding (with_platform_cluster platform new_sp_reconciler))))

abbrev pub config_controller : Cluster → String → PcReconciler
config_controller platform provider_name =
    watching_cluster platform (new_pc_reconciler provider_name)
