-- ===== src/Start/Wired.antt =====
-- The settings with which cmd/service-provider-kro/main.go sets up the manager and both controllers,
-- each written out.
use service_provider_kro.Base.{String, true, Option, none, some, List, [], ◌∷◌, ◌≡◌, refl}
use service_provider_kro.Go.{pos}
use service_provider_kro.Kube.{Cluster}
use service_provider_kro.Start.Options.{Flags, webhook_server_options, metrics_server_options}
use service_provider_kro.Start.Wiring.{
  client_go, api_extensions, kros, flux_source, flux_helm, PermissionsRequest, RoleRef,
  AccessSettings, access_settings, KroFields, SpReconciler, PcReconciler, ConfigSource,
  kro_controller, config_controller, config_source,
}
use service_provider_kro.Start.Outside.{ManagerOptions}
use service_provider_kro.Start.Program.{platform_cluster, manager_options}

-- May do all with all resources.
abbrev pub everything : List PermissionsRequest
everything = (record { api_groups = "*" ∷ []; resources = "*" ∷ []; verbs = "*" ∷ [] } ∷ []) ∷ []

abbrev pub admins : List RoleRef
admins = record { name = "cluster-admin"; kind = "ClusterRole" } ∷ []

-- The reconciler of the Kro objects has both clusters and asks for a workload cluster too. The
-- service provider has both clusters and the pod's namespace. The access to a control plane, and
-- to a workload cluster, is by the cluster-admin role with all permissions, and is retried every
-- ten seconds.
pub record ServesKros (onboarding : Option Cluster) (namespace : String)
    (reconciler : SpReconciler KroFields) : Type 0 where
  pub platform_cluster_is : reconciler.platform_cluster ≡ some platform_cluster
  pub onboarding_cluster_is : reconciler.onboarding_cluster ≡ onboarding
  pub workload_cluster_is : reconciler.with_workload_cluster ≡ true
  pub provider_is :
      reconciler.service_provider_reconciler
      ≡ some (record {
        onboarding_cluster = onboarding;
        platform_cluster = platform_cluster;
        pod_namespace = namespace;
      })
  pub access : AccessSettings
  pub access_is : reconciler.cluster_access_reconciler ≡ some access
  pub access_cluster_is : access.platform_cluster ≡ platform_cluster
  pub access_name_is : access.controller_name ≡ "kro.services.open-control-plane.io"
  pub retry_is : access.retry_interval ≡ pos 10000000000
  pub mcp_permissions_are : access.mcp_permissions ≡ everything
  pub mcp_roles_are : access.mcp_role_refs ≡ admins
  pub workload_permissions_are : access.workload_permissions ≡ everything
  pub workload_roles_are : access.workload_role_refs ≡ admins
  pub mcp_scheme_is : access.mcp_scheme ≡ client_go ∷ api_extensions ∷ flux_source ∷ flux_helm ∷ []
  pub workload_scheme_is : access.workload_scheme ≡ client_go ∷ []
  pub no_config_yet : reconciler.provider_config ≡ none
  pub watches_no_secrets : reconciler.secret_namespace ≡ ""

pub kros_served :
    (onboarding : Option Cluster) (namespace : String)
    → ServesKros onboarding namespace (kro_controller platform_cluster onboarding namespace)
kros_served onboarding namespace = record {
  platform_cluster_is = refl;
  onboarding_cluster_is = refl;
  workload_cluster_is = refl;
  provider_is = refl;
  access = access_settings platform_cluster;
  access_is = refl;
  access_cluster_is = refl;
  access_name_is = refl;
  retry_is = refl;
  mcp_permissions_are = refl;
  mcp_roles_are = refl;
  workload_permissions_are = refl;
  workload_roles_are = refl;
  mcp_scheme_is = refl;
  workload_scheme_is = refl;
  no_config_yet = refl;
  watches_no_secrets = refl;
}

module _ (flags : Flags) where
  -- The reconciler of the configs is named after the provider, and watches on the platform cluster
  -- the config of exactly that name, which is in no namespace.
  pub record WatchesConfig (configs : PcReconciler) (source : ConfigSource) : Type 0 where
    pub name_is : configs.provider_name ≡ flags.provider_name
    pub cluster_is : configs.platform_cluster ≡ some platform_cluster
    pub source_cluster_is : source.cluster ≡ some platform_cluster
    pub exact_name_is : source.exact_name ≡ flags.provider_name
    pub exact_namespace_is : source.exact_namespace ≡ ""
    pub controller_is : source.controller ≡ "providerconfig"

  -- The manager takes its settings from the flags, and knows the types of the onboarding cluster.
  pub record FollowsFlags (options : ManagerOptions) : Type 0 where
    pub scheme_is : options.scheme ≡ client_go ∷ api_extensions ∷ kros ∷ []
    pub metrics_is : options.metrics ≡ metrics_server_options flags
    pub webhook_is : options.webhook_server ≡ webhook_server_options flags
    pub probes_is : options.health_probe_bind_address ≡ flags.probe_addr
    pub election_is : options.leader_election ≡ flags.enable_leader_election
    pub election_id_is : options.leader_election_id ≡ "services.open-control-plane.io.kro"

  pub flags_followed : FollowsFlags (manager_options flags)
  flags_followed = record {
    scheme_is = refl;
    metrics_is = refl;
    webhook_is = refl;
    probes_is = refl;
    election_is = refl;
    election_id_is = refl;
  }

  pub config_watched :
      let configs = config_controller platform_cluster flags.provider_name in
      WatchesConfig configs (config_source configs)
  config_watched = record {
    name_is = refl;
    cluster_is = refl;
    source_cluster_is = refl;
    exact_name_is = refl;
    exact_namespace_is = refl;
    controller_is = refl;
  }
