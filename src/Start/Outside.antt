-- ===== src/Start/Outside.antt =====
-- What cmd/service-provider-kro/main.go calls outside the program, in the order of its calls.
use service_provider_kro.Base.{String, Bool, Option, List, ◌⊎◌, ℕ}
use service_provider_kro.Go.{ApiError, Duration}
use service_provider_kro.Kube.{Cluster}
use service_provider_kro.Runtime.Config.{Watch}
use service_provider_kro.Start.Options.{Flags, WebhookOptions, MetricsOptions}
use service_provider_kro.Start.Wiring.{
  Scheme, PermissionsRequest, SpReconciler, KroFields, PcReconciler, ConfigSource,
}

-- What `main` sets of the library's `ClusterAccessManager`.
pub record AccessManager : Type 0 where
  pub platform_cluster : Cluster
  pub controller_name : String
  pub controller_namespace : String
  pub interval : Duration
  pub timeout : Duration

-- The arguments of `CreateAndWaitForCluster`.
pub record ClusterRequest : Type 0 where
  pub manager : AccessManager
  pub local_name : String
  pub purpose : String
  pub scheme : Scheme
  pub permissions : List PermissionsRequest

-- A pointer and an error, each possibly nil.
pub record ClusterAnswer : Type 0 where
  pub cluster : Option Cluster
  pub error : Option ApiError

-- `ctrl.Options`
pub record ManagerOptions : Type 0 where
  pub scheme : Scheme
  pub metrics : MetricsOptions
  pub webhook_server : WebhookOptions
  pub health_probe_bind_address : String
  pub leader_election : Bool
  pub leader_election_id : String

-- `metav1.GroupVersionKind`
pub record GroupVersionKind : Type 0 where
  pub group : String
  pub version : String
  pub kind : String

-- A call with its arguments and, last, its error.
pub data Startup : Type 0 where
  got_logger : Option ApiError → Startup
  initialized_client : Cluster → Scheme → Option ApiError → Startup
  created_cluster : ClusterRequest → ClusterAnswer → Startup
  -- the clusters that the labels of the CRDs are mapped to
  updated_crds : List (String × Option Cluster) → Option ApiError → Startup
  registered_kinds : Cluster → String → GroupVersionKind → Option ApiError → Startup
  -- the REST config is told by the cluster that it is from
  created_manager : Option Cluster → ManagerOptions → Option ApiError → Startup
  added_cluster : Cluster → Option ApiError → Startup
  set_up_objects : SpReconciler KroFields → String → List Watch → Option ApiError → Startup
  set_up_configs : PcReconciler → ConfigSource → Option ApiError → Startup
  added_health_check : String → Option ApiError → Startup
  added_ready_check : String → Option ApiError → Startup
  -- `mgr.Start`, which returns when the manager stops
  ran_manager : Option ApiError → Startup

-- The latest call first.
abbrev pub Calls : Type 0
Calls = List Startup

pub record Platform : Type 0 where
  pub getenv : String → String
  -- flag.Parse: the exit code that it ends the program with, or the flags
  pub parse_flags : Flags → List String → ℕ ⊎ Flags
  -- ctrl.GetConfigOrDie finds a config; it ends the program with exit code 1 otherwise
  pub has_config : Bool
  -- (*clusters.Cluster).RESTConfig and the CRD manager's use of its clusters do not panic on this
  -- pointer
  pub is_usable : Option Cluster → Bool
  pub get_logger : Calls → Option ApiError
  pub initialize_client : Calls → Cluster → Scheme → Option ApiError
  pub create_and_wait_for_cluster : Calls → ClusterRequest → ClusterAnswer
  pub create_or_update_crds : Calls → List (String × Option Cluster) → Option ApiError
  pub register_gvks : Calls → Cluster → String → GroupVersionKind → Option ApiError
  pub new_manager : Calls → Option Cluster → ManagerOptions → Option ApiError
  pub add_cluster : Calls → Cluster → Option ApiError
  pub set_up_objects : Calls → SpReconciler KroFields → String → List Watch → Option ApiError
  pub set_up_configs : Calls → PcReconciler → ConfigSource → Option ApiError
  pub add_health_check : Calls → String → Option ApiError
  pub add_ready_check : Calls → String → Option ApiError
  pub run_manager : Calls → Option ApiError
  -- openmcpconst.EnvVariablePodNamespace, clustersv1alpha1.PURPOSE_PLATFORM, PURPOSE_ONBOARDING
  pub env_variable_pod_namespace : String
  pub purpose_platform : String
  pub purpose_onboarding : String
