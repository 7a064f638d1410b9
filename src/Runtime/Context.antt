-- ===== src/Runtime/Context.antt =====
-- pkg/spruntime/spreconciler.go: `ClusterContext`, and the interface between the generic reconciler
-- and a service provider. `Controller` implements it for Kro.
use service_provider_kro.Base.{Option}
use service_provider_kro.Kube.{Key, Cluster, CtrlResult}
use service_provider_kro.Api.ProviderConfig.{ProviderConfig}
use service_provider_kro.Exec.{Exec}

pub record ClusterContext : Type 0 where
  pub mcp_cluster : Option Cluster
  pub mcp_access_secret_key : Key
  pub workload_cluster : Option Cluster
  pub workload_access_secret_key : Key

-- `ServiceProviderReconciler`
pub record ServiceProvider : Type 0 where
  pub create_or_update : Option ProviderConfig → ClusterContext → Exec CtrlResult
  pub delete : Option ProviderConfig → ClusterContext → Exec CtrlResult
