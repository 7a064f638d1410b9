-- ===== src/System.antt =====
-- cmd/service-provider-kro/main.go: the generic reconciler with the Kro controller as its provider,
-- on a platform with workload clusters.
pub mod Release
pub mod Pending
pub mod Panics
pub mod Origins
pub mod Run
pub mod Leaving
pub mod Tidy
use service_provider_kro.Base.{Bool, true}
use service_provider_kro.Env.{Env}
use service_provider_kro.Runtime.Context.{ServiceProvider}
use service_provider_kro.Controller.Names.{KroReconciler}
use service_provider_kro.Controller.Install
use service_provider_kro.Controller.Remove

-- `WithServiceProviderReconciler(&controller.KroReconciler{...})`
abbrev pub kro_provider : Env → KroReconciler → ServiceProvider
kro_provider env r = record {
  create_or_update = Install.create_or_update env r;
  delete = Remove.delete env r;
}

-- `WithWorkloadCluster(true)`
abbrev pub with_workload_cluster : Bool
with_workload_cluster = true
