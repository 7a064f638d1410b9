-- ===== src/System/Leaving/Defs.antt =====
-- What an outside is like that lets an object go.
use service_provider_kro.Base.{String, true, false, none, some, ◌≡◌}
use service_provider_kro.Go.{is_positive}
use service_provider_kro.Kube.{
  ok, Key, Cluster, AccessRequest, AccessAnswer, CtrlResult, no_requeue,
}
use service_provider_kro.Flux.{ManagedObject}
use service_provider_kro.Api.Kro.{Kro}
use service_provider_kro.Env.{Env, Log}
use service_provider_kro.Exec.Completes.{Accepted, Any}
use service_provider_kro.Controller.Names.{KroReconciler}
use service_provider_kro.Controller.Remove.{deletion_error, is_gone}

abbrev pub IsPresent : AccessAnswer → Type 0
IsPresent a = (a.error ≡ none) × ((request : AccessRequest) × (a.request ≡ some request))

-- The calls of a deletion are accepted, no ResourceGraphDefinition is left, what is removed is gone
-- at once, and there is no time to wait.
pub record Leaving (env : Env) (r : KroReconciler) : Type 0 where
  pub mcp_request : (log : Log) (req : Key) → IsPresent (env.mcp_request log req)
  pub workload_request : (log : Log) (req : Key) → IsPresent (env.workload_request log req)
  pub reconcile_access : (log : Log) (req : Key) → Accepted Any (env.reconcile_access log req)
  pub mcp_cluster : (log : Log) (req : Key) → Accepted Any (env.mcp_cluster log req)
  pub workload_cluster : (log : Log) (req : Key) → Accepted Any (env.workload_cluster log req)
  pub stable : (name namespace : String) → Accepted Any (env.stable_mcp_namespace name namespace)
  pub unblocked : (log : Log) (c : Cluster) → env.list_graph_definitions log c ≡ ok 0
  pub delete_object :
      (log : Log) (o : ManagedObject)
      → deletion_error env (env.delete_object log r.platform_cluster o) ≡ none
  pub gone :
      (log : Log) (o : ManagedObject) → is_gone env (env.get_object log r.platform_cluster o) ≡ true
  pub delete_access :
      (log : Log) (req : Key)
      → Accepted
          (λ (res : CtrlResult). is_positive res.requeue_after ≡ false)
          (env.delete_access log req)
  pub update_kro : (log : Log) (o : Kro) → Accepted Any (env.update_kro log o)

abbrev pub IsLast : CtrlResult → Type 0
IsLast res = res ≡ no_requeue
