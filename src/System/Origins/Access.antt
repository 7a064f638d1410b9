-- ===== src/System/Origins/Access.antt =====
-- The access to the clusters adds only events that need no reason.
use service_provider_kro.Base.{String, Bool, Option, none, some, ◌≡◌, refl}
use service_provider_kro.Go.{is_positive}
use service_provider_kro.Kube.{Key, Cluster, AccessRequest, CtrlResult}
use service_provider_kro.Env.{Env}
use service_provider_kro.Exec.Known.{Known}
use service_provider_kro.Exec.Causal.{
  Causal-pure, Causal-panic, Causal-if, Causal-call, Causal-settle, Causal-bind,
}
use service_provider_kro.Runtime.Context.{ClusterContext}
use service_provider_kro.Runtime.Clusters.{
  retrieve_secret_key, are_access_requests_in_deletion, add_workload_cluster, add_mcp_cluster,
  clusters,
}
use service_provider_kro.Controller.Names.{KroReconciler}
use service_provider_kro.System.Origins.Install.{Reasoned}

module _ (env : Env) (r : KroReconciler) (K : Known) (w : Bool) (req : Key) where
  secret_key-Causal :
      (request : Option AccessRequest) → Reasoned env r K (retrieve_secret_key request)
  unfolding retrieve_secret_key
  secret_key-Causal none = Causal-panic _
  secret_key-Causal (some request) = by_ref request.secret_ref refl
    where
      by_ref :
          (name : Option String)
          → request.secret_ref ≡ name
          → Reasoned env r K (retrieve_secret_key (some request))
      by_ref none e = rw e (Causal-pure _ _)
      by_ref (some name) e = rw e (Causal-pure _ _)

  add_workload_cluster-Causal :
      (all : Bool) (res : CtrlResult) (ctx : ClusterContext) (workload : Option Cluster)
      → Reasoned env r K (add_workload_cluster env w req all res ctx workload)
  unfolding add_workload_cluster
  add_workload_cluster-Causal all res ctx none = Causal-pure _ _
  add_workload_cluster-Causal all res ctx (some c) =
      Causal-bind _ _ _ (Causal-call _ _ _ (λ a log k. (tt, tt))) λ answer.
        Causal-bind _ _ _ (Causal-settle _ _ _)
          λ request. Causal-bind _ _ _ (secret_key-Causal request) (λ key. Causal-pure _ _)

  add_mcp_cluster-Causal :
      (all : Bool) (res : CtrlResult) (mcp : Option Cluster)
      → Reasoned env r K (add_mcp_cluster env w req all res mcp)
  unfolding add_mcp_cluster
  add_mcp_cluster-Causal all res none = Causal-pure _ _
  add_mcp_cluster-Causal all res (some c) =
      Causal-bind _ _ _ (Causal-call _ _ _ (λ a log k. (tt, tt))) λ answer.
        Causal-bind _ _ _ (Causal-settle _ _ _) λ request.
          Causal-bind _ _ _ (secret_key-Causal request) λ key.
            Causal-if _ w _ _
              (Causal-bind _ _ _ (Causal-call _ _ _ (λ a log k. (tt, tt))) λ asked.
                Causal-bind _ _ _ (Causal-settle _ _ asked)
                  (λ workload. add_workload_cluster-Causal all res _ workload))
              (Causal-pure _ _)

  pub clusters-Causal : (all : Bool) → Reasoned env r K (clusters env w req all)
  unfolding clusters
  clusters-Causal all = Causal-bind _ _ _ (Causal-call _ _ _ (λ a log k. (tt, tt))) λ reconciled.
      Causal-bind _ _ _ (Causal-settle _ _ reconciled) λ res.
        Causal-if _ (is_positive res.requeue_after) _ _ (Causal-pure _ _) (
          Causal-bind _ _ _ (Causal-call _ _ _ (λ a log k. (tt, tt))) λ asked.
            Causal-bind _ _ _ (Causal-settle _ _ asked) (λ mcp. add_mcp_cluster-Causal all res mcp))

  pub in_deletion-Causal : Reasoned env r K (are_access_requests_in_deletion env w req)
  unfolding are_access_requests_in_deletion
  in_deletion-Causal = Causal-bind _ _ _ (Causal-call _ _ _ (λ a log k. (tt, tt))) λ mcp.
      Causal-bind _ _ _ (Causal-settle _ _ _) λ gone. Causal-if _ gone _ _ (Causal-pure _ _) (
        Causal-if _ w _ _
          (Causal-bind _ _ _ (Causal-call _ _ _ (λ a log k. (tt, tt)))
            (λ asked. Causal-settle _ _ _))
          (Causal-pure _ _))
