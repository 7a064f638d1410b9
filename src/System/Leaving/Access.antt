-- ===== src/System/Leaving/Access.antt =====
-- `clusters` and `areAccessRequestsInDeletion` come to their ends.
use service_provider_kro.Base.{
  String, Bool, true, false, Option, none, some, ◌≡◌, refl, if◌then◌else◌,
}
use service_provider_kro.Kube.{ok, Key, Time, Cluster, AccessRequest, AccessAnswer, CtrlResult}
use service_provider_kro.Env.{Env}
use service_provider_kro.Exec.Completes.{
  Accepted, Any, Completes, Completes-pure, Completes-call, Completes-settle, Completes-if,
  Completes-bind, Completes-asked_then,
}
use service_provider_kro.Runtime.Context.{ClusterContext}
use service_provider_kro.Runtime.Clusters.{
  is_set, access_in_deletion, are_access_requests_in_deletion, request_of, retrieve_secret_key,
  add_workload_cluster, add_mcp_cluster, clusters,
}
use service_provider_kro.Controller.Names.{KroReconciler}
use service_provider_kro.System.Leaving.Defs.{IsPresent, Leaving}

module _ (env : Env) (r : KroReconciler) (leaving : Leaving env r) where
  in_deletion-Accepted : (a : AccessAnswer) → IsPresent a → Accepted Any (access_in_deletion a)
  unfolding access_in_deletion
  in_deletion-Accepted a (no_error, (request, present)) =
      rw (no_error, present) (by_time request.deletion_timestamp)
    where
      by_time :
          (t : Option Time) → Accepted (Any {A = Bool}) (if is_set t then ok true else ok false)
      by_time none = tt
      by_time (some t) = tt

  request-Accepted :
      (a : AccessAnswer)
      → IsPresent a
      → Accepted
          (λ (q : Option AccessRequest). (request : AccessRequest) × (q ≡ some request))
          (request_of a)
  request-Accepted a (no_error, present) = rw no_error present

  secret_key-Completes :
      (request : AccessRequest) → Completes Any (retrieve_secret_key (some request))
  unfolding retrieve_secret_key
  secret_key-Completes request = by_ref request.secret_ref refl
    where
      by_ref :
          (name : Option String)
          → request.secret_ref ≡ name
          → Completes Any (retrieve_secret_key (some request))
      by_ref none e = rw e (Completes-pure _ tt)
      by_ref (some name) e = rw e (Completes-pure _ tt)

  module _ (req : Key) where
    add_workload_cluster-Completes :
        (res : CtrlResult) (ctx : ClusterContext) (workload : Option Cluster)
        → Completes Any (add_workload_cluster env true req false res ctx workload)
    unfolding add_workload_cluster
    add_workload_cluster-Completes res ctx none = Completes-pure _ tt
    add_workload_cluster-Completes res ctx (some c) =
        Completes-bind _ _
          (Completes-call {R = IsPresent} _ _ (λ log. leaving.workload_request log req))
          λ answer h.
            Completes-bind _ _ (Completes-settle _ _ (request-Accepted answer h)) λ q (request, e).
              rw e (
                Completes-bind _ _ (secret_key-Completes request)
                  (λ key _. Completes-pure {R = Any} _ tt))

    add_mcp_cluster-Completes :
        (res : CtrlResult) (mcp : Option Cluster)
        → Completes Any (add_mcp_cluster env true req false res mcp)
    unfolding add_mcp_cluster
    add_mcp_cluster-Completes res none = Completes-pure _ tt
    add_mcp_cluster-Completes res (some c) =
        Completes-bind _ _ (Completes-call {R = IsPresent} _ _ (λ log. leaving.mcp_request log req))
          λ answer h.
            Completes-bind _ _ (Completes-settle _ _ (request-Accepted answer h)) λ q (request, e).
              rw e (
                Completes-bind _ _ (secret_key-Completes request) λ key _.
                  Completes-asked_then Any _ _ _ _ (λ log. leaving.workload_cluster log req)
                    (λ workload _. add_workload_cluster-Completes res _ workload))

    pub clusters-Completes : Completes Any (clusters env true req false)
    unfolding clusters
    clusters-Completes =
        Completes-asked_then Any _ _ _ _ (λ log. leaving.reconcile_access log req)
          λ res _. Completes-if _ _ _ (Completes-pure _ tt) (
            Completes-asked_then Any _ _ _ _ (λ log. leaving.mcp_cluster log req)
              (λ mcp _. add_mcp_cluster-Completes res mcp))

    pub are_in_deletion-Completes : Completes Any (are_access_requests_in_deletion env true req)
    unfolding are_access_requests_in_deletion
    are_in_deletion-Completes =
        Completes-bind _ _ (Completes-call {R = IsPresent} _ _ (λ log. leaving.mcp_request log req))
          λ mcp h.
            Completes-bind _ _ (Completes-settle {R = Any} _ _ (in_deletion-Accepted mcp h))
              λ gone _. Completes-if _ _ _ (Completes-pure _ tt) (
                Completes-bind _ _
                  (Completes-call {R = IsPresent} _ _ (λ log. leaving.workload_request log req))
                  (λ workload k. Completes-settle _ _ (in_deletion-Accepted workload k)))
