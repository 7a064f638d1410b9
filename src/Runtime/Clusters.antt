-- ===== src/Runtime/Clusters.antt =====
-- pkg/spruntime/spreconciler.go: `clusters`, `areAccessRequestsInDeletion` and
-- `retrieveSecretKey`.
pub mod Complete
pub mod Deletion
use service_provider_kro.Base.{Bool, true, false, ◌||◌, Option, none, some, if◌then◌else◌}
use service_provider_kro.Go.{ApiError, is_positive, ten_seconds}
use service_provider_kro.Kube.{
  Answer, ok, err, Key, empty_key, Cluster, AccessRequest, AccessAnswer, CtrlResult, no_requeue,
  Time,
}
use service_provider_kro.Env.{
  Env, reconciled_access, asked_mcp_cluster, asked_workload_cluster, asked_mcp_request,
  asked_workload_request,
}
use service_provider_kro.Exec.{Exec, pure, panic, call, unchanged, ◌>>=◌}
use service_provider_kro.Runtime.Context.{ClusterContext}

-- `apierrors.IsNotFound(err)`, of an error that may be nil
abbrev is_not_found : Option ApiError → Bool
is_not_found none = false
is_not_found (some e) = e.not_found

-- `t != nil`
abbrev pub is_set : Option Time → Bool
is_set none = false
is_set (some t) = true

-- `accessRequest != nil && accessRequest.DeletionTimestamp != nil`
abbrev is_marked : Option AccessRequest → Bool
is_marked none = false
is_marked (some request) = is_set request.deletion_timestamp

-- The two tests of `areAccessRequestsInDeletion` on one access request.
unfoldable pub access_in_deletion : AccessAnswer → Answer Bool
access_in_deletion a =
    if is_not_found a.error || is_marked a.request
    then ok true
    else elim a.error [ none ↦ ok false | some e ↦ err e ]

-- A pointer and an error: the error if there is one.
abbrev pub request_of : AccessAnswer → Answer (Option AccessRequest)
request_of a = elim a.error [ none ↦ ok a.request | some e ↦ err e ]

-- `retrieveSecretKey`, which panics on nil
unfoldable pub retrieve_secret_key : Option AccessRequest → Exec Key
retrieve_secret_key none = panic
retrieve_secret_key (some request) = elim request.secret_ref [
  | none ↦ pure empty_key
  | some name ↦ pure (record { namespace = request.namespace; name = name })
]

-- `ClusterContext{}`
abbrev pub no_clusters : ClusterContext
no_clusters = record {
  mcp_cluster = none;
  mcp_access_secret_key = empty_key;
  workload_cluster = none;
  workload_access_secret_key = empty_key;
}

abbrev pub retry : CtrlResult
retry = record { requeue_after = ten_seconds }

module _ (env : Env) (with_workload_cluster : Bool) where
  unfoldable pub are_access_requests_in_deletion : Key → Exec Bool
  unfolding access_in_deletion
  are_access_requests_in_deletion req = do
    mcp ← call (λ log. env.mcp_request log req) (asked_mcp_request req)
    mcp_gone ← unchanged (access_in_deletion mcp)
    if mcp_gone
        then pure true
        else if with_workload_cluster
        then (do
          workload ← call (λ log. env.workload_request log req) (asked_workload_request req)
          unchanged (access_in_deletion workload))
        else pure false

  -- What a call returns where access is missing: it is waited for only when all is required.
  abbrev waiting : Bool → CtrlResult → CtrlResult
  waiting require_all res = if require_all then res else no_requeue

  -- The part of `clusters` for a workload cluster that is there or not.
  unfoldable pub add_workload_cluster :
      Key → Bool → CtrlResult → ClusterContext → Option Cluster → Exec (ClusterContext × CtrlResult)
  unfolding retrieve_secret_key
  add_workload_cluster req require_all res ctx none = pure (ctx, if require_all then retry else res)
  add_workload_cluster req require_all res ctx (some workload) = do
    answer ← call (λ log. env.workload_request log req) (asked_workload_request req)
    request ← unchanged (request_of answer)
    key ← retrieve_secret_key request
    pure (record ctx { workload_cluster = some workload; workload_access_secret_key = key }, res)

  -- The part of `clusters` for a control plane that is there or not.
  unfoldable pub add_mcp_cluster :
      Key → Bool → CtrlResult → Option Cluster → Exec (ClusterContext × CtrlResult)
  unfolding add_workload_cluster
  add_mcp_cluster req require_all res none = pure (no_clusters, waiting require_all retry)
  add_mcp_cluster req require_all res (some mcp) = do
    answer ← call (λ log. env.mcp_request log req) (asked_mcp_request req)
    request ← unchanged (request_of answer)
    key ← retrieve_secret_key request
    let ctx : ClusterContext = record no_clusters {
      mcp_cluster = some mcp;
      mcp_access_secret_key = key;
    }
    if with_workload_cluster
        then (do
          asked ← call (λ log. env.workload_cluster log req) (asked_workload_cluster req)
          workload ← unchanged asked
          add_workload_cluster req require_all res ctx workload)
        else pure (ctx, res)

  unfoldable pub clusters : Key → Bool → Exec (ClusterContext × CtrlResult)
  unfolding add_mcp_cluster
  clusters req require_all = do
    reconciled ← call (λ log. env.reconcile_access log req) (reconciled_access req)
    res ← unchanged reconciled
    if is_positive res.requeue_after then pure (no_clusters, waiting require_all res) else do
      asked ← call (λ log. env.mcp_cluster log req) (asked_mcp_cluster req)
      mcp ← unchanged asked
      add_mcp_cluster req require_all res mcp
