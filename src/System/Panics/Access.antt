-- ===== src/System/Panics/Access.antt =====
-- Where the access to the clusters can panic.
use service_provider_kro.Base.{String, Bool, Option, none, some, ◌≡◌, refl}
use service_provider_kro.Go.{ApiError, is_positive}
use service_provider_kro.Kube.{Key, Cluster, AccessRequest, CtrlResult}
use service_provider_kro.Env.{Env}
use service_provider_kro.Exec.{State, Exec, unchanged, ◌>>=◌}
use service_provider_kro.Exec.Panics.{
  PanicsOnly, PanicsOnly-pure, PanicsOnly-call, PanicsOnly-settle, PanicsOnly-if, PanicsOnly-bind,
  PanicsOnly-call_then, Blamed,
}
use service_provider_kro.Runtime.Context.{ClusterContext}
use service_provider_kro.Runtime.Clusters.{
  request_of, retrieve_secret_key, are_access_requests_in_deletion, add_workload_cluster,
  add_mcp_cluster, clusters,
}
use service_provider_kro.Controller.Install.Panics.{Culprit, Nothing}

abbrev pub Careful : {A : Type 0} → Exec A → Type 0
Careful m = PanicsOnly Culprit m

retrieve_secret_key-Careful :
    (request : AccessRequest) (name : Option String)
    → request.secret_ref ≡ name
    → Careful (retrieve_secret_key (some request))
unfolding retrieve_secret_key
retrieve_secret_key-Careful request none e = rw e (PanicsOnly-pure Culprit _)
retrieve_secret_key-Careful request (some name) e = rw e (PanicsOnly-pure Culprit _)

-- The key of an access request that was just answered.
key_of_answer-Blamed :
    {B : Type 0} (o : Option AccessRequest) (e : Option ApiError) (f : Key → Exec B) (s : State)
    → ((key : Key) → Careful (f key))
    → (Nothing (record { request = o; error = e }) → Culprit s.log)
    → let m = unchanged (request_of (record { request = o; error = e })) >>= λ request.
        retrieve_secret_key request >>= f in
      Blamed Culprit (m s).0 (m s).1
unfolding ◌>>=◌ retrieve_secret_key
key_of_answer-Blamed o (some e) f s g blame = tt
key_of_answer-Blamed none none f s g blame = blame (refl, refl)
key_of_answer-Blamed (some request) none f s g blame =
    (PanicsOnly-bind Culprit _ f (retrieve_secret_key-Careful request request.secret_ref refl) g).at
      s

module _ (env : Env) (w : Bool) (req : Key) where
  add_workload_cluster-Careful :
      (all : Bool) (res : CtrlResult) (ctx : ClusterContext) (workload : Option Cluster)
      → Careful (add_workload_cluster env w req all res ctx workload)
  unfolding add_workload_cluster
  add_workload_cluster-Careful all res ctx none = PanicsOnly-pure Culprit _
  add_workload_cluster-Careful all res ctx (some c) =
      PanicsOnly-call_then Culprit _ _ _ λ a s.
        key_of_answer-Blamed a.request a.error _ _ (λ key. PanicsOnly-pure Culprit _) (λ h. h)

  add_mcp_cluster-Careful :
      (all : Bool) (res : CtrlResult) (mcp : Option Cluster)
      → Careful (add_mcp_cluster env w req all res mcp)
  unfolding add_mcp_cluster
  add_mcp_cluster-Careful all res none = PanicsOnly-pure Culprit _
  add_mcp_cluster-Careful all res (some c) = PanicsOnly-call_then Culprit _ _ _ λ a s.
      key_of_answer-Blamed a.request a.error _ _
        (λ key.
          PanicsOnly-if Culprit w _ _
            (PanicsOnly-bind Culprit _ _ (PanicsOnly-call Culprit _ _) λ asked.
              PanicsOnly-bind Culprit _ _ (PanicsOnly-settle Culprit _ asked)
                λ workload. add_workload_cluster-Careful all res _ workload)
            (PanicsOnly-pure Culprit _))
        (λ h. h)

  pub clusters-Careful : (all : Bool) → Careful (clusters env w req all)
  unfolding clusters
  clusters-Careful all = PanicsOnly-bind Culprit _ _ (PanicsOnly-call Culprit _ _) λ reconciled.
      PanicsOnly-bind Culprit _ _ (PanicsOnly-settle Culprit _ reconciled) λ res.
        PanicsOnly-if Culprit (is_positive res.requeue_after) _ _ (PanicsOnly-pure Culprit _) (
          PanicsOnly-bind Culprit _ _ (PanicsOnly-call Culprit _ _) λ asked.
            PanicsOnly-bind Culprit _ _ (PanicsOnly-settle Culprit _ asked)
              λ mcp. add_mcp_cluster-Careful all res mcp)

  pub in_deletion-Careful : Careful (are_access_requests_in_deletion env w req)
  unfolding are_access_requests_in_deletion
  in_deletion-Careful = PanicsOnly-bind Culprit _ _ (PanicsOnly-call Culprit _ _) λ mcp.
      PanicsOnly-bind Culprit _ _ (PanicsOnly-settle Culprit _ _) λ gone.
        PanicsOnly-if Culprit gone _ _ (PanicsOnly-pure Culprit _) (
          PanicsOnly-if Culprit w _ _
            (PanicsOnly-bind Culprit _ _ (PanicsOnly-call Culprit _ _)
              λ asked. PanicsOnly-settle Culprit _ _)
            (PanicsOnly-pure Culprit _))
