-- ===== src/Runtime/Domain/Steps.antt =====
-- What the steps around the provider keep: the reads of the cluster access leave the object
-- alone, and the clean-up only adds to the log.
use service_provider_kro.Base.{String, Bool, Option, none, some, ◌≡◌, refl, ◌∷◌}
use service_provider_kro.Go.{is_positive}
use service_provider_kro.Kube.{Answer, ok, err, Key, Cluster, CtrlResult, AccessRequest}
use service_provider_kro.Api.Kro.{Kro}
use service_provider_kro.Env.{Env, Event}
use service_provider_kro.Exec.{State, ◌>>=◌}
use service_provider_kro.Exec.Keeps.{
  Keeps, Keeps-pure, Keeps-fail, Keeps-gets, Keeps-call, Keeps-settle, Keeps-if, Keeps-modify,
  Keeps-bind, Keeps-on_error,
}
use service_provider_kro.Runtime.Status.{set_status, stamped}
use service_provider_kro.Runtime.Context.{ClusterContext}
use service_provider_kro.Runtime.Clusters.{
  retrieve_secret_key, are_access_requests_in_deletion, add_workload_cluster, add_mcp_cluster,
  clusters,
}
use service_provider_kro.Runtime.Domain.{updated, clean_up}

module _ (P : State → Type 0)
    (stays : (e : Event) (s : State) → P s → P (record s { log = e ∷ s.log })) (env : Env)
    (w : Bool) (req : Key) where
  secret_key-Keeps : (request : Option AccessRequest) → Keeps P stays (retrieve_secret_key request)
  unfolding retrieve_secret_key ◌>>=◌
  secret_key-Keeps none = record { at = λ s h. h }
  secret_key-Keeps (some request) = by_ref request.secret_ref refl
    where
      by_ref :
          (name : Option String)
          → request.secret_ref ≡ name
          → Keeps P stays (retrieve_secret_key (some request))
      by_ref none e = rw e (Keeps-pure P stays _)
      by_ref (some name) e = rw e (Keeps-pure P stays _)

  add_workload_cluster-Keeps :
      (all : Bool) (res : CtrlResult) (ctx : ClusterContext) (workload : Option Cluster)
      → Keeps P stays (add_workload_cluster env w req all res ctx workload)
  unfolding add_workload_cluster
  add_workload_cluster-Keeps all res ctx none = Keeps-pure P stays _
  add_workload_cluster-Keeps all res ctx (some c) =
      Keeps-bind P stays _ _ (Keeps-call P stays _ _) λ answer.
        Keeps-bind P stays _ _ (Keeps-settle P stays _ _)
          λ request. Keeps-bind P stays _ _ (secret_key-Keeps request) λ key. Keeps-pure P stays _

  add_mcp_cluster-Keeps :
      (all : Bool) (res : CtrlResult) (mcp : Option Cluster)
      → Keeps P stays (add_mcp_cluster env w req all res mcp)
  unfolding add_mcp_cluster
  add_mcp_cluster-Keeps all res none = Keeps-pure P stays _
  add_mcp_cluster-Keeps all res (some c) = Keeps-bind P stays _ _ (Keeps-call P stays _ _) λ answer.
      Keeps-bind P stays _ _ (Keeps-settle P stays _ _) λ request.
        Keeps-bind P stays _ _ (secret_key-Keeps request) λ key.
          Keeps-if P stays w _ _
            (Keeps-bind P stays _ _ (Keeps-call P stays _ _) λ asked.
              Keeps-bind P stays _ _ (Keeps-settle P stays _ _)
                λ workload. add_workload_cluster-Keeps all res _ workload)
            (Keeps-pure P stays _)

  pub clusters-Keeps : (all : Bool) → Keeps P stays (clusters env w req all)
  unfolding clusters
  clusters-Keeps all = Keeps-bind P stays _ _ (Keeps-call P stays _ _) λ reconciled.
      Keeps-bind P stays _ _ (Keeps-settle P stays _ _) λ res.
        Keeps-if P stays (is_positive res.requeue_after) _ _ (Keeps-pure P stays _) (
          Keeps-bind P stays _ _ (Keeps-call P stays _ _) λ asked.
            Keeps-bind P stays _ _ (Keeps-settle P stays _ _)
              λ mcp. add_mcp_cluster-Keeps all res mcp)

  pub are_access_requests_in_deletion-Keeps :
      Keeps P stays (are_access_requests_in_deletion env w req)
  unfolding are_access_requests_in_deletion
  are_access_requests_in_deletion-Keeps = Keeps-bind P stays _ _ (Keeps-call P stays _ _) λ mcp.
      Keeps-bind P stays _ _ (Keeps-settle P stays _ _) λ gone.
        Keeps-if P stays gone _ _ (Keeps-pure P stays _) (
          Keeps-if P stays w _ _
            (Keeps-bind P stays _ _ (Keeps-call P stays _ _) λ asked. Keeps-settle P stays _ _)
            (Keeps-pure P stays _))

  module _ (free : (f : Kro → Kro) (s : State) → P s → P (record s { obj = f s.obj })) where
    status-Keeps :
        (status reason message phase : String)
        → Keeps P stays (set_status env status reason message phase)
    unfolding set_status
    status-Keeps status reason message phase =
        Keeps-bind P stays _ _ (Keeps-call P stays _ _)
          (λ t. Keeps-modify P stays (stamped env status reason message phase t) (free _))

    updated-Keeps : (answer : Answer Kro) → Keeps P stays (updated env answer)
    updated-Keeps (ok o) =
        Keeps-bind P stays _ _ (Keeps-modify P stays _ (free _)) (λ _. Keeps-pure P stays _)
    updated-Keeps (err e) =
        Keeps-bind P stays _ _ (status-Keeps _ _ _ _) (λ _. Keeps-fail P stays _)

    -- Whatever only the log says, and says for good, the clean-up keeps.
    pub clean_up-Keeps : Keeps P stays (clean_up env req)
    unfolding clean_up
    clean_up-Keeps =
        Keeps-bind P stays _ _
          (Keeps-on_error P stays _ _
            (Keeps-bind P stays _ _ (Keeps-call P stays _ _) λ answer. Keeps-settle P stays _ _)
            (λ e. Keeps-bind P stays _ _ (status-Keeps _ _ _ _) λ _. Keeps-fail P stays e))
          λ res. Keeps-if P stays (is_positive res.requeue_after) _ _ (Keeps-pure P stays _) (
            Keeps-bind P stays _ _ (Keeps-modify P stays _ (free _)) λ _.
              Keeps-bind P stays _ _ (Keeps-gets P stays _)
                λ obj. Keeps-bind P stays _ _ (Keeps-call P stays _ _) updated-Keeps)
