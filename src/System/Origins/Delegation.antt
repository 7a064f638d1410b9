-- ===== src/System/Origins/Delegation.antt =====
-- The access to the clusters, and what the context that it returns tells of the log.
use service_provider_kro.Base.{
  String, Bool, Option, none, some, inl, inr, ◌≡◌, ◌∙◌, subst, ap, refl, arith,
}
use service_provider_kro.Go.{is_positive}
use service_provider_kro.Kube.{ok, Key, Cluster, AccessRequest, AccessAnswer, CtrlResult}
use service_provider_kro.Env.{Env, Log, asked_workload_cluster}
use service_provider_kro.Exec.Known.{Known, Seen, always}
use service_provider_kro.Exec.Tells.{
  Tells, Tells-pure, Tells-panic, Tells-if, Tells-call_then, Tells-settle_then, Tells-told_then,
}
use service_provider_kro.Runtime.Context.{ClusterContext}
use service_provider_kro.Runtime.Clusters.{
  no_clusters, retrieve_secret_key, request_of, add_workload_cluster, add_mcp_cluster, clusters,
}
use service_provider_kro.Controller.Names.{KroReconciler}
use service_provider_kro.System.Origins.Defs.{Justified, Names, Delegated, context_of}

-- What `clusters` tells by the context that it returns
abbrev found_context : ClusterContext × CtrlResult → Known
found_context found = context_of found.0

-- An answer with no error is its access request.
request_of-ok :
    (answer : AccessAnswer) (access : Option AccessRequest)
    → request_of answer ≡ ok access
    → (answer.error ≡ none) × (answer.request ≡ access)
request_of-ok answer access e = ground arith

module _ (env : Env) (r : KroReconciler) (w : Bool) (req : Key) where
  -- A context with no workload cluster says nothing.
  empty_context :
      (ctx : ClusterContext) (res : CtrlResult) (log : Log)
      → ctx.workload_cluster ≡ none
      → (found_context (ctx, res)).Fact log
  empty_context ctx res log empty c there = cc

  -- The key is named by an access request that is there.
  abbrev Named : Option AccessRequest → Key → Type 0
  Named access key = (a : AccessRequest) × (access ≡ some a) × Names a key

  abbrev named_by : Option AccessRequest → Key → Known
  named_by access key = always (Named access key)

  secret_key-Tells :
      (K : Known) (access : Option AccessRequest)
      → Tells (Justified env r) K (named_by access) (retrieve_secret_key access)
  unfolding retrieve_secret_key
  secret_key-Tells K none = Tells-panic _
  secret_key-Tells K (some access) = by_ref access.secret_ref refl
    where
      by_ref :
          (name : Option String)
          → access.secret_ref ≡ name
          → Tells (Justified env r) K (named_by (some access)) (retrieve_secret_key (some access))
      by_ref none e = simp e (Tells-pure _ _ λ log k. (access, refl, inr (e, refl)))
      by_ref (some name) e = simp e (Tells-pure _ _ λ log k. (access, refl, inl (e, refl)))

  module _ (K : Known) (all : Bool) (res : CtrlResult) (ctx : ClusterContext) where
    add_workload_cluster-Tells :
        (workload : Option Cluster)
        → ctx.workload_cluster ≡ none
        → ((log : Log) (c : Cluster)
            → K.Fact log
            → workload ≡ some c
            → Delegated c ctx.mcp_access_secret_key log)
        → Tells
            (Justified env r)
            K
            found_context
            (add_workload_cluster env w req all res ctx workload)
    unfolding add_workload_cluster
    add_workload_cluster-Tells none empty known =
        Tells-pure _ _ λ log k. empty_context ctx res log empty
    add_workload_cluster-Tells (some workload) empty known =
        Tells-call_then _ _ _ _ (λ a log k. (tt, tt))
          λ answer. Tells-settle_then _ _ _ _ λ request e.
            Tells-told_then _ _ _ (secret_key-Tells _ request)
              λ key. Tells-pure _ _ λ log k c there. known log c k.0.0 there

  module _ (K : Known) (all : Bool) (res : CtrlResult) where
    add_mcp_cluster-Tells :
        (mcp : Option Cluster)
        → Tells (Justified env r) K found_context (add_mcp_cluster env w req all res mcp)
    unfolding add_mcp_cluster
    add_mcp_cluster-Tells none = Tells-pure _ _ λ log k. empty_context no_clusters res log refl
    add_mcp_cluster-Tells (some mcp) =
        Tells-call_then _ _ _ _ (λ a log k. (tt, tt))
          λ answer. Tells-settle_then _ _ _ _ λ access e.
            Tells-told_then _ _ _ (secret_key-Tells _ access) λ key.
              Tells-if _ w _ _
                (Tells-call_then _ _ _ _ (λ a log k. (tt, tt))
                  λ asked. Tells-settle_then _ _ asked _ λ workload found.
                    add_workload_cluster-Tells _ all res _ workload refl λ log c k there. record {
                      request = req;
                      workload =
                          subst (λ x. Seen (asked_workload_cluster req x) log) (found ∙ ap ok there)
                            k.1;
                      control_plane = answer;
                      asked = k.0.0.1;
                      no_error = (request_of-ok answer access e).0;
                      access = k.0.1.0;
                      granted = (request_of-ok answer access e).1 ∙ k.0.1.1;
                      named = k.0.1.2;
                    })
                (Tells-pure _ _ λ log k.
                  empty_context
                    (record no_clusters { mcp_cluster = some mcp; mcp_access_secret_key = key }) res
                    log refl)

  pub clusters-Tells :
      (K : Known) (all : Bool) → Tells (Justified env r) K found_context (clusters env w req all)
  unfolding clusters
  clusters-Tells K all =
      Tells-call_then _ _ _ _ (λ a log k. (tt, tt))
        λ reconciled. Tells-settle_then _ _ reconciled _ λ res e.
          Tells-if _ (is_positive res.requeue_after) _ _
            (Tells-pure _ _ λ log k. empty_context no_clusters res log refl)
            (Tells-call_then _ _ _ _ (λ a log k. (tt, tt))
              λ asked.
                Tells-settle_then _ _ asked _ λ mcp found. add_mcp_cluster-Tells _ all res mcp)
