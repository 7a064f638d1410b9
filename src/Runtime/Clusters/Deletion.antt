-- ===== src/Runtime/Clusters/Deletion.antt =====
-- `clusters` for a deletion: missing access never makes it wait.
use service_provider_kro.Base.{
  Bool, true, false, Option, none, some, ◌≡◌, refl, ◌∙◌, subst, Bool-cases, inl, inr,
}
use service_provider_kro.Go.{is_positive, is_zero}
use service_provider_kro.Kube.{ok, Key, Cluster, CtrlResult, no_requeue}
use service_provider_kro.Env.{Env, Log}
use service_provider_kro.Exec.{State, returned}
use service_provider_kro.Exec.Laws.{Ensures, Ensures-bind, pure-Ensures, settle_inv, call_inv}
use service_provider_kro.Runtime.Context.{ClusterContext}
use service_provider_kro.Runtime.Clusters.{
  no_clusters, add_workload_cluster, add_mcp_cluster, clusters,
}

-- The cluster access library never answers with a negative delay.
abbrev pub NeverNegative : Env → Type 0
NeverNegative env =
    (log : Log) (req : Key) (res : CtrlResult)
    → env.reconcile_access log req ≡ ok res
    → is_positive res.requeue_after ≡ false
    → is_zero res.requeue_after ≡ true

abbrev HasNoDelay : ClusterContext × CtrlResult → Type 0
HasNoDelay x = is_zero x.1.requeue_after ≡ true

no_requeue_is_zero : is_zero no_requeue.requeue_after ≡ true
unfolding is_zero
no_requeue_is_zero = refl

module _ (env : Env) (w : Bool) (req : Key) where
  add_workload_cluster-HasNoDelay :
      (res : CtrlResult) (ctx : ClusterContext) (workload : Option Cluster) (s : State)
      → is_zero res.requeue_after ≡ true
      → Ensures HasNoDelay (add_workload_cluster env w req false res ctx workload s).0
  unfolding add_workload_cluster
  add_workload_cluster-HasNoDelay res ctx none s zero = pure-Ensures HasNoDelay (ctx, res) s zero
  add_workload_cluster-HasNoDelay res ctx (some c) s zero =
      Ensures-bind HasNoDelay _ _ s λ answer s₁ _. Ensures-bind HasNoDelay _ _ s₁ λ request s₂ _.
        Ensures-bind HasNoDelay _ _ s₂ λ key s₃ _. pure-Ensures HasNoDelay (_, res) s₃ zero

module _ (env : Env) (req : Key) where
  add_mcp_cluster-HasNoDelay :
      (w : Bool) (res : CtrlResult) (mcp : Option Cluster) (s : State)
      → is_zero res.requeue_after ≡ true
      → Ensures HasNoDelay (add_mcp_cluster env w req false res mcp s).0
  unfolding add_mcp_cluster
  add_mcp_cluster-HasNoDelay w res none s zero =
      pure-Ensures HasNoDelay (no_clusters, no_requeue) s no_requeue_is_zero
  add_mcp_cluster-HasNoDelay true res (some c) s zero = Ensures-bind HasNoDelay _ _ s λ answer s₁ _.
      Ensures-bind HasNoDelay _ _ s₁ λ request s₂ _. Ensures-bind HasNoDelay _ _ s₂ λ key s₃ _.
        Ensures-bind HasNoDelay _ _ s₃ λ asked s₄ _.
          Ensures-bind HasNoDelay _ _ s₄
            λ workload s₅ _. add_workload_cluster-HasNoDelay env true req res _ workload s₅ zero
  add_mcp_cluster-HasNoDelay false res (some c) s zero =
      Ensures-bind HasNoDelay _ _ s λ answer s₁ _. Ensures-bind HasNoDelay _ _ s₁ λ request s₂ _.
        Ensures-bind HasNoDelay _ _ s₂ λ key s₃ _. pure-Ensures HasNoDelay (_, res) s₃ zero

  clusters-Ensures :
      NeverNegative env → (w : Bool) (s : State) → Ensures HasNoDelay (clusters env w req false s).0
  unfolding clusters
  clusters-Ensures polite w s = Ensures-bind HasNoDelay _ _ s λ reconciled s₁ called.
      Ensures-bind HasNoDelay _ _ s₁ λ res s₂ answered.
        elim (Bool-cases (is_positive res.requeue_after)) [
          | inl waits ↦
              rw waits (pure-Ensures HasNoDelay (no_clusters, no_requeue) s₂ no_requeue_is_zero)
          | inr ready ↦ rw ready (
              Ensures-bind HasNoDelay _ _ s₂ λ asked s₃ _.
                Ensures-bind HasNoDelay _ _ s₃ λ mcp s₄ _. add_mcp_cluster-HasNoDelay w res mcp s₄ (
                  polite s.log req res
                    (call_inv _ _ s called ∙ (settle_inv _ reconciled s₁ s₂ answered).0) ready))
        ]

  -- When access is not required, and the access library does not answer with negative delays, what
  -- `clusters` returns has no delay.
  pub clusters-HasNoDelay :
      NeverNegative env
      → (w : Bool) (s : State) {ctx : ClusterContext} {res : CtrlResult}
      → (clusters env w req false s).0 ≡ returned (ctx, res)
      → is_zero res.requeue_after ≡ true
  clusters-HasNoDelay polite w s found =
      subst (Ensures HasNoDelay) found (clusters-Ensures polite w s)
