-- ===== src/Runtime/Clusters/Complete.antt =====
-- `clusters` with `requireAll`: what it returns without a delay has all clusters.
use service_provider_kro.Base.{
  Bool, true, false, Option, none, some, ◌≡◌, refl, subst, Bool-cases, inl, inr,
}
use service_provider_kro.Go.{is_positive}
use service_provider_kro.Kube.{Key, Cluster, CtrlResult}
use service_provider_kro.Env.{Env}
use service_provider_kro.Exec.{
  Exec, pure, State, Outcome, returned, failed, panicked, ◌>>=◌, continue,
}
use service_provider_kro.Runtime.Context.{ClusterContext}
use service_provider_kro.Runtime.Clusters.{
  no_clusters, retry, add_workload_cluster, add_mcp_cluster, clusters,
}

abbrev pub IsThere : Option Cluster → Type 0
IsThere none = ⊥
IsThere (some c) = Unit

-- The clusters that the provider needs: the control plane, and the workload cluster if it has one.
abbrev pub IsComplete : Bool → ClusterContext → Type 0
IsComplete true ctx = IsThere ctx.mcp_cluster × IsThere ctx.workload_cluster
IsComplete false ctx = IsThere ctx.mcp_cluster

-- The run returned a context that is complete, unless it asks for a delay.
abbrev Good : Bool → Outcome (ClusterContext × CtrlResult) → Type 0
Good w (returned (ctx, res)) = is_positive res.requeue_after ≡ false → IsComplete w ctx
Good w (failed e) = Unit
Good w panicked = Unit

module _ (w : Bool) {A : Type 0} where
  Good-bind :
      (m : Exec A) (f : A → Exec (ClusterContext × CtrlResult)) (s : State)
      → ((a : A) (s' : State) → Good w (f a s').0)
      → Good w ((m >>= f) s).0
  unfolding ◌>>=◌
  Good-bind m f s g = go (m s).0 (m s).1
    where
      go : (r : Outcome A) (s' : State) → Good w (continue r f s').0
      go (returned a) s' = g a s'
      go (failed e) s' = tt
      go panicked s' = tt

module _ (env : Env) (req : Key) where
  pure-Good :
      (w : Bool) (ctx : ClusterContext) (res : CtrlResult) (s : State)
      → (is_positive res.requeue_after ≡ false → IsComplete w ctx)
      → Good w (pure (ctx, res) s).0
  unfolding ◌>>=◌
  pure-Good w ctx res s h = h

  retry_is_positive : is_positive retry.requeue_after ≡ true
  unfolding is_positive
  retry_is_positive = refl

  add_workload_cluster-Good :
      (res : CtrlResult) (ctx : ClusterContext) (workload : Option Cluster) (s : State)
      → IsThere ctx.mcp_cluster
      → Good true (add_workload_cluster env true req true res ctx workload s).0
  unfolding add_workload_cluster
  add_workload_cluster-Good res ctx none s there =
      pure-Good true ctx retry s (λ h. cc retry_is_positive)
  add_workload_cluster-Good res ctx (some c) s there = Good-bind true _ _ s λ answer s₁.
      Good-bind true _ _ s₁
        λ request s₂. Good-bind true _ _ s₂ λ key s₃. pure-Good true _ res s₃ (λ h. (there, tt))

  add_mcp_cluster-Good :
      (w : Bool) (res : CtrlResult) (mcp : Option Cluster) (s : State)
      → Good w (add_mcp_cluster env w req true res mcp s).0
  unfolding add_mcp_cluster
  add_mcp_cluster-Good w res none s = pure-Good w no_clusters retry s (λ h. cc retry_is_positive)
  add_mcp_cluster-Good true res (some c) s = Good-bind true _ _ s λ answer s₁.
      Good-bind true _ _ s₁ λ request s₂. Good-bind true _ _ s₂ λ key s₃.
        Good-bind true _ _ s₃ λ asked s₄.
          Good-bind true _ _ s₄ λ workload s₅. add_workload_cluster-Good res _ workload s₅ tt
  add_mcp_cluster-Good false res (some c) s = Good-bind false _ _ s λ answer s₁.
      Good-bind false _ _ s₁
        λ request s₂. Good-bind false _ _ s₂ λ key s₃. pure-Good false _ res s₃ (λ h. tt)

  clusters-Good : (w : Bool) (s : State) → Good w (clusters env w req true s).0
  unfolding clusters
  clusters-Good w s = Good-bind w _ _ s λ reconciled s₁. Good-bind w _ _ s₁ λ res s₂.
      elim (Bool-cases (is_positive res.requeue_after)) [
        | inl waits ↦ rw waits (pure-Good w no_clusters res s₂ (λ h. cc waits))
        | inr ready ↦ rw ready (
            Good-bind w _ _ s₂
              λ asked s₃. Good-bind w _ _ s₃ λ mcp s₄. add_mcp_cluster-Good w res mcp s₄)
      ]

  -- When all access is required, a run of `clusters` that returns without a delay has found the
  -- control plane, and the workload cluster if the provider asked for one.
  pub clusters-IsComplete :
      (w : Bool) (s : State) {ctx : ClusterContext} {res : CtrlResult}
      → (clusters env w req true s).0 ≡ returned (ctx, res)
      → is_positive res.requeue_after ≡ false
      → IsComplete w ctx
  clusters-IsComplete w s {ctx} {res} found ready = (subst (Good w) found (clusters-Good w s)) ready
