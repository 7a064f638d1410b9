-- ===== src/Runtime/Domain/Gate.antt =====
-- `createOrUpdate`: which calls of the service provider it can make.
use service_provider_kro.Base.{
  Bool, true, false, some, ◌≡◌, refl, inl, inr, ap, sym, Bool-cases, if◌then◌else◌, ◌∙◌,
}
use service_provider_kro.Go.{Error, is_positive}
use service_provider_kro.Kube.{CtrlResult}
use service_provider_kro.Api.ProviderConfig.{ProviderConfig}
use service_provider_kro.Api.Kro.{key_of}
use service_provider_kro.Env.{Env}
use service_provider_kro.Exec.{
  State, Exec, Outcome, returned, failed, panicked, fail, pure, on_error, ◌>>=◌, ◌>>◌, continue,
}
use service_provider_kro.Exec.Laws.{on_error_inv, then_fail-Stops}
use service_provider_kro.Runtime.Context.{ClusterContext, ServiceProvider}
use service_provider_kro.Runtime.Status.{status_progressing, reason_reconcile_error}
use service_provider_kro.Runtime.Clusters.{clusters}
use service_provider_kro.Runtime.Clusters.Complete.{IsComplete, clusters-IsComplete}
use service_provider_kro.Runtime.Domain.{create_or_update}

module _ {A B : Type 0} where
  continue_cong :
      (r : Outcome A) (s' : State) (f g : A → Exec B)
      → ((a : A) → r ≡ returned a → f a s' ≡ g a s')
      → continue r f s' ≡ continue r g s'
  continue_cong (returned a) s' f g same = same a refl
  continue_cong (failed e) s' f g same = refl
  continue_cong panicked s' f g same = refl

  -- Two chains that start alike are alike where they go on alike.
  bind_cong :
      (m : Exec A) (f g : A → Exec B) (s : State)
      → ((a : A) (s' : State) → m s ≡ (returned a, s') → f a s' ≡ g a s')
      → (m >>= f) s ≡ (m >>= g) s
  unfolding ◌>>=◌
  bind_cong m f g s same =
      continue_cong (m s).0 (m s).1 f g (λ a e. same a (m s).1 (ap (λ r. (r, (m s).1)) e))

module _ (env : Env) (w : Bool) (pc : ProviderConfig) where
  -- Two providers that do the same on every complete context.
  abbrev pub Agree : ServiceProvider → ServiceProvider → Type 0
  Agree p q =
      (ctx : ClusterContext)
      → IsComplete w ctx
      → (s : State) → p.create_or_update (some pc) ctx s ≡ q.create_or_update (some pc) ctx s

  abbrev setup_failed : Error → Exec (ClusterContext × CtrlResult)
  setup_failed e = do status_progressing env reason_reconcile_error "cluster setup error"; fail e

  abbrev with_clusters : ServiceProvider → ClusterContext × CtrlResult → Exec CtrlResult
  with_clusters p (ctx, res) =
      if is_positive res.requeue_after then pure res else p.create_or_update (some pc) ctx

  with_clusters_cong :
      (p q : ServiceProvider) (ctx : ClusterContext) (res : CtrlResult) (s : State)
      → Agree p q
      → (is_positive res.requeue_after ≡ false → IsComplete w ctx)
      → with_clusters p (ctx, res) s ≡ with_clusters q (ctx, res) s
  with_clusters_cong p q ctx res s agree complete =
      elim (Bool-cases (is_positive res.requeue_after)) [
        | inl waits ↦ rw waits refl
        | inr ready ↦ rw ready (agree ctx (complete ready) s)
      ]

  -- `createOrUpdate` calls the provider with complete contexts only: its whole run is the same for
  -- two providers that do the same on the contexts that hold the control plane, and the workload
  -- cluster if one is asked for.
  pub create_or_update-complete_only :
      (p q : ServiceProvider) (s : State)
      → Agree p q
      → create_or_update env w p pc s ≡ create_or_update env w q pc s
  unfolding create_or_update
  create_or_update-complete_only p q s agree = bind_cong _ _ _ s λ u s₁ ensured.
      bind_cong _ _ _ s₁ λ obj s₂ read.
        bind_cong (on_error (clusters env w (key_of obj) true) setup_failed) _ _ s₂ λ found s₃ e.
          with_clusters_cong p q found.0 found.1 s₃ agree (
            clusters-IsComplete env (key_of obj) w s₂ (
              ap (λ r. r.0)
                (sym (
                    on_error_inv (clusters env w (key_of obj) true) setup_failed s₂
                      (then_fail-Stops _ _) (ap (λ r. r.0) e))
                  ∙ e)))
