-- ===== src/Runtime/Domain/Released.antt =====
-- A deletion that ends with the finalizer's removal has run the provider to its end.
use service_provider_kro.Base.{
  Bool, true, false, Option, none, some, ◌≡◌, refl, sym, ◌∙◌, ap, subst, subst₂, Bool-cases, inl,
  inr, if◌then◌else◌,
}
use service_provider_kro.Go.{is_positive, is_zero}
use service_provider_kro.Kube.{CtrlResult}
use service_provider_kro.Api.ProviderConfig.{ProviderConfig}
use service_provider_kro.Api.Kro.{key_of}
use service_provider_kro.Env.{Env}
use service_provider_kro.Exec.{State, Exec, returned, pure, fail, on_error, ◌>>=◌, ◌>>◌}
use service_provider_kro.Exec.Laws.{returned_inj, bind_inv, on_error_inv, then_fail-Stops, pure_inv}
use service_provider_kro.Runtime.Context.{ClusterContext, ServiceProvider}
use service_provider_kro.Runtime.Status.{
  status_progressing, status_terminating_with_reason, reason_reconcile_error,
}
use service_provider_kro.Runtime.Clusters.{are_access_requests_in_deletion, clusters}
use service_provider_kro.Runtime.Clusters.Deletion.{NeverNegative, clusters-HasNoDelay}
use service_provider_kro.Runtime.Domain.{delete, delete_domain, clean_up, unless_finished}
use service_provider_kro.Runtime.Domain.Steps.{
  clusters-Keeps, are_access_requests_in_deletion-Keeps,
}

module _ (env : Env) (w : Bool) (provider : ServiceProvider) (pc : ProviderConfig) (s : State) where
  -- The provider's `Delete` ran on the object as it was, returned with no delay, and the clean-up
  -- went on from there.
  pub record Released : Type 0 where
    pub ctx : ClusterContext
    pub start : State
    pub result : CtrlResult
    pub after : State
    pub same : start.obj ≡ s.obj
    pub ran : provider.delete (some pc) ctx start ≡ (returned result, after)
    pub no_delay : is_positive result.requeue_after ≡ false
    pub rest : delete env w provider pc s ≡ clean_up env (key_of s.obj) after

  -- `delete` behind the check of the access requests.
  abbrev checking : Exec Bool
  checking = on_error (are_access_requests_in_deletion env w (key_of s.obj)) (λ e. do
    status_progressing env reason_reconcile_error "failed to check access requests in deletion"
    fail e)

  abbrev going_on : Bool → Exec CtrlResult
  going_on b = do
    early ← if b then pure none else delete_domain env w provider pc (key_of s.obj)
    unless_finished env (key_of s.obj) early

  delete-checking : delete env w provider pc s ≡ (checking >>= going_on) s
  unfolding delete ◌>>=◌
  delete-checking = refl

  -- The provider's part, once the clusters are known.
  abbrev domain_with : ClusterContext × CtrlResult → Exec (Option CtrlResult)
  domain_with (ctx, res) =
      if is_zero res.requeue_after
      then (do
        domain ← provider.delete (some pc) ctx
        pure (if is_positive domain.requeue_after then some domain else none))
      else pure none

  abbrev getting : Exec (ClusterContext × CtrlResult)
  getting = on_error (clusters env w (key_of s.obj) false) (λ e. do
    status_terminating_with_reason env reason_reconcile_error "cluster cleanup error"
    fail e)

  delete_domain-getting : delete_domain env w provider pc (key_of s.obj) ≡ (getting >>= domain_with)
  unfolding delete_domain
  delete_domain-getting = refl

  module _ {res : CtrlResult} (done : is_positive res.requeue_after ≡ false) where
    -- The provider returned `d`, and the rest of the deletion ends with `res`.
    ended-Released :
        (ctx : ClusterContext) (start : State) (d : CtrlResult) (after : State)
        → start.obj ≡ s.obj
        → provider.delete (some pc) ctx start ≡ (returned d, after)
        → let early = if is_positive d.requeue_after then some d else none in
          (unless_finished env (key_of s.obj) early after).0 ≡ returned res
          → delete env w provider pc s ≡ unless_finished env (key_of s.obj) early after
          → Released
    ended-Released ctx start d after same ran h rest =
        elim (Bool-cases (is_positive d.requeue_after)) [
          | inl waits ↦ cc (
            ap (λ x. is_positive x.requeue_after)
                (finished_early d (
                  subst
                    (λ b.
                      (unless_finished env (key_of s.obj) (if b then some d else none) after).0
                      ≡ returned res)
                    waits h)),
            waits,
            done,
          )
          | inr ready ↦ record {
            ctx = ctx;
            start = start;
            result = d;
            after = after;
            same = same;
            ran = ran;
            no_delay = ready;
            rest =
                subst
                  (λ b.
                    delete env w provider pc s
                    ≡ unless_finished env (key_of s.obj) (if b then some d else none) after)
                  ready rest;
          }
        ]
      where
        finished_early : (x : CtrlResult) → (pure x after).0 ≡ returned res → x ≡ res
        finished_early x e = unfold ◌>>=◌ in returned_inj e

    domain-Released :
        (ctx : ClusterContext) (found : CtrlResult) (start : State) (early : Option CtrlResult)
        (s' : State)
        → start.obj ≡ s.obj
        → is_zero found.requeue_after ≡ true
        → domain_with (ctx, found) start ≡ (returned early, s')
        → (unless_finished env (key_of s.obj) early s').0 ≡ returned res
        → delete env w provider pc s ≡ unless_finished env (key_of s.obj) early s'
        → Released
    domain-Released ctx found start early s' same zero e h rest =
        let e' = rw zero at e in
        let (d, after, ran, _, q) = bind_inv _ _ start (ap (λ x. x.0) e') in
        let (same_early, same_state) = pure_inv _ after (sym q ∙ e') in
        ended-Released ctx start d after same ran
          (subst₂ (λ o t. (unless_finished env (key_of s.obj) o t).0 ≡ returned res)
            (sym same_early) (sym same_state) h)
          (subst₂ (λ o t. delete env w provider pc s ≡ unless_finished env (key_of s.obj) o t)
            (sym same_early) (sym same_state) rest)

    -- From the state behind the check of the access requests.
    going_on-Released :
        NeverNegative env
        → (s₁ : State) → s₁.obj ≡ s.obj
        → (going_on false s₁).0 ≡ returned res
        → delete env w provider pc s ≡ going_on false s₁
        → Released
    going_on-Released polite s₁ same h rest =
        let (early, s₂, e, h₂, q) =
          bind_inv (delete_domain env w provider pc (key_of s.obj))
            (unless_finished env (key_of s.obj)) s₁ h in
        let e' =
          subst (λ (m : Exec (Option CtrlResult)). m s₁ ≡ (returned early, s₂))
            delete_domain-getting e in
        let (found, start, e₃, h₃, q₃) = bind_inv getting domain_with s₁ (ap (λ x. x.0) e') in
        let read =
          on_error_inv (clusters env w (key_of s.obj) false) _ s₁ (then_fail-Stops _ (λ e. e))
            (ap (λ x. x.0) e₃) in
        domain-Released found.0 found.1 start early s₂
          (subst (λ x. x.1.obj ≡ s.obj) (sym read ∙ e₃)
            ((clusters-Keeps (λ t. t.obj ≡ s.obj) (λ ev t k. k) env w (key_of s.obj) false).at s₁
              same))
          (clusters-HasNoDelay env (key_of s.obj) polite w s₁ (ap (λ x. x.0) (sym read ∙ e₃)))
          (sym q₃ ∙ e') h₂ (rest ∙ q)

    -- If the access requests are not in deletion, the access library does not answer with negative
    -- delays, and the deletion returns with no delay, then the provider's `Delete` ran on the
    -- object and returned with no delay, before the clean-up.
    pub delete-Released :
        NeverNegative env
        → (are_access_requests_in_deletion env w (key_of s.obj) s).0 ≡ returned false
        → (delete env w provider pc s).0 ≡ returned res
        → Released
    delete-Released polite granted h =
        let h' = rw delete-checking at h in
        let (b, s₁, e, h₁, q) = bind_inv checking going_on s h' in
        let read =
          on_error_inv (are_access_requests_in_deletion env w (key_of s.obj)) _ s
            (then_fail-Stops _ (λ e. e)) (ap (λ x. x.0) e) in
        let eq : false ≡ b = returned_inj (sym granted ∙ ap (λ x. x.0) (sym read ∙ e)) in
        going_on-Released polite s₁
          (subst (λ x. x.1.obj ≡ s.obj) (sym read ∙ e)
            ((are_access_requests_in_deletion-Keeps (λ t. t.obj ≡ s.obj) (λ ev t k. k) env w
                (key_of s.obj)).at
              s refl))
          (subst (λ c. (going_on c s₁).0 ≡ returned res) (sym eq) h₁)
          (subst (λ c. delete env w provider pc s ≡ going_on c s₁) (sym eq) (delete-checking ∙ q))
