-- ===== src/Runtime/Updates.antt =====
-- From a change of the provider config to the requests of the objects' reconciler.
use service_provider_kro.Base.{
  Bool, true, false, Option, none, some, List, ◌≡◌, ◌↔◌, refl, subst, Bool-cases, inl, inr,
}
use service_provider_kro.Kube.{Answer, ok, err, Key, time_is_zero}
use service_provider_kro.Api.ProviderConfig.{ProviderConfig}
use service_provider_kro.Env.{Env, Log}
use service_provider_kro.Runtime.Config.{
  notification, reconcile_config, handle_notification, enqueue_all_objects,
}

module _ (env : Env) where
  -- The config that the object reconciler works with once a run of `PCReconciler` is handled.
  abbrev pub cached_after : Key → Log → Option ProviderConfig
  cached_after req log =
      let run = reconcile_config env req log in (handle_notification env run.sent run.log).0

  -- The requests that the handler makes of it.
  abbrev pub requests_after : Key → Log → List Key
  requests_after req log =
      let run = reconcile_config env req log in (handle_notification env run.sent run.log).1.0

  -- What is cached is what the API server answered, where that is not being deleted.
  abbrev pub Current : Key → Log → ProviderConfig → Type 0
  Current req log pc =
      (env.get_provider_config log req ≡ ok pc) × (time_is_zero pc.deletion_timestamp ≡ true)

  clash : {b : Bool} → b ≡ false → b ≡ true → ⊥
  clash p q = cc

  notification_lem :
      (answer : Answer ProviderConfig) (pc : ProviderConfig)
      → (notification env answer ≡ some pc)
        ↔ ((answer ≡ ok pc) × (time_is_zero pc.deletion_timestamp ≡ true))
  unfolding notification
  notification_lem (err e) pc = (λ h. cc, λ h. cc)
  notification_lem (ok found) pc = elim (Bool-cases (time_is_zero found.deletion_timestamp)) [
    | inl live ↦ rw live (
      λ h.
          let same : found ≡ pc = cc in
          (cc, subst (λ c. time_is_zero c.deletion_timestamp ≡ true) same live),
      λ h. cc,
    )
    | inr dying ↦ rw dying (
      λ h. cc,
      λ h.
          let same : found ≡ pc = cc in
          absurd (clash (subst (λ c. time_is_zero c.deletion_timestamp ≡ false) same dying) h.1),
    )
  ]

  -- Behind a run of `PCReconciler` and the handler of its notification, the cached config is `pc`
  -- exactly when the API server answered the run with `pc` and `pc` is not being deleted: any error
  -- of Get clears the cache.
  pub cached_after_lem :
      (req : Key) (log : Log) (pc : ProviderConfig)
      → (cached_after req log ≡ some pc) ↔ Current req log pc
  unfolding reconcile_config handle_notification
  cached_after_lem req log pc = notification_lem (env.get_provider_config log req) pc

  -- If the kind of the objects is known and the List behind the notification succeeds, the
  -- requests that it leads to are those of the listed objects.
  requests_after_lem :
      (req : Key) (log : Log) {keys : List Key}
      → env.gvk_error ≡ none
      → env.list_kros (reconcile_config env req log).log ≡ ok keys
      → requests_after req log ≡ keys
  unfolding reconcile_config handle_notification enqueue_all_objects
  requests_after_lem req log known listed = rw known (rw listed refl)
