-- ===== src/System/Leaving/Domain.antt =====
-- `delete` of the generic reconciler comes to its end.
use service_provider_kro.Base.{true, none, some, ◌≡◌, refl, ap}
use service_provider_kro.Go.{is_positive}
use service_provider_kro.Kube.{Answer, ok, err, Key, CtrlResult, no_requeue}
use service_provider_kro.Api.ProviderConfig.{ProviderConfig}
use service_provider_kro.Api.Kro.{Kro}
use service_provider_kro.Env.{Env}
use service_provider_kro.Exec.{Outcome, returned, failed, panicked, State}
use service_provider_kro.Exec.Completes.{
  Accepted, Any, Returns, Completes, Completes-pure, Completes-gets, Completes-call, Completes-if,
  Completes-on_error, Completes-modify, Completes-bind, Completes-asked,
}
use service_provider_kro.Runtime.Domain
use service_provider_kro.Runtime.Domain.{
  updated, release, delete_access, clean_up, unless_finished, delete_domain,
}
use service_provider_kro.Controller.Names.{KroReconciler}
use service_provider_kro.System.{kro_provider, with_workload_cluster}
use service_provider_kro.System.Leaving.Defs.{Leaving, IsLast}
use service_provider_kro.System.Leaving.Removal.{provider_delete-Completes}
use service_provider_kro.System.Leaving.Access.{are_in_deletion-Completes, clusters-Completes}

module _ (env : Env) (r : KroReconciler) (leaving : Leaving env r) where
  module _ (req : Key) where
    -- The part that removes the domain comes to its end with nothing to wait for.
    delete_domain-Completes :
        (pc : ProviderConfig)
        → Completes (λ early. early ≡ none) (delete_domain env true (kro_provider env r) pc req)
    unfolding delete_domain is_positive
    delete_domain-Completes pc =
        Completes-bind _ _ (Completes-on_error _ _ (clusters-Completes env r leaving req))
          λ found _.
            Completes-if _ _ _
              (Completes-bind _ _ (provider_delete-Completes env r leaving (some pc) found.0)
                (λ domain h. rw h (Completes-pure _ refl)))
              (Completes-pure _ refl)

    release-Completes : Completes IsLast (release env)
    unfolding release
    release-Completes = Completes-bind _ _ (Completes-modify _) λ _ _.
        Completes-bind _ _ (Completes-gets {R = Any} _ (λ s. tt)) λ obj _.
          Completes-bind _ _ (Completes-call _ _ (λ log. leaving.update_kro log obj))
            updated-Completes
      where
        updated-Completes : (a : Answer Kro) → Accepted Any a → Completes IsLast (updated env a)
        updated-Completes (ok o) h =
            Completes-bind _ _ (Completes-modify _) (λ _ _. Completes-pure _ refl)
        updated-Completes (err e) h = absurd h

    clean_up-Completes : Completes IsLast (clean_up env req)
    unfolding clean_up delete_access
    clean_up-Completes =
        Completes-bind _ _
          (Completes-on_error _ _ (Completes-asked _ _ _ (λ log. leaving.delete_access log req)))
          (λ res h. rw h release-Completes)

  last : (outcome : Outcome CtrlResult) → Returns IsLast outcome → outcome ≡ returned no_requeue
  last (returned res) h = ap returned h
  last (failed e) h = absurd h
  last panicked h = absurd h

  delete-Completes :
      (pc : ProviderConfig) → Completes IsLast (Domain.delete env true (kro_provider env r) pc)
  unfolding Domain.delete
  delete-Completes pc = Completes-bind _ _ (Completes-gets {R = Any} _ (λ s. tt)) λ obj _.
      Completes-bind _ _ (Completes-on_error _ _ (are_in_deletion-Completes env r leaving _))
        λ gone _.
          Completes-bind _ _
            (Completes-if _ _ _ (Completes-pure _ refl) (delete_domain-Completes _ pc))
            (λ early h. rw h (clean_up-Completes _))

  -- A deletion of a Kro object returns with no error and no delay, from every state, where nothing
  -- is in its way: the access requests exist, the calls are accepted, no ResourceGraphDefinition is
  -- left, what is removed is gone at once, and the access library has no time to wait.
  pub delete-returns :
      (pc : ProviderConfig) (s : State)
      → (Domain.delete env with_workload_cluster (kro_provider env r) pc s).0 ≡ returned no_requeue
  delete-returns pc s = last _ ((delete-Completes pc).at s)
