-- ===== src/System/Origins/Reconcile.antt =====
-- A reconcile of a Kro object from the load of the cached config on.
use service_provider_kro.Base.{not, true, false, Option, none, some, ◌∷◌, ◌≡◌, inl, inr, Bool-cases}
use service_provider_kro.Go.{is_positive, is_zero}
use service_provider_kro.Kube.{Answer, ok, err, Key, CtrlResult, time_is_zero}
use service_provider_kro.Api.ProviderConfig.{ProviderConfig}
use service_provider_kro.Api.Kro.{Kro}
use service_provider_kro.Env.{Env, Event, Log, got_provider_config, deleted_access}
use service_provider_kro.Exec.Known.{Known, and_seen, Seen, Chain, and_known}
use service_provider_kro.Exec.{State}
use service_provider_kro.Exec.Laws.{then_fail-Stops}
use service_provider_kro.Exec.Causal.{
  Causal-pure, Causal-gets, Causal-if, Causal-call, Causal-modify, Causal-bind, Causal-on_error,
  Causal-asked_then,
}
use service_provider_kro.Exec.Tells.{Causal-told_then, Tells-on_error}
use service_provider_kro.Runtime.Domain
use service_provider_kro.Runtime.Domain.{
  progressing_failure, ensure_finalizer, updated, release, delete_access, clean_up, unless_finished,
  delete_domain,
}
use service_provider_kro.Runtime.Reconcile.{
  Reconciled, reconcile_object, reconcile_deferred, update_status,
}
use service_provider_kro.Controller.Names.{KroReconciler}
use service_provider_kro.System.{kro_provider, with_workload_cluster}
use service_provider_kro.System.Origins.Defs.{Justified, AccessGone, context_of}
use service_provider_kro.System.Origins.Install.{Reasoned, create_or_update-Causal}
use service_provider_kro.System.Origins.Delegation.{clusters-Tells}
use service_provider_kro.System.Origins.Access.{clusters-Causal, in_deletion-Causal}
use service_provider_kro.System.Origins.Remove.{
  reported-Causal, progressing_failure-Causal, provider_delete-Causal,
}

module _ (env : Env) (r : KroReconciler) (K : Known) where
  updated-Causal : (answer : Answer Kro) → Reasoned env r K (updated env answer)
  updated-Causal (ok o) = Causal-bind _ _ _ (Causal-modify _ _) (λ _. Causal-pure _ _)
  updated-Causal (err e) = reported-Causal env r K _ _ _ _ _

  release-Causal :
      ((log : Log) → K.Fact log → AccessGone env r log) → Reasoned env r K (release env)
  unfolding release
  release-Causal gone = Causal-bind _ _ _ (Causal-modify _ _) λ _.
      Causal-bind _ _ _ (Causal-gets _ _)
        λ obj. Causal-bind _ _ _ (Causal-call _ _ _ (λ a log k. (tt, gone log k))) updated-Causal

module _ (env : Env) (r : KroReconciler) (K : Known) where
  clean_up-Causal : (req : Key) → Reasoned env r K (clean_up env req)
  unfolding clean_up delete_access
  clean_up-Causal req =
      Causal-asked_then _ _ _ _ _ _ (λ a log k. (tt, tt)) (λ e. reported-Causal env r K _ _ _ _ e)
        (then_fail-Stops _ (λ e. e))
        λ res. elim (Bool-cases (is_positive res.requeue_after)) [
          | inl waits ↦ rw waits (Causal-pure _ _)
          | inr done ↦ rw done (
              release-Causal env r (and_seen K (deleted_access req (ok res)))
                (λ log k. record { request = req; result = res; confirmed = k.1; at_once = done }))
        ]

  unless_finished-Causal :
      (req : Key) (early : Option CtrlResult) → Reasoned env r K (unless_finished env req early)
  unless_finished-Causal req none = clean_up-Causal req
  unless_finished-Causal req (some res) = Causal-pure _ _

  module _ (pc : ProviderConfig) where
    delete_domain-Causal :
        (req : Key)
        → Reasoned env r K (delete_domain env with_workload_cluster (kro_provider env r) pc req)
    unfolding delete_domain
    delete_domain-Causal req =
        Causal-bind _ _ _
          (Causal-on_error _ _ _ (clusters-Causal env r K with_workload_cluster req false)
            (λ e. reported-Causal env r K _ _ _ _ e))
          (λ found.
            Causal-if _ (is_zero found.1.requeue_after) _ _
              (Causal-bind _ _ _ (provider_delete-Causal env r K (some pc) found.0)
                (λ domain. Causal-pure _ _))
              (Causal-pure _ _))

    domain_delete-Causal :
        Reasoned env r K (Domain.delete env with_workload_cluster (kro_provider env r) pc)
    unfolding Domain.delete
    domain_delete-Causal = Causal-bind _ _ _ (Causal-gets _ _) λ obj.
        Causal-bind _ _ _
          (Causal-on_error _ _ _ (in_deletion-Causal env r K with_workload_cluster _)
            (λ e. reported-Causal env r K _ _ _ _ e))
          λ gone.
            Causal-bind _ _ _ (Causal-if _ gone _ _ (Causal-pure _ _) (delete_domain-Causal _))
              (unless_finished-Causal _)

    domain_create_or_update-Causal :
        (config_key : Key)
        → ((log : Log) → K.Fact log → Seen (got_provider_config config_key (ok pc)) log)
        → time_is_zero pc.deletion_timestamp ≡ true
        → Reasoned env r K
            (Domain.create_or_update env with_workload_cluster (kro_provider env r) pc)
    unfolding Domain.create_or_update ensure_finalizer
    domain_create_or_update-Causal config_key read live =
        Causal-bind _ _ _
          (Causal-bind _ _ _ (Causal-gets _ _) λ obj.
            Causal-bind _ _ _ (Causal-call _ _ _ (λ a log k. (tt, tt))) λ upserted.
              Causal-bind _ _ _ (Causal-modify _ _)
                (λ _. progressing_failure-Causal env r K upserted.1))
          λ _. Causal-bind _ _ _ (Causal-gets _ _) λ obj.
            Causal-told_then _ _ _
              (Tells-on_error _ _ _ (clusters-Tells env r with_workload_cluster _ K true)
                (λ e. reported-Causal env r K _ _ _ _ e) (then_fail-Stops _ (λ e. e)))
              (λ found. Causal-if _ (is_positive found.1.requeue_after) _ _ (Causal-pure _ _) (
                create_or_update-Causal env r (and_known K (context_of found.0)) pc config_key
                  (λ log k. read log k.0) live found.0 (λ log k. k.1)))

    with_config-Causal :
        (config_key : Key)
        → ((log : Log) → K.Fact log → Seen (got_provider_config config_key (ok pc)) log)
        → time_is_zero pc.deletion_timestamp ≡ true
        → Reasoned env r K
            (reconcile_object env with_workload_cluster (kro_provider env r) (some pc))
    unfolding reconcile_object
    with_config-Causal config_key read live = Causal-bind _ _ _ (Causal-gets _ _) λ (obj : Kro).
        Causal-bind _ _ _
          (Causal-if _ (not (time_is_zero obj.deletion_timestamp)) _ _ domain_delete-Causal
            (domain_create_or_update-Causal config_key read live))
          (λ res. Causal-pure _ _)

  without_config-Causal :
      Reasoned env r K (reconcile_object env with_workload_cluster (kro_provider env r) none)
  unfolding reconcile_object
  without_config-Causal = reported-Causal env r K _ _ _ _ _

-- A config that is cached was read, and was not being deleted.
abbrev pub Backed : Option ProviderConfig → Log → Type 0
Backed none log = Unit
Backed (some pc) log =
    (config_key : Key) × Seen (got_provider_config config_key (ok pc)) log
    × (time_is_zero pc.deletion_timestamp ≡ true)

pub Backed-later :
    (cached : Option ProviderConfig) (e : Event) (log : Log)
    → Backed cached log
    → Backed cached (e ∷ log)
Backed-later none e log back = tt
Backed-later (some pc) e log (config_key, seen, live) = (config_key, inr seen, live)

-- What is known of the log is still known after a reconcile.
module _ (env : Env) (r : KroReconciler) (K : Known) where
  abbrev pub KnownChain : Log → Type 0
  KnownChain log = K.Fact log × Chain (Justified env r) log

  abbrev run_of : Option ProviderConfig → Kro → Log → Reconciled × Log
  run_of cached obj log =
      reconcile_deferred env with_workload_cluster (kro_provider env r) cached obj log

  reconcile_object-KnownChain :
      (cached : Option ProviderConfig) (s : State)
      → Backed cached s.log
      → KnownChain s.log
      → KnownChain (reconcile_object env with_workload_cluster (kro_provider env r) cached s).1.log
  reconcile_object-KnownChain none s back chain = (without_config-Causal env r K).at s chain
  reconcile_object-KnownChain (some pc) s (config_key, seen, live) chain =
      let read = and_seen K (got_provider_config config_key (ok pc)) in
      let after =
        (with_config-Causal env r read pc config_key (λ log k. k.1) live).at s
          ((chain.0, seen), chain.1) in
      (after.0.0, after.1)

  update_status-KnownChain :
      (new old : Kro) (log : Log)
      → KnownChain log
      → KnownChain (update_status env with_workload_cluster (kro_provider env r) new old log).1
  unfolding update_status
  update_status-KnownChain new old log chain =
      elim (Bool-cases (env.semantic_equal old.status new.status)) [
        | inl same ↦ rw same chain
        | inr changed ↦ rw changed (K.lasts _ log tt chain.0, (tt, chain.1))
      ]

  pub reconcile_deferred-KnownChain :
      (cached : Option ProviderConfig) (obj : Kro) (log : Log)
      → Backed cached log
      → KnownChain log
      → KnownChain (run_of cached obj log).1
  unfolding reconcile_deferred
  reconcile_deferred-KnownChain cached obj log back chain =
      update_status-KnownChain _ obj _
        (reconcile_object-KnownChain cached (record { obj = obj; log = log }) back chain)
