-- ===== src/Runtime/Polling.antt =====
-- What `Reconcile` asks of the work queue, and what it reports.
use service_provider_kro.Base.{
  not, Bool, true, Option, none, some, ◌≡◌, refl, inl, inr, Bool-cases, if◌then◌else◌,
}
use service_provider_kro.Go.{Error, new, join_errors, is_positive}
use service_provider_kro.Kube.{CtrlResult, condition_false, time_is_zero}
use service_provider_kro.Api.ProviderConfig.{ProviderConfig, poll_interval}
use service_provider_kro.Api.Kro.{Kro}
use service_provider_kro.Env.{Env, Log}
use service_provider_kro.Env.Laws.{ConditionLaws}
use service_provider_kro.Exec.{
  Outcome, returned, failed, panicked, State, Exec, ◌>>=◌, continue, pure,
}
use service_provider_kro.Runtime.Status.{set_status, phase_progressing, reason_reconcile_error}
use service_provider_kro.Runtime.Status.Laws.{Reports, stamped-Reports}
use service_provider_kro.Runtime.Domain
use service_provider_kro.Runtime.Context.{ServiceProvider}
use service_provider_kro.Runtime.Reconcile.{
  Reconciled, finished, crashed, update_status, settled, or_poll, reconcile_object,
  reconcile_deferred,
}

module _ (env : Env) (w : Bool) (provider : ServiceProvider) where
  -- A run that ends with no error asks for a next one.
  abbrev pub Requeues : Reconciled → Type 0
  Requeues (finished res none) = is_positive res.requeue_after ≡ true
  Requeues (finished res (some e)) = Unit
  Requeues crashed = Unit

  or_poll-is_positive :
      (pc : ProviderConfig) (res : CtrlResult)
      → is_positive (poll_interval (some pc)) ≡ true
      → is_positive (or_poll env w provider pc res).requeue_after ≡ true
  or_poll-is_positive pc res polls = elim (Bool-cases (is_positive res.requeue_after)) [
    | inl own ↦ rw own own
    | inr no_own ↦ rw no_own polls
  ]

  abbrev PositiveResult : Outcome CtrlResult → Type 0
  PositiveResult (returned res) = is_positive res.requeue_after ≡ true
  PositiveResult (failed e) = Unit
  PositiveResult panicked = Unit

  polled :
      (pc : ProviderConfig) (x : Outcome CtrlResult) (s' : State)
      → is_positive (poll_interval (some pc)) ≡ true
      → PositiveResult (continue x (λ res. pure (or_poll env w provider pc res)) s').0
  unfolding ◌>>=◌
  polled pc (returned res) s' polls = or_poll-is_positive pc res polls
  polled pc (failed e) s' polls = tt
  polled pc panicked s' polls = tt

  reconcile_object-PositiveResult :
      (pc : ProviderConfig) (s : State)
      → is_positive (poll_interval (some pc)) ≡ true
      → PositiveResult (reconcile_object env w provider (some pc) s).0
  unfolding reconcile_object ◌>>=◌
  reconcile_object-PositiveResult pc s polls =
      let m : Exec CtrlResult =
        if not (time_is_zero s.obj.deletion_timestamp)
        then Domain.delete env w provider pc
        else Domain.create_or_update env w provider pc in
      polled pc (m s).0 (m s).1 polls

  settled-Requeues :
      (x : Outcome CtrlResult) (status_error : Option Error)
      → PositiveResult x
      → Requeues (settled env w provider x status_error)
  unfolding join_errors
  settled-Requeues (returned res) none h = h
  settled-Requeues (returned res) (some e) h = tt
  settled-Requeues (failed e) none h = tt
  settled-Requeues (failed e) (some f) h = tt
  settled-Requeues panicked status_error h = tt

  -- Where the provider config has a positive poll interval, a run of `Reconcile` on an object that
  -- ends with no error asks for a next run after a positive delay.
  pub reconcile_deferred-Requeues :
      (pc : ProviderConfig) (obj : Kro) (log : Log)
      → is_positive (poll_interval (some pc)) ≡ true
      → Requeues (reconcile_deferred env w provider (some pc) obj log).0
  unfolding reconcile_deferred
  reconcile_deferred-Requeues pc obj log polls =
      let run : Outcome CtrlResult × State =
        reconcile_object env w provider (some pc) (record { obj = obj; log = log }) in
      settled-Requeues run.0 (update_status env w provider run.1.obj obj run.1.log).0
        (reconcile_object-PositiveResult pc (record { obj = obj; log = log }) polls)

  -- Without a provider config the provider is not called: the run returns an error, and the object
  -- it writes back reports Progressing with the reason ReconcileError.
  pub reconcile_object-no_config :
      (s : State)
      → ConditionLaws env
      → ((reconcile_object env w provider none s).0 ≡ failed (new "provider config missing"))
        × Reports env condition_false reason_reconcile_error "No ProviderConfig found"
            phase_progressing
            (reconcile_object env w provider none s).1.obj
  unfolding reconcile_object ◌>>=◌ set_status
  reconcile_object-no_config s laws = (refl, stamped-Reports env laws _ _ _ _ (env.now s.log) s.obj)
