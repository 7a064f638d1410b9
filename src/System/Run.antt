-- ===== src/System/Run.antt =====
-- cmd/service-provider-kro/main.go: the two controllers at work, as steps in any order.
-- A run of the controller of the Kro objects is two steps, before and behind its load of the cached
-- config; one object is reconciled at a time, which is the default of controller-runtime.
pub mod Atomic
pub mod Provenance
pub mod Current
use service_provider_kro.Base.{◌==◌, if◌then◌else◌, Option, none, some, List, [], ◌∷◌, ◌++◌, ◌≡◌}
use service_provider_kro.Kube.{Answer, ok, err, Key}
use service_provider_kro.Api.ProviderConfig.{ProviderConfig}
use service_provider_kro.Env.{Env, Log, got_kro, patched_kro}
use service_provider_kro.Runtime.Reconcile.{operation, consumed, reconcile_deferred}
use service_provider_kro.Base.Lists.{lookup_or_empty, erase}
use service_provider_kro.Api.Kro.{Kro}
use service_provider_kro.Runtime.Config.{reconcile_config, handle_notification}
use service_provider_kro.Controller.Names.{KroReconciler}
use service_provider_kro.System.{kro_provider, with_workload_cluster}

-- The cached config, the notifications that were sent and not handled yet, the requests of the
-- work queue, the object of a run that has not loaded the config yet, and the events so far.
pub record Running : Type 0 where
  pub cached : Option ProviderConfig
  pub sent : List (Option ProviderConfig)
  pub queue : List Key
  pub taken : Option Kro
  pub log : Log

-- No config is cached before the first notification.
abbrev pub started : Running
started = record { cached = none; sent = []; queue = []; taken = none; log = [] }

module _ (env : Env) (r : KroReconciler) where
  -- `PCReconciler.Reconcile` behind a watch event of a config.
  abbrev pub reconciling_config : Key → Running → Running
  reconciling_config req w =
      let run = reconcile_config env req w.log in
      record w { sent = w.sent ++ run.sent ∷ []; log = run.log }

  -- The handler of `SetupWithManager` takes a notification.
  abbrev pub handling : Option ProviderConfig → List (Option ProviderConfig) → Running → Running
  handling first rest w =
      let (cached, (keys, log)) = handle_notification env first w.log in
      record w { cached = cached; sent = rest; queue = w.queue ++ keys; log = log }

  -- What Get, and the patch that takes the annotation away, leave to be reconciled
  abbrev pub accepted : Answer Kro → Option Kro
  accepted (ok obj) = some obj
  accepted (err e) = none

  unfoldable pub begin : Answer Kro → Log → Option Kro × Log
  unfolding lookup_or_empty erase
  begin (err e) log = (none, log)
  begin (ok obj) log =
      if operation env with_workload_cluster (kro_provider env r) obj == env.operation_ignore
      then (none, log)
      else (if operation env with_workload_cluster (kro_provider env r) obj
            == env.operation_reconcile
          then (let answer =
                env.patch_kro log (consumed env with_workload_cluster (kro_provider env r) obj)
                  obj in
              (
                accepted answer,
                patched_kro (consumed env with_workload_cluster (kro_provider env r) obj) obj answer
                    ∷ log,
              ))
          else (some obj, log))

  -- `SPReconciler.Reconcile` of a request, up to the load of the cached config
  unfoldable pub beginning : Key → List Key → Running → Running
  unfolding begin
  beginning req rest w =
      let got = env.get_kro w.log req in
      let (taken, log) = begin got (got_kro req got ∷ w.log) in
      record w { queue = rest; taken = taken; log = log }

  -- and from there to its end
  abbrev pub finishing : Kro → Running → Running
  finishing obj w = record w {
    taken = none;
    log = (reconcile_deferred env with_workload_cluster (kro_provider env r) w.cached obj w.log).1;
  }

  pub data Step (w : Running) : Running → Type 0 where
    config : (req : Key) → Step w (reconciling_config req w)
    handled :
        (first : Option ProviderConfig) (rest : List (Option ProviderConfig))
        → w.sent ≡ first ∷ rest
        → Step w (handling first rest w)
    -- a watch event of a Kro object, a retry, or a delay that is over
    requested : (req : Key) → Step w (record w { queue = req ∷ w.queue })
    begun :
        (before after : List Key) (req : Key)
        → w.taken ≡ none
        → w.queue ≡ before ++ req ∷ after
        → Step w (beginning req (before ++ after) w)
    finished : (obj : Kro) → w.taken ≡ some obj → Step w (finishing obj w)

  pub data Reach : Running → Type 0 where
    start : Reach started
    later : {w v : Running} → Reach w → Step w v → Reach v
