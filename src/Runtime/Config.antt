-- ===== src/Runtime/Config.antt =====
-- pkg/spruntime/pcreconciler.go, and from pkg/spruntime/spreconciler.go the handler of its
-- notifications, the watches, and the requests that they lead to.
use mathlib.Core.Option
use service_provider_kro.Base.{String, ◌==◌, Bool, Option, none, some, List, [], ◌∷◌, if◌then◌else◌}
use service_provider_kro.Go.{Error, api}
use service_provider_kro.Kube.{Answer, ok, err, Key, Secret, CtrlResult, no_requeue, time_is_zero}
use service_provider_kro.Api.ProviderConfig.{ProviderConfig}
use service_provider_kro.Env.{Env, Log, got_provider_config, listed_kros, notified}

-- A secret with its key.
pub record NamedSecret : Type 0 where
  pub key : Key
  pub secret : Secret

-- `SecretWatcher`, which a service provider may implement
pub record SecretWatcher : Type 0 where
  pub is_referenced_secret : NamedSecret → Option ProviderConfig → Bool

-- The sources that `SetupWithManager` watches.
pub data Watch : Type 0 where
  api_objects : Watch
  config_updates : Watch
  secrets_in : String → SecretWatcher → Watch

module _ (env : Env) where
  -- What `PCReconciler.Reconcile` sends for the answer of Get.
  unfoldable pub notification : Answer ProviderConfig → Option ProviderConfig
  notification (err e) = none
  notification (ok pc) = if time_is_zero pc.deletion_timestamp then some pc else none

  abbrev get_error : Answer ProviderConfig → Option Error
  get_error (ok pc) = none
  get_error (err e) = Option.map api (env.ignore_not_found e)

  -- `PCReconciler.Reconcile`: the notification that it sends, its result and its error
  unfoldable pub reconcile_config : Key → Log → record {
    sent : Option ProviderConfig;
    result : CtrlResult;
    error : Option Error;
    log : Log;
  }
  unfolding notification
  reconcile_config req log =
      let answer = env.get_provider_config log req in
      let sent = notification answer in
      record {
        sent = sent;
        result = no_requeue;
        error = get_error answer;
        log = notified sent ∷ got_provider_config req answer ∷ log;
      }

  abbrev requests_of : Answer (List Key) → List Key
  requests_of (ok keys) = keys
  requests_of (err e) = []

  -- `enqueueAllObjects`; the requests are the keys of the listed items
  unfoldable pub enqueue_all_objects : Log → List Key × Log
  enqueue_all_objects log = elim env.gvk_error [
    | some e ↦ ([], log)
    | none ↦ let answer = env.list_kros log in (requests_of answer, listed_kros answer ∷ log)
  ]

  -- The map function of the channel source: the config that is cached from now on, and requests.
  unfoldable pub handle_notification :
      Option ProviderConfig → Log → Option ProviderConfig × (List Key × Log)
  unfolding enqueue_all_objects
  handle_notification sent log = (sent, enqueue_all_objects log)

  -- `mapSecretToRequests`
  unfoldable pub map_secret_to_requests :
      SecretWatcher → Option ProviderConfig → NamedSecret → Log → List Key × Log
  unfolding enqueue_all_objects
  map_secret_to_requests watcher cached secret log =
      if watcher.is_referenced_secret secret cached then enqueue_all_objects log else ([], log)

-- The sources of `SetupWithManager`, for a provider that watches secrets or not.
unfoldable pub watches : Option SecretWatcher → String → List Watch
watches none secret_namespace = api_objects ∷ config_updates ∷ []
watches (some watcher) secret_namespace =
    api_objects
    ∷ config_updates
    ∷ (if secret_namespace == "" then [] else secrets_in secret_namespace watcher ∷ [])

-- The predicate on the watch of secrets.
unfoldable pub is_watched : String → NamedSecret → Bool
is_watched secret_namespace secret = secret.key.namespace == secret_namespace
