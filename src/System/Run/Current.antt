-- ===== src/System/Run/Current.antt =====
-- The cached config follows what is read of the configs.
use service_provider_kro.Exec.Known.{Known, OfRun}
use service_provider_kro.Base.{Option, none, List, [], ◌∷◌, ◌++◌, ◌≡◌, refl, sym, ◌∙◌, ap}
use service_provider_kro.Kube.{Key}
use service_provider_kro.Api.ProviderConfig.{ProviderConfig}
use service_provider_kro.Api.Kro.{Kro}
use service_provider_kro.Env.{
  Env, Event, Log, read_clock, got_kro, patched_kro, patched_status, upserted_kro, updated_kro,
  listed_kros, reconciled_access, deleted_access, asked_mcp_cluster, asked_workload_cluster,
  asked_mcp_request, asked_workload_request, got_secret, upserted_secret, upserted_namespace,
  upserted_oci_repository, upserted_helm_release, deleted_object, got_object,
  listed_graph_definitions, got_access_request, got_provider_config, notified,
}
use service_provider_kro.Runtime.Config.{notification, reconcile_config, handle_notification}
use service_provider_kro.Controller.Names.{KroReconciler}
use service_provider_kro.System.Origins.Reconcile.{reconcile_deferred-KnownChain}
use service_provider_kro.System.Run.{
  Running, reconciling_config, handling, beginning, finishing, Step, config, handled, requested,
  begun, finished, Reach, start, later,
}
use service_provider_kro.System.Run.Provenance.{Sound, Reach-Sound, enqueued_at, begun_at}

module _ (env : Env) where
  -- What the last Get of a config says: the config, if there is one that is not being deleted.
  abbrev pub last_read : Log → Option ProviderConfig
  last_read [] = none
  last_read (got_provider_config key answer ∷ log) = notification env answer
  last_read (_ ∷ log) = last_read log

  last_read-run : (e : Event) (log : Log) → OfRun e → last_read (e ∷ log) ≡ last_read log
  last_read-run (read_clock _) log q = refl
  last_read-run (got_kro _ _) log q = refl
  last_read-run (patched_kro _ _ _) log q = refl
  last_read-run (patched_status _ _ _) log q = refl
  last_read-run (upserted_kro _ _ _) log q = refl
  last_read-run (updated_kro _ _) log q = refl
  last_read-run (listed_kros _) log q = refl
  last_read-run (reconciled_access _ _) log q = refl
  last_read-run (deleted_access _ _) log q = refl
  last_read-run (asked_mcp_cluster _ _) log q = refl
  last_read-run (asked_workload_cluster _ _) log q = refl
  last_read-run (asked_mcp_request _ _) log q = refl
  last_read-run (asked_workload_request _ _) log q = refl
  last_read-run (got_secret _ _ _) log q = refl
  last_read-run (upserted_secret _ _ _ _) log q = refl
  last_read-run (upserted_namespace _ _ _) log q = refl
  last_read-run (upserted_oci_repository _ _ _ _) log q = refl
  last_read-run (upserted_helm_release _ _ _ _) log q = refl
  last_read-run (deleted_object _ _ _) log q = refl
  last_read-run (got_object _ _ _) log q = refl
  last_read-run (listed_graph_definitions _ _) log q = refl
  last_read-run (got_access_request _ _ _) log q = refl
  last_read-run (got_provider_config _ _) log q = absurd q
  last_read-run (notified _) log q = absurd q

  -- The last read of the log is a given one.
  abbrev reads : Option ProviderConfig → Known
  reads c = record {
    Fact = λ log. last_read log ≡ c;
    lasts = λ e log of_run h. last_read-run e log of_run ∙ h;
  }

-- What the cache comes to when all that was sent is handled.
abbrev settled : Option ProviderConfig → List (Option ProviderConfig) → Option ProviderConfig
settled cached [] = cached
settled cached (c ∷ cs) = settled c cs

settled-snoc :
    (cached : Option ProviderConfig) (cs : List (Option ProviderConfig)) (c : Option ProviderConfig)
    → settled cached (cs ++ c ∷ []) ≡ c
settled-snoc cached [] c = refl
settled-snoc cached (d ∷ cs) c = settled-snoc d cs c

module _ (env : Env) (r : KroReconciler) where
  abbrev Follows : Running → Type 0
  Follows w = last_read env w.log ≡ settled w.cached w.sent

  config-Follows : (req : Key) (w : Running) → Follows (reconciling_config env r req w)
  unfolding reconcile_config
  config-Follows req w = sym (settled-snoc w.cached w.sent _)

  handled-Follows :
      (first : Option ProviderConfig) (rest : List (Option ProviderConfig)) (w : Running)
      → w.sent ≡ first ∷ rest
      → Follows w
      → Follows (handling env r first rest w)
  unfolding handle_notification
  handled-Follows first rest w e h =
      enqueued_at env r (λ log. last_read env log ≡ settled first rest) w.log
        (h ∙ ap (λ cs. settled w.cached cs) e) (λ a k. k)

  begun-Follows :
      (req : Key) (rest : List Key) (w : Running) → Follows w → Follows (beginning env r req rest w)
  unfolding beginning
  begun-Follows req rest w h =
      begun_at env r (λ log. last_read env log ≡ settled w.cached w.sent) (env.get_kro w.log req) _
        h (λ new old a k. k)

  finished-Follows :
      (obj : Kro) (w : Running) → Sound env r w → Follows w → Follows (finishing env r obj w)
  finished-Follows obj w s h =
      (reconcile_deferred-KnownChain env r (reads env (settled w.cached w.sent)) w.cached obj w.log
        s.backed.0 (h, s.chain)).0

  Step-Follows :
      (w : Running) {v : Running} → Step env r w v → Sound env r w → Follows w → Follows v
  Step-Follows w (config req) s h = config-Follows req w
  Step-Follows w (handled first rest e) s h = handled-Follows first rest w e h
  Step-Follows w (requested req) s h = h
  Step-Follows w (begun before after req idle e) s h = begun-Follows req (before ++ after) w h
  Step-Follows w (finished obj e) s h = finished-Follows obj w s h

  Reach-Follows : {w : Running} → Reach env r w → Follows w
  Reach-Follows start = refl
  Reach-Follows (later {w = w} reach step) =
      Step-Follows w step (Reach-Sound env r reach) (Reach-Follows reach)

  -- Whatever the steps of the running controllers, when no notification waits to be handled, the
  -- cached config is what the last Get of a ProviderConfig says: the config that it answered with,
  -- if that was not being deleted, and none after an error. A reconcile of an object never changes
  -- this.
  pub cached-last_read :
      (w : Running) → Reach env r w → w.sent ≡ [] → w.cached ≡ last_read env w.log
  cached-last_read w reach quiet = sym (Reach-Follows reach ∙ ap (λ cs. settled w.cached cs) quiet)
