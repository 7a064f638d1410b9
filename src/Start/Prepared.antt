-- ===== src/Start/Prepared.antt =====
-- What `main` has done before the manager runs, and what its exit code says.
use service_provider_kro.Base.{
  String, ◌==◌, eq_iff, true, false, Option, none, List, [], ◌∷◌, ◌++◌, ◌⊎◌, inl, inr, ◌≡◌, ◌≢◌,
  refl, subst,
}
use service_provider_kro.Go.{ApiError}
use service_provider_kro.Kube.{Cluster}
use service_provider_kro.Runtime.Config.{api_objects, config_updates, watches}
use service_provider_kro.Start.Options.{Flags, default_flags, extract_command}
use service_provider_kro.Start.Wiring.{
  client_go, api_extensions, kros, openmcp_clusters, openmcp_provider, flux_source, flux_helm,
  Scheme, platform_scheme, KroFields, SpReconciler, PcReconciler, ConfigSource, kro_controller,
  config_controller, config_source,
}
use service_provider_kro.Start.Wired.{
  ServesKros, kros_served, WatchesConfig, config_watched, FollowsFlags, flags_followed,
}
use service_provider_kro.Start.Outside.{
  Startup, Calls, Platform, ManagerOptions, initialized_client, created_manager, added_cluster,
  set_up_objects, set_up_configs, added_health_check, added_ready_check, ran_manager,
}
use service_provider_kro.Start.Steps.{exited, panicked, Result, goes_on, ended, Main}
use service_provider_kro.Start.Program.{
  platform_cluster, use_pointer, initialize_platform_cluster, pod_namespace, onboarding_cluster,
  init, manager_options, run_manager, run, execute, main,
}
use service_provider_kro.Start.Rules.{
  Made, Reasons, Reasons-at, Known, nothing_known, Sure, EndsWell, Sure-done, Sure-pure_then,
  Sure-if, Sure-ask_then, Sure-unless_then, Sure-if_then, Sure-must_then, Sure-assoc,
}

module _ (platform : Platform) (flags : Flags) where
  -- All of it succeeded, and both controllers are set up for the clusters that were found.
  pub record Prepared (before : Calls) : Type 0 where
    pub onboarding : Option Cluster
    pub usable : platform.is_usable onboarding ≡ true
    pub namespace : String
    pub from_environment : namespace ≡ platform.getenv platform.env_variable_pod_namespace
    pub is_set : namespace ≢ ""
    pub types : Scheme
    pub types_are :
        types
        ≡ client_go ∷ api_extensions ∷ kros ∷ openmcp_clusters ∷ openmcp_provider ∷ flux_source
          ∷ flux_helm ∷ []
    pub client : Made (initialized_client platform_cluster types none) before
    pub options : ManagerOptions
    pub options_are : FollowsFlags flags options
    pub manager : Made (created_manager onboarding options none) before
    pub cluster : Made (added_cluster platform_cluster none) before
    pub reconciler : SpReconciler KroFields
    pub serves_kros : ServesKros onboarding namespace reconciler
    pub objects :
        Made (set_up_objects reconciler "kro" (api_objects ∷ config_updates ∷ []) none) before
    pub configs : PcReconciler
    pub source : ConfigSource
    pub configs_are : WatchesConfig flags configs source
    pub set_up : Made (set_up_configs configs source none) before
    pub health : Made (added_health_check "healthz" none) before
    pub ready : Made (added_ready_check "readyz" none) before

  abbrev Justified : Startup → Calls → Type 0
  Justified (ran_manager error) before = Prepared before
  Justified _ before = Unit

  -- The program was told to initialize, or the manager ran and stopped with no error.
  abbrev Served : String → Calls → Type 0
  Served command calls = (command == "init" ≡ true) ⊎ Made (ran_manager none) calls

  fails : exited 1 ≢ exited 0
  fails e = cc

  is_not_empty : (text : String) → (text == "") ≡ false → text ≢ ""
  is_not_empty text differs same = cc ((eq_iff text "").1 same)

  panics : panicked ≢ exited 0
  panics e = cc

  module _ (command : String) where
    abbrev Starts : Known → {A : Type 0} → Main A → Type 0
    Starts K m = Sure Justified (Served command) K m

    module _ (K : Known) (onboarding : Option Cluster) (namespace : String)
        (client : (calls : Calls)
          → K.Fact calls
          → Made (initialized_client platform_cluster platform_scheme none) calls)
        (from_environment : namespace ≡ platform.getenv platform.env_variable_pod_namespace)
        (is_set : namespace ≢ "") where
      run_manager-Starts :
          Starts K (run_manager platform flags platform_cluster onboarding namespace)
      unfolding run_manager use_pointer watches
      run_manager-Starts = Sure-unless_then _ _ _ _ _ _ panics λ usable.
          Sure-must_then _ _ _ _ _ (λ error calls k. tt)
            (Sure-must_then _ _ _ _ _ (λ error calls k. tt)
              (Sure-must_then _ _ _ _ _ (λ error calls k. tt)
                (Sure-must_then _ _ _ _ _ (λ error calls k. tt)
                  (Sure-must_then _ _ _ _ _ (λ error calls k. tt)
                    (Sure-must_then _ _ _ _ _ (λ error calls k. tt)
                      (Sure-must_then _ _ _ _ _
                        (λ error calls
                            ((((((k, manager), cluster), objects), configs), health), ready).
                          record {
                            onboarding = onboarding;
                            usable = usable;
                            namespace = namespace;
                            from_environment = from_environment;
                            is_set = is_set;
                            types = platform_scheme;
                            types_are = refl;
                            client = client calls k;
                            options = manager_options flags;
                            options_are = flags_followed flags;
                            manager = manager;
                            cluster = cluster;
                            reconciler = kro_controller platform_cluster onboarding namespace;
                            serves_kros = kros_served onboarding namespace;
                            objects = objects;
                            configs = config_controller platform_cluster flags.provider_name;
                            source =
                                config_source
                                  (config_controller platform_cluster flags.provider_name);
                            configs_are = config_watched flags;
                            set_up = configs;
                            health = health;
                            ready = ready;
                          })
                        (Sure-done _ _ _ (λ calls k. inr k.1))))))))

    module _ (K : Known) (namespace : String)
        (client : (calls : Calls)
          → K.Fact calls
          → Made (initialized_client platform_cluster platform_scheme none) calls)
        (from_environment : namespace ≡ platform.getenv platform.env_variable_pod_namespace)
        (is_set : namespace ≢ "") where
      run-Starts : Starts K (run platform flags platform_cluster namespace)
      unfolding run onboarding_cluster
      run-Starts = Sure-assoc _ _ _ _ _ (
          Sure-ask_then _ _ _ _ _ (λ a calls k. tt)
            λ answer. Sure-pure_then _ _ _ _ (
              run_manager-Starts _ answer.cluster namespace (λ calls k. client calls k.0)
                from_environment is_set))

      init-Starts :
          command == "init" ≡ true → Starts K (init platform platform_cluster flags.provider_name)
      unfolding init use_pointer onboarding_cluster
      init-Starts told = Sure-assoc _ _ _ _ _ (
          Sure-ask_then _ _ _ _ _ (λ a calls k. tt)
            λ answer. Sure-pure_then _ _ _ _ (
              Sure-unless_then _ _ _ _ _ _ panics λ usable.
                Sure-ask_then _ _ _ _ _ (λ a calls k. tt)
                  λ updated.
                    Sure-ask_then _ _ _ _ _ (λ a calls k. tt)
                      λ registered. Sure-done _ _ _ (λ calls k. inl told)))

  execute-Starts :
      (command : String) → Starts command nothing_known (execute platform command flags)
  unfolding execute initialize_platform_cluster pod_namespace
  execute-Starts command =
      Sure-must_then _ _ _ _ _ (λ error calls k. tt)
        (Sure-assoc _ _ _ _ _ (
          Sure-unless_then _ _ _ _ _ _ fails λ found. Sure-assoc _ _ _ _ _ (
            Sure-must_then _ _ _ _ _ (λ error calls k. tt)
              (Sure-pure_then _ _ _ _ (
                Sure-if_then _ _ _ _ _ _ fails λ set.
                  Sure-if _ _ (command == "init") _ _
                    (init-Starts command _ _ (λ calls k. k.1) refl (is_not_empty _ set))
                    (λ told. run-Starts command _ _ (λ calls k. k.1) refl (is_not_empty _ set)))))))

  module _ (args : List String)
      (parsed : platform.parse_flags default_flags (extract_command args).1 ≡ inr flags) where
    main-Sure :
        let r = main platform args [] in
        Reasons Justified r.1 × (r.0 ≡ ended (exited 0) → Served (extract_command args).0 r.1)
    unfolding main
    main-Sure =
        let command = (extract_command args).0 in
        rw parsed
          (ends command (execute platform command flags []) ((execute-Starts command).at [] tt tt))
      where
        ends :
            (command : String) (r : Result (Unit {0}) × Calls)
            → Reasons Justified r.1 × EndsWell Justified (Served command) r.0 r.1
            → Reasons Justified r.1 × (r.0 ≡ ended (exited 0) → Served command r.1)
        ends command (goes_on a, calls) h = (h.0, λ same. cc)
        ends command (ended e, calls) h = (h.0, λ same. h.1 cc)

    -- Where the flags are parsed, the manager of `main` runs only behind the successful set-up of
    -- its client, of itself, of both controllers and of both checks, each with its settings written
    -- out. The controller of the Kro objects has both clusters, asks for a workload cluster,
    -- reaches the clusters by the cluster-admin role, and has a provider with the pod's namespace,
    -- which is not empty and comes from the environment. The controller of the configs watches, on
    -- the platform cluster, only the config that has the name of the provider and no namespace.
    pub ran_manager-Prepared :
        (after before : Calls) (error : Option ApiError)
        → (main platform args []).1 ≡ after ++ ran_manager error ∷ before
        → Prepared before
    ran_manager-Prepared after before error at =
        Reasons-at Justified after (ran_manager error) before
          (subst (Reasons Justified) at main-Sure.0)

    -- Where the flags are parsed, `main` ends with exit code 0 only if its command is init, or if
    -- the manager ran and stopped with no error.
    pub main-served :
        (main platform args []).0 ≡ ended (exited 0)
        → ((extract_command args).0 ≡ "init") ⊎ Made (ran_manager none) (main platform args []).1
    main-served well = told (main-Sure.1 well)
      where
        told :
            Served (extract_command args).0 (main platform args []).1
            → ((extract_command args).0 ≡ "init")
              ⊎ Made (ran_manager none) (main platform args []).1
        told (inl same) = inl ((eq_iff _ "init").0 same)
        told (inr ran) = inr ran
