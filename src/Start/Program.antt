-- ===== src/Start/Program.antt =====
-- cmd/service-provider-kro/main.go: `main`.
use service_provider_kro.Base.{
  ℕ, String, ◌==◌, Option, none, some, List, [], ◌∷◌, ◌⊎◌, inl, inr, if◌then◌else◌,
}
use service_provider_kro.Go.{pos, ten_seconds}
use service_provider_kro.Kube.{Cluster}
use service_provider_kro.Api.Kro.{group}
use service_provider_kro.Controller.Names.{cluster_access_name}
use service_provider_kro.Runtime.Config.{watches}
use service_provider_kro.Start.Options.{
  Flags, default_flags, extract_command, webhook_server_options, metrics_server_options,
}
use service_provider_kro.Start.Wiring.{
  platform_scheme, onboarding_scheme, admin_permissions, kro_controller, config_controller,
  config_source,
}
use service_provider_kro.Start.Outside.{
  AccessManager, ClusterRequest, ManagerOptions, GroupVersionKind, Platform, got_logger,
  initialized_client, created_cluster, updated_crds, registered_kinds, created_manager,
  added_cluster, set_up_objects, set_up_configs, added_health_check, added_ready_check, ran_manager,
}
use service_provider_kro.Start.Steps.{exited, panicked, Main, pure, end, ask, must, ◌>>=◌, ◌>>◌}

-- The kind that `init` registers.
abbrev pub kro_kind : GroupVersionKind
kro_kind = record { group = group; version = "v1alpha1"; kind = "Kro" }

abbrev pub platform_cluster : Cluster
platform_cluster = record { id = "platform" }

abbrev pub manager_options : Flags → ManagerOptions
manager_options flags = record {
  scheme = onboarding_scheme;
  metrics = metrics_server_options flags;
  webhook_server = webhook_server_options flags;
  health_probe_bind_address = flags.probe_addr;
  leader_election = flags.enable_leader_election;
  leader_election_id = "services.open-control-plane.io.kro";
}

module _ (platform : Platform) where
  -- What panics on a pointer that is nil.
  unfoldable pub use_pointer : Option Cluster → Main (Unit {0})
  use_pointer c = if platform.is_usable c then pure tt else end panicked

  unfoldable pub initialize_platform_cluster : Main Cluster
  initialize_platform_cluster = do
    if platform.has_config then pure tt else end (exited 1)
    must (λ calls. platform.initialize_client calls platform_cluster platform_scheme)
        (initialized_client platform_cluster platform_scheme)
    pure platform_cluster

  unfoldable pub pod_namespace : Main String
  pod_namespace =
      let value = platform.getenv platform.env_variable_pod_namespace in
      if value == "" then end (exited 1) else pure value

  abbrev pub cluster_access_manager : Cluster → AccessManager
  cluster_access_manager c = record {
    platform_cluster = c;
    controller_name = cluster_access_name;
    controller_namespace = platform.getenv "POD_NAMESPACE";
    interval = ten_seconds;
    timeout = pos 1800000000000;
  }

  -- The onboarding cluster; an error is only logged.
  unfoldable pub onboarding_cluster : Cluster → String → Main (Option Cluster)
  onboarding_cluster c local_name = do
    let request : ClusterRequest = record {
      manager = cluster_access_manager c;
      local_name = local_name;
      purpose = platform.purpose_onboarding;
      scheme = onboarding_scheme;
      permissions = admin_permissions;
    }
    answer ←
        ask (λ calls. platform.create_and_wait_for_cluster calls request) (created_cluster request)
    pure answer.cluster

  -- The command "init" behind the onboarding cluster, where errors are only logged.
  unfoldable pub init_with : Cluster → String → Option Cluster → Main (Unit {0})
  init_with c provider_name onboarding = do
    let mapping =
        (platform.purpose_platform, some c) ∷ (platform.purpose_onboarding, onboarding) ∷ []
    use_pointer onboarding
    _ ← ask (λ calls. platform.create_or_update_crds calls mapping) (updated_crds mapping)
    _ ←
        ask (λ calls. platform.register_gvks calls c provider_name kro_kind)
          (registered_kinds c provider_name kro_kind)
    end (exited 0)

  unfoldable pub init : Cluster → String → Main (Unit {0})
  unfolding init_with
  init c provider_name = do
    onboarding ← onboarding_cluster c "onboarding-init"
    init_with c provider_name onboarding

  -- From the creation of the manager on.
  unfoldable pub run_manager : Flags → Cluster → Option Cluster → String → Main (Unit {0})
  run_manager flags c onboarding namespace = do
    use_pointer onboarding
    let options = manager_options flags
    must (λ calls. platform.new_manager calls onboarding options)
        (created_manager onboarding options)
    must (λ calls. platform.add_cluster calls c) (added_cluster c)
    let spr = kro_controller c onboarding namespace
    -- `KroReconciler` is no `SecretWatcher`.
    let sources = watches none spr.secret_namespace
    must (λ calls. platform.set_up_objects calls spr "kro" sources)
        (set_up_objects spr "kro" sources)
    let pcr = config_controller c flags.provider_name
    let source = config_source pcr
    must (λ calls. platform.set_up_configs calls pcr source) (set_up_configs pcr source)
    must (λ calls. platform.add_health_check calls "healthz") (added_health_check "healthz")
    must (λ calls. platform.add_ready_check calls "readyz") (added_ready_check "readyz")
    must platform.run_manager ran_manager
    end (exited 0)

  unfoldable pub run : Flags → Cluster → String → Main (Unit {0})
  unfolding run_manager
  run flags c namespace = do
    onboarding ← onboarding_cluster c "onboarding-run"
    run_manager flags c onboarding namespace

  -- What follows the flags.
  unfoldable pub execute : String → Flags → Main (Unit {0})
  unfolding initialize_platform_cluster pod_namespace init run
  execute command flags = do
    must platform.get_logger got_logger
    c ← initialize_platform_cluster
    namespace ← pod_namespace
    if command == "init" then init c flags.provider_name else run flags c namespace

  -- `flag.Parse` ends the program itself where it does.
  abbrev parsed : String → ℕ ⊎ Flags → Main (Unit {0})
  parsed command (inl code) = end (exited code)
  parsed command (inr flags) = execute command flags

  unfoldable pub main : List String → Main (Unit {0})
  unfolding extract_command execute
  main args =
      let (command, rest) = extract_command args in
      parsed command (platform.parse_flags default_flags rest)
