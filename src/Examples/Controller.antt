-- ===== src/Examples/Controller.antt =====
-- The theorems on the Kro controller, applied.
use service_provider_kro.Base.{List, length, ◌≤◌, ◌++◌, none, some, [], ◌∷◌, ◌≡◌, refl, map}
use service_provider_kro.Go.{is_positive, pos, ten_seconds, error_text}
use service_provider_kro.Kube.{Condition, condition_false, condition_true, no_requeue}
use service_provider_kro.Flux.{OciRepository, HelmRelease}
use service_provider_kro.Api.Kro.{terminating}
use service_provider_kro.Api.ProviderConfig.{resolve_version, no_config_error}
use service_provider_kro.Exec.Known.{Seen}
use service_provider_kro.Exec.{State, returned, ◌>>=◌, on_error}
use service_provider_kro.Exec.Follows.{Run, trace}
use service_provider_kro.Runtime.Status.{
  set_status, phase_progressing, phase_terminating, phase_ready,
}
use service_provider_kro.Runtime.Status.Laws.{Reports}
use service_provider_kro.Runtime.Clusters.{no_clusters}
use service_provider_kro.Controller.Names.{condition_reason_error}
use service_provider_kro.Controller.Install.{create_or_update, report_installed}
use service_provider_kro.Controller.Install.Plan.{Write, install_plan, attempted, acknowledged}
use service_provider_kro.Controller.Install.Refines.{
  create_or_update-refines, create_or_update-not_offered,
}
use service_provider_kro.Base.Lists.{lookup}
use service_provider_kro.Controller.HelmValues.{extract_helm_values}
use service_provider_kro.Controller.Install.Completes.{Accepting}
use service_provider_kro.Controller.Install.Installs.{create_or_update-installs}
use service_provider_kro.Controller.Install.Restamped.{create_or_update-Restamped}
use service_provider_kro.Env.{Log, read_clock}
use service_provider_kro.Controller.Install.Bounds.{create_or_update-length}
use service_provider_kro.Controller.Install.Report.{report_installed_lem}
use service_provider_kro.Controller.Releases.{crds_release_spec}
use service_provider_kro.Controller.Remove.{delete, objects_of, blocked_message, managed_resources}
use service_provider_kro.Controller.Remove.Gone.{AllConfirmed}
use service_provider_kro.Controller.Remove.Removal.{
  removals, delete-blocked, delete-unblocked, delete-no_mcp, delete-AllConfirmed,
}
use service_provider_kro.Examples.World.{
  world, world-ConditionLaws, world-IgnoresInvalidUserInput, reconciler, config, version_1, my_kro,
  start, clusters_of_kro, key_named, ready_condition,
}

create_or_update-refines_example :
    Run attempted
      (install_plan (world 0) reconciler clusters_of_kro "mcp--my-kro" version_1)
      []
      (create_or_update (world 0) reconciler (some config) clusters_of_kro start)
    × Run acknowledged
        (install_plan (world 0) reconciler clusters_of_kro "mcp--my-kro" version_1)
        []
        (create_or_update (world 0) reconciler (some config) clusters_of_kro start)
unfolding resolve_version
create_or_update-refines_example =
    create_or_update-refines (world 0) reconciler (some config) clusters_of_kro start refl refl

create_or_update-not_offered_example :
    let (outcome, after) = create_or_update (world 0) reconciler none clusters_of_kro start in
    (outcome ≡ returned no_requeue)
    × (trace attempted after.log ≡ [])
    × Reports
        (world 0)
        condition_false
        condition_reason_error
        (error_text "invalid user input" (no_config_error (world 0).quote "1.0.0"))
        phase_progressing
        after.obj
unfolding resolve_version
create_or_update-not_offered_example =
    create_or_update-not_offered (world 0) reconciler none clusters_of_kro start refl
      (world-IgnoresInvalidUserInput 0) (world-ConditionLaws 0) refl

abbrev oci : OciRepository
oci = record {
  key = key_named "oci";
  spec = record { interval = pos 1; url = ""; secret_ref = none; tag = "" };
  conditions = ready_condition ∷ [];
}

abbrev release : HelmRelease
release = record {
  key = key_named "release";
  spec = crds_release_spec "default" clusters_of_kro;
  conditions = ready_condition ∷ [];
}

report_installed_lem_example :
    let (outcome, after) = report_installed (world 0) "mcp--my-kro" oci release release start in
    (outcome ≡ returned no_requeue)
    × Reports
        (world 0)
        condition_true
        "ReconcileSuccess"
        "Domain Service is ready"
        phase_ready
        after.obj
    × (map (λ x. x.reference) after.obj.status.resources
        ≡ map (λ x. x.reference) (managed_resources (world 0) "mcp--my-kro" terminating))
report_installed_lem_example =
    report_installed_lem (world 0) (world-ConditionLaws 0) "mcp--my-kro" oci release release start

delete-blocked_example :
    let (outcome, after) = delete (world 2) reconciler (some config) clusters_of_kro start in
    (outcome ≡ returned (record { requeue_after = ten_seconds }))
    × (trace attempted after.log ≡ [])
    × Reports
        (world 2)
        condition_false
        "Terminating"
        (blocked_message (world 2) 2)
        phase_terminating
        after.obj
delete-blocked_example =
    delete-blocked (world 2) reconciler (some config) clusters_of_kro start refl refl
      (world-ConditionLaws 2) refl

delete-unblocked_example :
    Run attempted
      (removals reconciler.platform_cluster (objects_of "mcp--my-kro"))
      []
      (delete (world 0) reconciler (some config) clusters_of_kro start)
delete-unblocked_example =
    delete-unblocked (world 0) reconciler (some config) clusters_of_kro start refl refl refl

delete-no_mcp_example :
    Run attempted
      (removals reconciler.platform_cluster (objects_of "mcp--my-kro"))
      []
      (delete (world 2) reconciler (some config) no_clusters start)
delete-no_mcp_example = delete-no_mcp (world 2) reconciler (some config) no_clusters start refl refl

delete-AllConfirmed_example :
    AllConfirmed reconciler.platform_cluster
      (objects_of "mcp--my-kro")
      (delete (world 0) reconciler (some config) clusters_of_kro start).1.log
unfolding delete ◌>>=◌ on_error set_status is_positive
delete-AllConfirmed_example =
    delete-AllConfirmed (world 0) reconciler (some config) clusters_of_kro start refl refl refl

world-Accepting : Accepting (world 0) reconciler clusters_of_kro
unfolding lookup
world-Accepting = record {
  get_secret = λ log key. tt;
  kubeconfig = λ log. ("token", refl);
  upsert_secret = λ log c key x. tt;
  upsert_namespace = λ log c name. tt;
  upsert_oci_repository = λ log c key spec. tt;
  upsert_helm_release = λ log c key spec. tt;
  granted = λ log key. ("workload-access", refl);
}

create_or_update-installs_example :
    let (outcome, after) =
      create_or_update (world 0) reconciler (some config) clusters_of_kro start in
    (outcome ≡ returned no_requeue)
    × (trace acknowledged after.log
        ≡ install_plan (world 0) reconciler clusters_of_kro "mcp--my-kro" version_1)
unfolding resolve_version extract_helm_values
create_or_update-installs_example =
    create_or_update-installs (world 0) reconciler clusters_of_kro world-Accepting (some config)
      start refl refl refl refl

-- The object was ready before, since the time 1.
abbrev long_ready : State
long_ready = record start {
  obj = record my_kro {
    status = record my_kro.status {
      conditions = record ready_condition { reason = "ReconcileSuccess" } ∷ [];
    };
  };
}

abbrev stamped_now : Condition
stamped_now = record ready_condition {
  last_transition_time = 7;
  reason = "ReconcileSuccess";
  message = "Domain Service is ready";
}

create_or_update-Restamped_example :
    (added : Log) × ((create_or_update
        (world 0)
        reconciler
        (some config)
        clusters_of_kro
        long_ready).1.log
      ≡ added ++ [])
    × Seen (read_clock 7) added
unfolding create_or_update ◌>>=◌ on_error set_status
create_or_update-Restamped_example =
    create_or_update-Restamped (world 0) (world-ConditionLaws 0) reconciler clusters_of_kro
      (some config) long_ready stamped_now refl refl

create_or_update-length_example :
    (done : List Write) × (trace attempted
        (create_or_update (world 0) reconciler (some config) clusters_of_kro start).1.log
      ≡ done)
    × (length done ≤ 7)
unfolding resolve_version extract_helm_values
create_or_update-length_example =
    create_or_update-length (world 0) reconciler (some config) clusters_of_kro start refl refl
