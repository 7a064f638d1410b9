-- ===== src/Examples/System.antt =====
-- The theorems on the whole system, applied.
use service_provider_kro.Base.{true, List, none, some, [], ◌∷◌, ◌≡◌, refl}
use service_provider_kro.Go.{is_positive, ten_seconds}
use service_provider_kro.Kube.{ok, no_requeue}
use service_provider_kro.Api.Kro.{key_of}
use service_provider_kro.Exec.{returned, panicked, ◌>>=◌, on_error}
use service_provider_kro.Runtime.Status.{set_status}
use service_provider_kro.Runtime.Domain
use service_provider_kro.Runtime.Reconcile.{reconcile_object}
use mathlib.Core.List.{Perm}
use service_provider_kro.Api.ProviderConfig.{resolve_version}
use service_provider_kro.System.Tidy.{flux_objects, install_plan-objects_of, installed-AllConfirmed}
use service_provider_kro.Controller.Remove
use service_provider_kro.Controller.Remove.{objects_of}
use service_provider_kro.Controller.Remove.Gone.{AllConfirmed}
use service_provider_kro.Controller.Remove.Removal.{removals}
use service_provider_kro.Controller.Install.Plan.{Write, install_plan, attempted}
use service_provider_kro.Exec.Follows.{Run, trace}
use service_provider_kro.Env.{Env, reconciled_access}
use service_provider_kro.System.{kro_provider}
use service_provider_kro.Exec.Panics.{PanicsOnly}
use service_provider_kro.Controller.Install
use service_provider_kro.Controller.Install.Panics.{Culprit}
use service_provider_kro.System.Panics.{reconcile_object-Careful}
use service_provider_kro.System.Leaving.Defs.{Leaving}
use service_provider_kro.System.Leaving.Domain.{delete-returns}
use service_provider_kro.System.Pending.{delete_domain-not_blocked}
use service_provider_kro.System.Release.{released-AllConfirmed}
use service_provider_kro.Examples.World.{
  world, reconciler, config, version_1, start, my_kro, clusters_of_kro, provider,
}
use service_provider_kro.Examples.Runtime.{polite, granted, deleted, at_once}

released-AllConfirmed_example :
    AllConfirmed reconciler.platform_cluster
      (objects_of "mcp--my-kro")
      (Domain.delete (world 0) true provider config start).1.log
released-AllConfirmed_example =
    released-AllConfirmed (world 0) reconciler config start polite refl granted deleted at_once

-- The cluster access library asks for time, and two ResourceGraphDefinitions remain.
abbrev pending : Env
pending = record (world 2) {
  reconcile_access = λ log key. ok (record { requeue_after = ten_seconds });
}

ten_seconds_are_positive : is_positive ten_seconds ≡ true
unfolding is_positive
ten_seconds_are_positive = refl

delete_domain-not_blocked_example :
    Run attempted
      (removals reconciler.platform_cluster (objects_of "mcp--my-kro"))
      (reconciled_access (key_of my_kro) (ok (record { requeue_after = ten_seconds })) ∷ [])
      (Domain.delete_domain pending true
        (kro_provider pending reconciler)
        config
        (key_of my_kro)
        start)
delete_domain-not_blocked_example =
    delete_domain-not_blocked pending reconciler config (key_of my_kro) start refl
      ten_seconds_are_positive refl

reconcile_object-Careful_example :
    PanicsOnly Culprit
      (reconcile_object (world 0) true (kro_provider (world 0) reconciler) (some config))
reconcile_object-Careful_example = reconcile_object-Careful (world 0) reconciler (some config)

-- The access request of the workload cluster is not granted yet.
abbrev ungranted : Env
ungranted = record (world 0) {
  get_access_request = λ log c key.
      ok (record { namespace = "platform"; deletion_timestamp = none; secret_ref = none });
}

ungranted_access :
    (Install.create_or_update ungranted reconciler (some config) clusters_of_kro start).0 ≡ panicked
unfolding Install.create_or_update ◌>>=◌ on_error set_status
ungranted_access = refl

world-Leaving : Leaving (world 0) reconciler
unfolding is_positive
world-Leaving = record {
  mcp_request = λ log req. (refl, (_, refl));
  workload_request = λ log req. (refl, (_, refl));
  reconcile_access = λ log req. tt;
  mcp_cluster = λ log req. tt;
  workload_cluster = λ log req. tt;
  stable = λ name namespace. tt;
  unblocked = λ log c. refl;
  delete_object = λ log o. refl;
  gone = λ log o. refl;
  delete_access = λ log req. refl;
  update_kro = λ log o. tt;
}

delete-returns_example :
    (Domain.delete (world 0) true (kro_provider (world 0) reconciler) config start).0
    ≡ returned no_requeue
delete-returns_example = delete-returns (world 0) reconciler world-Leaving config start

install_plan-objects_of_example :
    Perm
      (flux_objects (install_plan (world 0) reconciler clusters_of_kro "mcp--my-kro" version_1))
      (objects_of "mcp--my-kro")
install_plan-objects_of_example =
    install_plan-objects_of (world 0) reconciler clusters_of_kro "mcp--my-kro" version_1

installed-AllConfirmed_example :
    (done : List Write) × (trace attempted
        (Install.create_or_update (world 0) reconciler (some config) clusters_of_kro start).1.log
      ≡ done)
    × AllConfirmed reconciler.platform_cluster
        (flux_objects done)
        (Remove.delete (world 0) reconciler (some config) clusters_of_kro start).1.log
unfolding resolve_version Remove.delete ◌>>=◌ on_error set_status is_positive
installed-AllConfirmed_example =
    installed-AllConfirmed (world 0) reconciler clusters_of_kro (some config) start refl refl
      clusters_of_kro (some config) start refl refl refl
