-- ===== src/Examples/Runtime.antt =====
-- The theorems on the generic reconcilers and on the whole system, applied.
use service_provider_kro.Base.{
  Bool, true, false, Option, none, some, [], ◌∷◌, ◌≡◌, ◌≢◌, ◌↔◌, refl, subst,
}
use service_provider_kro.Go.{is_positive, is_zero, new}
use service_provider_kro.Kube.{ok, Cluster, condition_false, no_requeue, CtrlResult}
use service_provider_kro.Api.Kro.{Kro, key_of}
use service_provider_kro.Api.ProviderConfig.{ProviderConfig, poll_interval}
use service_provider_kro.Exec.{Exec, State, returned, fail, ◌>>=◌, on_error}
use service_provider_kro.Runtime.Context.{ServiceProvider, ClusterContext}
use service_provider_kro.Runtime.Status.{condition_ready, set_status, phase_progressing}
use service_provider_kro.Runtime.Status.Laws.{Reports, set_status_lem}
use service_provider_kro.Runtime.Clusters.{clusters, are_access_requests_in_deletion}
use service_provider_kro.Runtime.Clusters.Complete.{IsThere, IsComplete, clusters-IsComplete}
use service_provider_kro.Runtime.Clusters.Deletion.{NeverNegative, clusters-HasNoDelay}
use service_provider_kro.Runtime.Domain
use service_provider_kro.Runtime.Domain.Released.{Released, delete-Released}
use service_provider_kro.Runtime.Domain.Gate.{create_or_update-complete_only}
use service_provider_kro.Runtime.Annotations.{Handled, reconcile_got_lem}
use service_provider_kro.Runtime.Reconcile.{reconcile_got, reconcile_deferred}
use service_provider_kro.Runtime.Polling.{Requeues, reconcile_deferred-Requeues}
use service_provider_kro.Runtime.Updates.{cached_after, Current, cached_after_lem}
use service_provider_kro.Controller.Remove
use service_provider_kro.Controller.Remove.{objects_of}
use service_provider_kro.Examples.World.{
  world, world-ConditionLaws, config, start, my_kro, clusters_of_kro, key_named, provider,
}

pub polite : NeverNegative (world 0)
unfolding is_zero
polite log req res e waits =
    let same : no_requeue ≡ res = cc in subst (λ x. is_zero x.requeue_after ≡ true) same refl

pub granted :
    (are_access_requests_in_deletion (world 0) true (key_of my_kro) start).0 ≡ returned false
unfolding are_access_requests_in_deletion ◌>>=◌
granted = refl

pub deleted : (Domain.delete (world 0) true provider config start).0 ≡ returned no_requeue
unfolding Domain.delete Remove.delete ◌>>=◌ on_error set_status is_positive is_zero
deleted = refl

pub at_once : is_positive no_requeue.requeue_after ≡ false
unfolding is_positive
at_once = refl

delete-Released_example : Released (world 0) true provider config start
delete-Released_example =
    delete-Released (world 0) true provider config start at_once polite granted deleted

-- A provider that fails without a control plane, and else does as the controller does.
abbrev guarded_by : Option Cluster → Option ProviderConfig → ClusterContext → Exec CtrlResult
guarded_by none pc ctx = fail (new "no control plane")
guarded_by (some c) pc ctx = provider.create_or_update pc ctx

abbrev guarded : ServiceProvider
guarded = record {
  create_or_update = λ pc ctx. guarded_by ctx.mcp_cluster pc ctx;
  delete = provider.delete;
}

guarded-agrees :
    (m : Option Cluster) (ctx : ClusterContext) (s : State)
    → IsThere m
    → provider.create_or_update (some config) ctx s ≡ guarded_by m (some config) ctx s
guarded-agrees none ctx s there = absurd there
guarded-agrees (some c) ctx s there = refl

create_or_update-complete_only_example :
    Domain.create_or_update (world 0) true provider config start
    ≡ Domain.create_or_update (world 0) true guarded config start
create_or_update-complete_only_example =
    create_or_update-complete_only (world 0) true config provider guarded start
      (λ ctx complete s. guarded-agrees ctx.mcp_cluster ctx s complete.0)

polls : is_positive (poll_interval (some config)) ≡ true
unfolding is_positive poll_interval
polls = refl

reconcile_deferred-Requeues_example :
    Requeues
      (world 0)
      true
      provider
      (reconcile_deferred (world 0) true provider (some config) my_kro []).0
reconcile_deferred-Requeues_example =
    reconcile_deferred-Requeues (world 0) true provider config my_kro [] polls

found :
    (b : Bool)
    → (clusters (world 0) true (key_of my_kro) b start).0 ≡ returned (clusters_of_kro, no_requeue)
unfolding clusters ◌>>=◌ is_positive
found b = refl

clusters-IsComplete_example : IsComplete true clusters_of_kro
clusters-IsComplete_example =
    clusters-IsComplete (world 0) (key_of my_kro) true start (found true) at_once

clusters-HasNoDelay_example : is_zero no_requeue.requeue_after ≡ true
clusters-HasNoDelay_example =
    clusters-HasNoDelay (world 0) (key_of my_kro) polite true start (found false)

ready_is_another : condition_ready ≢ "Synced"
ready_is_another e = cc

set_status_lem_example :
    let after =
      (set_status (world 0) condition_false "Reconciling" "" phase_progressing start).1.obj in
    Reports (world 0) condition_false "Reconciling" "" phase_progressing after
    × ((world 0).find_status_condition after.status.conditions "Synced" ≡ none)
    × (after.spec ≡ my_kro.spec)
    × (after.status.resources ≡ [])
set_status_lem_example =
    set_status_lem (world 0) (world-ConditionLaws 0) condition_false "Reconciling" ""
      phase_progressing start "Synced" ready_is_another

cached_after_lem_example :
    (cached_after (world 0) (key_named "kro") [] ≡ some config)
    ↔ Current (world 0) (key_named "kro") [] config
cached_after_lem_example = cached_after_lem (world 0) (key_named "kro") [] config

abbrev triggered : Kro
triggered = record my_kro {
  annotations = ("openmcp.cloud/operation", "reconcile") ∷ ("team", "a") ∷ [];
}

ignore_is_given : (world 0).operation_ignore ≢ ""
ignore_is_given e = cc

reconcile_is_given : (world 0).operation_reconcile ≢ ""
reconcile_is_given e = cc

reconcile_got_lem_example :
    Handled
      (world 0)
      true
      provider
      (some config)
      []
      "team"
      triggered
      (reconcile_got (world 0) true provider (some config) (ok triggered) [])
reconcile_got_lem_example =
    reconcile_got_lem (world 0) true provider (some config) [] "team" triggered ignore_is_given
      reconcile_is_given
