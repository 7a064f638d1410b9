-- ===== src/System/Pending.antt =====
-- A deletion while the access to the clusters is not there yet.
use service_provider_kro.Base.{
  String, true, Option, none, some, List, ◌∷◌, ◌≡◌, refl, if◌then◌else◌,
}
use service_provider_kro.Go.{is_positive, is_zero}
use service_provider_kro.Kube.{ok, Key, CtrlResult}
use service_provider_kro.Api.ProviderConfig.{ProviderConfig}
use service_provider_kro.Env.{Env, Log, reconciled_access}
use service_provider_kro.Exec.{
  State, Outcome, returned, failed, panicked, pure, continue, ◌>>=◌, on_error,
}
use service_provider_kro.Exec.Follows.{Run}
use service_provider_kro.Runtime.Clusters.{clusters, no_clusters}
use service_provider_kro.Runtime.Domain.{delete_domain}
use service_provider_kro.Controller.Names.{KroReconciler}
use service_provider_kro.Controller.Install.Plan.{Write, attempted}
use service_provider_kro.Controller.Remove
use service_provider_kro.Controller.Remove.{objects_of}
use service_provider_kro.Controller.Remove.Removal.{removals, delete-no_mcp}
use service_provider_kro.System.{kro_provider, with_workload_cluster}

module _ {A B : Type 0} (f : A → B) where
  abbrev mapped : Outcome A × State → Outcome B × State
  mapped (x, s) = continue x (λ a. pure (f a)) s

  -- A result that is only mapped has the writes of the run that it came from.
  Run-mapped :
      (plan : List Write) (before : Log) (x : Outcome A) (s : State)
      → Run attempted plan before (x, s)
      → Run attempted plan before (mapped (x, s))
  unfolding ◌>>=◌
  Run-mapped plan before (returned a) s r = record {
    done = r.done;
    rest = r.rest;
    split = r.split;
    wrote = r.wrote;
    complete = r.complete;
  }
  Run-mapped plan before (failed e) s r = record {
    done = r.done;
    rest = r.rest;
    split = r.split;
    wrote = r.wrote;
    complete = tt;
  }
  Run-mapped plan before panicked s r = record {
    done = r.done;
    rest = r.rest;
    split = r.split;
    wrote = r.wrote;
    complete = tt;
  }

module _ (env : Env) (r : KroReconciler) (pc : ProviderConfig) (req : Key) (s : State) where
  -- The state behind the call of the access library, which answered `res`.
  abbrev asked : CtrlResult → State
  asked res = record s { log = reconciled_access req (ok res) ∷ s.log }

  abbrev unless_waiting : CtrlResult → Option CtrlResult
  unless_waiting res = if is_positive res.requeue_after then some res else none

  module _ {res : CtrlResult} (pending : env.reconcile_access s.log req ≡ ok res)
      (waits : is_positive res.requeue_after ≡ true) where
    delete_domain-pending :
        delete_domain env with_workload_cluster (kro_provider env r) pc req s
        ≡ mapped unless_waiting (Remove.delete env r (some pc) no_clusters (asked res))
    unfolding delete_domain clusters ◌>>=◌ on_error is_zero
    delete_domain-pending = rw (pending, waits) refl

    -- If the cluster access library answers a deletion with a delay, and the tenant's namespace can
    -- be computed, the domain part of the deletion tries to remove the three objects in their
    -- order, all of them if it returns, and writes nothing else behind that answer, whatever the
    -- control plane would list.
    pub delete_domain-not_blocked :
        {tenant_namespace : String}
        → env.stable_mcp_namespace s.obj.name s.obj.namespace ≡ ok tenant_namespace
        → Run attempted
            (removals r.platform_cluster (objects_of tenant_namespace))
            (reconciled_access req (ok res) ∷ s.log)
            (delete_domain env with_workload_cluster (kro_provider env r) pc req s)
    delete_domain-not_blocked {tenant_namespace} stable =
        let x = Remove.delete env r (some pc) no_clusters (asked res) in
        rw delete_domain-pending (
          Run-mapped unless_waiting (removals r.platform_cluster (objects_of tenant_namespace)) _
            x.0 x.1 (delete-no_mcp env r (some pc) no_clusters (asked res) stable refl))
