-- ===== src/System/Panics.antt =====
-- Where the whole reconcile of a Kro object can panic.
mod Access
use service_provider_kro.Base.{
  String, Bool, true, false, not, zero, suc, ℕ, Option, none, some, List, [], ◌∷◌, ◌≡◌, refl,
}
use service_provider_kro.Go.{ApiError, Error, is_positive, is_zero}
use service_provider_kro.Kube.{
  Answer, ok, err, Key, Cluster, AccessRequest, CtrlResult, time_is_zero,
}
use service_provider_kro.Flux.{ManagedObject}
use service_provider_kro.Api.ProviderConfig.{ProviderConfig}
use service_provider_kro.Api.Kro.{Kro}
use service_provider_kro.Env.{Env}
use service_provider_kro.Exec.{State, Exec, fail, unchanged, ◌>>=◌}
use service_provider_kro.Exec.Panics.{
  PanicsOnly, PanicsOnly-pure, PanicsOnly-fail, PanicsOnly-gets, PanicsOnly-call, PanicsOnly-settle,
  PanicsOnly-if, PanicsOnly-modify, PanicsOnly-bind, PanicsOnly-call_then, PanicsOnly-on_error,
  Blamed,
}
use service_provider_kro.Runtime.Status.{set_status}
use service_provider_kro.Runtime.Context.{ClusterContext}
use service_provider_kro.Runtime.Clusters.{
  request_of, retrieve_secret_key, are_access_requests_in_deletion, add_workload_cluster,
  add_mcp_cluster, clusters,
}
use service_provider_kro.Runtime.Domain
use service_provider_kro.Runtime.Domain.{
  progressing_failure, ensure_finalizer, updated, clean_up, unless_finished, delete_domain,
}
use service_provider_kro.Runtime.Reconcile.{reconcile_object}
use service_provider_kro.Controller.Names.{KroReconciler}
use service_provider_kro.Controller.Install.Panics.{
  Culprit, Nothing, status-Careful, create_or_update-Careful,
}
use service_provider_kro.Controller.Remove
use service_provider_kro.Controller.Remove.{
  objects_of, count_of, count_resource_graph_definitions, terminating_error, stop_if, remove_object,
  remove_objects, finish_removal, remove_all, remove_unless_blocked, remove_through,
}
use service_provider_kro.System.{kro_provider, with_workload_cluster}
use service_provider_kro.System.Panics.Access.{Careful, clusters-Careful, in_deletion-Careful}

module _ (env : Env) (r : KroReconciler) where
  reported-Careful :
      {A : Type 0} (status reason message phase : String) (e : Error)
      → Careful (set_status env status reason message phase >>= λ _. fail {A = A} e)
  reported-Careful status reason message phase e =
      PanicsOnly-bind Culprit _ _ (status-Careful env r status reason message phase)
        (λ _. PanicsOnly-fail Culprit e)

  progressing_failure-Careful : (e : Option ApiError) → Careful (progressing_failure env e)
  progressing_failure-Careful none = PanicsOnly-pure Culprit _
  progressing_failure-Careful (some e) = reported-Careful _ _ _ _ _

  updated-Careful : (answer : Answer Kro) → Careful (updated env answer)
  updated-Careful (ok o) =
      PanicsOnly-bind Culprit _ _ (PanicsOnly-modify Culprit _) (λ _. PanicsOnly-pure Culprit _)
  updated-Careful (err e) = reported-Careful _ _ _ _ _

  clean_up-Careful : (req : Key) → Careful (clean_up env req)
  unfolding clean_up
  clean_up-Careful req =
      PanicsOnly-bind Culprit _ _
        (PanicsOnly-on_error Culprit _ _
          (PanicsOnly-bind Culprit _ _ (PanicsOnly-call Culprit _ _)
            (λ answer. PanicsOnly-settle Culprit _ answer))
          (λ e. reported-Careful _ _ _ _ e))
        (λ res.
          PanicsOnly-if Culprit (is_positive res.requeue_after) _ _ (PanicsOnly-pure Culprit _) (
            PanicsOnly-bind Culprit _ _ (PanicsOnly-modify Culprit _) λ _.
              PanicsOnly-bind Culprit _ _ (PanicsOnly-gets Culprit _)
                λ obj. PanicsOnly-bind Culprit _ _ (PanicsOnly-call Culprit _ _) updated-Careful))

  -- The provider's `Delete`.
  count_of-Careful : (a : Answer ℕ) → Careful (count_of env a)
  count_of-Careful (ok n) = PanicsOnly-pure Culprit _
  count_of-Careful (err e) = PanicsOnly-if Culprit e.no_match _ _ (PanicsOnly-pure Culprit _) (
      PanicsOnly-if Culprit e.not_found _ _ (PanicsOnly-pure Culprit _) (PanicsOnly-fail Culprit _))

  stop_if-Careful : (e : Option ApiError) → Careful (stop_if env e)
  unfolding terminating_error
  stop_if-Careful none = PanicsOnly-pure Culprit _
  stop_if-Careful (some e) = reported-Careful _ _ _ _ _

  remove_objects-Careful :
      (os : List ManagedObject) (still_exist : Bool) → Careful (remove_objects env r os still_exist)
  unfolding remove_objects remove_object
  remove_objects-Careful [] still_exist = PanicsOnly-pure Culprit _
  remove_objects-Careful (o ∷ os) still_exist =
      PanicsOnly-bind Culprit _ _
        (PanicsOnly-bind Culprit _ _ (PanicsOnly-call Culprit _ _) λ deleted.
          PanicsOnly-bind Culprit _ _ (stop_if-Careful _) λ _.
            PanicsOnly-bind Culprit _ _ (PanicsOnly-call Culprit _ _)
              (λ got. PanicsOnly-pure Culprit _))
        (λ exists. remove_objects-Careful os _)

  finish_removal-Careful : (still_exist : Bool) → Careful (finish_removal env still_exist)
  finish_removal-Careful true = PanicsOnly-pure Culprit _
  finish_removal-Careful false = PanicsOnly-bind Culprit _ _ (PanicsOnly-modify Culprit _) λ _.
      PanicsOnly-bind Culprit _ _ (status-Careful env r _ _ _ _) (λ _. PanicsOnly-pure Culprit _)

  remove_all-Careful : (tenant_namespace : String) → Careful (remove_all env r tenant_namespace)
  unfolding remove_all
  remove_all-Careful tenant_namespace =
      PanicsOnly-bind Culprit _ _ (PanicsOnly-modify Culprit _) λ _.
        PanicsOnly-bind Culprit _ _ (remove_objects-Careful (objects_of tenant_namespace) false)
          finish_removal-Careful

  remove_unless_blocked-Careful :
      (tenant_namespace : String) (remaining : ℕ)
      → Careful (remove_unless_blocked env r tenant_namespace remaining)
  unfolding remove_unless_blocked
  remove_unless_blocked-Careful tenant_namespace zero = remove_all-Careful tenant_namespace
  remove_unless_blocked-Careful tenant_namespace (suc n) =
      PanicsOnly-bind Culprit _ _ (status-Careful env r _ _ _ _) λ _.
        PanicsOnly-bind Culprit _ _ (PanicsOnly-modify Culprit _) (λ _. PanicsOnly-pure Culprit _)

  remove_through-Careful :
      (tenant_namespace : String) (mcp : Option Cluster)
      → Careful (remove_through env r tenant_namespace mcp)
  unfolding remove_through count_resource_graph_definitions terminating_error
  remove_through-Careful tenant_namespace none = remove_all-Careful tenant_namespace
  remove_through-Careful tenant_namespace (some mcp) =
      PanicsOnly-bind Culprit _ _
        (PanicsOnly-on_error Culprit _ _
          (PanicsOnly-bind Culprit _ _ (PanicsOnly-call Culprit _ _) count_of-Careful)
          (λ e. reported-Careful _ _ _ _ _))
        (remove_unless_blocked-Careful tenant_namespace)

  provider_delete-Careful :
      (config : Option ProviderConfig) (ctx : ClusterContext)
      → Careful (Remove.delete env r config ctx)
  unfolding Remove.delete
  provider_delete-Careful config ctx =
      PanicsOnly-bind Culprit _ _ (status-Careful env r _ _ _ _) λ _.
        PanicsOnly-bind Culprit _ _ (PanicsOnly-gets Culprit _) λ obj.
          PanicsOnly-bind Culprit _ _ (PanicsOnly-settle Culprit _ _)
            (λ tenant_namespace. remove_through-Careful tenant_namespace ctx.mcp_cluster)

  module _ (pc : ProviderConfig) where
    domain_create_or_update-Careful :
        Careful (Domain.create_or_update env with_workload_cluster (kro_provider env r) pc)
    unfolding Domain.create_or_update ensure_finalizer
    domain_create_or_update-Careful =
        PanicsOnly-bind Culprit _ _
          (PanicsOnly-bind Culprit _ _ (PanicsOnly-gets Culprit _) λ obj.
            PanicsOnly-bind Culprit _ _ (PanicsOnly-call Culprit _ _) λ upserted.
              PanicsOnly-bind Culprit _ _ (PanicsOnly-modify Culprit _)
                (λ _. progressing_failure-Careful upserted.1))
          λ _. PanicsOnly-bind Culprit _ _ (PanicsOnly-gets Culprit _) λ obj.
            PanicsOnly-bind Culprit _ _
              (PanicsOnly-on_error Culprit _ _ (clusters-Careful env with_workload_cluster _ true)
                (λ e. reported-Careful _ _ _ _ e))
              (λ found.
                PanicsOnly-if Culprit (is_positive found.1.requeue_after) _ _
                  (PanicsOnly-pure Culprit _) (create_or_update-Careful env r (some pc) found.0))

    delete_domain-Careful :
        (req : Key) → Careful (delete_domain env with_workload_cluster (kro_provider env r) pc req)
    unfolding delete_domain
    delete_domain-Careful req =
        PanicsOnly-bind Culprit _ _
          (PanicsOnly-on_error Culprit _ _ (clusters-Careful env with_workload_cluster req false)
            (λ e. reported-Careful _ _ _ _ e))
          (λ found.
            PanicsOnly-if Culprit (is_zero found.1.requeue_after) _ _
              (PanicsOnly-bind Culprit _ _ (provider_delete-Careful (some pc) found.0)
                (λ domain. PanicsOnly-pure Culprit _))
              (PanicsOnly-pure Culprit _))

    unless_finished-Careful :
        (req : Key) (early : Option CtrlResult) → Careful (unless_finished env req early)
    unless_finished-Careful req none = clean_up-Careful req
    unless_finished-Careful req (some res) = PanicsOnly-pure Culprit _

    domain_delete-Careful :
        Careful (Domain.delete env with_workload_cluster (kro_provider env r) pc)
    unfolding Domain.delete
    domain_delete-Careful = PanicsOnly-bind Culprit _ _ (PanicsOnly-gets Culprit _) λ obj.
        PanicsOnly-bind Culprit _ _
          (PanicsOnly-on_error Culprit _ _ (in_deletion-Careful env with_workload_cluster _)
            (λ e. reported-Careful _ _ _ _ e))
          λ gone.
            PanicsOnly-bind Culprit _ _
              (PanicsOnly-if Culprit gone _ _ (PanicsOnly-pure Culprit _) (delete_domain-Careful _))
              (unless_finished-Careful _)

  -- The reconcile of a Kro object panics only right behind a call that was answered by an access
  -- request that names no secret, where the code reads its name, or by a nil access request with no
  -- error. Whatever else the outside answers, it returns or fails.
  pub reconcile_object-Careful :
      (cached : Option ProviderConfig)
      → PanicsOnly Culprit (reconcile_object env with_workload_cluster (kro_provider env r) cached)
  unfolding reconcile_object
  reconcile_object-Careful none = reported-Careful _ _ _ _ _
  reconcile_object-Careful (some pc) =
      PanicsOnly-bind Culprit _ _ (PanicsOnly-gets Culprit _) λ (obj : Kro).
        PanicsOnly-bind Culprit _ _
          (PanicsOnly-if Culprit (not (time_is_zero obj.deletion_timestamp)) _ _
            (domain_delete-Careful pc) (domain_create_or_update-Careful pc))
          (λ res. PanicsOnly-pure Culprit _)
