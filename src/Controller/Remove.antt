-- ===== src/Controller/Remove.antt =====
-- internal/controller/kro_controller.go: `Delete`, and the count that blocks it.
pub mod Gone
pub mod Removal
use service_provider_kro.Base.{
  ℕ, zero, suc, String, ◌<>◌, Bool, true, false, Option, none, some, List, [], ◌∷◌, if◌then◌else◌,
}
use service_provider_kro.Go.{ApiError, Error, api, error_text, wrap, ten_seconds}
use service_provider_kro.Kube.{Answer, ok, err, Cluster, CtrlResult, no_requeue}
use service_provider_kro.Flux.{ManagedObject, oci_repository, helm_release}
use service_provider_kro.Api.ProviderConfig.{ProviderConfig}
use service_provider_kro.Api.Kro.{InstancePhase, terminating, ManagedResource, set_resources}
use service_provider_kro.Runtime.Context.{ClusterContext}
use service_provider_kro.Env.{Env, deleted_object, got_object, listed_graph_definitions}
use service_provider_kro.Exec.{Exec, pure, fail, gets, modify, call, checked, on_error, ◌>>=◌, ◌>>◌}
use service_provider_kro.Runtime.Status.{
  set_status, status_ready, status_terminating, status_terminating_with_reason,
  status_terminating_message,
}
use service_provider_kro.Controller.Names.{
  oci_repository_name, helm_release_name, mcp_helm_release_name, condition_reason_error,
  KroReconciler,
}
use service_provider_kro.Controller.Secrets.{key_in}
use service_provider_kro.Controller.Install.{resource}

-- The list `objects` of `Delete`.
abbrev pub objects_of : String → List ManagedObject
objects_of tenant_namespace =
    record { kind = oci_repository; key = key_in tenant_namespace oci_repository_name }
    ∷ record { kind = helm_release; key = key_in tenant_namespace helm_release_name }
    ∷ record { kind = helm_release; key = key_in tenant_namespace mcp_helm_release_name }
    ∷ []

module _ (env : Env) where
  unfoldable pub managed_resources : String → InstancePhase → List ManagedResource
  managed_resources tenant_namespace phase =
      resource env env.source_group "OCIRepository" oci_repository_name tenant_namespace (phase, "")
      ∷ resource env env.helm_group "HelmRelease" helm_release_name tenant_namespace (phase, "")
      ∷ resource env env.helm_group "HelmRelease" mcp_helm_release_name tenant_namespace (phase, "")
      ∷ []

  -- The answer of List in `countResourceGraphDefinitions`: a kind that is not installed counts 0.
  abbrev pub count_of : Answer ℕ → Exec ℕ
  count_of (ok n) = pure n
  count_of (err e) = if e.no_match then pure 0 else if e.not_found then pure 0 else fail (api e)

  unfoldable pub count_resource_graph_definitions : Cluster → Exec ℕ
  count_resource_graph_definitions mcp_cluster = do
    listed ←
        call (λ log. env.list_graph_definitions log mcp_cluster)
          (listed_graph_definitions mcp_cluster)
    count_of listed

  -- The handler: report the error in the status as terminating, and return it wrapped.
  unfoldable pub terminating_error : String → Error → {A : Type 0} → Exec A
  terminating_error text e = do
    status_terminating_with_reason env condition_reason_error
        (error_text env.invalid_user_input_text e)
    fail (wrap text e "")

  -- `client.IgnoreNotFound(err) != nil`, with the error that is reported
  abbrev pub deletion_error : Answer Unit → Option ApiError
  deletion_error (ok _) = none
  deletion_error (err e) = elim (env.ignore_not_found e) [ none ↦ none | some _ ↦ some e ]

  -- `apierrors.IsNotFound(err)`
  abbrev pub is_gone : Answer Unit → Bool
  is_gone (ok _) = false
  is_gone (err e) = e.not_found

  abbrev pub stop_if : Option ApiError → Exec Unit
  stop_if none = pure tt
  stop_if (some e) = terminating_error "delete object failed: " (api e)

  -- The loop body of `Delete`: whether the object may still exist.
  unfoldable pub remove_object : KroReconciler → ManagedObject → Exec Bool
  unfolding terminating_error
  remove_object r managed = do
    deleted ←
        call (λ log. env.delete_object log r.platform_cluster managed)
          (deleted_object r.platform_cluster managed)
    stop_if (deletion_error deleted)
    got ←
        call (λ log. env.get_object log r.platform_cluster managed)
          (got_object r.platform_cluster managed)
    pure (if is_gone got then false else true)

  -- The loop of `Delete`, with the flag `objectsStillExist`.
  unfoldable pub remove_objects : KroReconciler → List ManagedObject → Bool → Exec Bool
  unfolding remove_object
  remove_objects r [] still_exist = pure still_exist
  remove_objects r (managed ∷ rest) still_exist = do
    exists ← remove_object r managed
    remove_objects r rest (if exists then true else still_exist)

  -- The end of `Delete`, behind the loop.
  abbrev pub finish_removal : Bool → Exec CtrlResult
  finish_removal true = pure (record { requeue_after = ten_seconds })
  finish_removal false = do modify (set_resources []); status_ready env; pure no_requeue

  -- `Delete` from the point where nothing blocks it
  unfoldable pub remove_all : KroReconciler → String → Exec CtrlResult
  unfolding remove_objects managed_resources
  remove_all r tenant_namespace = do
    modify (set_resources (managed_resources tenant_namespace terminating))
    still_exist ← remove_objects r (objects_of tenant_namespace) false
    finish_removal still_exist

  pub blocked_message : ℕ → String
  blocked_message remaining =
      "deletion blocked: waiting for "
      <> (env.decimal remaining
          <> " kro ResourceGraphDefinition(s) to be removed from the control plane")

  -- `Delete` with the number of ResourceGraphDefinitions that remain
  unfoldable pub remove_unless_blocked : KroReconciler → String → ℕ → Exec CtrlResult
  unfolding remove_all blocked_message
  remove_unless_blocked r tenant_namespace zero = remove_all r tenant_namespace
  remove_unless_blocked r tenant_namespace (suc n) = do
    status_terminating_message env (blocked_message (suc n))
    modify (set_resources (managed_resources tenant_namespace terminating))
    pure (record { requeue_after = ten_seconds })

  -- `Delete` with the control plane's cluster, where there is one
  unfoldable pub remove_through : KroReconciler → String → Option Cluster → Exec CtrlResult
  unfolding remove_unless_blocked count_resource_graph_definitions
  remove_through r tenant_namespace none = remove_all r tenant_namespace
  remove_through r tenant_namespace (some mcp) = do
    remaining ←
        on_error (count_resource_graph_definitions mcp)
          (λ e. terminating_error "failed to check for remaining ResourceGraphDefinitions: " e)
    remove_unless_blocked r tenant_namespace remaining

  unfoldable pub delete : KroReconciler → Option ProviderConfig → ClusterContext → Exec CtrlResult
  unfolding remove_through
  delete r provider_config ctx = do
    status_terminating env
    obj ← gets (λ s. s.obj)
    tenant_namespace ←
        checked "failed to determine stable namespace for Kro instance: "
          (env.stable_mcp_namespace obj.name obj.namespace)
    remove_through r tenant_namespace ctx.mcp_cluster
