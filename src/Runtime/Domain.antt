-- ===== src/Runtime/Domain.antt =====
-- pkg/spruntime/spreconciler.go: `createOrUpdate` and `delete`, which call the service provider
-- between the finalizer and the cluster access.
pub mod Steps
pub mod Released
pub mod Gate
use service_provider_kro.Base.{Bool, true, false, Option, none, some, if◌then◌else◌}
use service_provider_kro.Go.{ApiError, api, is_positive, is_zero}
use service_provider_kro.Kube.{Answer, ok, err, Key, CtrlResult, no_requeue}
use service_provider_kro.Api.ProviderConfig.{ProviderConfig}
use service_provider_kro.Api.Kro.{Kro, key_of, finalizer}
use service_provider_kro.Env.{Env, upserted_kro, updated_kro, deleted_access}
use service_provider_kro.Exec.{
  Exec, pure, fail, gets, modify, call, unchanged, on_error, ◌>>=◌, ◌>>◌,
}
use service_provider_kro.Runtime.Status.{
  set_status, status_progressing, status_terminating_with_reason, reason_reconcile_error,
}
use service_provider_kro.Runtime.Context.{ServiceProvider}
use service_provider_kro.Runtime.Clusters.{are_access_requests_in_deletion, clusters}

module _ (env : Env) where
  -- The function that `createOrUpdate` passes to `controllerutil.CreateOrUpdate`.
  abbrev pub with_finalizer : Kro → Kro
  with_finalizer o = record o { finalizers = env.add_finalizer (finalizer o) o.finalizers }

  abbrev pub without_finalizer : Kro → Kro
  without_finalizer o = record o { finalizers = env.remove_finalizer (finalizer o) o.finalizers }

  abbrev pub progressing_failure : Option ApiError → Exec Unit
  progressing_failure none = pure tt
  progressing_failure (some e) = do
    status_progressing env reason_reconcile_error "failed to add finalizer"
    fail (api e)

  unfoldable pub ensure_finalizer : Exec Unit
  ensure_finalizer = do
    obj ← gets (λ s. s.obj)
    upserted ←
        call (λ log. env.upsert_kro log obj with_finalizer)
          (λ (after, error). upserted_kro (with_finalizer obj) after error)
    modify (λ _. upserted.0)
    progressing_failure upserted.1

  abbrev pub updated : Answer Kro → Exec CtrlResult
  updated (ok o) = do modify (λ _. o); pure no_requeue
  updated (err e) = do
    status_terminating_with_reason env reason_reconcile_error "failed to remove finalizer"
    fail (api e)

  -- The last step of `delete`: the finalizer goes.
  unfoldable pub release : Exec CtrlResult
  release = do
    modify without_finalizer
    obj ← gets (λ s. s.obj)
    answer ← call (λ log. env.update_kro log obj) (updated_kro obj)
    updated answer

  unfoldable pub delete_access : Key → Exec CtrlResult
  delete_access req = do
    answer ← call (λ log. env.delete_access log req) (deleted_access req)
    unchanged answer

  -- `delete` from the removal of the cluster access on
  unfoldable pub clean_up : Key → Exec CtrlResult
  unfolding release delete_access
  clean_up req = do
    res ← on_error (delete_access req) (λ e. do
      status_terminating_with_reason env reason_reconcile_error
          "failed cluster access reconcile delete"
      fail e)
    if is_positive res.requeue_after then pure res else release

  abbrev pub unless_finished : Key → Option CtrlResult → Exec CtrlResult
  unless_finished req (some res) = pure res
  unless_finished req none = clean_up req

module _ (env : Env) (with_workload_cluster : Bool) (provider : ServiceProvider) where
  unfoldable pub create_or_update : ProviderConfig → Exec CtrlResult
  unfolding ensure_finalizer clusters
  create_or_update pc = do
    ensure_finalizer env
    obj ← gets (λ s. s.obj)
    (ctx, res) ←
        on_error (clusters env with_workload_cluster (key_of obj) true)
          (λ e. do status_progressing env reason_reconcile_error "cluster setup error"; fail e)
    if is_positive res.requeue_after then pure res else provider.create_or_update (some pc) ctx

  -- The part of `delete` while no access request is in deletion: the result that it returns with,
  -- or nothing when the clean-up goes on.
  unfoldable pub delete_domain : ProviderConfig → Key → Exec (Option CtrlResult)
  unfolding clusters
  delete_domain pc req = do
    (ctx, res) ← on_error (clusters env with_workload_cluster req false) (λ e. do
      status_terminating_with_reason env reason_reconcile_error "cluster cleanup error"
      fail e)
    if is_zero res.requeue_after
        then (do
          domain ← provider.delete (some pc) ctx
          pure (if is_positive domain.requeue_after then some domain else none))
        else pure none

  unfoldable pub delete : ProviderConfig → Exec CtrlResult
  unfolding delete_domain clean_up are_access_requests_in_deletion
  delete pc = do
    obj ← gets (λ s. s.obj)
    in_deletion ←
        on_error (are_access_requests_in_deletion env with_workload_cluster (key_of obj)) (λ e. do
          status_progressing env reason_reconcile_error
              "failed to check access requests in deletion"
          fail e)
    early ← if in_deletion then pure none else delete_domain pc (key_of obj)
    unless_finished env (key_of obj) early
