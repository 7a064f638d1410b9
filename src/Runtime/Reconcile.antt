-- ===== src/Runtime/Reconcile.antt =====
-- pkg/spruntime/spreconciler.go: `Reconcile` and `updateStatus`.
use mathlib.Core.Option
use service_provider_kro.Base.{String, Bool, not, ◌==◌, Option, none, some, ◌∷◌, if◌then◌else◌}
use service_provider_kro.Base.Lists.{lookup_or_empty, erase}
use service_provider_kro.Go.{Error, api, new, join_errors, is_positive}
use service_provider_kro.Kube.{Answer, ok, err, Key, CtrlResult, no_requeue, time_is_zero}
use service_provider_kro.Api.ProviderConfig.{ProviderConfig, poll_interval}
use service_provider_kro.Api.Kro.{Kro}
use service_provider_kro.Env.{Env, Log, got_kro, patched_kro, patched_status}
use service_provider_kro.Exec.{
  Outcome, returned, failed, panicked, Exec, pure, fail, gets, ◌>>=◌, ◌>>◌,
}
use service_provider_kro.Runtime.Status.{status_progressing, reason_reconcile_error}
use service_provider_kro.Runtime.Context.{ServiceProvider}
use service_provider_kro.Runtime.Domain

-- What `Reconcile` returns: a result and an error that may be nil. A panic goes through it.
pub data Reconciled : Type 0 where
  finished : CtrlResult → Option Error → Reconciled
  crashed : Reconciled

module _ (env : Env) (with_workload_cluster : Bool) (provider : ServiceProvider) where
  -- The answer of the status patch, where a missing object is no error.
  abbrev patch_error : Answer Kro → Option Error
  patch_error (ok _) = none
  patch_error (err e) = Option.map api (env.ignore_not_found e)

  -- `updateStatus(ctx, newObj, oldObj)`
  unfoldable pub update_status : Kro → Kro → Log → Option Error × Log
  update_status new_obj old_obj log =
      if env.semantic_equal old_obj.status new_obj.status
      then (none, log)
      else let answer = env.patch_status log new_obj old_obj in
        (patch_error answer, patched_status new_obj old_obj answer ∷ log)

  -- The deferred function: an error of the status update joins the error of the run.
  abbrev pub with_status_error : Option Error → Option Error → Option Error
  with_status_error error none = error
  with_status_error error (some e) = join_errors error (some e)

  abbrev pub settled : Outcome CtrlResult → Option Error → Reconciled
  settled (returned res) status_error = finished res (with_status_error none status_error)
  settled (failed e) status_error = finished no_requeue (with_status_error (some e) status_error)
  settled panicked status_error = crashed

  -- The results with which `Reconcile` returns where no error occurred.
  abbrev pub or_poll : ProviderConfig → CtrlResult → CtrlResult
  or_poll pc res =
      if is_positive res.requeue_after
      then res
      else record { requeue_after = poll_interval (some pc) }

  -- `Reconcile` from the load of the provider config to the return, before the deferred call.
  unfoldable pub reconcile_object : Option ProviderConfig → Exec CtrlResult
  unfolding Domain.create_or_update Domain.delete poll_interval time_is_zero
  reconcile_object none = do
    status_progressing env reason_reconcile_error "No ProviderConfig found"
    fail (new "provider config missing")
  reconcile_object (some pc) = do
    obj ← gets (λ s. s.obj)
    res ←
        if not (time_is_zero obj.deletion_timestamp)
        then Domain.delete env with_workload_cluster provider pc
        else Domain.create_or_update env with_workload_cluster provider pc
    pure (or_poll pc res)

  -- The run on an object, with the deferred status update.
  unfoldable pub reconcile_deferred : Option ProviderConfig → Kro → Log → Reconciled × Log
  unfolding reconcile_object update_status join_errors
  reconcile_deferred cached obj log =
      let (outcome, s) = reconcile_object cached (record { obj = obj; log = log }) in
      let (status_error, log') = update_status s.obj obj s.log in
      (settled outcome status_error, log')

  abbrev pub operation : Kro → String
  operation obj = lookup_or_empty env.operation_annotation obj.annotations

  abbrev pub reconcile_patched : Option ProviderConfig → Answer Kro → Log → Reconciled × Log
  reconcile_patched cached (err e) log = (finished no_requeue (some (api e)), log)
  reconcile_patched cached (ok obj) log = reconcile_deferred cached obj log

  -- The object that the reconcile annotation is taken from.
  abbrev pub consumed : Kro → Kro
  consumed obj = record obj { annotations = erase env.operation_annotation obj.annotations }

  -- `Reconcile` behind the Get: the two operation annotations.
  unfoldable pub reconcile_got : Option ProviderConfig → Answer Kro → Log → Reconciled × Log
  unfolding reconcile_deferred lookup_or_empty erase
  reconcile_got cached (err e) log =
      (finished no_requeue (Option.map api (env.ignore_not_found e)), log)
  reconcile_got cached (ok obj) log =
      if operation obj == env.operation_ignore
      then (finished no_requeue none, log)
      else (if operation obj == env.operation_reconcile
          then (let answer = env.patch_kro log (consumed obj) obj in
              reconcile_patched cached answer (patched_kro (consumed obj) obj answer ∷ log))
          else reconcile_deferred cached obj log)

  unfoldable pub reconcile : Option ProviderConfig → Key → Log → Reconciled × Log
  unfolding reconcile_got
  reconcile cached req log =
      let got = env.get_kro log req in reconcile_got cached got (got_kro req got ∷ log)
