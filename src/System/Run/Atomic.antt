-- ===== src/System/Run/Atomic.antt =====
-- The two steps of a run on an object, beside `Reconcile` as a whole.
use service_provider_kro.Base.{◌==◌, Option, none, some, ◌∷◌, ◌≡◌, refl, inl, inr, Bool-cases}
use service_provider_kro.Kube.{Answer, ok, err, Key}
use service_provider_kro.Api.ProviderConfig.{ProviderConfig}
use service_provider_kro.Api.Kro.{Kro}
use service_provider_kro.Env.{Env, Log, got_kro, patched_kro}
use service_provider_kro.Runtime.Reconcile.{
  operation, consumed, reconcile_patched, reconcile_deferred, reconcile_got, reconcile,
}
use service_provider_kro.Controller.Names.{KroReconciler}
use service_provider_kro.System.{kro_provider, with_workload_cluster}
use service_provider_kro.System.Run.{accepted, begin}

module _ (env : Env) (r : KroReconciler) where
  -- The events when the second step follows, if there is one
  abbrev then_finish : Option ProviderConfig → Option Kro → Log → Log
  then_finish cached none log = log
  then_finish cached (some obj) log =
      (reconcile_deferred env with_workload_cluster (kro_provider env r) cached obj log).1

  patched_lem :
      (cached : Option ProviderConfig) (answer : Answer Kro) (log : Log)
      → (reconcile_patched env with_workload_cluster (kro_provider env r) cached answer log).1
        ≡ then_finish cached (accepted env r answer) log
  patched_lem cached (ok obj) log = refl
  patched_lem cached (err e) log = refl

  begin_lem :
      (cached : Option ProviderConfig) (got : Answer Kro) (log : Log)
      → (reconcile_got env with_workload_cluster (kro_provider env r) cached got log).1
        ≡ then_finish cached (begin env r got log).0 (begin env r got log).1
  unfolding begin reconcile_got
  begin_lem cached (err e) log = refl
  begin_lem cached (ok obj) log =
      let text = operation env with_workload_cluster (kro_provider env r) obj in
      let new = consumed env with_workload_cluster (kro_provider env r) obj in
      let answer = env.patch_kro log new obj in
      elim (Bool-cases (text == env.operation_ignore)) [
        | inl skipped ↦ rw skipped refl
        | inr taken ↦ rw taken (elim (Bool-cases (text == env.operation_reconcile)) [
          | inl triggered ↦
              rw triggered (patched_lem cached answer (patched_kro new obj answer ∷ log))
          | inr plain ↦ rw plain refl
        ])
      ]

  reconcile_lem :
      (cached : Option ProviderConfig) (req : Key) (log : Log)
      → let got = env.get_kro log req in
        let (taken, log') = begin env r got (got_kro req got ∷ log) in
        (reconcile env with_workload_cluster (kro_provider env r) cached req log).1
        ≡ then_finish cached taken log'
  unfolding reconcile
  reconcile_lem cached req log = begin_lem cached _ _
