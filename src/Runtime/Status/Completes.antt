-- ===== src/Runtime/Status/Completes.antt =====
-- A status function returns.
use service_provider_kro.Base.{String}
use service_provider_kro.Env.{Env}
use service_provider_kro.Exec.Completes.{
  Any, Completes, Completes-call, Completes-modify, Completes-bind,
}
use service_provider_kro.Runtime.Status.{set_status}

module _ (env : Env) where
  pub set_status-Completes :
      (status reason message phase : String)
      → Completes Any (set_status env status reason message phase)
  unfolding set_status
  set_status-Completes status reason message phase =
      Completes-bind _ _ (Completes-call {R = Any} _ _ (λ log. tt)) (λ t _. Completes-modify _)
