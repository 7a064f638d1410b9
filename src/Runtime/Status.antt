-- ===== src/Runtime/Status.antt =====
-- pkg/spruntime/status.go: the Ready condition, the observed generation and the phase of an object.
pub mod Laws
pub mod Completes
use service_provider_kro.Base.{String}
use service_provider_kro.Kube.{Condition, Time, condition_true, condition_false}
use service_provider_kro.Api.Kro.{Kro, set_conditions, set_phase, set_observed_generation}
use service_provider_kro.Env.{Env, read_clock}
use service_provider_kro.Exec.{Exec, call, modify, ◌>>=◌}

abbrev pub condition_ready : String
condition_ready = "Ready"

abbrev pub phase_ready : String
phase_ready = "Ready"

abbrev pub phase_progressing : String
phase_progressing = "Progressing"

abbrev pub phase_terminating : String
phase_terminating = "Terminating"

abbrev pub reason_reconcile_error : String
reason_reconcile_error = "ReconcileError"

-- The condition that a status function passes to `meta.SetStatusCondition`, its time not set.
abbrev pub ready_with : String → String → String → Kro → Condition
ready_with status reason message o = record {
  kind = condition_ready;
  status = status;
  observed_generation = o.generation;
  last_transition_time = 0;
  reason = reason;
  message = message;
}

module _ (env : Env) where
  -- What a status function leaves of the object, at the time of its call.
  abbrev pub stamped : String → String → String → String → Time → Kro → Kro
  stamped status reason message phase t o = set_phase phase (
      set_observed_generation o.generation (
        set_conditions
          (env.set_status_condition t o.status.conditions (ready_with status reason message o)) o))

  -- The common body of the status functions.
  unfoldable pub set_status : String → String → String → String → Exec Unit
  set_status status reason message phase = do
    t ← call env.now read_clock
    modify (stamped status reason message phase t)

  abbrev pub status_progressing : String → String → Exec Unit
  status_progressing reason message = set_status condition_false reason message phase_progressing

  abbrev pub status_ready : Exec Unit
  status_ready = set_status condition_true "ReconcileSuccess" "Domain Service is ready" phase_ready

  abbrev pub status_terminating : Exec Unit
  status_terminating =
      set_status condition_false "Terminating" "Cleanup in progress" phase_terminating

  abbrev pub status_terminating_with_reason : String → String → Exec Unit
  status_terminating_with_reason reason message =
      set_status condition_false reason message phase_terminating

  abbrev pub status_terminating_message : String → Exec Unit
  status_terminating_message message = status_terminating_with_reason "Terminating" message
