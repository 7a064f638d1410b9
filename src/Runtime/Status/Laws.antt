-- ===== src/Runtime/Status/Laws.antt =====
-- What a status function leaves behind, under the documented laws of conditions.
use service_provider_kro.Base.{String, ◌≡◌, refl, ◌≢◌, some}
use service_provider_kro.Kube.{Condition, Time}
use service_provider_kro.Api.Kro.{Kro}
use service_provider_kro.Env.{Env}
use service_provider_kro.Env.Laws.{ConditionLaws, transition_time}
use service_provider_kro.Exec.{State, ◌>>=◌}
use service_provider_kro.Runtime.Status.{condition_ready, ready_with, stamped, set_status}

-- The object reports `status`, `reason`, `message` and `phase` at its own generation.
pub record Reports (env : Env) (status reason message phase : String) (o : Kro) : Type 0 where
  pub condition : Condition
  pub found : env.find_status_condition o.status.conditions condition_ready ≡ some condition
  pub status_is : condition.status ≡ status
  pub reason_is : condition.reason ≡ reason
  pub message_is : condition.message ≡ message
  pub generation_is : condition.observed_generation ≡ o.generation
  pub observed : o.status.observed_generation ≡ o.generation
  pub phase_is : o.status.phase ≡ phase

module _ (env : Env) (laws : ConditionLaws env) where
  pub stamped-Reports :
      (status reason message phase : String) (t : Time) (o : Kro)
      → Reports env status reason message phase (stamped env status reason message phase t o)
  stamped-Reports status reason message phase t o = record {
    condition = record (ready_with status reason message o) {
      last_transition_time =
          transition_time t (env.find_status_condition o.status.conditions condition_ready)
            (ready_with status reason message o);
    };
    found = laws.find-set t o.status.conditions (ready_with status reason message o) refl;
    status_is = refl;
    reason_is = refl;
    message_is = refl;
    generation_is = refl;
    observed = refl;
    phase_is = refl;
  }

  -- Under the laws of conditions, a status function sets the Ready condition, the observed
  -- generation and the phase as it is told. A condition of any other kind, the spec and the listed
  -- resources stay as they were.
  pub set_status_lem :
      (status reason message phase : String) (s : State) (kind : String)
      → condition_ready ≢ kind
      → let after = (set_status env status reason message phase s).1.obj in
        Reports env status reason message phase after
        × (env.find_status_condition after.status.conditions kind
            ≡ env.find_status_condition s.obj.status.conditions kind)
        × (after.spec ≡ s.obj.spec)
        × (after.status.resources ≡ s.obj.status.resources)
  unfolding set_status ◌>>=◌
  set_status_lem status reason message phase s kind ne = (
    stamped-Reports status reason message phase (env.now s.log) s.obj,
    laws.find-set_ne _ _ _ kind ne,
    refl,
    refl,
  )
