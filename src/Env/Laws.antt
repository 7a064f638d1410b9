-- ===== src/Env/Laws.antt =====
-- Documented behaviour of the libraries, as hypotheses that single theorems take.
use service_provider_kro.Base.{
  String, ◌==◌, true, Option, none, some, List, ◌≡◌, ◌≢◌, ◌↔◌, if◌then◌else◌,
}
use service_provider_kro.Go.{Error, is_invalid_user_input}
use service_provider_kro.Kube.{Time, Condition, condition_true}
use service_provider_kro.Env.{Env}

-- `ctrlerrors.IgnoreInvalidUserInput` returns nil on errors that are `ErrInvalidUserInput`, and any other
-- error unmodified.
abbrev pub IgnoresInvalidUserInput : Env → Type 0
IgnoresInvalidUserInput env =
    (e : Error)
    → env.ignore_invalid_user_input e ≡ (if is_invalid_user_input e then none else some e)

-- The transition time that `meta.SetStatusCondition` stores for a condition with none of its own: an existing condition keeps its own
-- unless the status changes, and all else is stamped with the time of the call.
abbrev pub transition_time : Time → Option Condition → Condition → Time
transition_time now none new = now
transition_time now (some old) new =
    if old.status == new.status then old.last_transition_time else now

-- `meta.SetStatusCondition` and its companions.
pub record ConditionLaws (env : Env) : Type 0 where
  -- where the new condition has no time of its own
  pub find-set :
      (now : Time) (cs : List Condition) (c : Condition)
      → c.last_transition_time ≡ 0
      → env.find_status_condition (env.set_status_condition now cs c) c.kind
        ≡ some (record c {
          last_transition_time = transition_time now (env.find_status_condition cs c.kind) c;
        })
  pub find-set_ne :
      (now : Time) (cs : List Condition) (c : Condition) (kind : String)
      → c.kind ≢ kind
      → env.find_status_condition (env.set_status_condition now cs c) kind
        ≡ env.find_status_condition cs kind
  pub is_true_iff :
      (cs : List Condition) (kind : String)
      → (env.is_status_condition_true cs kind ≡ true) ↔ (
          (c : Condition) × (env.find_status_condition cs kind ≡ some c)
          × (c.status ≡ condition_true))
