-- ===== src/Exec/Known.antt =====
-- What is known of a log in the course of a run.
use service_provider_kro.Base.{[], ◌∷◌, ◌⊎◌, inr, ◌≡◌}
use service_provider_kro.Env.{Event, Log, got_provider_config, notified}

-- The event is in the log.
abbrev pub Seen : Event → Log → Type 0
Seen e [] = ⊥
Seen e (x ∷ log) = (x ≡ e) ⊎ Seen e log

-- Each event of the log has its reason among the earlier ones.
abbrev pub Chain : (Event → Log → Type 0) → Log → Type 0
Chain I [] = Unit
Chain I (e ∷ log) = I e log × Chain I log

-- The events that a run on an object adds: not those of the controller of the configs.
abbrev pub OfRun : Event → Type 0
OfRun (got_provider_config key answer) = ⊥
OfRun (notified config) = ⊥
OfRun _ = Unit

-- What is known of a log stays known in a run.
pub record Known : Type 1 where
  pub Fact : Log → Type 0
  pub lasts : (e : Event) (log : Log) → OfRun e → Fact log → Fact (e ∷ log)

abbrev pub and_seen : Known → Event → Known
and_seen K x = record {
  Fact = λ log. K.Fact log × Seen x log;
  lasts = λ e log of_run h. (K.lasts e log of_run h.0, inr h.1);
}

-- A fact that does not depend on the log
abbrev pub always : Type 0 → Known
always P = record { Fact = λ log. P; lasts = λ e log of_run p. p }

abbrev pub and_known : Known → Known → Known
and_known K L = record {
  Fact = λ log. K.Fact log × L.Fact log;
  lasts = λ e log of_run h. (K.lasts e log of_run h.0, L.lasts e log of_run h.1);
}
