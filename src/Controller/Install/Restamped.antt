-- ===== src/Controller/Install/Restamped.antt =====
-- The transition time of the Ready condition behind `CreateOrUpdate`.
use service_provider_kro.Base.{
  String, ◌==◌, Bool, true, false, Option, none, some, [], ◌∷◌, ◌++◌, ◌⊎◌, inl, inr, ◌≡◌, refl, ap,
  sym, ◌∙◌, subst, if◌then◌else◌,
}
use service_provider_kro.Go.{Error}
use service_provider_kro.Kube.{Time, Condition, condition_false, condition_true}
use service_provider_kro.Flux.{OciRepository, HelmRelease}
use service_provider_kro.Api.ProviderConfig.{ProviderConfig, KroVersion, resolve_version}
use service_provider_kro.Api.Kro.{Kro}
use service_provider_kro.Env.{Env, Event, Log, read_clock}
use service_provider_kro.Env.Laws.{ConditionLaws, transition_time}
use service_provider_kro.Exec.Known.{Seen}
use service_provider_kro.Exec.{State, Exec, gets, checked, ◌>>=◌}
use service_provider_kro.Exec.Keeps.{
  Keeps, Keeps-pure, Keeps-fail, Keeps-gets, Keeps-settle, Keeps-if, Keeps-modify, Keeps-bind,
  Keeps-on_error,
}
use service_provider_kro.Runtime.Context.{ClusterContext}
use service_provider_kro.Runtime.Status.{condition_ready, phase_progressing, ready_with, set_status}
use service_provider_kro.Controller.Names.{KroReconciler}
use service_provider_kro.Controller.Install.{
  or_progressing, progressing_error, report_installed, install_version, return_unless, install,
  create_or_update,
}
use service_provider_kro.Controller.Install.Quiet.{
  chart_pull_secret-Keeps, image_pull_secrets-Keeps, mcp_kubeconfig-Keeps, oci_repository-Keeps,
  helm_release-Keeps, crds_helm_release-Keeps,
}

-- Of two times, one is chosen; the other is only chosen where it is in the log.
chosen :
    (b : Bool) (old t : Time) (added : Log)
    → (b ≡ false) ⊎ Seen (read_clock old) added
    → Seen (read_clock (if b then old else t)) (read_clock t ∷ added)
chosen true old t added (inl e) = absurd cc
chosen true old t added (inr seen) = inr seen
chosen false old t added h = inl refl

module _ (env : Env) (laws : ConditionLaws env) (base : Log) where
  abbrev ready_of : Kro → Option Condition
  ready_of o = env.find_status_condition o.status.conditions condition_ready

  -- The object has a Ready condition, which is false, or has its time from a clock reading of the
  -- run.
  pub record Restamped (s : State) : Type 0 where
    pub added : Log
    pub log_is : s.log ≡ added ++ base
    pub condition : Condition
    pub found : ready_of s.obj ≡ some condition
    pub time :
        (condition.status ≡ condition_false)
        ⊎ Seen (read_clock condition.last_transition_time) added

  stays : (e : Event) (s : State) → Restamped s → Restamped (record s { log = e ∷ s.log })
  stays e s h = record {
    added = e ∷ h.added;
    log_is = ap (λ l. e ∷ l) h.log_is;
    condition = h.condition;
    found = h.found;
    time = later h.time;
  }
    where
      later :
          (h.condition.status ≡ condition_false)
            ⊎ Seen (read_clock h.condition.last_transition_time) h.added
          → (h.condition.status ≡ condition_false)
            ⊎ Seen (read_clock h.condition.last_transition_time) (e ∷ h.added)
      later (inl f) = inl f
      later (inr seen) = inr (inr seen)

  abbrev Restamps : {A : Type 0} → Exec A → Type 0
  Restamps m = Keeps Restamped stays m

  -- The condition that a status function stores over another one.
  abbrev stored : Option Condition → String → String → String → Time → Kro → Condition
  stored old status reason message t o = record (ready_with status reason message o) {
    last_transition_time = transition_time t old (ready_with status reason message o);
  }

  -- A status function with status false leaves the condition so, whatever it was.
  set_false-Restamped :
      (reason message phase : String) (added : Log) (s : State)
      → s.log ≡ added ++ base
      → Restamped (set_status env condition_false reason message phase s).1
  unfolding set_status ◌>>=◌
  set_false-Restamped reason message phase added s same = record {
    added = read_clock (env.now s.log) ∷ added;
    log_is = ap (λ l. read_clock (env.now s.log) ∷ l) same;
    condition = stored (ready_of s.obj) condition_false reason message (env.now s.log) s.obj;
    found = laws.find-set (env.now s.log) s.obj.status.conditions _ refl;
    time = inl refl;
  }

  set_false-Restamps :
      (reason message phase : String)
      → Restamps (set_status env condition_false reason message phase)
  set_false-Restamps reason message phase = record {
    at = λ s h. set_false-Restamped reason message phase h.added s h.log_is;
  }

  -- A condition that was false, or was stamped before, is stamped in this run when it gets true.
  true_time :
      (old : Condition) (t : Time) (added : Log) (reason message : String) (o : Kro)
      → (old.status ≡ condition_false) ⊎ Seen (read_clock old.last_transition_time) added
      → Seen
          (read_clock (stored (some old) condition_true reason message t o).last_transition_time)
          (read_clock t ∷ added)
  true_time old t added reason message o (inl off) =
      chosen (old.status == condition_true) old.last_transition_time t added (inl (rw off refl))
  true_time old t added reason message o (inr seen) =
      chosen (old.status == condition_true) old.last_transition_time t added (inr seen)

  set_true-Restamps :
      (reason message phase : String)
      → Restamps (set_status env condition_true reason message phase)
  unfolding set_status ◌>>=◌
  set_true-Restamps reason message phase = record {
    at = λ s h. record {
      added = read_clock (env.now s.log) ∷ h.added;
      log_is = ap (λ l. read_clock (env.now s.log) ∷ l) h.log_is;
      condition = stored (some h.condition) condition_true reason message (env.now s.log) s.obj;
      found =
          laws.find-set (env.now s.log) s.obj.status.conditions _ refl
          ∙ ap (λ old. some (stored old condition_true reason message (env.now s.log) s.obj))
              h.found;
      time = inr (true_time h.condition (env.now s.log) h.added reason message s.obj h.time);
    };
  }

  or_progressing-Restamps :
      {A : Type 0} (m : Exec A) (text : String) → Restamps m → Restamps (or_progressing env m text)
  unfolding progressing_error
  or_progressing-Restamps m text x =
      Keeps-on_error _ _ _ _ x
        (λ e. Keeps-bind _ _ _ _ (set_false-Restamps _ _ _) (λ _. Keeps-fail _ _ _))

  report_installed-Restamps :
      (tenant_namespace : String) (oci : OciRepository) (crds hr : HelmRelease)
      → Restamps (report_installed env tenant_namespace oci crds hr)
  unfolding report_installed
  report_installed-Restamps tenant_namespace oci crds hr =
      Keeps-bind _ _ _ _
        (Keeps-modify _ _ _ λ s h. record {
          added = h.added;
          log_is = h.log_is;
          condition = h.condition;
          found = h.found;
          time = h.time;
        })
        λ _.
          Keeps-bind _ _ _ _
            (Keeps-if _ _ _ _ _ (set_true-Restamps _ _ _) (set_false-Restamps _ _ _))
            (λ _. Keeps-pure _ _ _)

  module _ (r : KroReconciler) (ctx : ClusterContext) where
    install_version-Restamps :
        (tenant_namespace : String) (version : KroVersion)
        → Restamps (install_version env r ctx tenant_namespace version)
    unfolding install_version
    install_version-Restamps tenant_namespace version =
        Keeps-bind _ _ _ _ (or_progressing-Restamps _ _ (chart_pull_secret-Keeps _ _ env r _ _))
          λ _.
            Keeps-bind _ _ _ _
              (or_progressing-Restamps _ _ (oci_repository-Keeps _ _ env r version _))
              λ oci.
                Keeps-bind _ _ _ _
                  (or_progressing-Restamps _ _
                    (image_pull_secrets-Keeps _ _ env r _ version.helm_values))
                  λ _.
                    Keeps-bind _ _ _ _
                      (or_progressing-Restamps _ _ (mcp_kubeconfig-Keeps _ _ env r ctx _ refl))
                      λ _.
                        Keeps-bind _ _ _ _
                          (or_progressing-Restamps _ _ (crds_helm_release-Keeps _ _ env r _ ctx))
                          λ crds. Keeps-bind _ _ _ _ (Keeps-gets _ _ _) λ (svcobj : Kro).
                            Keeps-bind _ _ _ _
                              (or_progressing-Restamps _ _
                                (helm_release-Keeps _ _ env r _ svcobj _))
                              (λ hr. report_installed-Restamps _ oci crds hr)

    return_unless-Restamps : (e : Option Error) → Restamps (return_unless env e)
    return_unless-Restamps none = Keeps-pure _ _ _
    return_unless-Restamps (some e) = Keeps-fail _ _ _

    install-Restamps :
        (tenant_namespace : String) (resolved : Error ⊎ KroVersion)
        → Restamps (install env r ctx tenant_namespace resolved)
    unfolding install
    install-Restamps tenant_namespace (inl e) =
        Keeps-bind _ _ _ _ (set_false-Restamps _ _ _) (λ _. return_unless-Restamps _)
    install-Restamps tenant_namespace (inr version) =
        install_version-Restamps tenant_namespace version

    -- `CreateOrUpdate` behind its first status.
    begun-Restamps :
        (config : Option ProviderConfig)
        → Restamps (
            gets (λ s. s.obj) >>= λ svcobj.
            checked "failed to determine stable namespace for Kro instance: "
              (env.stable_mcp_namespace svcobj.name svcobj.namespace)
            >>= λ tenant_namespace.
                install env r ctx tenant_namespace
                  (resolve_version env.quote config svcobj.spec.version))
    begun-Restamps config = Keeps-bind _ _ _ _ (Keeps-gets _ _ _) λ (svcobj : Kro).
        Keeps-bind _ _ _ _ (Keeps-settle _ _ _ _) λ tenant_namespace. install-Restamps _ _

clash : {x : String} → x ≡ condition_false → x ≡ condition_true → ⊥
clash off on = cc

module _ (env : Env) (laws : ConditionLaws env) (r : KroReconciler) (ctx : ClusterContext)
    (config : Option ProviderConfig) (s : State) where
  restamped : Restamped env laws s.log (create_or_update env r config ctx s).1
  unfolding create_or_update set_status ◌>>=◌
  restamped =
      (begun-Restamps env laws s.log r ctx config).at
        (set_status env condition_false "Reconciling" "Reconcile in progress" phase_progressing s).1
        (set_false-Restamped env laws s.log "Reconciling" "Reconcile in progress" phase_progressing
          [] s refl)

  -- Under the laws of conditions, if the Ready condition is true behind a run of `CreateOrUpdate`,
  -- its transition time was read from the clock in that run, even if it was true before.
  pub create_or_update-Restamped :
      (c : Condition)
      → env.find_status_condition
          (create_or_update env r config ctx s).1.obj.status.conditions
          condition_ready
        ≡ some c
      → c.status ≡ condition_true
      → (added : Log) × ((create_or_update env r config ctx s).1.log ≡ added ++ s.log)
        × Seen (read_clock c.last_transition_time) added
  create_or_update-Restamped c found on =
      (restamped.added, restamped.log_is, by_time restamped.time)
    where
      same : restamped.condition ≡ c
      same = let e : some restamped.condition ≡ some c = sym restamped.found ∙ found in cc

      by_time :
          (restamped.condition.status ≡ condition_false)
            ⊎ Seen (read_clock restamped.condition.last_transition_time) restamped.added
          → Seen (read_clock c.last_transition_time) restamped.added
      by_time (inl off) = absurd (clash off (subst (λ d. d.status ≡ condition_true) (sym same) on))
      by_time (inr seen) =
          subst (λ d. Seen (read_clock d.last_transition_time) restamped.added) same seen
