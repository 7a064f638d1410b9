-- ===== src/Controller/Install/Refines.antt =====
-- `CreateOrUpdate` as a whole: a version that is on offer is installed by the plan, and any other
-- is reported, with nothing written.
use mathlib.Core.List.{append-nil}
use service_provider_kro.Base.{String, Option, List, ◌++◌, inl, inr, ◌≡◌, refl, ◌∙◌, ap}
use service_provider_kro.Go.{Error, error_text}
use service_provider_kro.Kube.{ok, condition_false, no_requeue}
use service_provider_kro.Api.ProviderConfig.{ProviderConfig, KroVersion, resolve_version}
use service_provider_kro.Api.ProviderConfig.Resolve.{resolve_version-IsInvalid}
use service_provider_kro.Runtime.Context.{ClusterContext}
use service_provider_kro.Runtime.Status.{set_status, phase_progressing}
use service_provider_kro.Runtime.Status.Laws.{Reports, stamped-Reports}
use service_provider_kro.Env.{Env, Event}
use service_provider_kro.Env.Laws.{ConditionLaws, IgnoresInvalidUserInput}
use service_provider_kro.Exec.{State, returned, ◌>>=◌}
use service_provider_kro.Exec.Follows.{Run, Run-from, trace}
use service_provider_kro.Controller.Names.{KroReconciler, condition_reason_error}
use service_provider_kro.Controller.Install.{create_or_update}
use service_provider_kro.Controller.Install.Plan.{Write, install_plan, attempted, acknowledged}
use service_provider_kro.Controller.Install.Counts.{Counts, attempted-Counts, acknowledged-Counts}
use service_provider_kro.Controller.Install.Desired.{install_version-Follows}

module _ (env : Env) (r : KroReconciler) (config : Option ProviderConfig) (ctx : ClusterContext)
    (s : State) where
  -- The state behind the first status update.
  abbrev begun : State
  begun =
      (set_status env condition_false "Reconciling" "Reconcile in progress" phase_progressing s).1

  module _ {tenant_namespace : String}
      (stable : env.stable_mcp_namespace s.obj.name s.obj.namespace ≡ ok tenant_namespace) where
    create_or_update-Run :
        (written : Event → List Write)
        → Counts written
        → {version : KroVersion} → resolve_version env.quote config s.obj.spec.version ≡ inr version
        → Run written
            (install_plan env r ctx tenant_namespace version)
            s.log
            (create_or_update env r config ctx s)
    unfolding create_or_update ◌>>=◌ set_status
    create_or_update-Run written cs {version} resolved =
        rw (stable, resolved)
          (Run-from written _ begun.log s.log _
            (ap (λ w. trace written s.log ++ w) (cs.clock (env.now s.log))
              ∙ append-nil (trace written s.log))
            ((install_version-Follows env written cs r ctx tenant_namespace version).at begun))

    -- Where the tenant's namespace can be computed and the version is on offer, what
    -- `CreateOrUpdate` tries to write, and what is acknowledged of it, are each an initial part of
    -- `install_plan`, and the whole plan if the run returns with no error.
    pub create_or_update-refines :
        {version : KroVersion}
        → resolve_version env.quote config s.obj.spec.version ≡ inr version
        → Run attempted
            (install_plan env r ctx tenant_namespace version)
            s.log
            (create_or_update env r config ctx s)
          × Run acknowledged
              (install_plan env r ctx tenant_namespace version)
              s.log
              (create_or_update env r config ctx s)
    create_or_update-refines resolved = (
      create_or_update-Run attempted attempted-Counts resolved,
      create_or_update-Run acknowledged acknowledged-Counts resolved,
    )

    -- Where the tenant's namespace can be computed and the version is not on offer,
    -- `CreateOrUpdate` returns with no error and no delay of its own, and tries no write. The
    -- object reports the error as a ReconcileError in phase Progressing. This is under the laws of
    -- conditions and of `IgnoreInvalidUserInput`.
    pub create_or_update-not_offered :
        IgnoresInvalidUserInput env
        → ConditionLaws env
        → {e : Error} → resolve_version env.quote config s.obj.spec.version ≡ inl e
        → let (outcome, after) = create_or_update env r config ctx s in
          (outcome ≡ returned no_requeue)
          × (trace attempted after.log ≡ trace attempted s.log)
          × Reports env condition_false condition_reason_error
              (error_text env.invalid_user_input_text e)
              phase_progressing
              after.obj
    unfolding create_or_update ◌>>=◌ set_status
    create_or_update-not_offered ignores laws {e} resolved =
        rw (stable, resolved, ignores e, resolve_version-IsInvalid env.quote config _ resolved)
          (
            refl,
            append-nil _ ∙ append-nil _,
            stamped-Reports env laws condition_false condition_reason_error
                (error_text env.invalid_user_input_text e) phase_progressing (env.now begun.log)
                begun.obj,
          )
