-- ===== src/Controller/Install/Report.antt =====
-- The status at the end of an installation.
use service_provider_kro.Base.{
  String, Bool, ◌&&◌, List, ◌≡◌, refl, map, Bool-cases, inl, inr, if◌then◌else◌,
}
use service_provider_kro.Kube.{Condition, no_requeue, condition_true, condition_false}
use service_provider_kro.Flux.{OciRepository, HelmRelease}
use service_provider_kro.Api.Kro.{Kro, terminating, set_resources}
use service_provider_kro.Runtime.Status.{set_status, phase_ready, phase_progressing}
use service_provider_kro.Runtime.Status.Laws.{Reports, stamped-Reports}
use service_provider_kro.Env.{Env}
use service_provider_kro.Env.Laws.{ConditionLaws}
use service_provider_kro.Exec.{State, returned, ◌>>=◌}
use service_provider_kro.Controller.Install.{
  is_ready, resource_status, installed_resources, report_installed,
}
use service_provider_kro.Controller.Remove.{managed_resources}

module _ (env : Env) where
  abbrev pub all_ready : OciRepository → HelmRelease → HelmRelease → Bool
  all_ready oci crds hr =
      env.is_status_condition_true oci.conditions env.ready_condition
      && (env.is_status_condition_true hr.conditions env.ready_condition
          && env.is_status_condition_true crds.conditions env.ready_condition)

  is_ready-resource_status :
      (conditions : List Condition)
      → is_ready (resource_status env conditions).0
        ≡ env.is_status_condition_true conditions env.ready_condition
  unfolding resource_status
  is_ready-resource_status conditions =
      elim (Bool-cases (env.is_status_condition_true conditions env.ready_condition)) [
        | inl yes_ready ↦ rw yes_ready refl
        | inr not_ready ↦ rw not_ready refl
      ]

  abbrev listing : String → OciRepository → HelmRelease → HelmRelease → Kro → Kro
  listing tenant_namespace oci crds hr = set_resources (
      installed_resources env tenant_namespace (resource_status env oci.conditions)
        (resource_status env hr.conditions) (resource_status env crds.conditions))

  report_installed-reported :
      (tenant_namespace : String) (oci : OciRepository) (crds hr : HelmRelease) (s : State)
      → report_installed env tenant_namespace oci crds hr s ≡ (
        returned no_requeue,
        (set_status env
            (if all_ready oci crds hr then condition_true else condition_false)
            (if all_ready oci crds hr then "ReconcileSuccess" else "Reconciling")
            (if all_ready oci crds hr
              then "Domain Service is ready"
              else "Waiting for managed resources to become ready")
            (if all_ready oci crds hr then phase_ready else phase_progressing)
            (record s { obj = listing tenant_namespace oci crds hr s.obj })).1,
      )
  unfolding report_installed ◌>>=◌ set_status
  report_installed-reported tenant_namespace oci crds hr s =
      simp is_ready-resource_status (elim (Bool-cases (all_ready oci crds hr)) [
        | inl yes_ready ↦ rw yes_ready refl
        | inr waiting ↦ rw waiting refl
      ])

  -- The end of an installation returns with no delay of its own. Under the laws of conditions the
  -- object is reported ready if the OCIRepository and both HelmReleases have a true Ready
  -- condition, and otherwise as progressing. The resources that it lists are the ones that `Delete`
  -- lists, in the same order.
  pub report_installed_lem :
      ConditionLaws env
      → (tenant_namespace : String) (oci : OciRepository) (crds hr : HelmRelease) (s : State)
      → let (outcome, after) = report_installed env tenant_namespace oci crds hr s in
        (outcome ≡ returned no_requeue)
        × Reports env
            (if all_ready oci crds hr then condition_true else condition_false)
            (if all_ready oci crds hr then "ReconcileSuccess" else "Reconciling")
            (if all_ready oci crds hr
              then "Domain Service is ready"
              else "Waiting for managed resources to become ready")
            (if all_ready oci crds hr then phase_ready else phase_progressing)
            after.obj
        × (map (λ x. x.reference) after.obj.status.resources
            ≡ map (λ x. x.reference) (managed_resources env tenant_namespace terminating))
  unfolding set_status ◌>>=◌ installed_resources managed_resources
  report_installed_lem laws tenant_namespace oci crds hr s = rw report_installed-reported (
    refl,
    stamped-Reports env laws (if all_ready oci crds hr then condition_true else condition_false)
        (if all_ready oci crds hr then "ReconcileSuccess" else "Reconciling")
        (if all_ready oci crds hr
          then "Domain Service is ready"
          else "Waiting for managed resources to become ready")
        (if all_ready oci crds hr then phase_ready else phase_progressing) (env.now s.log)
        (listing tenant_namespace oci crds hr s.obj),
    refl,
  )
