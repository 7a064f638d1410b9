-- ===== src/Controller/Install/Installs.antt =====
-- An installation from its start to its end, where the outside accepts it.
use mathlib.Core.List.{append-nil}
use service_provider_kro.Base.{String, Option, some, List, ◌++◌, inr, ◌≡◌, sym, ◌∙◌, ap}
use service_provider_kro.Kube.{ok, Cluster, CtrlResult, no_requeue}
use service_provider_kro.Api.ProviderConfig.{ProviderConfig, KroVersion, resolve_version}
use service_provider_kro.Env.{Env}
use service_provider_kro.Exec.{Outcome, returned, failed, panicked, State, ◌>>=◌}
use service_provider_kro.Exec.Follows.{Run, trace}
use service_provider_kro.Exec.Completes.{Returns}
use service_provider_kro.Runtime.Context.{ClusterContext}
use service_provider_kro.Runtime.Status.{set_status}
use service_provider_kro.Controller.Names.{KroReconciler}
use service_provider_kro.Controller.HelmValues.{HelmValues, extract_helm_values}
use service_provider_kro.Controller.Install.{create_or_update}
use service_provider_kro.Controller.Install.Plan.{install_plan, acknowledged, Write}
use service_provider_kro.Controller.Install.Refines.{create_or_update-refines}
use service_provider_kro.Controller.Install.Completes.{
  Accepting, IsFinal, install_version-Completes,
}

module _ (env : Env) (r : KroReconciler) (ctx : ClusterContext) (accepting : Accepting env r ctx)
    (config : Option ProviderConfig) (s : State) where
  final : (outcome : Outcome CtrlResult) → Returns IsFinal outcome → outcome ≡ returned no_requeue
  final (returned res) h = ap returned h
  final (failed e) h = absurd h
  final panicked h = absurd h

  -- All that was left of the plan is nothing, so all of it was written.
  whole :
      (plan : List Write) (run : Outcome CtrlResult × State)
      → run.0 ≡ returned no_requeue
      → Run acknowledged plan s.log run
      → trace acknowledged run.1.log ≡ trace acknowledged s.log ++ plan
  whole plan (returned res, after) e x =
      x.wrote
      ∙ ap (λ w. trace acknowledged s.log ++ w)
          (sym (x.split ∙ (ap (λ w. x.done ++ w) x.complete ∙ append-nil x.done)))
  whole plan (failed error, after) e x = absurd cc
  whole plan (panicked, after) e x = absurd cc

  module _ {tenant_namespace : String} {version : KroVersion} {helm_values : HelmValues}
      {workload : Cluster}
      (stable : env.stable_mcp_namespace s.obj.name s.obj.namespace ≡ ok tenant_namespace)
      (resolved : resolve_version env.quote config s.obj.spec.version ≡ inr version)
      (extracted : extract_helm_values env version.helm_values ≡ inr helm_values)
      (reachable : ctx.workload_cluster ≡ some workload) where
    create_or_update-returned : (create_or_update env r config ctx s).0 ≡ returned no_requeue
    unfolding create_or_update ◌>>=◌ set_status
    create_or_update-returned =
        rw (stable, resolved)
          (final _ (
            (install_version-Completes env r ctx accepting version workload helm_values extracted
                reachable tenant_namespace).at
              _))

    -- Where the outside accepts the calls of an installation, the kubeconfig is in its secret, the
    -- access to a workload cluster is granted and the cluster there, the tenant's namespace and the
    -- names of the pull secrets can be computed and the version is on offer, `CreateOrUpdate`
    -- returns with no error and no delay, and exactly the writes of `install_plan`, in its order,
    -- are acknowledged.
    pub create_or_update-installs :
        let (outcome, after) = create_or_update env r config ctx s in
        (outcome ≡ returned no_requeue)
        × (trace acknowledged after.log
            ≡ trace acknowledged s.log ++ install_plan env r ctx tenant_namespace version)
    create_or_update-installs = (
      create_or_update-returned,
      whole _ (create_or_update env r config ctx s) create_or_update-returned
          (create_or_update-refines env r config ctx s stable resolved).1,
    )
