-- ===== src/Controller/Install/Desired.antt =====
-- `CreateOrUpdate` writes the plan: all of it when it returns, an initial part of it otherwise.
mod Secrets
use service_provider_kro.Base.{
  String, ◌==◌, Bool, true, false, Option, none, some, List, [], ◌∷◌, ◌⊎◌, inl, inr, ◌≡◌, refl, ap,
  Bool-cases, if◌then◌else◌,
}
use service_provider_kro.Go.{Error}
use service_provider_kro.Kube.{Key, Cluster, AccessRequest}
use service_provider_kro.Flux.{OciRepository, HelmRelease, HelmReleaseSpec}
use service_provider_kro.Api.ProviderConfig.{KroVersion}
use service_provider_kro.Api.Kro.{Kro}
use service_provider_kro.Runtime.Context.{ClusterContext}
use service_provider_kro.Env.{Env, Event, upserted_helm_release}
use service_provider_kro.Exec.{
  Outcome, returned, failed, panicked, Exec, pure, fail, State, call, unchanged, from_either, ◌>>=◌,
  on_error, continue, recover,
}
use service_provider_kro.Exec.Follows.{
  Follows, Follows-pure, Follows-fail, Follows-panic, Follows-gets, Follows-call, Follows-settle,
  Follows-modify, Follows-bind, Follows-bind_returned, Follows-quiet, Follows-on_error,
  Follows-write,
}
use service_provider_kro.Controller.Names.{KroReconciler, kro_system_namespace}
use service_provider_kro.Controller.HelmValues.{HelmValues, extract_helm_values}
use service_provider_kro.Controller.Secrets.{
  replicate_chart_pull_secret, ensure_namespace, replicate_image_pull_secret,
  copy_image_pull_secrets, replicate_named_secrets, replicate_image_pull_secrets,
  write_mcp_kubeconfig, copy_mcp_kubeconfig, replicate_mcp_kubeconfig,
}
use service_provider_kro.Controller.Releases.{
  workload_release_spec, create_or_update_oci_repository, flux_config_of, get_workload_flux_config,
  create_helm_release, create_or_update_helm_release, create_or_update_mcp_crds_helm_release,
}
use service_provider_kro.Controller.Install.{or_progressing, report_installed, install_version}
use service_provider_kro.Controller.Install.Plan.{
  Write, namespace, helm_release, chart_secret_writes, copies, image_secret_writes,
  kubeconfig_writes, oci_writes, crds_writes, release_writes, names_of, install_plan,
  planned_release, without_access,
}
use service_provider_kro.Controller.Install.Counts.{
  Counts, set_status-Follows, progressing_error-Follows,
}
use service_provider_kro.Controller.Install.Desired.Secrets.{
  replicate_chart_pull_secret-Follows, replicate_image_pull_secrets-Follows, kubeconfig-Follows,
}

-- What a computation returns behind a handler that fails, and at the end of a chain.
returned_of_recover :
    {A : Type 0} (r : Outcome A) (f : Error → Error) (s : State) {a : A}
    → (recover r (λ e. fail (f e)) s).0 ≡ returned a
    → r ≡ returned a
unfolding ◌>>=◌
returned_of_recover (returned x) f s h = h
returned_of_recover (failed e) f s h = cc
returned_of_recover panicked f s h = cc

returned_of_continue :
    {A B : Type 0} (r : Outcome A) (g : A → B) (s : State) {b : B}
    → (continue r (λ a. pure (g a)) s).0 ≡ returned b
    → (a : A) × (b ≡ g a)
unfolding ◌>>=◌
returned_of_continue (returned x) g s h = (x, cc)
returned_of_continue (failed e) g s h = cc
returned_of_continue panicked g s h = cc

module _ (env : Env) (written : Event → List Write) (cs : Counts written) (r : KroReconciler) where
  create_or_update_oci_repository-Follows :
      (version : KroVersion) (tenant_namespace : String)
      → Follows written
          (oci_writes r tenant_namespace version)
          (create_or_update_oci_repository env r version tenant_namespace)
  unfolding create_or_update_oci_repository
  create_or_update_oci_repository-Follows version tenant_namespace =
      Follows-write written _ _ _ _ (cs.oci_done _ _ _) (cs.oci_lost _ _ _)

  flux_config_of-Follows :
      (name : Option String) (request : AccessRequest)
      → request.secret_ref ≡ name
      → Follows written [] (flux_config_of env r request)
  unfolding flux_config_of
  flux_config_of-Follows none request e = rw e (Follows-panic written [])
  flux_config_of-Follows (some name) request e = rw e (Follows-pure written _)

  get_workload_flux_config-Follows :
      (tenant_namespace object_name : String)
      → Follows written [] (get_workload_flux_config env r tenant_namespace object_name)
  unfolding get_workload_flux_config
  get_workload_flux_config-Follows tenant_namespace object_name =
      Follows-quiet written [] _ _ (Follows-call written _ _ (cs.reading_request _ _)) λ got.
        Follows-quiet written [] _ _ (Follows-settle written _ got)
          λ request. flux_config_of-Follows request.secret_ref request refl

  create_helm_release-Follows :
      (tenant_namespace object_name : String) (values : Option String)
      → Follows written [] (create_helm_release env r tenant_namespace object_name values)
  unfolding create_helm_release
  create_helm_release-Follows tenant_namespace object_name values =
      Follows-quiet written [] _ _
        (Follows-on_error written [] _ _ (get_workload_flux_config-Follows _ _)
          (λ e q. Follows-fail written q _))
        (λ flux_config. Follows-pure written _)

  -- Whatever the access secret, the release is the one of the plan.
  create_helm_release-without_access :
      (tenant_namespace object_name : String) (values : Option String) (s : State)
      → {spec : HelmReleaseSpec}
      → (create_helm_release env r tenant_namespace object_name values s).0 ≡ returned spec
      → without_access spec ≡ planned_release tenant_namespace values
  unfolding create_helm_release ◌>>=◌
  create_helm_release-without_access tenant_namespace object_name values s h =
      ap without_access
        (returned_of_continue _ (workload_release_spec tenant_namespace values) _ h).1

  write_release-Follows :
      (key : Key) (spec planned : HelmReleaseSpec)
      → without_access spec ≡ planned
      → Follows written (helm_release r.platform_cluster key planned ∷ []) (
          call
            (λ log. env.upsert_helm_release log r.platform_cluster key spec)
            (upserted_helm_release r.platform_cluster key spec)
          >>= λ done. unchanged done)
  write_release-Follows key spec planned e =
      rw (← e) (Follows-write written _ _ _ _ (cs.release_done _ _ _) (cs.release_lost _ _ _))

  create_or_update_helm_release-Follows :
      (tenant_namespace : String) (svcobj : Kro) (values : Option String)
      → Follows written
          (release_writes r tenant_namespace values)
          (create_or_update_helm_release env r tenant_namespace svcobj values)
  unfolding create_or_update_helm_release on_error
  create_or_update_helm_release-Follows tenant_namespace svcobj values =
      Follows-bind_returned written [] _ _ _
        (Follows-on_error written [] _ _ (create_helm_release-Follows _ _ _)
          (λ e q. Follows-fail written q _))
        (λ s spec e.
          write_release-Follows _ spec _
            (create_helm_release-without_access _ _ values s (returned_of_recover _ _ _ e)))

  create_or_update_mcp_crds_helm_release-Follows :
      (tenant_namespace : String) (ctx : ClusterContext)
      → Follows written
          (crds_writes r ctx tenant_namespace)
          (create_or_update_mcp_crds_helm_release env r tenant_namespace ctx)
  unfolding create_or_update_mcp_crds_helm_release
  create_or_update_mcp_crds_helm_release-Follows tenant_namespace ctx =
      Follows-write written _ _ _ _ (cs.release_done _ _ _) (cs.release_lost _ _ _)

  if-Follows :
      {A : Type 0} (b : Bool) (m n : Exec A)
      → Follows written [] m
      → Follows written [] n
      → Follows written [] (if b then m else n)
  if-Follows true m n x y = x
  if-Follows false m n x y = y

  report_installed-Follows :
      (tenant_namespace : String) (oci : OciRepository) (crds hr : HelmRelease)
      → Follows written [] (report_installed env tenant_namespace oci crds hr)
  unfolding report_installed
  report_installed-Follows tenant_namespace oci crds hr =
      Follows-quiet written [] _ _ (Follows-modify written _) λ _.
        Follows-quiet written [] _ _
          (if-Follows _ _ _ (set_status-Follows env written cs _ _ _ _)
            (set_status-Follows env written cs _ _ _ _))
          (λ _. Follows-pure written _)

  or_progressing-Follows :
      {A : Type 0} (p : List Write) (m : Exec A) (text : String)
      → Follows written p m
      → Follows written p (or_progressing env m text)
  or_progressing-Follows p m text x =
      Follows-on_error written p m _ x (λ e q. progressing_error-Follows env written cs text e q)

  pub install_version-Follows :
      (ctx : ClusterContext) (tenant_namespace : String) (version : KroVersion)
      → Follows written
          (install_plan env r ctx tenant_namespace version)
          (install_version env r ctx tenant_namespace version)
  unfolding install_version
  install_version-Follows ctx tenant_namespace version =
      Follows-bind written _ _ _ _
        (or_progressing-Follows _ _ _ (
          replicate_chart_pull_secret-Follows env written cs r version.chart_pull_secret
            tenant_namespace))
        λ _.
          Follows-bind written _ _ _ _
            (or_progressing-Follows _ _ _
              (create_or_update_oci_repository-Follows version tenant_namespace))
            λ oci.
              Follows-bind written _ _ _ _
                (or_progressing-Follows _ _ _ (
                  replicate_image_pull_secrets-Follows env written cs r ctx.workload_cluster
                    version.helm_values))
                λ _.
                  Follows-bind written _ _ _ _
                    (or_progressing-Follows _ _ _
                      (kubeconfig-Follows env written cs r ctx ctx.workload_cluster refl))
                    λ _.
                      Follows-bind written _ _ _ _
                        (or_progressing-Follows _ _ _
                          (create_or_update_mcp_crds_helm_release-Follows tenant_namespace ctx))
                        λ crds. Follows-quiet written _ _ _ (Follows-gets written _) λ svcobj.
                          Follows-bind written _ [] _ _
                            (or_progressing-Follows _ _ _ (
                              create_or_update_helm_release-Follows tenant_namespace svcobj
                                version.helm_values))
                            λ hr. report_installed-Follows tenant_namespace oci crds hr
