-- ===== src/Controller/Install/Panics.antt =====
-- `CreateOrUpdate` dereferences one pointer that may be nil.
use service_provider_kro.Base.{
  String, ◌==◌, Option, none, some, List, [], ◌∷◌, ◌⊎◌, inl, inr, ◌≡◌, refl,
}
use service_provider_kro.Go.{Error}
use service_provider_kro.Kube.{Answer, ok, err, Key, Cluster, AccessRequest, AccessAnswer}
use service_provider_kro.Flux.{OciRepository, HelmRelease}
use service_provider_kro.Api.ProviderConfig.{KroVersion, ProviderConfig}
use service_provider_kro.Api.Kro.{Kro}
use service_provider_kro.Runtime.Status.{set_status}
use service_provider_kro.Runtime.Context.{ClusterContext}
use service_provider_kro.Env.{
  Env, Event, Log, got_access_request, asked_mcp_request, asked_workload_request,
}
use service_provider_kro.Exec.{State, Exec, call, checked, unchanged, ◌>>=◌}
use service_provider_kro.Exec.Panics.{
  PanicsOnly, PanicsOnly-pure, PanicsOnly-fail, PanicsOnly-gets, PanicsOnly-call, PanicsOnly-settle,
  PanicsOnly-from_either, PanicsOnly-if, PanicsOnly-modify, PanicsOnly-bind, PanicsOnly-call_then,
  PanicsOnly-on_error, Blamed,
}
use service_provider_kro.Controller.Names.{KroReconciler}
use service_provider_kro.Controller.HelmValues.{extract_helm_values}
use service_provider_kro.Controller.Secrets.{
  replicate_chart_pull_secret, ensure_namespace, replicate_image_pull_secret,
  copy_image_pull_secrets, replicate_named_secrets, replicate_image_pull_secrets,
  write_mcp_kubeconfig, copy_mcp_kubeconfig, replicate_mcp_kubeconfig,
}
use service_provider_kro.Controller.Releases.{
  create_or_update_oci_repository, flux_config_of, get_workload_flux_config, create_helm_release,
  create_or_update_helm_release, create_or_update_mcp_crds_helm_release,
}
use service_provider_kro.Controller.Install.{
  or_progressing, progressing_error, report_installed, install_version, install, return_unless,
  create_or_update,
}

-- An access request that names no secret yet.
abbrev pub NotGranted : Answer AccessRequest → Type 0
NotGranted (ok request) = request.secret_ref ≡ none
NotGranted (err e) = ⊥

-- A nil access request without an error.
abbrev pub Nothing : AccessAnswer → Type 0
Nothing a = (a.request ≡ none) × (a.error ≡ none)

-- The latest event answered with what the next statement dereferences as nil.
abbrev pub Culprit : Log → Type 0
Culprit [] = ⊥
Culprit (got_access_request c k a ∷ log) = NotGranted a
Culprit (asked_mcp_request k a ∷ log) = Nothing a
Culprit (asked_workload_request k a ∷ log) = Nothing a
Culprit (_ ∷ log) = ⊥

module _ (env : Env) (r : KroReconciler) where
  abbrev Careful : {A : Type 0} → Exec A → Type 0
  Careful m = PanicsOnly Culprit m

  -- A call whose answer is settled by its error.
  pub status-Careful :
      (status reason message phase : String) → Careful (set_status env status reason message phase)
  unfolding set_status
  status-Careful status reason message phase =
      PanicsOnly-bind Culprit _ _ (PanicsOnly-call Culprit _ _) (λ t. PanicsOnly-modify Culprit _)

  or_progressing-Careful :
      {A : Type 0} (m : Exec A) (text : String) → Careful m → Careful (or_progressing env m text)
  unfolding progressing_error
  or_progressing-Careful m text x =
      PanicsOnly-on_error Culprit _ _ x
        λ e. PanicsOnly-bind Culprit _ _ (status-Careful _ _ _ _) (λ _. PanicsOnly-fail Culprit _)

  replicate_chart_pull_secret-Careful :
      (name tenant_namespace : String)
      → Careful (replicate_chart_pull_secret env r name tenant_namespace)
  unfolding replicate_chart_pull_secret
  replicate_chart_pull_secret-Careful name tenant_namespace =
      PanicsOnly-if Culprit (name == "") _ _ (PanicsOnly-pure Culprit _) (
        PanicsOnly-bind Culprit _ _ (PanicsOnly-call Culprit _ _) λ got.
          PanicsOnly-bind Culprit _ _ (PanicsOnly-settle Culprit _ got) λ source.
            PanicsOnly-bind Culprit _ _ (PanicsOnly-call Culprit _ _)
              (λ done. PanicsOnly-settle Culprit _ done))

  ensure_namespace-Careful : (workload : Cluster) → Careful (ensure_namespace env r workload)
  unfolding ensure_namespace
  ensure_namespace-Careful workload =
      PanicsOnly-bind Culprit _ _ (PanicsOnly-call Culprit _ _)
        (λ done. PanicsOnly-settle Culprit _ done)

  copy_image_pull_secrets-Careful :
      (workload : Cluster) (names : List String)
      → Careful (copy_image_pull_secrets env r workload names)
  unfolding copy_image_pull_secrets replicate_image_pull_secret
  copy_image_pull_secrets-Careful workload [] = PanicsOnly-pure Culprit _
  copy_image_pull_secrets-Careful workload (name ∷ names) =
      PanicsOnly-bind Culprit _ _
        (PanicsOnly-bind Culprit _ _ (PanicsOnly-call Culprit _ _) λ got.
          PanicsOnly-bind Culprit _ _ (PanicsOnly-settle Culprit _ got) λ source.
            PanicsOnly-bind Culprit _ _ (PanicsOnly-call Culprit _ _)
              (λ done. PanicsOnly-settle Culprit _ done))
        (λ _. copy_image_pull_secrets-Careful workload names)

  replicate_named_secrets-Careful :
      (workload : Option Cluster) (names : List String)
      → Careful (replicate_named_secrets env r workload names)
  unfolding replicate_named_secrets
  replicate_named_secrets-Careful none [] = PanicsOnly-pure Culprit _
  replicate_named_secrets-Careful none (name ∷ names) = PanicsOnly-fail Culprit _
  replicate_named_secrets-Careful (some workload) [] = PanicsOnly-pure Culprit _
  replicate_named_secrets-Careful (some workload) (name ∷ names) =
      PanicsOnly-bind Culprit _ _ (ensure_namespace-Careful workload)
        (λ _. copy_image_pull_secrets-Careful workload (name ∷ names))

  replicate_image_pull_secrets-Careful :
      (workload : Option Cluster) (values : Option String)
      → Careful (replicate_image_pull_secrets env r workload values)
  unfolding replicate_image_pull_secrets
  replicate_image_pull_secrets-Careful workload values =
      PanicsOnly-bind Culprit _ _ (PanicsOnly-from_either Culprit (extract_helm_values env values))
        (λ found. replicate_named_secrets-Careful workload found.image_pull_secrets)

  write_mcp_kubeconfig-Careful :
      (workload : Cluster) (key : Key) (kubeconfig : Option String)
      → Careful (write_mcp_kubeconfig env r workload key kubeconfig)
  unfolding write_mcp_kubeconfig
  write_mcp_kubeconfig-Careful workload key none = PanicsOnly-fail Culprit _
  write_mcp_kubeconfig-Careful workload key (some kubeconfig) =
      PanicsOnly-bind Culprit _ _ (ensure_namespace-Careful workload) λ _.
        PanicsOnly-bind Culprit _ _ (PanicsOnly-call Culprit _ _)
          (λ done. PanicsOnly-settle Culprit _ done)

  kubeconfig-Careful :
      (ctx : ClusterContext) (workload : Option Cluster)
      → ctx.workload_cluster ≡ workload
      → Careful (replicate_mcp_kubeconfig env r ctx)
  unfolding replicate_mcp_kubeconfig copy_mcp_kubeconfig
  kubeconfig-Careful ctx none e = rw e (PanicsOnly-fail Culprit _)
  kubeconfig-Careful ctx (some workload) e = rw e (
      PanicsOnly-bind Culprit _ _ (PanicsOnly-call Culprit _ _) λ got.
        PanicsOnly-bind Culprit _ _ (PanicsOnly-settle Culprit _ got)
          λ source. write_mcp_kubeconfig-Careful workload _ _)

  flux_config-Blamed :
      (c : Cluster) (k : Key) (request : AccessRequest) (name : Option String) (s : State)
      → request.secret_ref ≡ name
      → let s' = record s { log = got_access_request c k (ok request) ∷ s.log } in
        Blamed Culprit (flux_config_of env r request s').0 (flux_config_of env r request s').1
  unfolding flux_config_of ◌>>=◌
  flux_config-Blamed c k request none s e = rw e refl
  flux_config-Blamed c k request (some name) s e = rw e tt

  settled-Blamed :
      (c : Cluster) (k : Key) (text : String) (a : Answer AccessRequest) (s : State)
      → let s' = record s { log = got_access_request c k a ∷ s.log } in
        let m = checked text a >>= λ request. flux_config_of env r request in
        Blamed Culprit (m s').0 (m s').1
  unfolding ◌>>=◌
  settled-Blamed c k text (ok request) s = flux_config-Blamed c k request request.secret_ref s refl
  settled-Blamed c k text (err e) s = tt

  get_workload_flux_config-Careful :
      (tenant_namespace object_name : String)
      → Careful (get_workload_flux_config env r tenant_namespace object_name)
  unfolding get_workload_flux_config
  get_workload_flux_config-Careful tenant_namespace object_name =
      PanicsOnly-call_then Culprit _ _ _ (λ a s. settled-Blamed _ _ _ a s)

  upsert-Careful :
      {A : Type 0} (ask : Log → Answer A) (event : Answer A → Event)
      → Careful (call ask event >>= λ done. unchanged done)
  upsert-Careful ask event =
      PanicsOnly-bind Culprit _ _ (PanicsOnly-call Culprit ask event)
        (λ done. PanicsOnly-settle Culprit _ done)

  create_or_update_helm_release-Careful :
      (tenant_namespace : String) (svcobj : Kro) (values : Option String)
      → Careful (create_or_update_helm_release env r tenant_namespace svcobj values)
  unfolding create_or_update_helm_release create_helm_release
  create_or_update_helm_release-Careful tenant_namespace svcobj values =
      PanicsOnly-bind Culprit _ _
        (PanicsOnly-on_error Culprit _ _
          (PanicsOnly-bind Culprit _ _
            (PanicsOnly-on_error Culprit _ _
              (get_workload_flux_config-Careful tenant_namespace svcobj.name)
              (λ e. PanicsOnly-fail Culprit _))
            (λ reference. PanicsOnly-pure Culprit _))
          (λ e. PanicsOnly-fail Culprit _))
        (λ spec. upsert-Careful _ _)

  report_installed-Careful :
      (tenant_namespace : String) (oci : OciRepository) (crds hr : HelmRelease)
      → Careful (report_installed env tenant_namespace oci crds hr)
  unfolding report_installed
  report_installed-Careful tenant_namespace oci crds hr =
      PanicsOnly-bind Culprit _ _ (PanicsOnly-modify Culprit _) λ _.
        PanicsOnly-bind Culprit _ _
          (PanicsOnly-if Culprit _ _ _ (status-Careful _ _ _ _) (status-Careful _ _ _ _))
          (λ _. PanicsOnly-pure Culprit _)

  install_version-Careful :
      (ctx : ClusterContext) (tenant_namespace : String) (version : KroVersion)
      → Careful (install_version env r ctx tenant_namespace version)
  unfolding install_version create_or_update_oci_repository create_or_update_mcp_crds_helm_release
  install_version-Careful ctx tenant_namespace version =
      PanicsOnly-bind Culprit _ _
        (or_progressing-Careful _ _ (replicate_chart_pull_secret-Careful _ tenant_namespace))
        λ _. PanicsOnly-bind Culprit _ _ (or_progressing-Careful _ _ (upsert-Careful _ _)) λ oci.
          PanicsOnly-bind Culprit _ _
            (or_progressing-Careful _ _
              (replicate_image_pull_secrets-Careful _ version.helm_values))
            λ _.
              PanicsOnly-bind Culprit _ _
                (or_progressing-Careful _ _ (kubeconfig-Careful ctx ctx.workload_cluster refl))
                λ _.
                  PanicsOnly-bind Culprit _ _ (or_progressing-Careful _ _ (upsert-Careful _ _))
                    λ crds. PanicsOnly-bind Culprit _ _ (PanicsOnly-gets Culprit _) λ svcobj.
                      PanicsOnly-bind Culprit _ _
                        (or_progressing-Careful _ _
                          (create_or_update_helm_release-Careful tenant_namespace svcobj _))
                        (λ hr. report_installed-Careful tenant_namespace oci crds hr)

  return_unless-Careful : (e : Option Error) → Careful (return_unless env e)
  return_unless-Careful none = PanicsOnly-pure Culprit _
  return_unless-Careful (some e) = PanicsOnly-fail Culprit _

  install-Careful :
      (ctx : ClusterContext) (tenant_namespace : String) (x : Error ⊎ KroVersion)
      → Careful (install env r ctx tenant_namespace x)
  unfolding install
  install-Careful ctx tenant_namespace (inl e) =
      PanicsOnly-bind Culprit _ _ (status-Careful _ _ _ _) (λ _. return_unless-Careful _)
  install-Careful ctx tenant_namespace (inr version) =
      install_version-Careful ctx tenant_namespace version

  -- A run of `CreateOrUpdate` that panics does so right behind a Get of an access request that was
  -- answered with one that names no secret.
  pub create_or_update-Careful :
      (config : Option ProviderConfig) (ctx : ClusterContext)
      → Careful (create_or_update env r config ctx)
  unfolding create_or_update
  create_or_update-Careful config ctx = PanicsOnly-bind Culprit _ _ (status-Careful _ _ _ _) λ _.
      PanicsOnly-bind Culprit _ _ (PanicsOnly-gets Culprit _) λ svcobj.
        PanicsOnly-bind Culprit _ _ (PanicsOnly-settle Culprit _ _)
          (λ tenant_namespace. install-Careful ctx tenant_namespace _)
