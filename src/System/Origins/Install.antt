-- ===== src/System/Origins/Install.antt =====
-- `CreateOrUpdate` with a config that the API server has answered with.
use service_provider_kro.Base.{String, true, Option, none, some, ◌⊎◌, inl, inr, ◌≡◌, refl}
use service_provider_kro.Go.{Error}
use service_provider_kro.Kube.{time_is_zero, ok, Key}
use service_provider_kro.Flux.{OciRepository, HelmRelease}
use service_provider_kro.Api.ProviderConfig.{ProviderConfig, KroVersion, resolve_version}
use service_provider_kro.Env.{Env, Log, got_provider_config}
use service_provider_kro.Exec.Known.{Known, Seen}
use service_provider_kro.Exec.{Exec}
use service_provider_kro.Exec.Causal.{
  Causal, Causal-pure, Causal-fail, Causal-gets, Causal-if, Causal-call, Causal-settle,
  Causal-modify, Causal-bind, Causal-on_error,
}
use service_provider_kro.Runtime.Context.{ClusterContext}
use service_provider_kro.Runtime.Status.{set_status}
use service_provider_kro.Controller.Names.{KroReconciler}
use service_provider_kro.Controller.Releases.{create_or_update_oci_repository}
use service_provider_kro.Controller.Install.{
  or_progressing, progressing_error, report_installed, install_version, return_unless, install,
  create_or_update,
}
use service_provider_kro.System.Origins.Defs.{Justified, context_of, OnOffer}
use service_provider_kro.System.Origins.Secrets.{
  replicate_chart_pull_secret-Causal, replicate_image_pull_secrets-Causal,
}
use service_provider_kro.System.Origins.Kubeconfig.{replicate_mcp_kubeconfig-Tells}
use service_provider_kro.System.Origins.Releases.{
  create_or_update_helm_release-Causal, create_or_update_mcp_crds_helm_release-Causal,
}
use service_provider_kro.Exec.Laws.{then_fail-Stops}
use service_provider_kro.Exec.Tells.{Tells, Tells-on_error, Causal-learned_then}

module _ (env : Env) (r : KroReconciler) (K : Known) where
  abbrev pub Reasoned : {A : Type 0} → Exec A → Type 0
  Reasoned m = Causal (Justified env r) K m

  pub set_status-Causal :
      (status reason message phase : String) → Reasoned (set_status env status reason message phase)
  unfolding set_status
  set_status-Causal status reason message phase =
      Causal-bind _ _ _ (Causal-call _ _ _ (λ a log k. (tt, tt))) (λ t. Causal-modify _ _)

  or_progressing-Causal :
      {A : Type 0} (m : Exec A) (text : String) → Reasoned m → Reasoned (or_progressing env m text)
  unfolding progressing_error
  or_progressing-Causal m text x =
      Causal-on_error _ _ _ x
        (λ e. Causal-bind _ _ _ (set_status-Causal _ _ _ _) (λ _. Causal-fail _ _))

  or_progressing-Tells :
      {A : Type 0} {P : A → Known} (m : Exec A) (text : String)
      → Tells (Justified env r) K P m
      → Tells (Justified env r) K P (or_progressing env m text)
  unfolding progressing_error
  or_progressing-Tells m text x =
      Tells-on_error _ _ _ x
        (λ e. Causal-bind _ _ _ (set_status-Causal _ _ _ _) (λ _. Causal-fail _ _))
        (then_fail-Stops _ _)

  report_installed-Causal :
      (tenant_namespace : String) (oci : OciRepository) (crds hr : HelmRelease)
      → Reasoned (report_installed env tenant_namespace oci crds hr)
  unfolding report_installed
  report_installed-Causal tenant_namespace oci crds hr = Causal-bind _ _ _ (Causal-modify _ _) λ _.
      Causal-bind _ _ _ (Causal-if _ _ _ _ (set_status-Causal _ _ _ _) (set_status-Causal _ _ _ _))
        (λ _. Causal-pure _ _)

  module _ (pc : ProviderConfig) (config_key : Key)
      (read : (log : Log) → K.Fact log → Seen (got_provider_config config_key (ok pc)) log)
      (live : time_is_zero pc.deletion_timestamp ≡ true) (ctx : ClusterContext)
      (known : (log : Log) → K.Fact log → (context_of ctx).Fact log) where
    offer :
        (requested : String) (version : KroVersion)
        → resolve_version env.quote (some pc) requested ≡ inr version
        → (log : Log) → K.Fact log
        → OnOffer env r version log
    offer requested version resolved log k = record {
      config_key = config_key;
      config = pc;
      read = read log k;
      live = live;
      requested = requested;
      resolved = resolved;
    }

    create_or_update_oci_repository-Causal :
        (version : KroVersion) (namespace : String)
        → ((log : Log) → K.Fact log → OnOffer env r version log)
        → Reasoned (create_or_update_oci_repository env r version namespace)
    unfolding create_or_update_oci_repository
    create_or_update_oci_repository-Causal version namespace offered =
        Causal-bind _ _ _
          (Causal-call _ _ _
            λ a log k. (tt, record { version = version; offer = offered log k; built = refl }))
          (λ done. Causal-settle _ _ done)

    install_version-Causal :
        (tenant_namespace : String) (version : KroVersion)
        → ((log : Log) → K.Fact log → OnOffer env r version log)
        → Reasoned (install_version env r ctx tenant_namespace version)
    unfolding install_version
    install_version-Causal tenant_namespace version offered =
        Causal-bind _ _ _
          (or_progressing-Causal _ _ (replicate_chart_pull_secret-Causal env r K version offered _))
          λ _.
            Causal-bind _ _ _
              (or_progressing-Causal _ _
                (create_or_update_oci_repository-Causal version tenant_namespace offered))
              λ oci.
                Causal-bind _ _ _
                  (or_progressing-Causal _ _ (
                    replicate_image_pull_secrets-Causal env r K version offered ctx.workload_cluster
                      ctx.mcp_access_secret_key known))
                  λ _.
                    Causal-learned_then _ _ _
                      (or_progressing-Tells _ _ (
                        replicate_mcp_kubeconfig-Tells env r K ctx ctx.workload_cluster refl known))
                      λ _ there.
                        Causal-bind _ _ _
                          (or_progressing-Causal _ _ (
                            create_or_update_mcp_crds_helm_release-Causal env r K tenant_namespace
                              ctx there.0 (λ log k. known log k there.0 there.1)))
                          λ crds. Causal-bind _ _ _ (Causal-gets _ _) λ svcobj.
                            Causal-bind _ _ _
                              (or_progressing-Causal _ _ (
                                create_or_update_helm_release-Causal env r K version offered
                                  tenant_namespace svcobj))
                              (λ hr. report_installed-Causal _ oci crds hr)

    return_unless-Causal : (e : Option Error) → Reasoned (return_unless env e)
    return_unless-Causal none = Causal-pure _ _
    return_unless-Causal (some e) = Causal-fail _ _

    install-Causal :
        (tenant_namespace requested : String) (x : Error ⊎ KroVersion)
        → resolve_version env.quote (some pc) requested ≡ x
        → Reasoned (install env r ctx tenant_namespace x)
    unfolding install
    install-Causal tenant_namespace requested (inl e) resolved =
        Causal-bind _ _ _ (set_status-Causal _ _ _ _) (λ _. return_unless-Causal _)
    install-Causal tenant_namespace requested (inr version) resolved =
        install_version-Causal tenant_namespace version (offer requested version resolved)

    pub create_or_update-Causal : Reasoned (create_or_update env r (some pc) ctx)
    unfolding create_or_update
    create_or_update-Causal = Causal-bind _ _ _ (set_status-Causal _ _ _ _) λ _.
        Causal-bind _ _ _ (Causal-gets _ _) λ svcobj.
          Causal-bind _ _ _ (Causal-settle _ _ _)
            (λ tenant_namespace. install-Causal tenant_namespace svcobj.spec.version _ refl)
