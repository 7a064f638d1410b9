-- ===== src/System/Origins/Releases.antt =====
-- The writers of the Flux releases in internal/controller/kro_controller.go, and the reasons of
-- their writes.
use service_provider_kro.Base.{ap, subst, String, Option, none, some, ◌≡◌, refl, inl, inr}
use service_provider_kro.Kube.{Cluster, AccessRequest}
use service_provider_kro.Flux.{SecretKeyReference, HelmReleaseSpec}
use service_provider_kro.Api.ProviderConfig.{KroVersion}
use service_provider_kro.Api.Kro.{Kro}
use service_provider_kro.Env.{Env, Log, got_access_request}
use service_provider_kro.Exec.Known.{Known, Seen, always, and_known}
use service_provider_kro.Exec.Laws.{fail-Stops}
use service_provider_kro.Exec.Causal.{Causal, Causal-fail, Causal-call, Causal-settle, Causal-bind}
use service_provider_kro.Exec.Tells.{
  Tells, Tells-pure, Tells-panic, Tells-call_then, Tells-settle_then, Tells-told_then,
  Tells-on_error, Causal-told_then, Tells-mono,
}
use service_provider_kro.Runtime.Context.{ClusterContext}
use service_provider_kro.Controller.Names.{KroReconciler}
use service_provider_kro.Controller.Releases.{
  workload_release_spec, flux_config_of, get_workload_flux_config, create_helm_release,
  create_or_update_helm_release, create_or_update_mcp_crds_helm_release,
}
use service_provider_kro.System.Origins.Defs.{
  Justified, WorkloadAccess, OnOffer, Delegated, workload_access_key,
}

module _ (env : Env) (r : KroReconciler) where
  abbrev access_known : String → SecretKeyReference → Known
  access_known namespace reference = record {
    Fact = WorkloadAccess env r namespace reference;
    lasts = λ e log of_run a. record {
      object_name = a.object_name;
      access = a.access;
      read = inr a.read;
      named = a.named;
    };
  }

  flux_config_of-Tells :
      (K : Known) (request : AccessRequest)
      → Tells
          (Justified env r)
          K
          (λ reference. always (request.secret_ref ≡ some reference.name))
          (flux_config_of env r request)
  unfolding flux_config_of
  flux_config_of-Tells K request = by_ref request.secret_ref refl
    where
      by_ref :
          (name : Option String)
          → request.secret_ref ≡ name
          → Tells
              (Justified env r)
              K
              (λ reference. always (request.secret_ref ≡ some reference.name))
              (flux_config_of env r request)
      by_ref none e = rw e (Tells-panic _)
      by_ref (some name) e = rw e (Tells-pure _ _ λ log k. refl)

  get_workload_flux_config-Tells :
      (K : Known) (namespace object_name : String)
      → Tells
          (Justified env r)
          K
          (access_known namespace)
          (get_workload_flux_config env r namespace object_name)
  unfolding get_workload_flux_config
  get_workload_flux_config-Tells K namespace object_name =
      Tells-call_then _ _ _ _ (λ a log k. (tt, tt))
        λ got. Tells-settle_then _ _ got _ λ access e.
          Tells-mono _ _ (flux_config_of-Tells _ access) λ reference log k named. record {
            object_name = object_name;
            access = access;
            read =
                subst
                  (λ x.
                    Seen
                      (got_access_request r.platform_cluster
                        (workload_access_key env namespace object_name) x)
                      log)
                  e k.1;
            named = named;
          }

  abbrev release_known : String → Option String → HelmReleaseSpec → Known
  release_known namespace values spec =
      and_known (access_known namespace spec.kube_config)
        (always (spec ≡ workload_release_spec namespace values spec.kube_config))

  create_helm_release-Tells :
      (K : Known) (namespace object_name : String) (values : Option String)
      → Tells
          (Justified env r)
          K
          (release_known namespace values)
          (create_helm_release env r namespace object_name values)
  unfolding create_helm_release workload_release_spec
  create_helm_release-Tells K namespace object_name values =
      Tells-told_then _ _ _
        (Tells-on_error _ _ _ (get_workload_flux_config-Tells K namespace object_name)
          (λ e. Causal-fail _ _) (fail-Stops _))
        λ reference. Tells-pure _ _ λ log k. (k.1, refl)

  module _ (K : Known) where
    pub create_or_update_helm_release-Causal :
        (version : KroVersion)
        → ((log : Log) → K.Fact log → OnOffer env r version log)
        → (namespace : String) (svcobj : Kro)
        → Causal
            (Justified env r)
            K
            (create_or_update_helm_release env r namespace svcobj version.helm_values)
    unfolding create_or_update_helm_release
    create_or_update_helm_release-Causal version offer namespace svcobj =
        Causal-told_then _ _ _
          (Tells-on_error _ _ _
            (create_helm_release-Tells K namespace svcobj.name version.helm_values)
            (λ e. Causal-fail _ _) (fail-Stops _))
          λ spec.
            Causal-bind _ _ _
              (Causal-call _ _ _ λ done log k. (
                tt,
                inl (record {
                  called = refl;
                  version = version;
                  offer = offer log k.0;
                  access = k.1.0;
                  values = ap (λ x. x.values) k.1.1;
                  chart = ap (λ x. x.chart_ref) k.1.1;
                  into = ap (λ x. x.target_namespace) k.1.1;
                }),
              ))
              (λ done. Causal-settle _ _ done)

    pub create_or_update_mcp_crds_helm_release-Causal :
        (namespace : String) (ctx : ClusterContext) (workload : Cluster)
        → ((log : Log) → K.Fact log → Delegated workload ctx.mcp_access_secret_key log)
        → Causal (Justified env r) K (create_or_update_mcp_crds_helm_release env r namespace ctx)
    unfolding create_or_update_mcp_crds_helm_release
    create_or_update_mcp_crds_helm_release-Causal namespace ctx workload delegated =
        Causal-bind _ _ _
          (Causal-call _ _ _ λ done log k. (
            tt,
            inr (record {
              called = refl;
              values = refl;
              workload = workload;
              secret_key = ctx.mcp_access_secret_key;
              delegated = delegated log k;
              target = refl;
              chart = refl;
              into = refl;
            }),
          ))
          (λ done. Causal-settle _ _ done)
