-- ===== src/Controller/Install/Plan.antt =====
-- What an installation should write, as a list: the declarative side of `CreateOrUpdate`.
use service_provider_kro.Base.{
  String, ◌==◌, Option, none, some, List, [], ◌∷◌, ◌++◌, ◌⊎◌, inl, inr, if◌then◌else◌,
}
use service_provider_kro.Go.{Error}
use service_provider_kro.Kube.{ok, Key, Cluster}
use service_provider_kro.Flux.{OciRepositorySpec, HelmReleaseSpec, ManagedObject}
use service_provider_kro.Api.ProviderConfig.{KroVersion}
use service_provider_kro.Runtime.Context.{ClusterContext}
use service_provider_kro.Env.{
  Env, Event, read_clock, got_kro, patched_kro, patched_status, upserted_kro, updated_kro,
  listed_kros, reconciled_access, deleted_access, asked_mcp_cluster, asked_workload_cluster,
  asked_mcp_request, asked_workload_request, got_secret, upserted_secret, upserted_namespace,
  upserted_oci_repository, upserted_helm_release, deleted_object, got_object,
  listed_graph_definitions, got_access_request, got_provider_config, notified,
}
use service_provider_kro.Controller.Names.{
  oci_repository_name, helm_release_name, mcp_helm_release_name, kro_system_namespace,
  mcp_kubeconfig_secret_name, KroReconciler,
}
use service_provider_kro.Controller.HelmValues.{HelmValues, extract_helm_values}
use service_provider_kro.Controller.Secrets.{key_in}
use service_provider_kro.Controller.Releases.{
  create_oci_repository, workload_release_spec, crds_release_spec,
}

-- A write to a cluster. A release is compared without the secret that it takes its access from.
pub data Write : Type 0 where
  secret : Cluster → Key → Write
  namespace : Cluster → String → Write
  oci_repository : Cluster → Key → OciRepositorySpec → Write
  helm_release : Cluster → Key → HelmReleaseSpec → Write
  removal : Cluster → ManagedObject → Write
  kro : Write
  access : Write
  message : Write

abbrev pub without_access : HelmReleaseSpec → HelmReleaseSpec
without_access spec = record spec { kube_config = record { name = ""; key = "" } }

-- What a write-like call tries to write.
abbrev pub attempted : Event → List Write
attempted (read_clock _) = []
attempted (got_kro _ _) = []
attempted (patched_kro _ _ _) = kro ∷ []
attempted (patched_status _ _ _) = kro ∷ []
attempted (upserted_kro _ _ _) = kro ∷ []
attempted (updated_kro _ _) = kro ∷ []
attempted (listed_kros _) = []
attempted (reconciled_access _ _) = access ∷ []
attempted (deleted_access _ _) = access ∷ []
attempted (asked_mcp_cluster _ _) = []
attempted (asked_workload_cluster _ _) = []
attempted (asked_mcp_request _ _) = []
attempted (asked_workload_request _ _) = []
attempted (got_secret _ _ _) = []
attempted (upserted_secret c k _ _) = secret c k ∷ []
attempted (upserted_namespace c n _) = namespace c n ∷ []
attempted (upserted_oci_repository c k spec _) = oci_repository c k spec ∷ []
attempted (upserted_helm_release c k spec _) = helm_release c k (without_access spec) ∷ []
attempted (deleted_object c o _) = removal c o ∷ []
attempted (got_object _ _ _) = []
attempted (listed_graph_definitions _ _) = []
attempted (got_access_request _ _ _) = []
attempted (got_provider_config _ _) = []
attempted (notified _) = message ∷ []

-- The writes of an installation that were answered with success.
abbrev pub acknowledged : Event → List Write
acknowledged (upserted_secret c k _ (ok _)) = secret c k ∷ []
acknowledged (upserted_namespace c n (ok _)) = namespace c n ∷ []
acknowledged (upserted_oci_repository c k spec (ok _)) = oci_repository c k spec ∷ []
acknowledged (upserted_helm_release c k spec (ok _)) = helm_release c k (without_access spec) ∷ []
acknowledged _ = []

abbrev pub chart_secret_writes : KroReconciler → String → String → List Write
chart_secret_writes r tenant_namespace name =
    if name == "" then [] else secret r.platform_cluster (key_in tenant_namespace name) ∷ []

abbrev pub names_of : Error ⊎ HelmValues → List String
names_of (inl e) = []
names_of (inr values) = values.image_pull_secrets

abbrev pub copies : Cluster → List String → List Write
copies workload [] = []
copies workload (name ∷ names) =
    secret workload (key_in kro_system_namespace name) ∷ copies workload names

abbrev pub image_secret_writes : Option Cluster → List String → List Write
image_secret_writes none names = []
image_secret_writes (some workload) [] = []
image_secret_writes (some workload) (name ∷ names) =
    namespace workload kro_system_namespace ∷ copies workload (name ∷ names)

abbrev pub kubeconfig_writes : Option Cluster → List Write
kubeconfig_writes none = []
kubeconfig_writes (some workload) =
    namespace workload kro_system_namespace
    ∷ secret workload (key_in kro_system_namespace mcp_kubeconfig_secret_name)
    ∷ []

abbrev pub oci_writes : KroReconciler → String → KroVersion → List Write
oci_writes r tenant_namespace version =
    oci_repository r.platform_cluster (key_in tenant_namespace oci_repository_name)
      (create_oci_repository version)
    ∷ []

abbrev pub crds_writes : KroReconciler → ClusterContext → String → List Write
crds_writes r ctx tenant_namespace =
    helm_release r.platform_cluster (key_in tenant_namespace mcp_helm_release_name)
      (without_access (crds_release_spec tenant_namespace ctx))
    ∷ []

-- The release on the workload cluster, up to its access.
abbrev pub planned_release : String → Option String → HelmReleaseSpec
planned_release tenant_namespace values =
    without_access (workload_release_spec tenant_namespace values (record { name = ""; key = "" }))

abbrev pub release_writes : KroReconciler → String → Option String → List Write
release_writes r tenant_namespace values =
    helm_release r.platform_cluster (key_in tenant_namespace helm_release_name)
      (planned_release tenant_namespace values)
    ∷ []

-- The whole installation of a version, in its order.
abbrev pub install_plan : Env → KroReconciler → ClusterContext → String → KroVersion → List Write
install_plan env r ctx tenant_namespace version =
    chart_secret_writes r tenant_namespace version.chart_pull_secret
    ++ (oci_writes r tenant_namespace version
        ++ (image_secret_writes ctx.workload_cluster
              (names_of (extract_helm_values env version.helm_values))
            ++ (kubeconfig_writes ctx.workload_cluster
                ++ (crds_writes r ctx tenant_namespace
                    ++ release_writes r tenant_namespace version.helm_values))))
