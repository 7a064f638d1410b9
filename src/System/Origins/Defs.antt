-- ===== src/System/Origins/Defs.antt =====
-- The reasons that the events of a log have in the earlier ones.

use service_provider_kro.Exec.Known.{Seen, Known}
use service_provider_kro.Base.{String, ◌<>◌, some, none, List, [], ◌∷◌, ◌⊎◌, inr, ◌≡◌, false, true}
use service_provider_kro.Base.Lists.{lookup}
use service_provider_kro.Go.{is_positive}
use service_provider_kro.Kube.{
  time_is_zero, ok, Key, empty_key, Cluster, AccessRequest, AccessAnswer, Secret, CtrlResult,
}
use service_provider_kro.Flux.{
  OciRepositorySpec, SecretKeyReference, HelmReleaseSpec, ChartReference,
}
use service_provider_kro.Api.ProviderConfig.{ProviderConfig, KroVersion, resolve_version}
use service_provider_kro.Env.{
  Env, Event, Log, got_secret, upserted_secret, upserted_oci_repository, upserted_helm_release,
  got_access_request, got_provider_config, updated_kro, deleted_access, asked_workload_cluster,
  asked_mcp_request,
}
use service_provider_kro.Runtime.Context.{ClusterContext}
use service_provider_kro.Controller.Names.{
  kro_system_namespace, mcp_kubeconfig_secret_name, oci_repository_name, helm_release_name,
  mcp_helm_release_name, cluster_access_name, request_suffix_workload, KroReconciler,
}
use service_provider_kro.Controller.HelmValues.{HelmValues, extract_helm_values}
use service_provider_kro.Controller.Secrets.{key_in}
use service_provider_kro.Controller.Releases.{create_oci_repository}

-- The key is that of the secret which the access request names, or empty if it names none.
abbrev pub Names : AccessRequest → Key → Type 0
Names access key =
    ((access.secret_ref ≡ some key.name) × (access.namespace ≡ key.namespace))
    ⊎ ((access.secret_ref ≡ none) × (key ≡ empty_key))

-- For one and the same request, the access library answered with `c` as the workload cluster, and
-- with an access to the control plane that names the secret `source_key`.
pub record Delegated (c : Cluster) (source_key : Key) (log : Log) : Type 0 where
  pub request : Key
  pub workload : Seen (asked_workload_cluster request (ok (some c))) log
  pub control_plane : AccessAnswer
  pub asked : Seen (asked_mcp_request request control_plane) log
  pub no_error : control_plane.error ≡ none
  pub access : AccessRequest
  pub granted : control_plane.request ≡ some access
  pub named : Names access source_key

pub Delegated-later :
    (c : Cluster) (source_key : Key) (e : Event) (log : Log)
    → Delegated c source_key log
    → Delegated c source_key (e ∷ log)
Delegated-later c source_key e log d = record {
  request = d.request;
  workload = inr d.workload;
  control_plane = d.control_plane;
  asked = inr d.asked;
  no_error = d.no_error;
  access = d.access;
  granted = d.granted;
  named = d.named;
}

abbrev pub HasWorkload : ClusterContext → Type 0
HasWorkload ctx = (c : Cluster) × (ctx.workload_cluster ≡ some c)

-- What a context with a workload cluster says of the log
abbrev pub context_of : ClusterContext → Known
context_of ctx = record {
  Fact = λ log.
      (c : Cluster) → ctx.workload_cluster ≡ some c → Delegated c ctx.mcp_access_secret_key log;
  lasts = λ e log of_run h c there. Delegated-later c ctx.mcp_access_secret_key e log (h c there);
}

-- Where the access request for the workload cluster of an object stands
abbrev pub workload_access_key : Env → String → String → Key
workload_access_key env namespace object_name =
    key_in namespace
      (env.stable_request_name cluster_access_name object_name <> request_suffix_workload)

-- The chart in the OCIRepository of a namespace
abbrev pub chart_of : String → ChartReference
chart_of namespace = record {
  kind = "OCIRepository";
  name = oci_repository_name;
  namespace = namespace;
}

-- The text is in the list.
abbrev pub Listed : String → List String → Type 0
Listed x [] = ⊥
Listed x (y ∷ ys) = (y ≡ x) ⊎ Listed x ys

module _ (env : Env) (r : KroReconciler) where
  -- The API server answered with a config that offers this version.
  pub record OnOffer (version : KroVersion) (log : Log) : Type 0 where
    pub config_key : Key
    pub config : ProviderConfig
    pub read : Seen (got_provider_config config_key (ok config)) log
    pub live : time_is_zero config.deletion_timestamp ≡ true
    pub requested : String
    pub resolved : resolve_version env.quote (some config) requested ≡ inr version

  -- The pull secret of the chart of a version on offer, on the platform cluster
  pub record ChartPull (c : Cluster) (k source_key : Key) (log : Log) : Type 0 where
    pub own : source_key ≡ key_in r.pod_namespace k.name
    pub platform : c ≡ r.platform_cluster
    pub version : KroVersion
    pub offer : OnOffer version log
    pub named : k.name ≡ version.chart_pull_secret

  -- A pull secret that the values of a version on offer list, on a workload cluster
  pub record ImagePull (c : Cluster) (k source_key : Key) (log : Log) : Type 0 where
    pub own : source_key ≡ key_in r.pod_namespace k.name
    pub into : k.namespace ≡ kro_system_namespace
    pub mcp_key : Key
    pub workload : Delegated c mcp_key log
    pub version : KroVersion
    pub offer : OnOffer version log
    pub values : HelmValues
    pub extracted : extract_helm_values env version.helm_values ≡ inr values
    pub listed : Listed k.name values.image_pull_secrets

  -- The kubeconfig of a control plane, on the workload cluster of the same request
  pub record McpKubeconfig (c : Cluster) (k source_key : Key) (log : Log) : Type 0 where
    pub called : k ≡ key_in kro_system_namespace mcp_kubeconfig_secret_name
    pub delegated : Delegated c source_key log

  -- All content of a secret stands, under the same key, in a secret that was read before from the
  -- platform cluster, and there is one of three reasons to copy it.
  pub record SecretOrigin (c : Cluster) (k : Key) (x : Secret) (log : Log) : Type 0 where
    pub source_key : Key
    pub source : Secret
    pub read : Seen (got_secret r.platform_cluster source_key (ok source)) log
    pub contained :
        (field value : String)
        → lookup field x.content ≡ some value
        → lookup field source.content ≡ some value
    pub from :
        ChartPull c k source_key log
        ⊎ (ImagePull c k source_key log ⊎ McpKubeconfig c k source_key log)

  -- The artifact is the one of a version on offer.
  pub record Offered (spec : OciRepositorySpec) (log : Log) : Type 0 where
    pub version : KroVersion
    pub offer : OnOffer version log
    pub built : spec ≡ create_oci_repository version

  -- The secret is named by the access request of an object's workload, beside the release.
  pub record WorkloadAccess (namespace : String) (reference : SecretKeyReference) (log : Log)
      : Type 0 where
    pub object_name : String
    pub access : AccessRequest
    pub read :
        Seen
          (got_access_request r.platform_cluster
            (workload_access_key env namespace object_name)
            (ok access))
          log
    pub named : access.secret_ref ≡ some reference.name

  -- The release of Kro has the values of a version on offer, takes the chart of its own namespace,
  -- and goes to the workload cluster.
  pub record WorkloadRelease (k : Key) (spec : HelmReleaseSpec) (log : Log) : Type 0 where
    pub called : k.name ≡ helm_release_name
    pub version : KroVersion
    pub offer : OnOffer version log
    pub values : spec.values ≡ version.helm_values
    pub access : WorkloadAccess k.namespace spec.kube_config log
    pub chart : spec.chart_ref ≡ chart_of k.namespace
    pub into : spec.target_namespace ≡ kro_system_namespace

  -- The release of the CRDs takes the same chart, has no values, and goes to the control plane of a
  -- request whose workload cluster was answered too.
  pub record CrdsRelease (k : Key) (spec : HelmReleaseSpec) (log : Log) : Type 0 where
    pub called : k.name ≡ mcp_helm_release_name
    pub values : spec.values ≡ none
    pub workload : Cluster
    pub secret_key : Key
    pub delegated : Delegated workload secret_key log
    pub target : spec.kube_config.name ≡ secret_key.name
    pub chart : spec.chart_ref ≡ chart_of k.namespace
    pub into : spec.target_namespace ≡ kro_system_namespace

  abbrev pub HelmOrigin : Key → HelmReleaseSpec → Log → Type 0
  HelmOrigin k spec log = WorkloadRelease k spec log ⊎ CrdsRelease k spec log

  -- The access library confirmed that the access is gone, with nothing left to wait for.
  pub record AccessGone (log : Log) : Type 0 where
    pub request : Key
    pub result : CtrlResult
    pub confirmed : Seen (deleted_access request (ok result)) log
    pub at_once : is_positive result.requeue_after ≡ false

  abbrev pub Justified : Event → Log → Type 0
  Justified (upserted_secret c k x a) log = SecretOrigin c k x log
  Justified (upserted_oci_repository c k spec a) log = Offered spec log
  Justified (upserted_helm_release c k spec a) log = HelmOrigin k spec log
  Justified (updated_kro o a) log = AccessGone log
  Justified _ log = Unit
