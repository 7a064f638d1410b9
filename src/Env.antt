-- ===== src/Env.antt =====
-- Everything outside the program, as a parameter: the API servers behind the cluster clients, the
-- cluster access library, the clock, and pure functions of the libraries.
-- Each call that leaves the program is an `Event` with its arguments and its answer. The answer
-- depends on all that happened before, so other writers, outages and races are included.
pub mod Laws
use service_provider_kro.Base.{ℕ, String, Bool, Option, List}
use service_provider_kro.Go.{ApiError, Error}
use service_provider_kro.Kube.{
  Answer, Key, Time, Condition, Cluster, Secret, AccessRequest, AccessAnswer, CtrlResult,
}
use service_provider_kro.Flux.{
  OciRepositorySpec, OciRepository, HelmReleaseSpec, HelmRelease, ManagedObject,
}
use service_provider_kro.Api.ProviderConfig.{ProviderConfig}
use service_provider_kro.Api.Kro.{Kro, KroStatus}

pub data Event : Type 0 where
  -- the clock that `SetStatusCondition` reads
  read_clock : Time → Event
  -- the onboarding cluster: Get, Patch and Status().Patch (the new object and the one that the
  -- patch is made from), CreateOrUpdate (the mutated argument, the object after the call and the
  -- error), Update, and List
  got_kro : Key → Answer Kro → Event
  patched_kro : Kro → Kro → Answer Kro → Event
  patched_status : Kro → Kro → Answer Kro → Event
  upserted_kro : Kro → Kro → Option ApiError → Event
  updated_kro : Kro → Answer Kro → Event
  listed_kros : Answer (List Key) → Event
  -- the `ClusterAccessProvider`
  reconciled_access : Key → Answer CtrlResult → Event
  deleted_access : Key → Answer CtrlResult → Event
  asked_mcp_cluster : Key → Answer (Option Cluster) → Event
  asked_workload_cluster : Key → Answer (Option Cluster) → Event
  asked_mcp_request : Key → AccessAnswer → Event
  asked_workload_request : Key → AccessAnswer → Event
  -- calls of a cluster's client; an upsert is `ctrl.CreateOrUpdate` with what its function sets
  got_secret : Cluster → Key → Answer Secret → Event
  upserted_secret : Cluster → Key → Secret → Answer Unit → Event
  upserted_namespace : Cluster → String → Answer Unit → Event
  upserted_oci_repository : Cluster → Key → OciRepositorySpec → Answer OciRepository → Event
  upserted_helm_release : Cluster → Key → HelmReleaseSpec → Answer HelmRelease → Event
  deleted_object : Cluster → ManagedObject → Answer Unit → Event
  got_object : Cluster → ManagedObject → Answer Unit → Event
  listed_graph_definitions : Cluster → Answer ℕ → Event
  got_access_request : Cluster → Key → Answer AccessRequest → Event
  got_provider_config : Key → Answer ProviderConfig → Event
  -- a send on the channel `providerUpdateChannel`
  notified : Option ProviderConfig → Event

-- What happened so far, the latest event first.
abbrev pub Log : Type 0
Log = List Event

pub record Env : Type 0 where
  -- answers of the outside, after the events so far
  pub now : Log → Time
  pub get_kro : Log → Key → Answer Kro
  pub patch_kro : Log → Kro → Kro → Answer Kro
  pub patch_status : Log → Kro → Kro → Answer Kro
  pub upsert_kro : Log → Kro → (Kro → Kro) → Kro × Option ApiError
  pub update_kro : Log → Kro → Answer Kro
  pub list_kros : Log → Answer (List Key)
  pub reconcile_access : Log → Key → Answer CtrlResult
  pub delete_access : Log → Key → Answer CtrlResult
  pub mcp_cluster : Log → Key → Answer (Option Cluster)
  pub workload_cluster : Log → Key → Answer (Option Cluster)
  pub mcp_request : Log → Key → AccessAnswer
  pub workload_request : Log → Key → AccessAnswer
  pub get_secret : Log → Cluster → Key → Answer Secret
  pub upsert_secret : Log → Cluster → Key → Secret → Answer Unit
  pub upsert_namespace : Log → Cluster → String → Answer Unit
  pub upsert_oci_repository : Log → Cluster → Key → OciRepositorySpec → Answer OciRepository
  pub upsert_helm_release : Log → Cluster → Key → HelmReleaseSpec → Answer HelmRelease
  pub delete_object : Log → Cluster → ManagedObject → Answer Unit
  pub get_object : Log → Cluster → ManagedObject → Answer Unit
  pub list_graph_definitions : Log → Cluster → Answer ℕ
  pub get_access_request : Log → Cluster → Key → Answer AccessRequest
  pub get_provider_config : Log → Key → Answer ProviderConfig
  -- client.IgnoreNotFound, ctrlerrors.IgnoreInvalidUserInput
  pub ignore_not_found : ApiError → Option ApiError
  pub ignore_invalid_user_input : Error → Option Error
  -- the text of ctrlerrors.ErrInvalidUserInput, and the verbs %q and %d of package fmt
  pub invalid_user_input_text : String
  pub quote : String → String
  pub decimal : ℕ → String
  -- (types.NamespacedName).String
  pub key_text : Key → String
  -- libutils.StableMCPNamespace, clusteraccess.StableRequestNameFromLocalName
  pub stable_mcp_namespace : String → String → Answer String
  pub stable_request_name : String → String → String
  -- meta.SetStatusCondition, FindStatusCondition, IsStatusConditionTrue
  pub set_status_condition : Time → List Condition → Condition → List Condition
  pub find_status_condition : List Condition → String → Option Condition
  pub is_status_condition_true : List Condition → String → Bool
  -- controllerutil.AddFinalizer and RemoveFinalizer, on the list of finalizers
  pub add_finalizer : String → List String → List String
  pub remove_finalizer : String → List String → List String
  -- equality.Semantic.DeepEqual on two statuses
  pub semantic_equal : KroStatus → KroStatus → Bool
  -- the error of apiutil.GVKForObject for a Kro object, if any
  pub gvk_error : Option ApiError
  -- json.Unmarshal into `HelmValues`: the names under `imagePullSecrets`, or the error
  pub unmarshal : String → Answer (List String)
  -- sourcev1.GroupVersion.Group, helmv2.GroupVersion.Group, meta.ReadyCondition,
  -- corev1.SecretTypeOpaque, and the operation annotation of openmcp with its two values
  pub source_group : String
  pub helm_group : String
  pub ready_condition : String
  pub secret_type_opaque : String
  pub operation_annotation : String
  pub operation_ignore : String
  pub operation_reconcile : String
