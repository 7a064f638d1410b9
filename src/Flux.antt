-- ===== src/Flux.antt =====
-- Types of the Flux and kustomize libraries, with the fields that the program sets or reads.
use service_provider_kro.Base.{ℕ, String, Bool, Option, List}
use service_provider_kro.Go.{Duration}
use service_provider_kro.Kube.{Key, Condition}

-- `sourcev1.OCIRepositorySpec`; `secret_ref` is the name in `SecretRef`
pub record OciRepositorySpec : Type 0 where
  pub interval : Duration
  pub url : String
  pub secret_ref : Option String
  pub tag : String

-- `conditions` is `Status.Conditions`
pub record OciRepository : Type 0 where
  pub key : Key
  pub spec : OciRepositorySpec
  pub conditions : List Condition

-- `helmv2.CRDsPolicy`
pub data CrdsPolicy : Type 0 where
  skip create create_replace : CrdsPolicy

pub record Install : Type 0 where
  pub crds : CrdsPolicy
  pub create_namespace : Bool
  pub retries : ℕ

-- `helmv2.RemediationStrategy`
pub data RemediationStrategy : Type 0 where
  rollback uninstall : RemediationStrategy

pub record Upgrade : Type 0 where
  pub crds : CrdsPolicy
  pub cleanup_on_fail : Bool
  pub retries : ℕ
  pub strategy : RemediationStrategy

-- `helmv2.CrossNamespaceSourceReference`
pub record ChartReference : Type 0 where
  pub kind : String
  pub name : String
  pub namespace : String

-- `meta.SecretKeyReference`
pub record SecretKeyReference : Type 0 where
  pub name : String
  pub key : String

-- `kustomize.Selector`; a field that is not set is the empty text
pub record Selector : Type 0 where
  pub group : String
  pub version : String
  pub kind : String

-- `kustomize.Patch`
pub record Patch : Type 0 where
  pub patch : String
  pub target : Selector

-- `helmv2.PostRenderer`: the patches of its `Kustomize`
pub record PostRenderer : Type 0 where
  pub patches : List Patch

pub record HelmReleaseSpec : Type 0 where
  pub release_name : String
  pub interval : Duration
  pub target_namespace : String
  pub storage_namespace : String
  pub install : Install
  pub upgrade : Upgrade
  pub chart_ref : ChartReference
  pub values : Option String
  pub kube_config : SecretKeyReference
  pub post_renderers : List PostRenderer

pub record HelmRelease : Type 0 where
  pub key : Key
  pub spec : HelmReleaseSpec
  pub conditions : List Condition

-- The kinds of the objects that the controller deletes.
pub data ManagedKind : Type 0 where
  oci_repository helm_release : ManagedKind

pub record ManagedObject : Type 0 where
  pub kind : ManagedKind
  pub key : Key
