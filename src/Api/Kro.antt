-- ===== src/Api/Kro.antt =====
-- api/v1alpha1/kro_types.go: the domain object and its status, and GroupVersion.Group of
-- api/v1alpha1/groupversion_info.go.
use service_provider_kro.Base.{String, ◌<>◌, Option, List}
use service_provider_kro.Base.Lists.{StringMap}
use service_provider_kro.Go.{ℤ}
use service_provider_kro.Kube.{Time, Condition, Key}

abbrev pub group : String
group = "kro.services.open-control-plane.io"

abbrev pub default_release_name : String
default_release_name = "kro"

pub data InstancePhase : Type 0 where
  pending progressing ready failed terminating unknown : InstancePhase

pub data ResourceLocation : Type 0 where
  managed_control_plane platform_cluster : ResourceLocation

-- `corev1.TypedObjectReference`
pub record ObjectReference : Type 0 where
  pub api_group : Option String
  pub kind : String
  pub name : String
  pub namespace : Option String

pub record ManagedResource : Type 0 where
  pub reference : ObjectReference
  pub phase : InstancePhase
  pub message : String
  pub location : ResourceLocation

pub record KroSpec : Type 0 where
  pub version : String

-- `commonapi.Status` is inlined: conditions, observed generation and phase.
pub record KroStatus : Type 0 where
  pub conditions : List Condition
  pub observed_generation : ℤ
  pub phase : String
  pub resources : List ManagedResource

pub record Kro : Type 0 where
  pub name : String
  pub namespace : String
  pub generation : ℤ
  pub annotations : StringMap
  pub finalizers : List String
  pub deletion_timestamp : Option Time
  pub spec : KroSpec
  pub status : KroStatus

-- `client.ObjectKeyFromObject`
abbrev pub key_of : Kro → Key
key_of o = record { namespace = o.namespace; name = o.name }

abbrev pub finalizer : Kro → String
finalizer o = group <> "/finalizer"

abbrev pub set_conditions : List Condition → Kro → Kro
set_conditions cs o = record o { status = record o.status { conditions = cs } }

abbrev pub set_phase : String → Kro → Kro
set_phase phase o = record o { status = record o.status { phase = phase } }

abbrev pub set_observed_generation : ℤ → Kro → Kro
set_observed_generation gen o = record o { status = record o.status { observed_generation = gen } }

abbrev pub set_resources : List ManagedResource → Kro → Kro
set_resources rs o = record o { status = record o.status { resources = rs } }
