-- ===== src/Kube.antt =====
-- Types of the Kubernetes, controller-runtime and openmcp libraries, with the fields that the
-- program reads or writes.
use service_provider_kro.Base.{ℕ, zero, suc, String, Bool, true, false, Option, none, some}
use service_provider_kro.Base.Lists.{StringMap}
use service_provider_kro.Go.{ApiError, ℤ, pos, Duration}

-- The result of a call that leaves the program: a value, or an error.
pub data Answer (A : Type 0) : Type 0 where
  ok : A → Answer A
  err : ApiError → Answer A

-- `client.ObjectKey`, and the request of a reconcile
pub record Key : Type 0 where
  pub namespace : String
  pub name : String

-- `client.ObjectKey{}`
abbrev pub empty_key : Key
empty_key = record { namespace = ""; name = "" }

-- `metav1.Time`, as a count from the zero time
abbrev pub Time : Type 0
Time = ℕ

-- `(*metav1.Time).IsZero`, of a pointer that may be nil
unfoldable pub time_is_zero : Option Time → Bool
time_is_zero none = true
time_is_zero (some zero) = true
time_is_zero (some (suc t)) = false

-- `metav1.Condition`; `kind` is its `Type`
pub record Condition : Type 0 where
  pub kind : String
  pub status : String
  pub observed_generation : ℤ
  pub last_transition_time : Time
  pub reason : String
  pub message : String

-- The constants `metav1.ConditionTrue` and `metav1.ConditionFalse`
abbrev pub condition_true : String
condition_true = "True"

abbrev pub condition_false : String
condition_false = "False"

-- `clusters.Cluster`, by its identity
pub record Cluster : Type 0 where
  pub id : String

-- `corev1.Secret`: its `Data` and `Type`
pub record Secret : Type 0 where
  pub content : StringMap
  pub kind : String

-- `clustersv1alpha1.AccessRequest`; `secret_ref` is the name in `Status.SecretRef`
pub record AccessRequest : Type 0 where
  pub namespace : String
  pub deletion_timestamp : Option Time
  pub secret_ref : Option String

-- What `MCPAccessRequest` and `WorkloadAccessRequest` return: a pointer and an error, each
-- possibly nil.
pub record AccessAnswer : Type 0 where
  pub request : Option AccessRequest
  pub error : Option ApiError

-- `ctrl.Result`, of which the program reads and sets this field only
pub record CtrlResult : Type 0 where
  pub requeue_after : Duration

-- `ctrl.Result{}`
abbrev pub no_requeue : CtrlResult
no_requeue = record { requeue_after = pos 0 }
