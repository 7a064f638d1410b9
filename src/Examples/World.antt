-- ===== src/Examples/World.antt =====
-- One concrete outside: every call succeeds, both clusters are accessible, and `left`
-- ResourceGraphDefinitions remain on the control plane.
use service_provider_kro.Base.{
  ℕ, zero, suc, String, ◌<>◌, ◌==◌, eq_iff, Bool, true, false, Option, none, some, List, [], ◌∷◌,
  ◌≡◌, ◌≢◌, ◌↔◌, refl, sym, ◌∙◌, inl, inr, Bool-cases, if◌then◌else◌,
}
use service_provider_kro.Go.{ApiError, pos, is_invalid_user_input}
use service_provider_kro.Kube.{
  ok, err, Key, Time, Condition, condition_true, Cluster, AccessAnswer, no_requeue,
}
use service_provider_kro.Api.ProviderConfig.{ProviderConfig, KroVersion}
use service_provider_kro.Api.Kro.{Kro, key_of}
use service_provider_kro.Runtime.Context.{ClusterContext, ServiceProvider}
use service_provider_kro.Exec.{State}
use service_provider_kro.System.{kro_provider}
use service_provider_kro.Env.{Env}
use service_provider_kro.Env.Laws.{IgnoresInvalidUserInput, ConditionLaws, transition_time}
use service_provider_kro.Controller.Names.{KroReconciler}

abbrev at_time : Time → Option Condition → Condition → Condition
at_time now old c = record c { last_transition_time = transition_time now old c }

abbrev set_condition : Time → List Condition → Condition → List Condition
set_condition now [] c = at_time now none c ∷ []
set_condition now (d ∷ cs) c =
    let rest = set_condition now cs c in
    if d.kind == c.kind then at_time now (some d) c ∷ cs else d ∷ rest

abbrev find_condition : List Condition → String → Option Condition
find_condition [] kind = none
find_condition (d ∷ cs) kind =
    let rest = find_condition cs kind in if d.kind == kind then some d else rest

abbrev is_true : Option Condition → Bool
is_true none = false
is_true (some c) = c.status == condition_true

abbrev add : String → List String → List String
add x [] = x ∷ []
add x (y ∷ ys) = let rest = add x ys in if y == x then y ∷ ys else y ∷ rest

abbrev remove : String → List String → List String
remove x [] = []
remove x (y ∷ ys) = let rest = remove x ys in if y == x then rest else y ∷ rest

abbrev pub key_named : String → Key
key_named name = record { namespace = "default"; name = name }

abbrev request : String → AccessAnswer
request secret = record {
  request =
      some (record { namespace = "platform"; deletion_timestamp = none; secret_ref = some secret });
  error = none;
}

abbrev pub ready_condition : Condition
ready_condition = record {
  kind = "Ready";
  status = condition_true;
  observed_generation = pos 1;
  last_transition_time = 1;
  reason = "Succeeded";
  message = "";
}

-- The verb %d, as far as the runs below need it.
abbrev count_text : ℕ → String
count_text zero = "0"
count_text (suc n) = "some"

abbrev pub mcp : Cluster
mcp = record { id = "mcp" }

abbrev pub workload : Cluster
workload = record { id = "workload" }

abbrev pub gone : ApiError
gone = record { not_found = true; no_match = false; text = "not found" }

abbrev pub version_1 : KroVersion
version_1 = record {
  version = "1.0.0";
  chart_version = "0.1.0";
  chart_url = some "registry.example/kro";
  chart_pull_secret = "pull";
  helm_values = none;
}

abbrev pub config : ProviderConfig
config = record {
  name = "kro";
  deletion_timestamp = none;
  spec = record { versions = version_1 ∷ []; poll_interval = none };
}

abbrev pub my_kro : Kro
my_kro = record {
  name = "my-kro";
  namespace = "default";
  generation = pos 1;
  annotations = [];
  finalizers = [];
  deletion_timestamp = none;
  spec = record { version = "1.0.0" };
  status = record { conditions = []; observed_generation = pos 0; phase = ""; resources = [] };
}

abbrev pub reconciler : KroReconciler
reconciler = record {
  onboarding_cluster = record { id = "onboarding" };
  platform_cluster = record { id = "platform" };
  pod_namespace = "provider";
}

abbrev pub clusters_of_kro : ClusterContext
clusters_of_kro = record {
  mcp_cluster = some mcp;
  mcp_access_secret_key = record { namespace = "platform"; name = "mcp-access" };
  workload_cluster = some workload;
  workload_access_secret_key = record { namespace = "platform"; name = "workload-access" };
}

abbrev pub world : ℕ → Env
world left = record {
  now = λ log. 7;
  get_kro = λ log key. ok my_kro;
  patch_kro = λ log new old. ok new;
  patch_status = λ log new old. ok new;
  upsert_kro = λ log o f. (f o, none);
  update_kro = λ log o. ok o;
  list_kros = λ log. ok (key_of my_kro ∷ []);
  reconcile_access = λ log key. ok no_requeue;
  delete_access = λ log key. ok no_requeue;
  mcp_cluster = λ log key. ok (some mcp);
  workload_cluster = λ log key. ok (some workload);
  mcp_request = λ log key. request "mcp-access";
  workload_request = λ log key. request "workload-access";
  get_secret = λ log c key. ok (record { content = ("kubeconfig", "token") ∷ []; kind = "Opaque" });
  upsert_secret = λ log c key secret. ok tt;
  upsert_namespace = λ log c name. ok tt;
  upsert_oci_repository =
      λ log c k s. ok (record { key = k; spec = s; conditions = ready_condition ∷ [] });
  upsert_helm_release =
      λ log c k s. ok (record { key = k; spec = s; conditions = ready_condition ∷ [] });
  delete_object = λ log c o. ok tt;
  get_object = λ log c o. err gone;
  list_graph_definitions = λ log c. ok left;
  get_access_request = λ log c key. ok (record {
    namespace = "platform";
    deletion_timestamp = none;
    secret_ref = some "workload-access";
  });
  get_provider_config = λ log key. ok config;
  ignore_not_found = λ e. if e.not_found then none else some e;
  ignore_invalid_user_input = λ e. if is_invalid_user_input e then none else some e;
  invalid_user_input_text = "invalid user input";
  quote = λ s. "\"" <> (s <> "\"");
  decimal = count_text;
  key_text = λ k. k.namespace <> ("/" <> k.name);
  stable_mcp_namespace = λ name namespace. ok ("mcp--" <> name);
  stable_request_name = λ controller name. controller <> ("--" <> name);
  set_status_condition = set_condition;
  find_status_condition = find_condition;
  is_status_condition_true = λ cs kind. is_true (find_condition cs kind);
  add_finalizer = add;
  remove_finalizer = remove;
  semantic_equal = λ old new. old.phase == new.phase;
  gvk_error = none;
  unmarshal = λ text. ok [];
  source_group = "source.toolkit.fluxcd.io";
  helm_group = "helm.toolkit.fluxcd.io";
  ready_condition = "Ready";
  secret_type_opaque = "Opaque";
  operation_annotation = "openmcp.cloud/operation";
  operation_ignore = "ignore";
  operation_reconcile = "reconcile";
}

find-set_condition :
    (now : Time) (cs : List Condition) (c : Condition)
    → find_condition (set_condition now cs c) c.kind
      ≡ some (at_time now (find_condition cs c.kind) c)
find-set_condition now [] c = rw ((eq_iff c.kind c.kind).1 refl) refl
find-set_condition now (d ∷ cs) c = elim (Bool-cases (d.kind == c.kind)) [
  | inl same ↦ rw (same, (eq_iff c.kind c.kind).1 refl) refl
  | inr other ↦ rw (other, other) (find-set_condition now cs c)
]

differs : (a b : String) → a ≢ b → (a == b) ≡ false
differs a b ne = elim (Bool-cases (a == b)) [
  | inl same ↦ absurd (ne ((eq_iff a b).0 same))
  | inr other ↦ other
]

find-set_condition_ne :
    (now : Time) (cs : List Condition) (c : Condition) (kind : String)
    → c.kind ≢ kind
    → find_condition (set_condition now cs c) kind ≡ find_condition cs kind
find-set_condition_ne now [] c kind ne = rw (differs c.kind kind ne) refl
find-set_condition_ne now (d ∷ cs) c kind ne = elim (Bool-cases (d.kind == c.kind)) [
  | inl same ↦
      rw
        (
          same,
          differs c.kind kind ne,
          differs d.kind kind (λ e. ne (sym ((eq_iff d.kind c.kind).0 same) ∙ e)),
        )
        refl
  | inr other ↦ rw (other, find-set_condition_ne now cs c kind ne) refl
]

is_true_lem :
    (o : Option Condition)
    → (is_true o ≡ true) ↔ ((c : Condition) × (o ≡ some c) × (c.status ≡ condition_true))
is_true_lem none = (λ h. cc, λ (c, e, s). cc)
is_true_lem (some c) = (
  λ h. (c, refl, (eq_iff c.status condition_true).0 h),
  λ (d, e, s). (eq_iff c.status condition_true).1 cc,
)

pub world-ConditionLaws : (left : ℕ) → ConditionLaws (world left)
world-ConditionLaws left = record {
  find-set = λ now cs c unset. find-set_condition now cs c;
  find-set_ne = find-set_condition_ne;
  is_true_iff = λ cs kind. is_true_lem (find_condition cs kind);
}

pub world-IgnoresInvalidUserInput : (left : ℕ) → IgnoresInvalidUserInput (world left)
world-IgnoresInvalidUserInput left = λ e. refl

abbrev pub start : State
start = record { obj = my_kro; log = [] }

-- The whole controller, on the platform that `main.go` sets up.
abbrev pub provider : ServiceProvider
provider = kro_provider (world 0) reconciler
