-- ===== src/Examples/Start.antt =====
-- Starts of the program, and the theorems on them, applied.
use service_provider_kro.Base.{
  String, Bool, true, false, Option, none, some, List, [], ◌∷◌, ◌⊎◌, inr, ◌≡◌, ◌≢◌, ◌↔◌, refl,
}
use service_provider_kro.Kube.{Cluster}
use service_provider_kro.Start.Options.{
  Flags, default_flags, extract_command, with_authentication_and_authorization,
  webhook_server_options, metrics_server_options,
}
use service_provider_kro.Start.Outside.{Calls, Platform, ran_manager}
use service_provider_kro.Start.Steps.{◌>>=◌, must}
use service_provider_kro.Start.Program.{use_pointer, onboarding_cluster, execute, main}
use service_provider_kro.Start.Rules.{Made}
use service_provider_kro.Start.Prepared.{Prepared, ran_manager-Prepared, main-served}
use service_provider_kro.Start.Init.{Checked, Inits, init_lem}
use service_provider_kro.Start.Servers.{
  applied, protocols, servers-protocols, metrics_server_options_lem,
}
use service_provider_kro.Examples.World.{gone}

abbrev kro_flags : Flags
kro_flags = record default_flags { provider_name = "kro" }

abbrev is_some : Option Cluster → Bool
is_some none = false
is_some (some c) = true

abbrev machine : Platform
machine = record {
  getenv = λ name. "kro-system";
  parse_flags = λ flags args. inr kro_flags;
  has_config = true;
  is_usable = is_some;
  get_logger = λ calls. none;
  initialize_client = λ calls c scheme. none;
  create_and_wait_for_cluster =
      λ calls request. record { cluster = some (record { id = "onboarding" }); error = none };
  create_or_update_crds = λ calls mapping. some gone;
  register_gvks = λ calls c name kind. none;
  new_manager = λ calls c options. none;
  add_cluster = λ calls c. none;
  set_up_objects = λ calls r name sources. none;
  set_up_configs = λ calls r source. none;
  add_health_check = λ calls name. none;
  add_ready_check = λ calls name. none;
  run_manager = λ calls. none;
  env_variable_pod_namespace = "POD_NAMESPACE";
  purpose_platform = "platform";
  purpose_onboarding = "onboarding";
}

abbrev run_args : List String
run_args = "service-provider-kro" ∷ "run" ∷ "--provider-name=kro" ∷ []

abbrev tail : Calls → Calls
tail [] = []
tail (x ∷ calls) = calls

ran_manager-Prepared_example : Prepared machine kro_flags (tail (main machine run_args []).1)
unfolding main execute use_pointer onboarding_cluster ◌>>=◌ must
ran_manager-Prepared_example =
    ran_manager-Prepared machine kro_flags run_args refl [] (tail (main machine run_args []).1) none
      refl

main-served_example :
    ((extract_command run_args).0 ≡ "init") ⊎ Made (ran_manager none) (main machine run_args []).1
unfolding main execute use_pointer onboarding_cluster ◌>>=◌ must
main-served_example = main-served machine kro_flags run_args refl refl

namespace_set : machine.getenv machine.env_variable_pod_namespace ≢ ""
namespace_set e = cc

all_checked : Checked machine
all_checked = record {
  logger = λ calls. refl;
  has_config = refl;
  client = λ calls c. refl;
  namespace = namespace_set;
  usable = λ c. refl;
  dereferenced = refl;
}

init_lem_example : Inits machine "kro" (execute machine "init" kro_flags [])
init_lem_example = init_lem machine all_checked kro_flags []

servers-protocols_example :
    ((applied
        (webhook_server_options kro_flags).tls_opts
        (record { next_protos = "h2" ∷ [] })).next_protos
      ≡ protocols kro_flags ("h2" ∷ []))
    × ((applied
          (metrics_server_options kro_flags).tls_opts
          (record { next_protos = "h2" ∷ [] })).next_protos
        ≡ protocols kro_flags ("h2" ∷ []))
servers-protocols_example =
    servers-protocols kro_flags (record { next_protos = "h2" ∷ [] })
      (record { next_protos = "h2" ∷ [] })

metrics_server_options_lem_example :
    ((metrics_server_options kro_flags).filter_provider
      ≡ some with_authentication_and_authorization)
    ↔ ((metrics_server_options kro_flags).secure_serving ≡ true)
metrics_server_options_lem_example = metrics_server_options_lem kro_flags
