-- ===== src/Start/Options.antt =====
-- cmd/service-provider-kro/main.go: the flags, and the options of the two servers made of them.
use service_provider_kro.Base.{
  String, ◌==◌, Bool, true, false, not, Option, none, some, List, [], ◌∷◌, if◌then◌else◌,
}

-- The variables that `main` binds to flags; the standard flags of the logger are not among them.
pub record Flags : Type 0 where
  pub environment : String
  pub provider_name : String
  pub metrics_addr : String
  pub probe_addr : String
  pub enable_leader_election : Bool
  pub secure_metrics : Bool
  pub webhook_cert_path : String
  pub webhook_cert_name : String
  pub webhook_cert_key : String
  pub metrics_cert_path : String
  pub metrics_cert_name : String
  pub metrics_cert_key : String
  pub enable_http2 : Bool

abbrev pub default_flags : Flags
default_flags = record {
  environment = "";
  provider_name = "";
  metrics_addr = "0";
  probe_addr = ":8081";
  enable_leader_election = false;
  secure_metrics = true;
  webhook_cert_path = "";
  webhook_cert_name = "tls.crt";
  webhook_cert_key = "tls.key";
  metrics_cert_path = "";
  metrics_cert_name = "tls.crt";
  metrics_cert_key = "tls.key";
  enable_http2 = false;
}

-- The command, and `os.Args` without it.
unfoldable pub extract_command : List String → String × List String
extract_command [] = ("", [])
extract_command (program ∷ []) = ("", program ∷ [])
extract_command (program ∷ (command ∷ args)) = (command, program ∷ args)

-- `tls.Config`, of which the program sets this field only
pub record TlsConfig : Type 0 where
  pub next_protos : List String

abbrev pub disable_http2 : TlsConfig → TlsConfig
disable_http2 c = record c { next_protos = "http/1.1" ∷ [] }

-- `tlsOpts`
unfoldable pub tls_opts : Flags → List (TlsConfig → TlsConfig)
tls_opts flags = if not flags.enable_http2 then disable_http2 ∷ [] else []

-- `webhook.Options`
pub record WebhookOptions : Type 0 where
  pub tls_opts : List (TlsConfig → TlsConfig)
  pub cert_dir : String
  pub cert_name : String
  pub key_name : String

unfoldable pub webhook_server_options : Flags → WebhookOptions
unfolding tls_opts
webhook_server_options flags =
    let options : WebhookOptions = record {
      tls_opts = tls_opts flags;
      cert_dir = "";
      cert_name = "";
      key_name = "";
    } in
    if not (flags.webhook_cert_path == "")
    then record options {
      cert_dir = flags.webhook_cert_path;
      cert_name = flags.webhook_cert_name;
      key_name = flags.webhook_cert_key;
    }
    else options

-- The only `FilterProvider` in use
pub data FilterProvider : Type 0 where
  with_authentication_and_authorization : FilterProvider

-- `metricsserver.Options`
pub record MetricsOptions : Type 0 where
  pub bind_address : String
  pub secure_serving : Bool
  pub tls_opts : List (TlsConfig → TlsConfig)
  pub filter_provider : Option FilterProvider
  pub cert_dir : String
  pub cert_name : String
  pub key_name : String

unfoldable pub metrics_server_options : Flags → MetricsOptions
unfolding tls_opts
metrics_server_options flags =
    let options : MetricsOptions = record {
      bind_address = flags.metrics_addr;
      secure_serving = flags.secure_metrics;
      tls_opts = tls_opts flags;
      filter_provider = none;
      cert_dir = "";
      cert_name = "";
      key_name = "";
    } in
    let filtered : MetricsOptions =
      if flags.secure_metrics
      then record options { filter_provider = some with_authentication_and_authorization }
      else options in
    if not (flags.metrics_cert_path == "")
    then record filtered {
      cert_dir = flags.metrics_cert_path;
      cert_name = flags.metrics_cert_name;
      key_name = flags.metrics_cert_key;
    }
    else filtered
