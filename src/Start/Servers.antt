-- ===== src/Start/Servers.antt =====
-- The options of the metrics and the webhook server.
use service_provider_kro.Base.{
  String, ◌==◌, true, some, List, [], ◌∷◌, ◌≡◌, ◌↔◌, refl, inl, inr, Bool-cases, if◌then◌else◌,
}
use service_provider_kro.Start.Options.{
  Flags, TlsConfig, with_authentication_and_authorization, tls_opts, webhook_server_options,
  metrics_server_options,
}

-- The options are applied in their order.
abbrev pub applied : List (TlsConfig → TlsConfig) → TlsConfig → TlsConfig
applied [] c = c
applied (option ∷ options) c = applied options (option c)

-- The protocols that a server offers, of those that it would offer without the program's options.
abbrev pub protocols : Flags → List String → List String
protocols flags protos = if flags.enable_http2 then protos else "http/1.1" ∷ []

module _ (flags : Flags) where
  -- Neither the certificate nor the protection of the metrics touches the TLS options.
  webhook-tls_opts : (webhook_server_options flags).tls_opts ≡ tls_opts flags
  unfolding webhook_server_options
  webhook-tls_opts = elim (Bool-cases (flags.webhook_cert_path == "")) [
    | inl empty ↦ rw empty refl
    | inr given ↦ rw given refl
  ]

  metrics-tls_opts : (metrics_server_options flags).tls_opts ≡ tls_opts flags
  unfolding metrics_server_options
  metrics-tls_opts = elim (Bool-cases (flags.metrics_cert_path == "")) [
    | inl empty ↦ elim (Bool-cases flags.secure_metrics) [
      | inl secure ↦ rw (empty, secure) refl
      | inr plain ↦ rw (empty, plain) refl
    ]
    | inr given ↦ elim (Bool-cases flags.secure_metrics) [
      | inl secure ↦ rw (given, secure) refl
      | inr plain ↦ rw (given, plain) refl
    ]
  ]

  tls_opts-protocols :
      (c : TlsConfig) → (applied (tls_opts flags) c).next_protos ≡ protocols flags c.next_protos
  unfolding tls_opts
  tls_opts-protocols c = elim (Bool-cases flags.enable_http2) [
    | inl enabled ↦ rw enabled refl
    | inr disabled ↦ rw disabled refl
  ]

  -- The options of both servers, applied in their order, leave HTTP/1.1 as the only protocol, or
  -- the protocols as they were if HTTP/2 is enabled. This is so with or without certificates and
  -- secure metrics.
  pub servers-protocols :
      (c d : TlsConfig)
      → ((applied (webhook_server_options flags).tls_opts c).next_protos
          ≡ protocols flags c.next_protos)
        × ((applied (metrics_server_options flags).tls_opts d).next_protos
            ≡ protocols flags d.next_protos)
  servers-protocols c d =
      rw (webhook-tls_opts, metrics-tls_opts) (tls_opts-protocols c, tls_opts-protocols d)

  -- The metrics are behind authentication and authorization exactly if they are served securely,
  -- with or without a certificate.
  pub metrics_server_options_lem :
      ((metrics_server_options flags).filter_provider ≡ some with_authentication_and_authorization)
      ↔ ((metrics_server_options flags).secure_serving ≡ true)
  unfolding metrics_server_options
  metrics_server_options_lem = elim (Bool-cases (flags.metrics_cert_path == "")) [
    | inl empty ↦ elim (Bool-cases flags.secure_metrics) [
      | inl secure ↦ rw (empty, secure) (λ h. refl, λ h. refl)
      | inr plain ↦ rw (empty, plain) (λ h. cc, λ h. cc)
    ]
    | inr given ↦ elim (Bool-cases flags.secure_metrics) [
      | inl secure ↦ rw (given, secure) (λ h. refl, λ h. refl)
      | inr plain ↦ rw (given, plain) (λ h. cc, λ h. cc)
    ]
  ]
