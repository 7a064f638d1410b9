-- ===== src/System/Origins/Secrets.antt =====
-- replicateChartPullSecret and replicateImagePullSecrets of internal/controller/kro_controller.go,
-- and the reasons of their writes.
use service_provider_kro.Base.{
  String, ◌==◌, Option, none, some, List, [], ◌∷◌, ◌⊎◌, inl, inr, ◌≡◌, refl,
}
use service_provider_kro.Kube.{Answer, ok, Key, Cluster, Secret}
use service_provider_kro.Api.ProviderConfig.{KroVersion}
use service_provider_kro.Env.{Env, Log, got_secret}
use service_provider_kro.Exec.Known.{Known, Seen}
use service_provider_kro.Exec.Causal.{
  Causal, causal_rules, Causal-pure, Causal-fail, Causal-if, Causal-call, Causal-settle,
  Causal-bind, Causal-call_then, Causal-settle_then, Causal-from_either, Causal-either_then,
}
use service_provider_kro.Controller.Names.{KroReconciler}
use service_provider_kro.Controller.HelmValues.{HelmValues, extract_helm_values}
use service_provider_kro.Controller.Secrets.{
  replicate_chart_pull_secret, ensure_namespace, replicate_image_pull_secret,
  copy_image_pull_secrets, replicate_named_secrets, replicate_image_pull_secrets,
}
use service_provider_kro.System.Origins.Defs.{
  Justified, ChartPull, ImagePull, OnOffer, Listed, SecretOrigin, Delegated,
}

module _ (env : Env) (r : KroReconciler) (K : Known) where
  pub ensure_namespace-Causal :
      (workload : Cluster) → Causal (Justified env r) K (ensure_namespace env r workload)
  unfolding ensure_namespace
  ensure_namespace-Causal workload = search (causal_rules, Causal-call)

  -- A copy of the secret that was just read.
  copied :
      (c : Cluster) (source_key target_key : Key) (source : Secret) (log : Log)
      → ChartPull env r c target_key source_key log ⊎ ImagePull env r c target_key source_key log
      → Seen (got_secret r.platform_cluster source_key (ok source)) log
      → SecretOrigin env r c target_key
          (record { content = source.content; kind = source.kind })
          log
  copied c source_key target_key source log from seen = record {
    source_key = source_key;
    source = source;
    read = seen;
    contained = λ field value h. h;
    from = elim from [ inl chart ↦ inl chart | inr image ↦ inr (inl image) ];
  }

  pub answered-Seen :
      (k : Key) (got : Answer Secret) (source : Secret) (log : Log)
      → got ≡ ok source
      → Seen (got_secret r.platform_cluster k got) log
      → Seen (got_secret r.platform_cluster k (ok source)) log
  answered-Seen k got source log e seen = rw e at seen

  pub replicate_chart_pull_secret-Causal :
      (version : KroVersion)
      → ((log : Log) → K.Fact log → OnOffer env r version log)
      → (tenant_namespace : String)
      → Causal
          (Justified env r)
          K
          (replicate_chart_pull_secret env r version.chart_pull_secret tenant_namespace)
  unfolding replicate_chart_pull_secret
  replicate_chart_pull_secret-Causal version offered tenant_namespace =
      Causal-if _ (version.chart_pull_secret == "") _ _ (Causal-pure _ _) (
        Causal-call_then _ _ _ _ (λ a log k. (tt, tt))
          λ got. Causal-settle_then _ _ got _ λ source answered.
            Causal-bind _ _ _
              (Causal-call _ _ _ λ done log k. (
                tt,
                copied _ _ _ source log
                    (inl (record {
                      own = refl;
                      platform = refl;
                      version = version;
                      offer = offered log k.0;
                      named = refl;
                    }))
                    (answered-Seen _ got source log answered k.1),
              ))
              (λ done. Causal-settle _ _ done))

  -- The copies for the values of a version on offer, on the workload cluster of a request
  module _ (version : KroVersion) (offered : (log : Log) → K.Fact log → OnOffer env r version log)
      (values : HelmValues) (extracted : extract_helm_values env version.helm_values ≡ inr values)
      (workload : Cluster) (mcp_key : Key)
      (delegated : (log : Log) → K.Fact log → Delegated workload mcp_key log) where
    replicate_image_pull_secret-Causal :
        (name : String)
        → Listed name values.image_pull_secrets
        → Causal (Justified env r) K (replicate_image_pull_secret env r workload name)
    unfolding replicate_image_pull_secret
    replicate_image_pull_secret-Causal name listed =
        Causal-call_then _ _ _ _ (λ a log k. (tt, tt))
          λ got. Causal-settle_then _ _ got _ λ source answered.
            Causal-bind _ _ _
              (Causal-call _ _ _ λ done log k. (
                tt,
                copied _ _ _ source log
                    (inr (record {
                      own = refl;
                      into = refl;
                      mcp_key = mcp_key;
                      workload = delegated log k.0;
                      version = version;
                      offer = offered log k.0;
                      values = values;
                      extracted = extracted;
                      listed = listed;
                    }))
                    (answered-Seen _ got source log answered k.1),
              ))
              (λ done. Causal-settle _ _ done)

    copy_image_pull_secrets-Causal :
        (names : List String)
        → ((name : String) → Listed name names → Listed name values.image_pull_secrets)
        → Causal (Justified env r) K (copy_image_pull_secrets env r workload names)
    unfolding copy_image_pull_secrets
    copy_image_pull_secrets-Causal [] all = Causal-pure _ _
    copy_image_pull_secrets-Causal (name ∷ names) all =
        Causal-bind _ _ _ (replicate_image_pull_secret-Causal name (all name (inl refl)))
          (λ _. copy_image_pull_secrets-Causal names (λ n l. all n (inr l)))

    replicate_named_secrets-Causal :
        (names : List String)
        → ((name : String) → Listed name names → Listed name values.image_pull_secrets)
        → Causal (Justified env r) K (replicate_named_secrets env r (some workload) names)
    unfolding replicate_named_secrets
    replicate_named_secrets-Causal [] all = Causal-pure _ _
    replicate_named_secrets-Causal (name ∷ names) all =
        Causal-bind _ _ _ (ensure_namespace-Causal workload)
          (λ _. copy_image_pull_secrets-Causal (name ∷ names) all)

  unreachable-Causal :
      (names : List String) → Causal (Justified env r) K (replicate_named_secrets env r none names)
  unfolding replicate_named_secrets
  unreachable-Causal [] = Causal-pure _ _
  unreachable-Causal (name ∷ names) = Causal-fail _ _

  pub replicate_image_pull_secrets-Causal :
      (version : KroVersion)
      → ((log : Log) → K.Fact log → OnOffer env r version log)
      → (workload : Option Cluster) (mcp_key : Key)
      → ((log : Log) → K.Fact log → (c : Cluster) → workload ≡ some c → Delegated c mcp_key log)
      → Causal (Justified env r) K (replicate_image_pull_secrets env r workload version.helm_values)
  unfolding replicate_image_pull_secrets
  replicate_image_pull_secrets-Causal version offered none mcp_key known =
      Causal-bind _ _ _ (Causal-from_either _ (extract_helm_values env version.helm_values))
        (λ found. unreachable-Causal found.image_pull_secrets)
  replicate_image_pull_secrets-Causal version offered (some workload) mcp_key known =
      Causal-either_then _ (extract_helm_values env version.helm_values) _ λ found e.
        replicate_named_secrets-Causal version offered found e workload mcp_key
          (λ log k. known log k workload refl) found.image_pull_secrets (λ name l. l)
