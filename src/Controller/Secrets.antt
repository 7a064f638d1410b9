-- ===== src/Controller/Secrets.antt =====
-- internal/controller/kro_controller.go: the three functions that copy secrets.
use service_provider_kro.Base.{String, ◌<>◌, ◌==◌, Option, none, some, List, [], ◌∷◌, if◌then◌else◌}
use service_provider_kro.Base.Lists.{lookup}
use service_provider_kro.Go.{new}
use service_provider_kro.Kube.{Key, Cluster, Secret}
use service_provider_kro.Runtime.Context.{ClusterContext}
use service_provider_kro.Env.{Env, got_secret, upserted_secret, upserted_namespace}
use service_provider_kro.Exec.{Exec, pure, fail, call, checked, from_either, ◌>>=◌, ◌>>◌}
use service_provider_kro.Controller.Names.{
  kro_system_namespace, mcp_kubeconfig_secret_name, mcp_kubeconfig_key, KroReconciler,
}
use service_provider_kro.Controller.HelmValues.{extract_helm_values}

abbrev pub key_in : String → String → Key
key_in namespace name = record { namespace = namespace; name = name }

module _ (env : Env) (r : KroReconciler) where
  unfoldable pub replicate_chart_pull_secret : String → String → Exec Unit
  replicate_chart_pull_secret secret_name target_namespace =
      if secret_name == "" then pure tt else do
        let source_key = key_in r.pod_namespace secret_name
        got ←
            call (λ log. env.get_secret log r.platform_cluster source_key)
              (got_secret r.platform_cluster source_key)
        source ←
            checked
              ("failed to get secret "
                <> (env.quote secret_name
                    <> (" from namespace " <> (env.quote r.pod_namespace <> ": "))))
              got
        let target_key = key_in target_namespace secret_name
        let target : Secret = record { content = source.content; kind = source.kind }
        done ←
            call (λ log. env.upsert_secret log r.platform_cluster target_key target)
              (upserted_secret r.platform_cluster target_key target)
        checked
            ("failed to replicate secret "
              <> (env.quote secret_name
                  <> (" to namespace " <> (env.quote target_namespace <> ": "))))
            done

  -- `ctrl.CreateOrUpdate` of the namespace kro-system with an empty function
  unfoldable pub ensure_namespace : Cluster → Exec Unit
  ensure_namespace workload = do
    done ←
        call (λ log. env.upsert_namespace log workload kro_system_namespace)
          (upserted_namespace workload kro_system_namespace)
    checked
        ("failed to ensure namespace "
          <> (env.quote kro_system_namespace <> " on workload cluster: "))
        done

  -- The loop body of `replicateImagePullSecrets`.
  unfoldable pub replicate_image_pull_secret : Cluster → String → Exec Unit
  replicate_image_pull_secret workload name = do
    let source_key = key_in r.pod_namespace name
    got ←
        call (λ log. env.get_secret log r.platform_cluster source_key)
          (got_secret r.platform_cluster source_key)
    source ←
        checked
          ("failed to get image pull secret "
            <> (env.quote name <> (" from namespace " <> (env.quote r.pod_namespace <> ": "))))
          got
    let target_key = key_in kro_system_namespace name
    let target : Secret = record { content = source.content; kind = source.kind }
    done ←
        call (λ log. env.upsert_secret log workload target_key target)
          (upserted_secret workload target_key target)
    checked
        ("failed to replicate image pull secret "
          <> (env.quote name
              <> (" to workload namespace " <> (env.quote kro_system_namespace <> ": "))))
        done

  -- The loop of `replicateImagePullSecrets`.
  unfoldable pub copy_image_pull_secrets : Cluster → List String → Exec Unit
  unfolding replicate_image_pull_secret
  copy_image_pull_secrets workload [] = pure tt
  copy_image_pull_secrets workload (name ∷ names) = do
    replicate_image_pull_secret workload name
    copy_image_pull_secrets workload names

  -- What `replicateImagePullSecrets` does with the names that it found.
  unfoldable pub replicate_named_secrets : Option Cluster → List String → Exec Unit
  unfolding copy_image_pull_secrets ensure_namespace
  replicate_named_secrets workload [] = pure tt
  replicate_named_secrets none (name ∷ names) =
      fail (new "workload cluster is required to replicate image pull secrets but was nil")
  replicate_named_secrets (some workload) (name ∷ names) = do
    ensure_namespace workload
    copy_image_pull_secrets workload (name ∷ names)

  unfoldable pub replicate_image_pull_secrets : Option Cluster → Option String → Exec Unit
  unfolding replicate_named_secrets extract_helm_values
  replicate_image_pull_secrets workload values = do
    helm_values ← from_either (extract_helm_values env values)
    replicate_named_secrets workload helm_values.image_pull_secrets

  -- The secret on the workload cluster that holds the kubeconfig of the control plane.
  abbrev pub kubeconfig_secret : String → Secret
  kubeconfig_secret kubeconfig = record {
    content = (mcp_kubeconfig_key, kubeconfig) ∷ [];
    kind = env.secret_type_opaque;
  }

  -- The part of `replicateMCPKubeconfig` behind the lookup of the key.
  unfoldable pub write_mcp_kubeconfig : Cluster → Key → Option String → Exec Unit
  unfolding ensure_namespace
  write_mcp_kubeconfig workload source_key none = fail (
      new (
        "MCP kubeconfig secret "
        <> (env.quote (env.key_text source_key)
            <> (" does not contain key " <> env.quote mcp_kubeconfig_key))))
  write_mcp_kubeconfig workload source_key (some kubeconfig) = do
    ensure_namespace workload
    let target_key = key_in kro_system_namespace mcp_kubeconfig_secret_name
    let target : Secret = kubeconfig_secret kubeconfig
    done ←
        call (λ log. env.upsert_secret log workload target_key target)
          (upserted_secret workload target_key target)
    checked "failed to replicate MCP kubeconfig to workload cluster: " done

  -- `replicateMCPKubeconfig` with the workload cluster that it requires
  unfoldable pub copy_mcp_kubeconfig : Cluster → Key → Exec Unit
  unfolding write_mcp_kubeconfig lookup
  copy_mcp_kubeconfig workload source_key = do
    got ←
        call (λ log. env.get_secret log r.platform_cluster source_key)
          (got_secret r.platform_cluster source_key)
    mcp_secret ← checked "failed to get MCP kubeconfig secret: " got
    write_mcp_kubeconfig workload source_key (lookup mcp_kubeconfig_key mcp_secret.content)

  unfoldable pub replicate_mcp_kubeconfig : ClusterContext → Exec Unit
  unfolding copy_mcp_kubeconfig
  replicate_mcp_kubeconfig ctx = elim ctx.workload_cluster [
    | none ↦ fail (new "workload cluster is required to replicate MCP kubeconfig but was nil")
    | some workload ↦ copy_mcp_kubeconfig workload ctx.mcp_access_secret_key
  ]
