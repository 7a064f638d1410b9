-- ===== src/Controller/Install/Desired/Secrets.antt =====
-- The three functions that copy secrets write their parts of the plan.
use service_provider_kro.Base.{
  String, ◌==◌, Option, none, some, List, [], ◌∷◌, ◌⊎◌, inl, inr, ◌≡◌, Bool-cases,
}
use service_provider_kro.Go.{Error}
use service_provider_kro.Kube.{Key, Cluster}
use service_provider_kro.Runtime.Context.{ClusterContext}
use service_provider_kro.Env.{Env, Event}
use service_provider_kro.Exec.{from_either, ◌>>=◌}
use service_provider_kro.Exec.Follows.{
  Follows, Follows-pure, Follows-fail, Follows-call, Follows-settle, Follows-bind, Follows-quiet,
  Follows-write,
}
use service_provider_kro.Controller.Names.{KroReconciler, kro_system_namespace}
use service_provider_kro.Controller.HelmValues.{HelmValues, extract_helm_values}
use service_provider_kro.Controller.Secrets.{
  replicate_chart_pull_secret, ensure_namespace, replicate_image_pull_secret,
  copy_image_pull_secrets, replicate_named_secrets, replicate_image_pull_secrets,
  write_mcp_kubeconfig, copy_mcp_kubeconfig, replicate_mcp_kubeconfig,
}
use service_provider_kro.Controller.Install.Plan.{
  Write, namespace, chart_secret_writes, copies, image_secret_writes, kubeconfig_writes, names_of,
}
use service_provider_kro.Controller.Install.Counts.{Counts}

module _ (env : Env) (written : Event → List Write) (cs : Counts written) (r : KroReconciler) where
  pub replicate_chart_pull_secret-Follows :
      (name tenant_namespace : String)
      → Follows written
          (chart_secret_writes r tenant_namespace name)
          (replicate_chart_pull_secret env r name tenant_namespace)
  unfolding replicate_chart_pull_secret
  replicate_chart_pull_secret-Follows name tenant_namespace = elim (Bool-cases (name == "")) [
    | inl empty ↦ rw empty (Follows-pure written tt)
    | inr given ↦ rw given (
        Follows-quiet written _ _ _ (Follows-call written _ _ (cs.reading_secret _ _)) λ got.
          Follows-quiet written _ _ _ (Follows-settle written _ got)
            λ source. Follows-write written _ _ _ _ (cs.secret_done _ _ _) (cs.secret_lost _ _ _))
  ]

  ensure_namespace-Follows :
      (workload : Cluster)
      → Follows written
          (namespace workload kro_system_namespace ∷ [])
          (ensure_namespace env r workload)
  unfolding ensure_namespace
  ensure_namespace-Follows workload =
      Follows-write written _ _ _ _ (cs.namespace_done _ _) (cs.namespace_lost _ _)

  replicate_image_pull_secret-Follows :
      (workload : Cluster) (name : String)
      → Follows written
          (copies workload (name ∷ []))
          (replicate_image_pull_secret env r workload name)
  unfolding replicate_image_pull_secret
  replicate_image_pull_secret-Follows workload name =
      Follows-quiet written _ _ _ (Follows-call written _ _ (cs.reading_secret _ _)) λ got.
        Follows-quiet written _ _ _ (Follows-settle written _ got)
          λ source. Follows-write written _ _ _ _ (cs.secret_done _ _ _) (cs.secret_lost _ _ _)

  copy_image_pull_secrets-Follows :
      (workload : Cluster) (names : List String)
      → Follows written (copies workload names) (copy_image_pull_secrets env r workload names)
  unfolding copy_image_pull_secrets
  copy_image_pull_secrets-Follows workload [] = Follows-pure written tt
  copy_image_pull_secrets-Follows workload (name ∷ names) =
      Follows-bind written (copies workload (name ∷ [])) (copies workload names) _ _
        (replicate_image_pull_secret-Follows workload name)
        (λ _. copy_image_pull_secrets-Follows workload names)

  replicate_named_secrets-Follows :
      (workload : Option Cluster) (names : List String)
      → Follows written
          (image_secret_writes workload names)
          (replicate_named_secrets env r workload names)
  unfolding replicate_named_secrets
  replicate_named_secrets-Follows none [] = Follows-pure written tt
  replicate_named_secrets-Follows none (name ∷ names) = Follows-fail written [] _
  replicate_named_secrets-Follows (some workload) [] = Follows-pure written tt
  replicate_named_secrets-Follows (some workload) (name ∷ names) =
      Follows-bind written (namespace workload kro_system_namespace ∷ [])
        (copies workload (name ∷ names)) _ _ (ensure_namespace-Follows workload)
        (λ _. copy_image_pull_secrets-Follows workload (name ∷ names))

  named_secrets-Follows :
      (workload : Option Cluster) (x : Error ⊎ HelmValues)
      → Follows written (image_secret_writes workload (names_of x)) (
          from_either x >>= λ values.
          replicate_named_secrets env r workload values.image_pull_secrets)
  unfolding ◌>>=◌
  named_secrets-Follows workload (inl e) = record {
    at = λ s. (Follows-fail written (image_secret_writes workload []) e).at s;
  }
  named_secrets-Follows workload (inr values) = record {
    at = λ s. (replicate_named_secrets-Follows workload values.image_pull_secrets).at s;
  }

  pub replicate_image_pull_secrets-Follows :
      (workload : Option Cluster) (values : Option String)
      → Follows written
          (image_secret_writes workload (names_of (extract_helm_values env values)))
          (replicate_image_pull_secrets env r workload values)
  unfolding replicate_image_pull_secrets
  replicate_image_pull_secrets-Follows workload values =
      named_secrets-Follows workload (extract_helm_values env values)

  write_mcp_kubeconfig-Follows :
      (workload : Cluster) (key : Key) (kubeconfig : Option String)
      → Follows written
          (kubeconfig_writes (some workload))
          (write_mcp_kubeconfig env r workload key kubeconfig)
  unfolding write_mcp_kubeconfig
  write_mcp_kubeconfig-Follows workload key none = Follows-fail written _ _
  write_mcp_kubeconfig-Follows workload key (some kubeconfig) =
      Follows-bind written (namespace workload kro_system_namespace ∷ []) _ _ _
        (ensure_namespace-Follows workload)
        (λ _. Follows-write written _ _ _ _ (cs.secret_done _ _ _) (cs.secret_lost _ _ _))

  copy_mcp_kubeconfig-Follows :
      (workload : Cluster) (key : Key)
      → Follows written (kubeconfig_writes (some workload)) (copy_mcp_kubeconfig env r workload key)
  unfolding copy_mcp_kubeconfig
  copy_mcp_kubeconfig-Follows workload key =
      Follows-quiet written _ _ _ (Follows-call written _ _ (cs.reading_secret _ _)) λ got.
        Follows-quiet written _ _ _ (Follows-settle written _ got)
          λ source. write_mcp_kubeconfig-Follows workload key _

  pub kubeconfig-Follows :
      (ctx : ClusterContext) (workload : Option Cluster)
      → ctx.workload_cluster ≡ workload
      → Follows written (kubeconfig_writes workload) (replicate_mcp_kubeconfig env r ctx)
  unfolding replicate_mcp_kubeconfig
  kubeconfig-Follows ctx none e = rw e (Follows-fail written [] _)
  kubeconfig-Follows ctx (some workload) e =
      rw e (copy_mcp_kubeconfig-Follows workload ctx.mcp_access_secret_key)
