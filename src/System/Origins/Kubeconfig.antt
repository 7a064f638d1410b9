-- ===== src/System/Origins/Kubeconfig.antt =====
-- replicateMCPKubeconfig of internal/controller/kro_controller.go, and the reasons of its writes.
use service_provider_kro.Base.{
  String, ◌==◌, eq_iff, Option, none, some, inl, inr, ◌≡◌, refl, sym, Bool-cases,
}
use service_provider_kro.Base.Lists.{lookup}
use service_provider_kro.Kube.{ok, Key, Cluster, Secret}
use service_provider_kro.Env.{Env, Log, got_secret}
use service_provider_kro.Exec.Known.{Known, Seen, and_seen, always}
use service_provider_kro.Exec.Causal.{
  Causal, Causal-fail, Causal-call, Causal-settle, Causal-bind, Causal-call_then,
  Causal-settle_then,
}
use service_provider_kro.Exec.Tells.{Tells, Tells-fail, Tells-anyway}
use service_provider_kro.Controller.Names.{KroReconciler, mcp_kubeconfig_key}
use service_provider_kro.Controller.Secrets.{
  kubeconfig_secret, write_mcp_kubeconfig, copy_mcp_kubeconfig, replicate_mcp_kubeconfig,
}
use service_provider_kro.Runtime.Context.{ClusterContext}
use service_provider_kro.System.Origins.Defs.{Justified, Delegated, context_of, HasWorkload}
use service_provider_kro.System.Origins.Secrets.{ensure_namespace-Causal, answered-Seen}

module _ (env : Env) (r : KroReconciler) (K : Known) where
  -- The only field of the written secret is the kubeconfig that was read.
  kubeconfig_contained :
      (kubeconfig field value : String)
      → lookup field (kubeconfig_secret env r kubeconfig).content ≡ some value
      → (field ≡ mcp_kubeconfig_key) × (value ≡ kubeconfig)
  unfolding lookup
  kubeconfig_contained kubeconfig field value h = elim (Bool-cases (mcp_kubeconfig_key == field)) [
    | inl same ↦ (sym ((eq_iff mcp_kubeconfig_key field).0 same), cc (rw same at h))
    | inr other ↦ cc (rw other at h)
  ]

module _ (env : Env) (r : KroReconciler) (K : Known) (source_key : Key) (source : Secret)
    (seen : (log : Log)
      → K.Fact log
      → Seen (got_secret r.platform_cluster source_key (ok source)) log)
    (workload : Cluster)
    (delegated : (log : Log) → K.Fact log → Delegated workload source_key log) where
  write_mcp_kubeconfig-Causal :
      (key : Key) (kubeconfig : Option String)
      → lookup mcp_kubeconfig_key source.content ≡ kubeconfig
      → Causal (Justified env r) K (write_mcp_kubeconfig env r workload key kubeconfig)
  unfolding write_mcp_kubeconfig
  write_mcp_kubeconfig-Causal key none e = Causal-fail _ _
  write_mcp_kubeconfig-Causal key (some kubeconfig) e =
      Causal-bind _ _ _ (ensure_namespace-Causal env r K workload) λ _.
        Causal-bind _ _ _
          (Causal-call _ _ _ λ done log k. (
            tt,
            record {
              source_key = source_key;
              source = source;
              read = seen log k;
              contained = λ field value h.
                  let (f, v) = kubeconfig_contained env r K kubeconfig field value h in rw (f, v) e;
              from = inr (inr (record { called = refl; delegated = delegated log k }));
            },
          ))
          (λ done. Causal-settle _ _ done)

module _ (env : Env) (r : KroReconciler) (K : Known) where
  copy_mcp_kubeconfig-Causal :
      (workload : Cluster) (key : Key)
      → ((log : Log) → K.Fact log → Delegated workload key log)
      → Causal (Justified env r) K (copy_mcp_kubeconfig env r workload key)
  unfolding copy_mcp_kubeconfig
  copy_mcp_kubeconfig-Causal workload key delegated =
      Causal-call_then _ _ _ _ (λ a log k. (tt, tt))
        λ got. Causal-settle_then _ _ got _ λ source answered.
          write_mcp_kubeconfig-Causal env r (and_seen K (got_secret r.platform_cluster key got)) key
            source (λ log k. answered-Seen env r K key got source log answered k.1) workload
            (λ log k. delegated log k.0) key _ refl

  replicate_mcp_kubeconfig-Causal :
      (ctx : ClusterContext) (workload : Option Cluster)
      → ctx.workload_cluster ≡ workload
      → ((log : Log) → K.Fact log → (context_of ctx).Fact log)
      → Causal (Justified env r) K (replicate_mcp_kubeconfig env r ctx)
  unfolding replicate_mcp_kubeconfig
  replicate_mcp_kubeconfig-Causal ctx none e known = rw e (Causal-fail _ _)
  replicate_mcp_kubeconfig-Causal ctx (some workload) e known = rw e (
      copy_mcp_kubeconfig-Causal workload ctx.mcp_access_secret_key λ log k. known log k workload e)

  -- It returns only where there is a workload cluster.
  pub replicate_mcp_kubeconfig-Tells :
      (ctx : ClusterContext) (workload : Option Cluster)
      → ctx.workload_cluster ≡ workload
      → ((log : Log) → K.Fact log → (context_of ctx).Fact log)
      → Tells
          (Justified env r)
          K
          (λ done. always (HasWorkload ctx))
          (replicate_mcp_kubeconfig env r ctx)
  unfolding replicate_mcp_kubeconfig
  replicate_mcp_kubeconfig-Tells ctx none e known = rw e (Tells-fail _ _)
  replicate_mcp_kubeconfig-Tells ctx (some workload) e known =
      Tells-anyway _ _ (replicate_mcp_kubeconfig-Causal ctx (some workload) e known)
        (λ done log k. (workload, e))
