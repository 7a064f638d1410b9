-- ===== src/Controller/Install/Bounds.antt =====
-- How many writes one run of `CreateOrUpdate` makes at most.
use service_provider_kro.Base.{
  suc, ◌+◌, ◌≤◌, String, ◌==◌, Bool-cases, Option, none, some, List, [], ◌∷◌, ◌++◌, length, inl,
  inr, ◌≡◌, refl, ap, arith,
}
use service_provider_kro.Kube.{ok, Cluster}
use service_provider_kro.Api.ProviderConfig.{ProviderConfig, KroVersion, resolve_version}
use service_provider_kro.Env.{Env}
use service_provider_kro.Exec.{State}
use service_provider_kro.Exec.Follows.{trace}
use service_provider_kro.Runtime.Context.{ClusterContext}
use service_provider_kro.Controller.Names.{KroReconciler}
use service_provider_kro.Controller.HelmValues.{extract_helm_values}
use service_provider_kro.Controller.Install.{create_or_update}
use service_provider_kro.Controller.Install.Plan.{
  Write, install_plan, attempted, names_of, chart_secret_writes, copies, image_secret_writes,
  kubeconfig_writes, oci_writes, crds_writes, release_writes,
}
use service_provider_kro.Controller.Install.Refines.{create_or_update-refines}

module _ {ℓ} {A : Type ℓ} where
  length-append : (xs ys : List A) → length (xs ++ ys) ≡ length xs + length ys
  length-append [] ys = omega arith
  length-append (x ∷ xs) ys = let rest = length-append xs ys in omega arith

  length-six :
      (a b c d e f : List A)
      → length (a ++ (b ++ (c ++ (d ++ (e ++ f)))))
        ≡ length a + length b + length c + length d + length e + length f
  length-six a b c d e f =
      let first = length-append a (b ++ (c ++ (d ++ (e ++ f)))) in
      let second = length-append b (c ++ (d ++ (e ++ f))) in
      let third = length-append c (d ++ (e ++ f)) in
      let fourth = length-append d (e ++ f) in let fifth = length-append e f in omega arith

length-copies :
    (workload : Cluster) (names : List String) → length (copies workload names) ≡ length names
length-copies workload [] = refl
length-copies workload (name ∷ names) = ap suc (length-copies workload names)

length-image_secret_writes :
    (workload : Option Cluster) (names : List String)
    → length (image_secret_writes workload names) ≤ 1 + length names
length-image_secret_writes none names = omega arith
length-image_secret_writes (some workload) [] = omega arith
length-image_secret_writes (some workload) (name ∷ names) =
    let copied = length-copies workload names in omega arith

length-kubeconfig_writes : (workload : Option Cluster) → length (kubeconfig_writes workload) ≤ 2
length-kubeconfig_writes none = omega arith
length-kubeconfig_writes (some workload) = omega arith

length-chart_secret_writes :
    (r : KroReconciler) (tenant_namespace name : String)
    → length (chart_secret_writes r tenant_namespace name) ≤ 1
length-chart_secret_writes r tenant_namespace name = elim (Bool-cases (name == "")) [
  | inl empty ↦ rw empty (omega arith)
  | inr named ↦ rw named (omega arith)
]

module _ (env : Env) (r : KroReconciler) (ctx : ClusterContext) (tenant_namespace : String)
    (version : KroVersion) where
  abbrev pub pull_secret_names : List String
  pull_secret_names = names_of (extract_helm_values env version.helm_values)

  length-install_plan :
      length (install_plan env r ctx tenant_namespace version) ≤ 7 + length pull_secret_names
  length-install_plan =
      let chart = length-chart_secret_writes r tenant_namespace version.chart_pull_secret in
      let images = length-image_secret_writes ctx.workload_cluster pull_secret_names in
      let kubeconfig = length-kubeconfig_writes ctx.workload_cluster in
      let parts =
        length-six (chart_secret_writes r tenant_namespace version.chart_pull_secret)
          (oci_writes r tenant_namespace version)
          (image_secret_writes ctx.workload_cluster pull_secret_names)
          (kubeconfig_writes ctx.workload_cluster) (crds_writes r ctx tenant_namespace)
          (release_writes r tenant_namespace version.helm_values) in
      omega arith

module _ (env : Env) (r : KroReconciler) (config : Option ProviderConfig) (ctx : ClusterContext)
    (s : State) {tenant_namespace : String}
    (stable : env.stable_mcp_namespace s.obj.name s.obj.namespace ≡ ok tenant_namespace) where
  -- Where the tenant's namespace can be computed and the version is on offer, a run of
  -- `CreateOrUpdate` tries at most seven writes and one more for each image pull secret that the
  -- Helm values name.
  pub create_or_update-length :
      {version : KroVersion}
      → resolve_version env.quote config s.obj.spec.version ≡ inr version
      → (done : List Write) × (trace attempted (create_or_update env r config ctx s).1.log
          ≡ trace attempted s.log ++ done)
        × (length done ≤ 7 + length (names_of (extract_helm_values env version.helm_values)))
  create_or_update-length {version} resolved =
      let (tried, confirmed) = create_or_update-refines env r config ctx s stable resolved in
      let plan = length-install_plan env r ctx tenant_namespace version in
      let split = ap length tried.split in
      let both = length-append tried.done tried.rest in (tried.done, tried.wrote, omega arith)
