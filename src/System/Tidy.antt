-- ===== src/System/Tidy.antt =====
-- What `CreateOrUpdate` installs through Flux is what `Delete` removes.
use mathlib.Core.List.{Perm}
use mathlib.Core.List.Perm
use service_provider_kro.Base.{
  String, ◌==◌, Option, none, some, List, [], ◌∷◌, ◌++◌, inl, inr, ◌≡◌, refl, sym, ◌∙◌, ap, subst,
  Bool-cases, false,
}
use service_provider_kro.Go.{is_positive}
use service_provider_kro.Kube.{ok, Cluster, CtrlResult}
use service_provider_kro.Flux.{ManagedObject}
use service_provider_kro.Flux
use service_provider_kro.Api.ProviderConfig.{ProviderConfig, KroVersion, resolve_version}
use service_provider_kro.Env.{Env, Log}
use service_provider_kro.Exec.{returned, State}
use service_provider_kro.Exec.Follows.{trace}
use service_provider_kro.Runtime.Context.{ClusterContext}
use service_provider_kro.Controller.Names.{
  oci_repository_name, helm_release_name, mcp_helm_release_name, KroReconciler,
}
use service_provider_kro.Controller.Secrets.{key_in}
use service_provider_kro.Controller.HelmValues.{extract_helm_values}
use service_provider_kro.Controller.Install
use service_provider_kro.Controller.Install.Plan.{
  Write, secret, namespace, oci_repository, helm_release, removal, kro, access, message,
  install_plan, attempted, chart_secret_writes, copies, image_secret_writes, kubeconfig_writes,
  names_of,
}
use service_provider_kro.Controller.Install.Refines.{create_or_update-refines}
use service_provider_kro.Controller.Remove.{objects_of, delete}
use service_provider_kro.Controller.Remove.Gone.{AllConfirmed}
use service_provider_kro.Controller.Remove.Removal.{delete-AllConfirmed}

-- The Flux objects that the writes create.
abbrev flux_object : Write → List ManagedObject
flux_object (oci_repository c k spec) = record { kind = Flux.oci_repository; key = k } ∷ []
flux_object (helm_release c k spec) = record { kind = Flux.helm_release; key = k } ∷ []
flux_object (secret c k) = []
flux_object (namespace c n) = []
flux_object (removal c o) = []
flux_object kro = []
flux_object access = []
flux_object message = []

abbrev pub flux_objects : List Write → List ManagedObject
flux_objects [] = []
flux_objects (w ∷ ws) = flux_object w ++ flux_objects ws

flux_object-append :
    (w : Write) (os ps : List ManagedObject)
    → flux_object w ++ (os ++ ps) ≡ (flux_object w ++ os) ++ ps
flux_object-append (oci_repository c k spec) os ps = refl
flux_object-append (helm_release c k spec) os ps = refl
flux_object-append (secret c k) os ps = refl
flux_object-append (namespace c n) os ps = refl
flux_object-append (removal c o) os ps = refl
flux_object-append kro os ps = refl
flux_object-append access os ps = refl
flux_object-append message os ps = refl

flux_objects-append :
    (ws vs : List Write) → flux_objects (ws ++ vs) ≡ flux_objects ws ++ flux_objects vs
flux_objects-append [] vs = refl
flux_objects-append (w ∷ ws) vs =
    ap (λ os. flux_object w ++ os) (flux_objects-append ws vs)
    ∙ flux_object-append w (flux_objects ws) (flux_objects vs)

flux_objects-copies :
    (workload : Cluster) (names : List String) → flux_objects (copies workload names) ≡ []
flux_objects-copies workload [] = refl
flux_objects-copies workload (name ∷ names) = flux_objects-copies workload names

flux_objects-image_secret_writes :
    (workload : Option Cluster) (names : List String)
    → flux_objects (image_secret_writes workload names) ≡ []
flux_objects-image_secret_writes none names = refl
flux_objects-image_secret_writes (some workload) [] = refl
flux_objects-image_secret_writes (some workload) (name ∷ names) =
    flux_objects-copies workload (name ∷ names)

flux_objects-kubeconfig_writes :
    (workload : Option Cluster) → flux_objects (kubeconfig_writes workload) ≡ []
flux_objects-kubeconfig_writes none = refl
flux_objects-kubeconfig_writes (some workload) = refl

flux_objects-chart_secret_writes :
    (r : KroReconciler) (tenant_namespace name : String)
    → flux_objects (chart_secret_writes r tenant_namespace name) ≡ []
flux_objects-chart_secret_writes r tenant_namespace name = elim (Bool-cases (name == "")) [
  | inl empty ↦ rw empty refl
  | inr named ↦ rw named refl
]

-- What writes none of the objects may be left out in front.
flux_objects-behind :
    (ws vs : List Write) → flux_objects ws ≡ [] → flux_objects (ws ++ vs) ≡ flux_objects vs
flux_objects-behind ws vs e = flux_objects-append ws vs ∙ ap (λ os. os ++ flux_objects vs) e

module _ (env : Env) (r : KroReconciler) (ctx : ClusterContext) (tenant_namespace : String)
    (version : KroVersion) where
  -- The objects of the plan, in its order: the release of the CRDs stands before the other one.
  abbrev planned : List ManagedObject
  planned =
      record { kind = Flux.oci_repository; key = key_in tenant_namespace oci_repository_name }
      ∷ record { kind = Flux.helm_release; key = key_in tenant_namespace mcp_helm_release_name }
      ∷ record { kind = Flux.helm_release; key = key_in tenant_namespace helm_release_name }
      ∷ []

  flux_objects-install_plan :
      flux_objects (install_plan env r ctx tenant_namespace version) ≡ planned
  flux_objects-install_plan =
      let oci : ManagedObject = record {
        kind = Flux.oci_repository;
        key = key_in tenant_namespace oci_repository_name;
      } in
      flux_objects-behind (chart_secret_writes r tenant_namespace version.chart_pull_secret) _
        (flux_objects-chart_secret_writes r tenant_namespace version.chart_pull_secret)
      ∙ ap (λ os. oci ∷ os)
          (flux_objects-behind
              (image_secret_writes ctx.workload_cluster
                (names_of (extract_helm_values env version.helm_values)))
              _ (flux_objects-image_secret_writes ctx.workload_cluster _)
            ∙ flux_objects-behind (kubeconfig_writes ctx.workload_cluster) _
                (flux_objects-kubeconfig_writes ctx.workload_cluster))

  -- The Flux objects among the writes of `install_plan` are, up to their order, the objects that
  -- `Delete` removes from the same namespace.
  pub install_plan-objects_of :
      Perm
        (flux_objects (install_plan env r ctx tenant_namespace version))
        (objects_of tenant_namespace)
  install_plan-objects_of =
      subst (λ os. Perm os (objects_of tenant_namespace)) (sym flux_objects-install_plan)
        (Perm.cons _ (Perm.swap _ _ []))

AllConfirmed-front :
    (c : Cluster) (os ps : List ManagedObject) (log : Log)
    → AllConfirmed c (os ++ ps) log
    → AllConfirmed c os log
AllConfirmed-front c [] ps log all = tt
AllConfirmed-front c (o ∷ os) ps log (gone, all) = (gone, AllConfirmed-front c os ps log all)

module _ (env : Env) (r : KroReconciler) (ctx : ClusterContext) (config : Option ProviderConfig)
    (s : State) {tenant_namespace : String}
    (stable : env.stable_mcp_namespace s.obj.name s.obj.namespace ≡ ok tenant_namespace)
    {version : KroVersion}
    (resolved : resolve_version env.quote config s.obj.spec.version ≡ inr version)
    (ctx' : ClusterContext) (config' : Option ProviderConfig) (s' : State)
    (stable' : env.stable_mcp_namespace s'.obj.name s'.obj.namespace ≡ ok tenant_namespace) where
  -- Where the version is on offer and the tenant's namespace can be computed, and a run of `Delete`
  -- for the same tenant's namespace returns with no delay, that run has seen NotFound for each Flux
  -- object that a run of `CreateOrUpdate` tried to write, whatever the states and the clusters of
  -- the two runs.
  pub installed-AllConfirmed :
      {res : CtrlResult}
      → (delete env r config' ctx' s').0 ≡ returned res
      → is_positive res.requeue_after ≡ false
      → (done : List Write) × (trace attempted (Install.create_or_update env r config ctx s).1.log
          ≡ trace attempted s.log ++ done)
        × AllConfirmed r.platform_cluster (flux_objects done) (delete env r config' ctx' s').1.log
  installed-AllConfirmed finished stays =
      let log = (delete env r config' ctx' s').1.log in
      let (tried, confirmed) = create_or_update-refines env r config ctx s stable resolved in
      let (oci, (hr, (crds, rest))) =
        delete-AllConfirmed env r config' ctx' s' stable' finished stays in
      let same : planned env r ctx tenant_namespace version
          ≡ flux_objects tried.done ++ flux_objects tried.rest =
        sym (flux_objects-install_plan env r ctx tenant_namespace version)
        ∙ (ap flux_objects tried.split ∙ flux_objects-append tried.done tried.rest) in
      (
        tried.done,
        tried.wrote,
        AllConfirmed-front r.platform_cluster (flux_objects tried.done) (flux_objects tried.rest)
            log (subst (λ os. AllConfirmed r.platform_cluster os log) same (oci, (crds, (hr, tt)))),
      )
