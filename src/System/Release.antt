-- ===== src/System/Release.antt =====
-- The whole path of a deletion, from the generic reconciler through the Kro controller.
use service_provider_kro.Base.{String, false, some, ◌∷◌, inr, ◌≡◌, sym, ◌∙◌, ap, subst}
use service_provider_kro.Go.{is_positive}
use service_provider_kro.Kube.{ok, CtrlResult}
use service_provider_kro.Api.ProviderConfig.{ProviderConfig}
use service_provider_kro.Api.Kro.{key_of}
use service_provider_kro.Env.{Env}
use service_provider_kro.Exec.{State, returned}
use service_provider_kro.Runtime.Clusters.{are_access_requests_in_deletion}
use service_provider_kro.Runtime.Clusters.Deletion.{NeverNegative}
use service_provider_kro.Runtime.Domain
use service_provider_kro.Runtime.Domain.Steps.{clean_up-Keeps}
use service_provider_kro.Runtime.Domain.Released.{Released, delete-Released}
use service_provider_kro.Controller.Names.{KroReconciler}
use service_provider_kro.Controller.Remove.{objects_of}
use service_provider_kro.Controller.Remove.Gone.{AllConfirmed, AllConfirmed-mono}
use service_provider_kro.Controller.Remove.Removal.{delete-AllConfirmed}
use service_provider_kro.System.{kro_provider, with_workload_cluster}

-- A deletion of a Kro object that returns with no delay has seen NotFound for the OCIRepository and
-- both HelmReleases in the tenant's namespace. This holds if that namespace can be computed, the
-- access requests were not in deletion when it began, and the access library does not answer with
-- negative delays.
pub released-AllConfirmed :
    (env : Env) (r : KroReconciler) (pc : ProviderConfig) (s : State)
    → {tenant_namespace : String} {res : CtrlResult} → NeverNegative env
    → env.stable_mcp_namespace s.obj.name s.obj.namespace ≡ ok tenant_namespace
    → (are_access_requests_in_deletion env with_workload_cluster (key_of s.obj) s).0
      ≡ returned false
    → (Domain.delete env with_workload_cluster (kro_provider env r) pc s).0 ≡ returned res
    → is_positive res.requeue_after ≡ false
    → AllConfirmed r.platform_cluster
        (objects_of tenant_namespace)
        (Domain.delete env with_workload_cluster (kro_provider env r) pc s).1.log
released-AllConfirmed env r pc s {tenant_namespace} polite stable granted h done =
    let x : Released env with_workload_cluster (kro_provider env r) pc s =
      delete-Released env with_workload_cluster (kro_provider env r) pc s done polite granted h in
    let confirmed =
      delete-AllConfirmed env r (some pc) x.ctx x.start
        (ap (λ o. env.stable_mcp_namespace o.name o.namespace) x.same ∙ stable)
        (ap (λ y. y.0) x.ran) x.no_delay in
    subst (λ y. AllConfirmed r.platform_cluster (objects_of tenant_namespace) y.1.log) (sym x.rest)
      ((clean_up-Keeps (λ t. AllConfirmed r.platform_cluster (objects_of tenant_namespace) t.log)
          (λ e t c.
            AllConfirmed-mono r.platform_cluster (objects_of tenant_namespace) t.log (e ∷ t.log)
              (λ o k. inr k) c)
          env with_workload_cluster (key_of s.obj) (λ f t c. c)).at
        x.after
        (subst (λ y. AllConfirmed r.platform_cluster (objects_of tenant_namespace) y.1.log) x.ran
          confirmed))
