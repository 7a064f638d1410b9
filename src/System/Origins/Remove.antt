-- ===== src/System/Origins/Remove.antt =====
-- `Delete` adds only events that need no reason.
use service_provider_kro.Base.{
  String, Bool, true, false, zero, suc, ℕ, Option, none, some, List, [], ◌∷◌,
}
use service_provider_kro.Go.{ApiError, Error}
use service_provider_kro.Kube.{Answer, ok, err, Cluster}
use service_provider_kro.Flux.{ManagedObject}
use service_provider_kro.Api.ProviderConfig.{ProviderConfig}
use service_provider_kro.Env.{Env}
use service_provider_kro.Exec.Known.{Known}
use service_provider_kro.Exec.{fail, ◌>>=◌}
use service_provider_kro.Exec.Causal.{
  Causal-pure, Causal-fail, Causal-gets, Causal-if, Causal-call, Causal-settle, Causal-modify,
  Causal-bind, Causal-on_error,
}
use service_provider_kro.Runtime.Context.{ClusterContext}
use service_provider_kro.Runtime.Status.{set_status}
use service_provider_kro.Runtime.Domain.{progressing_failure}
use service_provider_kro.Controller.Names.{KroReconciler}
use service_provider_kro.Controller.Remove
use service_provider_kro.Controller.Remove.{
  objects_of, count_of, count_resource_graph_definitions, terminating_error, stop_if, remove_object,
  remove_objects, finish_removal, remove_all, remove_unless_blocked, remove_through,
}
use service_provider_kro.System.Origins.Install.{Reasoned, set_status-Causal}

module _ (env : Env) (r : KroReconciler) (K : Known) where
  pub reported-Causal :
      {A : Type 0} (status reason message phase : String) (e : Error)
      → Reasoned env r K (set_status env status reason message phase >>= λ _. fail {A = A} e)
  reported-Causal status reason message phase e =
      Causal-bind _ _ _ (set_status-Causal env r K status reason message phase)
        (λ _. Causal-fail _ e)

  pub progressing_failure-Causal :
      (e : Option ApiError) → Reasoned env r K (progressing_failure env e)
  progressing_failure-Causal none = Causal-pure _ _
  progressing_failure-Causal (some e) = reported-Causal _ _ _ _ _

  -- The provider's `Delete`.
  count_of-Causal : (a : Answer ℕ) → Reasoned env r K (count_of env a)
  count_of-Causal (ok n) = Causal-pure _ _
  count_of-Causal (err e) =
      Causal-if _ e.no_match _ _ (Causal-pure _ _)
        (Causal-if _ e.not_found _ _ (Causal-pure _ _) (Causal-fail _ _))

  stop_if-Causal : (e : Option ApiError) → Reasoned env r K (stop_if env e)
  unfolding terminating_error
  stop_if-Causal none = Causal-pure _ _
  stop_if-Causal (some e) = reported-Causal _ _ _ _ _

  remove_objects-Causal :
      (os : List ManagedObject) (still_exist : Bool)
      → Reasoned env r K (remove_objects env r os still_exist)
  unfolding remove_objects remove_object
  remove_objects-Causal [] still_exist = Causal-pure _ _
  remove_objects-Causal (o ∷ os) still_exist =
      Causal-bind _ _ _
        (Causal-bind _ _ _ (Causal-call _ _ _ (λ a log k. (tt, tt))) λ deleted.
          Causal-bind _ _ _ (stop_if-Causal _) λ _.
            Causal-bind _ _ _ (Causal-call _ _ _ (λ a log k. (tt, tt))) (λ got. Causal-pure _ _))
        (λ exists. remove_objects-Causal os _)

  finish_removal-Causal : (still_exist : Bool) → Reasoned env r K (finish_removal env still_exist)
  finish_removal-Causal true = Causal-pure _ _
  finish_removal-Causal false =
      Causal-bind _ _ _ (Causal-modify _ _)
        λ _. Causal-bind _ _ _ (set_status-Causal env r K _ _ _ _) (λ _. Causal-pure _ _)

  remove_all-Causal :
      (tenant_namespace : String) → Reasoned env r K (remove_all env r tenant_namespace)
  unfolding remove_all
  remove_all-Causal tenant_namespace = Causal-bind _ _ _ (Causal-modify _ _) λ _.
      Causal-bind _ _ _ (remove_objects-Causal (objects_of tenant_namespace) false)
        finish_removal-Causal

  remove_unless_blocked-Causal :
      (tenant_namespace : String) (remaining : ℕ)
      → Reasoned env r K (remove_unless_blocked env r tenant_namespace remaining)
  unfolding remove_unless_blocked
  remove_unless_blocked-Causal tenant_namespace zero = remove_all-Causal tenant_namespace
  remove_unless_blocked-Causal tenant_namespace (suc n) =
      Causal-bind _ _ _ (set_status-Causal env r K _ _ _ _)
        λ _. Causal-bind _ _ _ (Causal-modify _ _) (λ _. Causal-pure _ _)

  remove_through-Causal :
      (tenant_namespace : String) (mcp : Option Cluster)
      → Reasoned env r K (remove_through env r tenant_namespace mcp)
  unfolding remove_through count_resource_graph_definitions terminating_error
  remove_through-Causal tenant_namespace none = remove_all-Causal tenant_namespace
  remove_through-Causal tenant_namespace (some mcp) =
      Causal-bind _ _ _
        (Causal-on_error _ _ _
          (Causal-bind _ _ _ (Causal-call _ _ _ (λ a log k. (tt, tt))) count_of-Causal)
          (λ e. reported-Causal _ _ _ _ _))
        (remove_unless_blocked-Causal tenant_namespace)

  pub provider_delete-Causal :
      (config : Option ProviderConfig) (ctx : ClusterContext)
      → Reasoned env r K (Remove.delete env r config ctx)
  unfolding Remove.delete
  provider_delete-Causal config ctx = Causal-bind _ _ _ (set_status-Causal env r K _ _ _ _) λ _.
      Causal-bind _ _ _ (Causal-gets _ _) λ obj.
        Causal-bind _ _ _ (Causal-settle _ _ _)
          (λ tenant_namespace. remove_through-Causal tenant_namespace ctx.mcp_cluster)
