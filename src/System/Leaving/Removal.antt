-- ===== src/System/Leaving/Removal.antt =====
-- The provider's `Delete` comes to its end.
use service_provider_kro.Base.{ℕ, String, true, false, Option, none, some, List, [], ◌∷◌, ◌≡◌, refl}
use service_provider_kro.Kube.{Answer, ok, Cluster}
use service_provider_kro.Flux.{ManagedObject}
use service_provider_kro.Api.ProviderConfig.{ProviderConfig}
use service_provider_kro.Env.{Env}
use service_provider_kro.Exec.Completes.{
  Any, Completes, Completes-pure, Completes-gets, Completes-call, Completes-settle,
  Completes-on_error, Completes-modify, Completes-bind,
}
use service_provider_kro.Runtime.Context.{ClusterContext}
use service_provider_kro.Runtime.Status.Completes.{set_status-Completes}
use service_provider_kro.Controller.Names.{KroReconciler}
use service_provider_kro.Controller.Remove
use service_provider_kro.Controller.Remove.{
  objects_of, count_of, count_resource_graph_definitions, deletion_error, is_gone, stop_if,
  remove_object, remove_objects, finish_removal, remove_all, remove_unless_blocked, remove_through,
}
use service_provider_kro.System.Leaving.Defs.{Leaving, IsLast}

module _ (env : Env) (r : KroReconciler) (leaving : Leaving env r) where
  -- The provider's `Delete`.
  stop_if-Completes :
      (e : Answer Unit)
      → deletion_error env e ≡ none
      → Completes Any (stop_if env (deletion_error env e))
  stop_if-Completes e h = rw h (Completes-pure _ tt)

  remove_object-Completes :
      (o : ManagedObject) → Completes (λ exists. exists ≡ false) (remove_object env r o)
  unfolding remove_object
  remove_object-Completes o =
      Completes-bind _ _
        (Completes-call {R = λ a. deletion_error env a ≡ none} _ _
          (λ log. leaving.delete_object log o))
        λ deleted h. Completes-bind _ _ (stop_if-Completes deleted h) λ _ _.
          Completes-bind _ _
            (Completes-call {R = λ a. is_gone env a ≡ true} _ _ (λ log. leaving.gone log o))
            (λ got gone. rw gone (Completes-pure _ refl))

  remove_objects-Completes :
      (os : List ManagedObject) → Completes (λ exist. exist ≡ false) (remove_objects env r os false)
  unfolding remove_objects
  remove_objects-Completes [] = Completes-pure _ refl
  remove_objects-Completes (o ∷ os) =
      Completes-bind _ _ (remove_object-Completes o)
        (λ exists h. rw h (remove_objects-Completes os))

  remove_all-Completes :
      (tenant_namespace : String) → Completes IsLast (remove_all env r tenant_namespace)
  unfolding remove_all
  remove_all-Completes tenant_namespace = Completes-bind _ _ (Completes-modify _) λ _ _.
      Completes-bind _ _ (remove_objects-Completes (objects_of tenant_namespace)) λ exist h. rw h (
        Completes-bind _ _ (Completes-modify _) λ _ _.
          Completes-bind _ _ (set_status-Completes env _ _ _ _) (λ _ _. Completes-pure _ refl))

  count_of-Completes : (a : Answer ℕ) → a ≡ ok 0 → Completes (λ n. n ≡ 0) (count_of env a)
  count_of-Completes a h = rw h (Completes-pure _ refl)

  remove_through-Completes :
      (tenant_namespace : String) (mcp : Option Cluster)
      → Completes IsLast (remove_through env r tenant_namespace mcp)
  unfolding remove_through count_resource_graph_definitions remove_unless_blocked
  remove_through-Completes tenant_namespace none = remove_all-Completes tenant_namespace
  remove_through-Completes tenant_namespace (some mcp) =
      Completes-bind _ _
        (Completes-on_error _ _ (
          Completes-bind _ _
            (Completes-call {R = λ a. a ≡ ok 0} _ _ (λ log. leaving.unblocked log mcp))
            count_of-Completes))
        (λ n h. rw h (remove_all-Completes tenant_namespace))

  pub provider_delete-Completes :
      (config : Option ProviderConfig) (ctx : ClusterContext)
      → Completes IsLast (Remove.delete env r config ctx)
  unfolding Remove.delete
  provider_delete-Completes config ctx =
      Completes-bind _ _ (set_status-Completes env _ _ _ _) λ _ _.
        Completes-bind _ _ (Completes-gets {R = Any} _ (λ s. tt)) λ obj _.
          Completes-bind _ _
            (Completes-settle {R = Any} _ _ (leaving.stable obj.name obj.namespace))
            (λ tenant_namespace _. remove_through-Completes tenant_namespace ctx.mcp_cluster)
