-- ===== src/Controller/Remove/Removal.antt =====
-- `Delete` as a whole: what it writes, when it is blocked, and what it knows when it finishes.
use mathlib.Core.List.{append-nil}
use service_provider_kro.Base.{
  ℕ, zero, suc, String, Bool, true, false, Option, none, some, List, [], ◌∷◌, ◌≡◌, refl, ◌∙◌, ap,
  if◌then◌else◌,
}
use service_provider_kro.Go.{ApiError, Error, is_positive, ten_seconds}
use service_provider_kro.Kube.{Answer, ok, Cluster, CtrlResult, no_requeue, condition_false}
use service_provider_kro.Flux.{ManagedObject}
use service_provider_kro.Api.ProviderConfig.{ProviderConfig}
use service_provider_kro.Api.Kro.{terminating, set_resources}
use service_provider_kro.Runtime.Context.{ClusterContext}
use service_provider_kro.Runtime.Status.{set_status, phase_terminating, status_terminating}
use service_provider_kro.Runtime.Status.Laws.{Reports, stamped-Reports}
use service_provider_kro.Env.{Env, listed_graph_definitions}
use service_provider_kro.Env.Laws.{ConditionLaws}
use service_provider_kro.Exec.{
  Outcome, returned, failed, panicked, Exec, State, ◌>>=◌, continue, recover, on_error,
}
use service_provider_kro.Exec.Laws.{returned_inj, bind-on_error-returned}
use service_provider_kro.Exec.Follows.{
  Follows, Run, Run-from, trace, Follows-pure, Follows-fail, Follows-call, Follows-modify,
  Follows-bind, Follows-quiet, Follows-attempt,
}
use service_provider_kro.Controller.Names.{KroReconciler}
use service_provider_kro.Controller.Install.Plan.{Write, removal, attempted}
use service_provider_kro.Controller.Install.Counts.{attempted-Counts, set_status-Follows}
use service_provider_kro.Controller.Remove.{
  count_of, count_resource_graph_definitions, managed_resources, stop_if, terminating_error,
  deletion_error, remove_object, remove_objects, objects_of, finish_removal, remove_all,
  remove_unless_blocked, remove_through, delete, blocked_message,
}
use service_provider_kro.Controller.Remove.Gone.{AllConfirmed, remove_all-AllConfirmed}

-- The removals of a list of objects, in its order.
abbrev pub removals : Cluster → List ManagedObject → List Write
removals c [] = []
removals c (o ∷ os) = removal c o ∷ removals c os

module _ (env : Env) (r : KroReconciler) where
  abbrev Reads : {A : Type 0} → List Write → Exec A → Type 0
  Reads plan m = Follows attempted plan m

  status-Reads :
      (status reason message phase : String) → Reads [] (set_status env status reason message phase)
  status-Reads = set_status-Follows env attempted attempted-Counts

  stop_if-Reads : (e : Option ApiError) → Reads [] (stop_if env e)
  unfolding terminating_error
  stop_if-Reads none = Follows-pure attempted tt
  stop_if-Reads (some e) =
      Follows-quiet attempted [] _ _ (status-Reads _ _ _ _) (λ _. Follows-fail attempted [] _)

  remove_object-Follows :
      (o : ManagedObject)
      → Follows attempted (removal r.platform_cluster o ∷ []) (remove_object env r o)
  unfolding remove_object
  remove_object-Follows o =
      Follows-bind attempted (removal r.platform_cluster o ∷ []) [] _ _
        (Follows-attempt attempted _ _ _ (λ a. refl))
        λ deleted. Follows-quiet attempted [] _ _ (stop_if-Reads (deletion_error env deleted)) λ _.
          Follows-quiet attempted [] _ _ (Follows-call attempted _ _ (λ a. refl))
            λ got. Follows-pure attempted _

  remove_objects-Follows :
      (os : List ManagedObject) (still_exist : Bool)
      → Follows attempted (removals r.platform_cluster os) (remove_objects env r os still_exist)
  unfolding remove_objects
  remove_objects-Follows [] still_exist = Follows-pure attempted still_exist
  remove_objects-Follows (o ∷ os) still_exist =
      Follows-bind attempted (removal r.platform_cluster o ∷ []) (removals r.platform_cluster os) _
        _ (remove_object-Follows o)
        (λ exists. remove_objects-Follows os (if exists then true else still_exist))

  finish_removal-Reads : (still_exist : Bool) → Reads [] (finish_removal env still_exist)
  finish_removal-Reads true = Follows-pure attempted _
  finish_removal-Reads false = Follows-quiet attempted [] _ _ (Follows-modify attempted _) λ _.
      Follows-quiet attempted [] _ _ (status-Reads _ _ _ _) (λ _. Follows-pure attempted no_requeue)

  remove_all-Follows :
      (tenant_namespace : String)
      → Follows attempted
          (removals r.platform_cluster (objects_of tenant_namespace))
          (remove_all env r tenant_namespace)
  unfolding remove_all
  remove_all-Follows tenant_namespace =
      Follows-quiet attempted _ _ _ (Follows-modify attempted _) λ _.
        Follows-bind attempted (removals r.platform_cluster (objects_of tenant_namespace)) [] _ _
          (remove_objects-Follows (objects_of tenant_namespace) false) finish_removal-Reads

  -- `Delete` from the outcome of the count on.
  abbrev through : String → Outcome ℕ → State → Outcome CtrlResult × State
  through tenant_namespace x s' =
      let h : Error → Exec ℕ =
        λ e. terminating_error env "failed to check for remaining ResourceGraphDefinitions: " e in
      let (y, s'') = recover x h s' in continue y (remove_unless_blocked env r tenant_namespace) s''

  counted :
      (mcp : Cluster) (n : ℕ) (s : State)
      → env.list_graph_definitions s.log mcp ≡ ok n
      → count_resource_graph_definitions env mcp s
        ≡ (returned n, record s { log = listed_graph_definitions mcp (ok n) ∷ s.log })
  unfolding count_resource_graph_definitions ◌>>=◌
  counted mcp n s listed = count_step (env.list_graph_definitions s.log mcp) listed
    where
      count_step :
          (a : Answer ℕ)
          → a ≡ ok n
          → count_of env a (record s { log = listed_graph_definitions mcp a ∷ s.log })
            ≡ (returned n, record s { log = listed_graph_definitions mcp (ok n) ∷ s.log })
      count_step a e = rw e refl

  through-AllConfirmed :
      (tenant_namespace : String) (x : Outcome ℕ) (s' : State) {res : CtrlResult}
      → (through tenant_namespace x s').0 ≡ returned res
      → is_positive res.requeue_after ≡ false
      → AllConfirmed r.platform_cluster
          (objects_of tenant_namespace)
          (through tenant_namespace x s').1.log
  unfolding ◌>>=◌ is_positive remove_unless_blocked terminating_error set_status
  through-AllConfirmed tenant_namespace (returned zero) s' h stays =
      remove_all-AllConfirmed env r tenant_namespace s' h stays
  through-AllConfirmed tenant_namespace (returned (suc n)) s' h stays =
      cc (ap (λ res. is_positive res.requeue_after) (returned_inj h) ∙ stays)
  through-AllConfirmed tenant_namespace (failed e) s' h stays = cc
  through-AllConfirmed tenant_namespace panicked s' h stays = cc

  remove_through-AllConfirmed :
      (tenant_namespace : String) (mcp : Option Cluster) (s' : State) {res : CtrlResult}
      → (remove_through env r tenant_namespace mcp s').0 ≡ returned res
      → is_positive res.requeue_after ≡ false
      → AllConfirmed r.platform_cluster
          (objects_of tenant_namespace)
          (remove_through env r tenant_namespace mcp s').1.log
  unfolding remove_through ◌>>=◌ on_error
  remove_through-AllConfirmed tenant_namespace none s' h stays =
      remove_all-AllConfirmed env r tenant_namespace s' h stays
  remove_through-AllConfirmed tenant_namespace (some mcp) s' h stays =
      through-AllConfirmed tenant_namespace (count_resource_graph_definitions env mcp s').0
        (count_resource_graph_definitions env mcp s').1 h stays

  module _ (config : Option ProviderConfig) (ctx : ClusterContext) (s : State) where
    -- The state behind the first status update.
    abbrev pub terminating_state : State
    terminating_state = (status_terminating env s).1

    module _ {tenant_namespace : String}
        (stable : env.stable_mcp_namespace s.obj.name s.obj.namespace ≡ ok tenant_namespace) where
      delete-through :
          delete env r config ctx s
          ≡ remove_through env r tenant_namespace ctx.mcp_cluster terminating_state
      unfolding delete ◌>>=◌ set_status
      delete-through = rw stable refl

      -- With no access to the control plane nothing blocks `Delete`: where the tenant's namespace
      -- can be computed, it tries to remove the three objects in their order, all of them if it
      -- returns, and writes nothing else.
      pub delete-no_mcp :
          ctx.mcp_cluster ≡ none
          → Run attempted
              (removals r.platform_cluster (objects_of tenant_namespace))
              s.log
              (delete env r config ctx s)
      unfolding delete ◌>>=◌ set_status
      delete-no_mcp unreachable =
          rw (stable, unreachable)
            (Run-from attempted _ terminating_state.log s.log _ (append-nil _)
              ((remove_all-Follows tenant_namespace).at terminating_state))

      module _ {mcp : Cluster} (reachable : ctx.mcp_cluster ≡ some mcp) where
        -- Where the tenant's namespace can be computed, the control plane is reachable and it lists
        -- at least one ResourceGraphDefinition, `Delete` writes nothing and asks to be run again in
        -- ten seconds. Under the laws of conditions the object reports why, as terminating.
        pub delete-blocked :
            ConditionLaws env
            → {n : ℕ} → env.list_graph_definitions terminating_state.log mcp ≡ ok (suc n)
            → let (outcome, after) = delete env r config ctx s in
              (outcome ≡ returned (record { requeue_after = ten_seconds }))
              × (trace attempted after.log ≡ trace attempted s.log)
              × Reports env condition_false "Terminating"
                  (blocked_message env (suc n))
                  phase_terminating
                  after.obj
        unfolding delete ◌>>=◌ set_status managed_resources
        delete-blocked laws {n} listed =
            rw (stable, reachable)
              (rw (bind-on_error-returned _ _ _ (counted mcp (suc n) terminating_state listed)) (
                refl,
                append-nil _ ∙ append-nil _ ∙ append-nil _,
                stamped-Reports env laws condition_false "Terminating" (blocked_message env (suc n))
                    phase_terminating _
                    (set_resources (managed_resources env tenant_namespace terminating)
                      terminating_state.obj),
              ))

        -- Where the tenant's namespace can be computed, the control plane is reachable and it lists
        -- no ResourceGraphDefinition, `Delete` tries to remove the three objects in their order,
        -- all of them if it returns, and writes nothing else.
        pub delete-unblocked :
            env.list_graph_definitions terminating_state.log mcp ≡ ok 0
            → Run attempted
                (removals r.platform_cluster (objects_of tenant_namespace))
                s.log
                (delete env r config ctx s)
        unfolding delete ◌>>=◌ set_status
        delete-unblocked listed =
            rw (stable, reachable)
              (rw (bind-on_error-returned _ _ _ (counted mcp 0 terminating_state listed)) (
                Run-from attempted _ _ s.log _ (append-nil _ ∙ append-nil _) (
                  (remove_all-Follows tenant_namespace).at (record terminating_state {
                    log = listed_graph_definitions mcp (ok 0) ∷ terminating_state.log;
                  }))))

      -- Where the tenant's namespace can be computed, a `Delete` that returns with no delay has
      -- seen NotFound for each of the three objects.
      pub delete-AllConfirmed :
          {res : CtrlResult}
          → (delete env r config ctx s).0 ≡ returned res
          → is_positive res.requeue_after ≡ false
          → AllConfirmed r.platform_cluster
              (objects_of tenant_namespace)
              (delete env r config ctx s).1.log
      delete-AllConfirmed finished stays = rw delete-through (
          remove_through-AllConfirmed tenant_namespace ctx.mcp_cluster terminating_state
            (rw delete-through at finished) stays)
