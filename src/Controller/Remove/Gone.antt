-- ===== src/Controller/Remove/Gone.antt =====
-- `Delete` finishes only when a Get has found each of its objects gone.
use service_provider_kro.Base.{
  String, ap, Bool, true, false, Option, none, some, List, [], ◌∷◌, ◌⊎◌, inl, inr, ◌≡◌, refl, ◌∙◌,
  if◌then◌else◌, Bool-cases,
}
use service_provider_kro.Go.{ApiError, is_positive}
use service_provider_kro.Api.Kro.{terminating, set_resources}
use service_provider_kro.Kube.{Answer, ok, err, Cluster, CtrlResult}
use service_provider_kro.Flux.{ManagedObject}
use service_provider_kro.Env.{Env, Log, got_object, deleted_object}
use service_provider_kro.Exec.{
  Outcome, Exec, State, returned, failed, panicked, call, pure, ◌>>=◌, ◌>>◌, continue,
}
use service_provider_kro.Exec.Laws.{returned_inj}
use service_provider_kro.Runtime.Status.{set_status}
use service_provider_kro.Controller.Names.{KroReconciler}
use service_provider_kro.Controller.Remove.{
  finish_removal, managed_resources, deletion_error, is_gone, stop_if, terminating_error,
  remove_object, remove_objects, objects_of, remove_all,
}

-- Some Get of the object was answered by NotFound.
abbrev pub Confirmed : Cluster → ManagedObject → Log → Type 0
Confirmed c o [] = ⊥
Confirmed c o (e ∷ log) =
    ((x : ApiError) × (e ≡ got_object c o (err x)) × (x.not_found ≡ true)) ⊎ Confirmed c o log

abbrev pub AllConfirmed : Cluster → List ManagedObject → Log → Type 0
AllConfirmed c [] log = Unit
AllConfirmed c (o ∷ os) log = Confirmed c o log × AllConfirmed c os log

pub AllConfirmed-mono :
    (c : Cluster) (os : List ManagedObject) (log log' : Log)
    → ((o : ManagedObject) → Confirmed c o log → Confirmed c o log')
    → AllConfirmed c os log
    → AllConfirmed c os log'
AllConfirmed-mono c [] log log' grows h = tt
AllConfirmed-mono c (o ∷ os) log log' grows h =
    (grows o h.0, AllConfirmed-mono c os log log' grows h.1)

module _ (env : Env) (r : KroReconciler) where
  -- From the log `before` on, nothing that was confirmed is lost.
  abbrev Grows : Log → Log → Type 0
  Grows before after =
      (p : ManagedObject)
      → Confirmed r.platform_cluster p before
      → Confirmed r.platform_cluster p after

  got_gone :
      (o : ManagedObject) (got : Answer Unit) (log : Log)
      → (if is_gone env got then false else true) ≡ false
      → Confirmed r.platform_cluster o (got_object r.platform_cluster o got ∷ log)
  got_gone o (ok u) log h = cc
  got_gone o (err e) log h = elim (Bool-cases e.not_found) [
    | inl gone ↦ inl (e, refl, gone)
    | inr other ↦ cc (rw other at h)
  ]

  -- The rest of the loop body, behind the test of the deletion's error.
  look : ManagedObject → Exec Bool
  unfolding ◌>>=◌
  look o = do
    got ← call (λ log. env.get_object log r.platform_cluster o) (got_object r.platform_cluster o)
    pure (if is_gone env got then false else true)

  look-Step :
      (o : ManagedObject) (stop : Option ApiError) (s : State) (exists : Bool)
      → ((stop_if env stop >> look o) s).0 ≡ returned exists
      → (exists ≡ false → Confirmed r.platform_cluster o ((stop_if env stop >> look o) s).1.log)
        × Grows s.log ((stop_if env stop >> look o) s).1.log
  unfolding look terminating_error set_status
  look-Step o none s exists h = (
    λ none_left.
        got_gone o (env.get_object s.log r.platform_cluster o) s.log (returned_inj h ∙ none_left),
    λ p c. inr c,
  )
  look-Step o (some e) s exists h = cc

  remove_object-Step :
      (o : ManagedObject) (s : State) (exists : Bool)
      → (remove_object env r o s).0 ≡ returned exists
      → (exists ≡ false → Confirmed r.platform_cluster o (remove_object env r o s).1.log)
        × Grows s.log (remove_object env r o s).1.log
  unfolding remove_object look
  remove_object-Step o s exists h =
      let answer = env.delete_object s.log r.platform_cluster o in
      let x =
        look-Step o (deletion_error env answer)
          (record s { log = deleted_object r.platform_cluster o answer ∷ s.log }) exists h in
      (x.0, λ p c. x.1 p (inr c))

  -- What the loop shows when it returns that nothing is left.
  abbrev NoneLeft : List ManagedObject → Bool → Log → Log → Type 0
  NoneLeft os still_exist before after =
      (still_exist ≡ false) × AllConfirmed r.platform_cluster os after × Grows before after

  -- The loop from the outcome of its first round on.
  abbrev remaining : List ManagedObject → Bool → Bool → Exec Bool
  remaining os still_exist exists = remove_objects env r os (if exists then true else still_exist)

  next-NoneLeft :
      (o : ManagedObject) (os : List ManagedObject) (still_exist : Bool) (s s' : State)
      (x : Outcome Bool)
      → ((exists : Bool)
          → x ≡ returned exists
          → (exists ≡ false → Confirmed r.platform_cluster o s'.log) × Grows s.log s'.log)
      → ((exists : Bool)
          → (remaining os still_exist exists s').0 ≡ returned false
          → NoneLeft os
              (if exists then true else still_exist)
              s'.log
              (remaining os still_exist exists s').1.log)
      → (continue x (remaining os still_exist) s').0 ≡ returned false
      → NoneLeft (o ∷ os) still_exist s.log (continue x (remaining os still_exist) s').1.log
  next-NoneLeft o os still_exist s s' (returned true) first rest h = cc (rest true h).0
  next-NoneLeft o os still_exist s s' (returned false) first rest h =
      let (clear, confirmed, grows) = rest false h in
      let (gone, grew) = first false refl in
      (clear, (grows o (gone refl), confirmed), λ p c. grows p (grew p c))
  next-NoneLeft o os still_exist s s' (failed e) first rest h = cc
  next-NoneLeft o os still_exist s s' panicked first rest h = cc

  pub remove_objects-NoneLeft :
      (os : List ManagedObject) (still_exist : Bool) (s : State)
      → (remove_objects env r os still_exist s).0 ≡ returned false
      → NoneLeft os still_exist s.log (remove_objects env r os still_exist s).1.log
  unfolding remove_objects ◌>>=◌
  remove_objects-NoneLeft [] still_exist s h = (returned_inj h, tt, λ p c. c)
  remove_objects-NoneLeft (o ∷ os) still_exist s h =
      next-NoneLeft o os still_exist s (remove_object env r o s).1 (remove_object env r o s).0
        (λ exists e. remove_object-Step o s exists e)
        (λ exists.
          remove_objects-NoneLeft os (if exists then true else still_exist)
            (remove_object env r o s).1)
        h

  finished-AllConfirmed :
      (os : List ManagedObject) (before : Log) (x : Outcome Bool) (s' : State) {res : CtrlResult}
      → (x ≡ returned false → NoneLeft os false before s'.log)
      → (continue x (finish_removal env) s').0 ≡ returned res
      → is_positive res.requeue_after ≡ false
      → AllConfirmed r.platform_cluster os (continue x (finish_removal env) s').1.log
  unfolding ◌>>=◌ set_status is_positive
  finished-AllConfirmed os before (returned true) s' clear h stays =
      cc (ap (λ res. is_positive res.requeue_after) (returned_inj h) ∙ stays)
  finished-AllConfirmed os before (returned false) s' clear h stays =
      AllConfirmed-mono r.platform_cluster os s'.log _ (λ p c. inr c) (clear refl).1
  finished-AllConfirmed os before (failed e) s' clear h stays = cc
  finished-AllConfirmed os before panicked s' clear h stays = cc

  pub remove_all-AllConfirmed :
      (tenant_namespace : String) (s : State) {res : CtrlResult}
      → (remove_all env r tenant_namespace s).0 ≡ returned res
      → is_positive res.requeue_after ≡ false
      → AllConfirmed r.platform_cluster
          (objects_of tenant_namespace)
          (remove_all env r tenant_namespace s).1.log
  unfolding remove_all ◌>>=◌
  remove_all-AllConfirmed tenant_namespace s h stays =
      let s' : State = record s {
        obj = set_resources (managed_resources env tenant_namespace terminating) s.obj;
      } in
      finished-AllConfirmed (objects_of tenant_namespace) s'.log
        (remove_objects env r (objects_of tenant_namespace) false s').0
        (remove_objects env r (objects_of tenant_namespace) false s').1
        (λ e. remove_objects-NoneLeft (objects_of tenant_namespace) false s' e) h stays
