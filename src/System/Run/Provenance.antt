-- ===== src/System/Run/Provenance.antt =====
-- What holds of every log that the running controllers can leave.
use service_provider_kro.Exec.Known.{Known, Seen, Chain}
use service_provider_kro.Base.{
  ◌==◌, Option, none, some, List, [], ◌∷◌, ◌++◌, ◌≡◌, refl, inl, inr, subst, Bool-cases,
}
use service_provider_kro.Go.{ApiError}
use service_provider_kro.Kube.{Answer, ok, err, Key, Cluster, Secret, time_is_zero}
use service_provider_kro.Flux.{OciRepositorySpec, OciRepository, HelmReleaseSpec, HelmRelease}
use service_provider_kro.Api.ProviderConfig.{ProviderConfig}
use service_provider_kro.Api.Kro.{Kro}
use service_provider_kro.Env.{
  Env, Event, Log, got_provider_config, got_kro, patched_kro, notified, listed_kros,
  upserted_oci_repository, upserted_secret, upserted_helm_release, updated_kro,
}
use service_provider_kro.Runtime.Config.{
  notification, reconcile_config, handle_notification, enqueue_all_objects,
}
use service_provider_kro.Controller.Names.{KroReconciler}
use service_provider_kro.Runtime.Reconcile.{operation}
use service_provider_kro.System.{kro_provider, with_workload_cluster}
use service_provider_kro.System.Origins.Defs.{
  Justified, Offered, SecretOrigin, HelmOrigin, AccessGone,
}
use service_provider_kro.System.Origins.Reconcile.{
  Backed, Backed-later, KnownChain, reconcile_deferred-KnownChain,
}
use service_provider_kro.System.Run.{
  Running, Step, reconciling_config, handling, begin, beginning, finishing, config, handled,
  requested, begun, finished, Reach, start, later,
}

abbrev AllBacked : List (Option ProviderConfig) → Log → Type 0
AllBacked [] log = Unit
AllBacked (c ∷ cs) log = Backed c log × AllBacked cs log

AllBacked-later :
    (cs : List (Option ProviderConfig)) (e : Event) (log : Log)
    → AllBacked cs log
    → AllBacked cs (e ∷ log)
AllBacked-later [] e log all = tt
AllBacked-later (c ∷ cs) e log (back, all) =
    (Backed-later c e log back, AllBacked-later cs e log all)

AllBacked-snoc :
    (cs : List (Option ProviderConfig)) (c : Option ProviderConfig) (log : Log)
    → AllBacked cs log
    → Backed c log
    → AllBacked (cs ++ c ∷ []) log
AllBacked-snoc [] c log all back = (back, tt)
AllBacked-snoc (d ∷ cs) c log (first, all) back = (first, AllBacked-snoc cs c log all back)

abbrev InUse : Option ProviderConfig → List (Option ProviderConfig) → Log → Type 0
InUse cached sent log = Backed cached log × AllBacked sent log

InUse-later :
    (cached : Option ProviderConfig) (sent : List (Option ProviderConfig)) (e : Event) (log : Log)
    → InUse cached sent log
    → InUse cached sent (e ∷ log)
InUse-later cached sent e log h = (Backed-later cached e log h.0, AllBacked-later sent e log h.1)

-- The configs in use were read.
abbrev in_use : Option ProviderConfig → List (Option ProviderConfig) → Known
in_use cached sent = record {
  Fact = InUse cached sent;
  lasts = λ e log of_run h. InUse-later cached sent e log h;
}

module _ (env : Env) (r : KroReconciler) where
  -- Every config in use was read, and every event has its reason.
  pub record Sound (w : Running) : Type 0 where
    pub backed : Backed w.cached w.log × AllBacked w.sent w.log
    pub chain : Chain (Justified env r) w.log

  notification-Backed :
      (req : Key) (answer : Answer ProviderConfig) (log : Log)
      → Seen (got_provider_config req answer) log
      → Backed (notification env answer) log
  unfolding notification
  notification-Backed req (err e) log seen = tt
  notification-Backed req (ok pc) log seen =
      elim (Bool-cases (time_is_zero pc.deletion_timestamp)) [
        | inl live ↦ rw live (req, seen, live)
        | inr dying ↦ rw dying tt
      ]

  config-Sound : (req : Key) (w : Running) → Sound w → Sound (reconciling_config env r req w)
  unfolding reconcile_config
  config-Sound req w s =
      let answer = env.get_provider_config w.log req in
      let read = got_provider_config req answer in
      let told = notified (notification env answer) in
      let kept =
        InUse-later w.cached w.sent told _ (InUse-later w.cached w.sent read w.log s.backed) in
      record {
        backed = (
          kept.0,
          AllBacked-snoc w.sent _ _ kept.1 (notification-Backed req answer _ (inr (inl refl))),
        );
        chain = (tt, (tt, s.chain));
      }

  -- A List at most is added by the requests for all objects.
  pub enqueued_at :
      (P : Log → Type 0) (log : Log)
      → P log
      → ((a : Answer (List Key)) → P log → P (listed_kros a ∷ log))
      → P (enqueue_all_objects env log).1
  unfolding enqueue_all_objects
  enqueued_at P log h listed = by_kind env.gvk_error refl
    where
      by_kind :
          (error : Option ApiError) → env.gvk_error ≡ error → P (enqueue_all_objects env log).1
      by_kind none known = rw known (listed (env.list_kros log) h)
      by_kind (some error) known = rw known h

  handled-Sound :
      (first : Option ProviderConfig) (rest : List (Option ProviderConfig)) (w : Running)
      → w.sent ≡ first ∷ rest
      → Sound w
      → Sound (handling env r first rest w)
  unfolding handle_notification
  handled-Sound first rest w e s =
      let K = in_use first rest in
      let after =
        enqueued_at (KnownChain env r K) w.log
          (subst (λ cs. AllBacked cs w.log) e s.backed.1, s.chain)
          (λ a known. (K.lasts (listed_kros a) w.log tt known.0, (tt, known.1))) in
      record { backed = after.0; chain = after.1 }

  -- A run adds at most a Get and a Patch before it loads the config.
  pub begun_at :
      (P : Log → Type 0) (got : Answer Kro) (log : Log)
      → P log
      → ((new old : Kro) (a : Answer Kro) → P log → P (patched_kro new old a ∷ log))
      → P (begin env r got log).1
  unfolding begin
  begun_at P (err e) log h patched = h
  begun_at P (ok obj) log h patched =
      let text = operation env with_workload_cluster (kro_provider env r) obj in
      elim (Bool-cases (text == env.operation_ignore)) [
        | inl skipped ↦ rw skipped h
        | inr taken ↦ rw taken (elim (Bool-cases (text == env.operation_reconcile)) [
          | inl triggered ↦ rw triggered (patched _ _ _ h)
          | inr plain ↦ rw plain h
        ])
      ]

  begun-Sound :
      (req : Key) (rest : List Key) (w : Running) → Sound w → Sound (beginning env r req rest w)
  unfolding beginning
  begun-Sound req rest w s =
      let K = in_use w.cached w.sent in
      let got = env.get_kro w.log req in
      let after =
        begun_at (KnownChain env r K) got (got_kro req got ∷ w.log)
          (K.lasts (got_kro req got) w.log tt s.backed, (tt, s.chain))
          (λ new old a known. (K.lasts (patched_kro new old a) _ tt known.0, (tt, known.1))) in
      record { backed = after.0; chain = after.1 }

  finished-Sound : (obj : Kro) (w : Running) → Sound w → Sound (finishing env r obj w)
  finished-Sound obj w s =
      let after =
        reconcile_deferred-KnownChain env r (in_use w.cached w.sent) w.cached obj w.log s.backed.0
          (s.backed, s.chain) in
      record { backed = after.0; chain = after.1 }

  Step-Sound : {w v : Running} → Step env r w v → Sound w → Sound v
  Step-Sound (config req) s = config-Sound req _ s
  Step-Sound (handled first rest e) s = handled-Sound first rest _ e s
  Step-Sound (requested req) s = record { backed = s.backed; chain = s.chain }
  Step-Sound (begun before after req idle e) s = begun-Sound req _ _ s
  Step-Sound (finished obj e) s = finished-Sound obj _ s

  pub Reach-Sound : {w : Running} → Reach env r w → Sound w
  Reach-Sound start = record { backed = (tt, tt); chain = tt }
  Reach-Sound (later reach step) = Step-Sound step (Reach-Sound reach)

  Chain-at :
      (I : Event → Log → Type 0) (after : Log) (e : Event) (before : Log)
      → Chain I (after ++ e ∷ before)
      → I e before
  Chain-at I [] e before chain = chain.0
  Chain-at I (x ∷ after) e before chain = Chain-at I after e before chain.1

  justified :
      {w : Running} (after : Log) (e : Event) (before : Log)
      → Reach env r w
      → w.log ≡ after ++ e ∷ before
      → Justified env r e before
  justified after e before reach at =
      Chain-at (Justified env r) after e before
        (subst (Chain (Justified env r)) at (Reach-Sound reach).chain)

  -- Whatever the steps of the running controllers, each OCIRepository that was ever written, tried
  -- or done, is built for a version that is on offer in a ProviderConfig which the API server
  -- answered with before, and which was not being deleted.
  pub upserted_oci_repository-Offered :
      (w : Running) (after before : Log) (c : Cluster) (k : Key) (spec : OciRepositorySpec)
      (a : Answer OciRepository)
      → Reach env r w
      → w.log ≡ after ++ upserted_oci_repository c k spec a ∷ before
      → Offered env r spec before
  upserted_oci_repository-Offered w after before c k spec a reach at = justified _ _ _ reach at

  -- Whatever the steps of the running controllers, each secret that was ever written, tried or
  -- done, has all its content, under the same keys, from a secret that was read before from the
  -- platform cluster, and is one of three. It is the chart pull secret of a version on offer, on
  -- the platform cluster, from the secret of that name in the namespace of the controller. Or it is
  -- an image pull secret that the values of a version on offer list, in kro-system of a cluster
  -- that the access library answered with as a workload cluster, again from the secret of that name
  -- in the namespace of the controller. Or it is the kubeconfig of the control plane in kro-system,
  -- and then, for one and the same request, the access library answered with the cluster that it is
  -- written to as the workload cluster, and with an access request for the control plane that names
  -- the secret read, or names none where the key read is empty. A version is on offer if the API
  -- server answered before with a ProviderConfig, not being deleted, that resolves to it.
  pub upserted_secret-SecretOrigin :
      (w : Running) (after before : Log) (c : Cluster) (k : Key) (x : Secret) (a : Answer Unit)
      → Reach env r w
      → w.log ≡ after ++ upserted_secret c k x a ∷ before
      → SecretOrigin env r c k x before
  upserted_secret-SecretOrigin w after before c k x a reach at = justified _ _ _ reach at

  -- Whatever the steps of the running controllers, each HelmRelease that was ever written, tried or
  -- done, installs the chart of the OCIRepository in its own namespace into kro-system, and is one
  -- of two. The one of Kro has the values of a version on offer, and the kubeconfig that the access
  -- request for an object's workload names, which was read before from the same namespace. The one
  -- of the CRDs has no values, and the kubeconfig that the access request for a control plane
  -- names, or an empty name where it names none; the access library answered with it for a request
  -- that it also gave a workload cluster for.
  pub upserted_helm_release-HelmOrigin :
      (w : Running) (after before : Log) (c : Cluster) (k : Key) (spec : HelmReleaseSpec)
      (a : Answer HelmRelease)
      → Reach env r w
      → w.log ≡ after ++ upserted_helm_release c k spec a ∷ before
      → HelmOrigin env r k spec before
  upserted_helm_release-HelmOrigin w after before c k spec a reach at = justified _ _ _ reach at

  -- Whatever the steps of the running controllers, before each Update of a Kro object, which is the
  -- one that takes its finalizer away, the cluster access library answered a deletion of access
  -- with no error and no time to wait.
  pub updated_kro-AccessGone :
      (w : Running) (after before : Log) (o : Kro) (a : Answer Kro)
      → Reach env r w
      → w.log ≡ after ++ updated_kro o a ∷ before
      → AccessGone env r before
  updated_kro-AccessGone w after before o a reach at = justified _ _ _ reach at
