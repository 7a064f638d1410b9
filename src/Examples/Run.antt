-- ===== src/Examples/Run.antt =====
-- Runs of the whole system from its start, and the theorems on them, applied.
use service_provider_kro.Base.{ℕ, zero, suc, none, some, [], ◌∷◌, ◌≡◌, refl}
use service_provider_kro.Kube.{ok, time_is_zero}
use service_provider_kro.Api.Kro.{Kro, key_of}
use service_provider_kro.Env.{Env, Log}
use service_provider_kro.Exec.{◌>>=◌, on_error}
use service_provider_kro.Runtime.Status.{set_status}
use service_provider_kro.Runtime.Config.{reconcile_config, handle_notification}
use service_provider_kro.Runtime.Reconcile.{reconcile_deferred}
use service_provider_kro.Controller.Install
use service_provider_kro.Controller.Remove
use service_provider_kro.Controller.Releases
use service_provider_kro.System.Run.{
  Running, started, reconciling_config, handling, beginning, finishing, config, handled, begun,
  finished, Reach, start, later,
}
use service_provider_kro.Go.{pos, is_positive, is_zero}
use service_provider_kro.System.Origins.Defs.{Offered, SecretOrigin, HelmOrigin, AccessGone}
use service_provider_kro.System.Run.Provenance.{
  upserted_oci_repository-Offered, upserted_secret-SecretOrigin, upserted_helm_release-HelmOrigin,
  updated_kro-AccessGone,
}
use service_provider_kro.System.Run.Current.{last_read, cached-last_read}
use service_provider_kro.Examples.World
use service_provider_kro.Examples.World.{world, reconciler, my_kro, key_named}

abbrev front : ℕ → Log → Log
front zero log = []
front (suc n) [] = []
front (suc n) (e ∷ log) = e ∷ front n log

abbrev behind : ℕ → Log → Log
behind zero log = log
behind (suc n) [] = []
behind (suc n) (e ∷ log) = behind n log

module _ (env : Env) where
  abbrev watched : Running
  watched = reconciling_config env reconciler (key_named "kro") started

  abbrev informed : Running
  informed = handling env reconciler (some World.config) [] watched

  abbrev accepted : Running
  accepted = beginning env reconciler (key_of my_kro) [] informed

  abbrev reconciled : Kro → Running
  reconciled obj = finishing env reconciler obj accepted

-- The object is being deleted, and nothing is left of it.
abbrev dying : Kro
dying = record my_kro {
  finalizers = "kro.services.open-control-plane.io/finalizer" ∷ [];
  deletion_timestamp = some 3;
}

abbrev leaving : Env
leaving = record (world 0) { get_kro = λ log key. ok dying }

module _ (env : Env) where
  reconciled-Reach :
      (watched env).sent ≡ some World.config ∷ []
      → (informed env).queue ≡ key_of my_kro ∷ []
      → (obj : Kro) → (accepted env).taken ≡ some obj
      → Reach env reconciler (reconciled env obj)
  reconciled-Reach sent queued obj taken =
      later
        (later
          (later (later start (config (key_named "kro"))) (handled (some World.config) [] sent))
          (begun [] [] (key_of my_kro) refl queued))
        (finished obj taken)

upserted_oci_repository-Offered_example :
    Offered
      (world 0)
      reconciler
      (record {
        interval = pos 60000000000;
        url = "oci://registry.example/kro";
        secret_ref = some "pull";
        tag = "0.1.0";
      })
      (behind 9 (reconciled (world 0) my_kro).log)
unfolding reconcile_config time_is_zero handle_notification beginning reconcile_deferred ◌>>=◌
    on_error is_positive Install.create_or_update set_status
upserted_oci_repository-Offered_example =
    upserted_oci_repository-Offered (world 0) reconciler (reconciled (world 0) my_kro)
      (front 8 (reconciled (world 0) my_kro).log) (behind 9 (reconciled (world 0) my_kro).log) _ _ _
      _ (reconciled-Reach (world 0) refl refl my_kro refl) refl

upserted_secret-SecretOrigin_example :
    SecretOrigin
      (world 0)
      reconciler
      World.workload
      (record { namespace = "kro-system"; name = "kro-mcp-kubeconfig" })
      (record { content = ("kubeconfig", "token") ∷ []; kind = "Opaque" })
      (behind 6 (reconciled (world 0) my_kro).log)
unfolding reconcile_config time_is_zero handle_notification beginning reconcile_deferred ◌>>=◌
    on_error is_positive Install.create_or_update set_status
upserted_secret-SecretOrigin_example =
    upserted_secret-SecretOrigin (world 0) reconciler (reconciled (world 0) my_kro)
      (front 5 (reconciled (world 0) my_kro).log) (behind 6 (reconciled (world 0) my_kro).log) _ _ _
      _ (reconciled-Reach (world 0) refl refl my_kro refl) refl

upserted_helm_release-HelmOrigin_example :
    HelmOrigin
      (world 0)
      reconciler
      (record { namespace = "mcp--my-kro"; name = "kro-helm-release" })
      (Releases.workload_release_spec "mcp--my-kro" none
        (record { name = "workload-access"; key = "kubeconfig" }))
      (behind 3 (reconciled (world 0) my_kro).log)
unfolding reconcile_config time_is_zero handle_notification beginning reconcile_deferred ◌>>=◌
    on_error is_positive Install.create_or_update set_status Releases.workload_release_spec
upserted_helm_release-HelmOrigin_example =
    upserted_helm_release-HelmOrigin (world 0) reconciler (reconciled (world 0) my_kro)
      (front 2 (reconciled (world 0) my_kro).log) (behind 3 (reconciled (world 0) my_kro).log) _ _ _
      _ (reconciled-Reach (world 0) refl refl my_kro refl) refl

updated_kro-AccessGone_example :
    AccessGone leaving reconciler (behind 2 (reconciled leaving dying).log)
unfolding reconcile_config time_is_zero handle_notification beginning reconcile_deferred ◌>>=◌
    on_error is_positive is_zero Remove.delete set_status
updated_kro-AccessGone_example =
    updated_kro-AccessGone leaving reconciler (reconciled leaving dying)
      (front 1 (reconciled leaving dying).log) (behind 2 (reconciled leaving dying).log) _ _
      (reconciled-Reach leaving refl refl dying refl) refl

cached-last_read_example :
    (reconciled (world 0) my_kro).cached ≡ last_read (world 0) (reconciled (world 0) my_kro).log
unfolding reconcile_config time_is_zero handle_notification beginning
cached-last_read_example =
    cached-last_read (world 0) reconciler (reconciled (world 0) my_kro)
      (reconciled-Reach (world 0) refl refl my_kro refl) refl
