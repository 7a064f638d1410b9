-- ===== src/Examples/Tests.antt =====
-- Runs on concrete inputs, by computation.
use service_provider_kro.Base.{true, none, some, [], ◌∷◌, ◌≡◌, refl}
use service_provider_kro.Base.Lists.{erase, join_with}
use service_provider_kro.Go.{is_positive, minute}
use service_provider_kro.Kube.{no_requeue}
use service_provider_kro.Api.Kro.{key_of}
use service_provider_kro.Api.ProviderConfig.{get_chart_url}
use service_provider_kro.Exec.{returned, panicked, ◌>>=◌, on_error}
use service_provider_kro.Runtime.Status.{set_status}
use service_provider_kro.Runtime.Clusters.{retrieve_secret_key, no_clusters}
use service_provider_kro.Runtime.Reconcile.{finished, reconcile}
use service_provider_kro.Controller.Install
use service_provider_kro.Examples.World.{
  world, provider, reconciler, config, start, my_kro, version_1, clusters_of_kro,
}

chart_url : get_chart_url version_1 ≡ "oci://registry.example/kro"
unfolding get_chart_url
chart_url = refl

erased : erase "a" (("a", "1") ∷ ("b", "2") ∷ ("a", "3") ∷ []) ≡ ("b", "2") ∷ []
unfolding erase
erased = refl

joined : join_with ", " ("1.0.0" ∷ "2.0.0" ∷ []) ≡ "1.0.0, 2.0.0"
unfolding join_with
joined = refl

no_secret_ref : (retrieve_secret_key none start).0 ≡ panicked
unfolding retrieve_secret_key ◌>>=◌
no_secret_ref = refl

installed :
    (Install.create_or_update (world 0) reconciler (some config) clusters_of_kro start).0
    ≡ returned no_requeue
unfolding Install.create_or_update ◌>>=◌ on_error set_status
installed = refl

no_workload_cluster :
    (Install.create_or_update
      (world 0)
      reconciler
      (some config)
      no_clusters
      start).1.obj.status.phase
    ≡ "Progressing"
unfolding Install.create_or_update ◌>>=◌ on_error set_status
no_workload_cluster = refl

-- A first reconcile installs everything and is run again after the default interval.
reconciled :
    (reconcile (world 0) true provider (some config) (key_of my_kro) []).0
    ≡ finished (record { requeue_after = minute }) none
unfolding reconcile Install.create_or_update ◌>>=◌ on_error set_status is_positive
reconciled = refl
