-- ===== src/Start/Init.antt =====
-- The command "init".
use service_provider_kro.Base.{
  String, ◌==◌, eq_iff, true, false, Option, none, some, List, [], ◌∷◌, ◌≡◌, ◌≢◌, refl, Bool-cases,
  inl, inr,
}
use service_provider_kro.Go.{ApiError}
use service_provider_kro.Kube.{Cluster}
use service_provider_kro.Start.Options.{Flags}
use service_provider_kro.Start.Wiring.{platform_scheme, onboarding_scheme, admin_permissions}
use service_provider_kro.Start.Outside.{
  Startup, Calls, Platform, ClusterRequest, ClusterAnswer, got_logger, initialized_client,
  created_cluster, updated_crds, registered_kinds,
}
use service_provider_kro.Start.Steps.{exited, panicked, Result, ended, must, ◌>>=◌}
use service_provider_kro.Start.Program.{
  platform_cluster, use_pointer, initialize_platform_cluster, pod_namespace, onboarding_cluster,
  cluster_access_manager, kro_kind, init_with, init, execute,
}
use service_provider_kro.Start.Rules.{Made}

not_equal : (a b : String) → a ≢ b → (a == b) ≡ false
not_equal a b differs = elim (Bool-cases (a == b)) [
  | inl same ↦ absurd (differs ((eq_iff a b).0 same))
  | inr other ↦ other
]

module _ (platform : Platform) where
  -- The checks before the command succeed. The libraries follow the pointer to a cluster, so that
  -- they panic on nil only.
  pub record Checked : Type 0 where
    pub logger : (calls : Calls) → platform.get_logger calls ≡ none
    pub has_config : platform.has_config ≡ true
    pub client :
        (calls : Calls) (c : Cluster) → platform.initialize_client calls c platform_scheme ≡ none
    pub namespace : platform.getenv platform.env_variable_pod_namespace ≢ ""
    pub usable : (c : Cluster) → platform.is_usable (some c) ≡ true
    pub dereferenced : platform.is_usable none ≡ false

  -- With a cluster, the CRDs were tried for both clusters and then the registration, and the program
  -- ended with exit code 0, whatever the errors. Without one it panicked.
  abbrev pub Initialized : String → Option Cluster → Result (Unit {0}) × Calls → Type 0
  Initialized provider_name none r = r.0 ≡ ended panicked
  Initialized provider_name (some onboarding) r =
      (r.0 ≡ ended (exited 0))
      × ((crds : Option ApiError) × (registration : Option ApiError) × Made
            (updated_crds
              ((platform.purpose_platform, some platform_cluster)
                ∷ (platform.purpose_onboarding, some onboarding)
                ∷ [])
              crds)
            r.1
          × Made
              (registered_kinds platform_cluster provider_name
                (record {
                  group = "kro.services.open-control-plane.io";
                  version = "v1alpha1";
                  kind = "Kro";
                })
                registration)
              r.1)

  -- How a run of init ends, by the answer for the onboarding cluster.
  abbrev pub Inits : String → Result (Unit {0}) × Calls → Type 0
  Inits provider_name r =
      (request : ClusterRequest) × (answer : ClusterAnswer) × (request.purpose
        ≡ platform.purpose_onboarding)
      × (request.local_name ≡ "onboarding-init")
      × Made (created_cluster request answer) r.1
      × Initialized provider_name answer.cluster r

  module _ (h : Checked) (provider_name : String) where
    init_with-Initialized :
        (c : Option Cluster) (calls : Calls)
        → Initialized provider_name c (init_with platform platform_cluster provider_name c calls)
    unfolding init_with use_pointer ◌>>=◌
    init_with-Initialized none calls = rw h.dereferenced refl
    init_with-Initialized (some c) calls =
        let mapping : List (String × Option Cluster) =
          (platform.purpose_platform, some platform_cluster)
          ∷ (platform.purpose_onboarding, some c)
          ∷ [] in
        let crds = platform.create_or_update_crds calls mapping in
        let registration =
          platform.register_gvks (updated_crds mapping crds ∷ calls) platform_cluster provider_name
            kro_kind in
        rw h.usable (refl, (crds, registration, inr (inl refl), inl refl))

    -- What was called stays called.
    init_with-keeps :
        (c : Option Cluster) (calls : Calls) (x : Startup)
        → Made x calls
        → Made x (init_with platform platform_cluster provider_name c calls).1
    unfolding init_with use_pointer ◌>>=◌
    init_with-keeps none calls x made = rw h.dereferenced made
    init_with-keeps (some c) calls x made = rw h.usable (inr (inr made))

    init-Inits :
        (calls : Calls) → Inits provider_name (init platform platform_cluster provider_name calls)
    unfolding init onboarding_cluster ◌>>=◌
    init-Inits calls =
        let request : ClusterRequest = record {
          manager = cluster_access_manager platform platform_cluster;
          local_name = "onboarding-init";
          purpose = platform.purpose_onboarding;
          scheme = onboarding_scheme;
          permissions = admin_permissions;
        } in
        let answer = platform.create_and_wait_for_cluster calls request in
        (
          request,
          answer,
          refl,
          refl,
          init_with-keeps _ _ _ (inl refl),
          init_with-Initialized answer.cluster _,
        )

  execute-init :
      Checked
      → (flags : Flags) (calls : Calls)
      → execute platform "init" flags calls
        ≡ init platform platform_cluster flags.provider_name
            (initialized_client platform_cluster platform_scheme none ∷ got_logger none ∷ calls)
  unfolding execute initialize_platform_cluster pod_namespace ◌>>=◌ must
  execute-init h flags calls =
      let is_set = not_equal _ _ h.namespace in
      let same = (eq_iff "init" "init").1 refl in rw (h.logger, h.has_config, h.client, is_set) refl

  -- If the checks before the command succeed, the command init asks for the onboarding cluster. If
  -- it is answered a cluster, with an error or without, it tries the CRDs for both clusters and
  -- registers its kind, and ends with exit code 0 whatever errors it gets. If it is answered a nil
  -- cluster it panics. This is where the libraries panic on a nil cluster and on no other.
  pub init_lem :
      Checked
      → (flags : Flags) (calls : Calls)
      → Inits flags.provider_name (execute platform "init" flags calls)
  init_lem h flags calls = rw (execute-init h flags calls) (init-Inits h flags.provider_name _)
