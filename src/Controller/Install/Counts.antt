-- ===== src/Controller/Install/Counts.antt =====
-- Ways to count the writes of an installation, and the steps that write nothing.
use service_provider_kro.Base.{String, List, [], ◌∷◌, ◌⊎◌, inl, inr, ◌≡◌, refl}
use service_provider_kro.Go.{ApiError, Error}
use service_provider_kro.Kube.{Answer, ok, err, Key, Time, Cluster, Secret, AccessRequest}
use service_provider_kro.Flux.{OciRepositorySpec, OciRepository, HelmReleaseSpec, HelmRelease}
use service_provider_kro.Runtime.Status.{set_status, stamped}
use service_provider_kro.Env.{
  Env, Event, read_clock, got_secret, upserted_secret, upserted_namespace, upserted_oci_repository,
  upserted_helm_release, got_access_request,
}
use service_provider_kro.Exec.Follows.{
  Follows, Follows-fail, Follows-call, Follows-modify, Follows-quiet,
}
use service_provider_kro.Controller.Install.{progressing_error}
use service_provider_kro.Controller.Install.Plan.{
  Write, secret, namespace, oci_repository, helm_release, without_access, attempted, acknowledged,
}

-- A way to count writes: an upsert counts when it succeeds, and may count when it fails.
pub record Counts (written : Event → List Write) : Type 0 where
  pub clock : (t : Time) → written (read_clock t) ≡ []
  pub reading_secret : (c : Cluster) (k : Key) (a : Answer Secret) → written (got_secret c k a) ≡ []
  pub reading_request :
      (c : Cluster) (k : Key) (a : Answer AccessRequest) → written (got_access_request c k a) ≡ []
  pub secret_done :
      (c : Cluster) (k : Key) (x : Secret) (u : Unit)
      → written (upserted_secret c k x (ok u)) ≡ secret c k ∷ []
  pub secret_lost :
      (c : Cluster) (k : Key) (x : Secret) (e : ApiError)
      → (written (upserted_secret c k x (err e)) ≡ secret c k ∷ [])
        ⊎ (written (upserted_secret c k x (err e)) ≡ [])
  pub namespace_done :
      (c : Cluster) (n : String) (u : Unit)
      → written (upserted_namespace c n (ok u)) ≡ namespace c n ∷ []
  pub namespace_lost :
      (c : Cluster) (n : String) (e : ApiError)
      → (written (upserted_namespace c n (err e)) ≡ namespace c n ∷ [])
        ⊎ (written (upserted_namespace c n (err e)) ≡ [])
  pub oci_done :
      (c : Cluster) (k : Key) (x : OciRepositorySpec) (o : OciRepository)
      → written (upserted_oci_repository c k x (ok o)) ≡ oci_repository c k x ∷ []
  pub oci_lost :
      (c : Cluster) (k : Key) (x : OciRepositorySpec) (e : ApiError)
      → (written (upserted_oci_repository c k x (err e)) ≡ oci_repository c k x ∷ [])
        ⊎ (written (upserted_oci_repository c k x (err e)) ≡ [])
  pub release_done :
      (c : Cluster) (k : Key) (x : HelmReleaseSpec) (o : HelmRelease)
      → written (upserted_helm_release c k x (ok o)) ≡ helm_release c k (without_access x) ∷ []
  pub release_lost :
      (c : Cluster) (k : Key) (x : HelmReleaseSpec) (e : ApiError)
      → (written (upserted_helm_release c k x (err e)) ≡ helm_release c k (without_access x) ∷ [])
        ⊎ (written (upserted_helm_release c k x (err e)) ≡ [])

pub attempted-Counts : Counts attempted
attempted-Counts = record {
  clock = λ t. refl;
  reading_secret = λ c k a. refl;
  reading_request = λ c k a. refl;
  secret_done = λ c k x u. refl;
  secret_lost = λ c k x e. inl refl;
  namespace_done = λ c n u. refl;
  namespace_lost = λ c n e. inl refl;
  oci_done = λ c k x o. refl;
  oci_lost = λ c k x e. inl refl;
  release_done = λ c k x o. refl;
  release_lost = λ c k x e. inl refl;
}

pub acknowledged-Counts : Counts acknowledged
acknowledged-Counts = record {
  clock = λ t. refl;
  reading_secret = λ c k a. refl;
  reading_request = λ c k a. refl;
  secret_done = λ c k x u. refl;
  secret_lost = λ c k x e. inr refl;
  namespace_done = λ c n u. refl;
  namespace_lost = λ c n e. inr refl;
  oci_done = λ c k x o. refl;
  oci_lost = λ c k x e. inr refl;
  release_done = λ c k x o. refl;
  release_lost = λ c k x e. inr refl;
}

module _ (env : Env) (written : Event → List Write) (cs : Counts written) where
  pub set_status-Follows :
      (status reason message phase : String)
      → Follows written [] (set_status env status reason message phase)
  unfolding set_status
  set_status-Follows status reason message phase =
      Follows-quiet written [] _ _ (Follows-call written env.now read_clock cs.clock)
        (λ t. Follows-modify written (stamped env status reason message phase t))

  pub progressing_error-Follows :
      {A : Type 0} (text : String) (e : Error) (q : List Write)
      → Follows written q (progressing_error env text e {A = A})
  unfolding progressing_error
  progressing_error-Follows text e q =
      Follows-quiet written q _ _ (set_status-Follows _ _ _ _) (λ _. Follows-fail written q _)
