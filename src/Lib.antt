-- ===== src/Lib.antt =====
-- A model of service-provider-kro, a controller that installs Kro for the tenants of an
-- OpenControlPlane through Flux, with theorems on what it does.
--
-- The program has two controllers. The generic one of pkg/spruntime reconciles `Kro` objects of the
-- onboarding cluster: it keeps a finalizer on them, gets access to the control plane and to a
-- workload cluster, and calls a service provider, here the `KroReconciler` of internal/controller,
-- to install or to remove Kro. That one writes secrets, an OCIRepository and two HelmReleases. The
-- other controller reconciles the `ProviderConfig`, and sends what it finds over a channel to the
-- first, which caches it and reconciles all objects again.
--
-- How the code is modelled:
--   * Env: all that is outside the program is a field of the record `Env`: the answers of API
--     servers, of the cluster access library and of the clock, and pure library functions. An
--     answer is a function of all events before it, so that failures, other writers and any
--     interleaving with them are included. Env/Laws names the documented behaviour that some
--     theorems take as a hypothesis.
--   * Exec: code that changes the object or calls the outside is a function from a `State`, the
--     object and the log of events so far, to an outcome and a state. An outcome is a value, an
--     error, or a panic on a nil pointer. Logging, contexts and time-outs are left out.
--   * A Go pointer that may be nil is an `Option`. A string map is an association list. A
--     `time.Duration` is an integer that is only copied and compared with 0.
--
-- Which file models which code:
--   * Go, Kube, Flux: types of Go and of the libraries, with the fields that the program uses.
--   * Api/ProviderConfig: api/v1alpha1/providerconfig_types.go (ResolveVersion, GetChartURL,
--     ensureOCIScheme, PollInterval). Api/Kro: api/v1alpha1/kro_types.go.
--   * Runtime/Status: pkg/spruntime/status.go.
--   * Runtime/Context, Clusters, Domain, Reconcile: pkg/spruntime/spreconciler.go (ClusterContext;
--     clusters, areAccessRequestsInDeletion, retrieveSecretKey; createOrUpdate, delete; Reconcile,
--     updateStatus).
--   * Runtime/Config: pkg/spruntime/pcreconciler.go, and the watches of spreconciler.go
--     (SetupWithManager, mapSecretToRequests, enqueueAllObjects).
--   * Controller/Names, HelmValues: the constants of internal/controller/kro_controller.go, and
--     internal/controller/helm_values.go.
--   * Controller/Secrets, Releases, Install, Remove: internal/controller/kro_controller.go
--     (replicateChartPullSecret, replicateImagePullSecrets, replicateMCPKubeconfig; the builders
--     and writers of the Flux objects; CreateOrUpdate, resourceStatus; Delete,
--     countResourceGraphDefinitions, managedResources).
--   * System: the wiring of the two in cmd/service-provider-kro/main.go. System/Run: both at work,
--     as steps in any order, with the channel and a queue of requests; System/Run/Atomic relates
--     the two steps of a run on an object to `Reconcile` as a whole.
--   * Start: the rest of cmd/service-provider-kro/main.go, with the builders of SPReconciler and
--     PCReconciler: Options (the flags, the command, the servers), Wiring (schemes, permissions,
--     the reconcilers), Outside (the calls that it makes, as events, and their answers), Steps
--     (statements that may end the program), Program (main itself, both its commands). Wired spells
--     out the settings with which the manager and the reconcilers are meant to be set up.
--   * Memory: pointers and slices at addresses, and what it means that a copy shares no memory with
--     its original. DeepCopy: api/v1alpha1/zz_generated.deepcopy.go, a module for each type, with
--     the types as they lie in memory (Structs, Cells), what they stand for (Meanings,
--     ConfigMeanings) and the proofs (Laws, Objects). All other files have values in place of
--     pointers, where a deep copy is the value itself.
--   * Controller/Install/Plan: what an installation should write, as a list, beside the code.
--   * System/Origins: the reasons that writes have in what was answered before. System/Leaving: an
--     outside that lets an object go. System/Tidy: installation and deletion side by side.
--   * Exec/Follows, Keeps, Known, Causal, Tells, Completes, Panics, Laws, and Start/Rules:
--     reasoning about actions. Examples: concrete runs.
--
-- All loops of the code run over a list, and are structural recursion on it; no fuel is used.
--
-- Not modelled: the manager and the work queue of controller-runtime (any waiting request may be
-- the next; a run on a config is one step, and one on an object is two, before and behind its load
-- of the cached config), logging, JSON and YAML, the CRD files, and tests. A function passed to
-- `CreateOrUpdate` of a workload or platform client is represented by what it sets, since the
-- object that it is applied to is on the API server. Start leaves out that scheme registration may
-- panic, and takes it as a parameter whether a library panics on a nil cluster. In Memory a slice
-- spans its whole array, a new array is filled by one write behind the loop that copies its
-- elements, and what lies in memory behind the library types, with their own deep copies, is a
-- parameter.
pub mod Base
pub mod Go
pub mod Kube
pub mod Flux
pub mod Api
pub mod Memory
pub mod DeepCopy
pub mod Env
pub mod Exec
pub mod Runtime
pub mod Controller
pub mod System
pub mod Start
pub mod Examples
