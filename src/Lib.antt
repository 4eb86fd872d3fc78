-- ===== src/Lib.antt =====
-- Spotalis: placement of the replicas of Kubernetes workloads on spot and on-demand nodes.
--
-- The program has a policy that divides replicas between the two kinds of node, a mutating webhook
-- that places each new pod by it, and controllers that evict a pod at a time where the pods that
-- run are not divided that way. The webhook reserves its choices in a tracker, so that admissions
-- at the same time see one another; the controllers observe the pods of a workload as a snapshot.
--
-- Files and sources:
-- - Common, and its children: integers of 32 and 64 bits, lists, times, texts of code points, and
--   the numbers of Go's strconv.
-- - Kube: the objects of the Kubernetes API, as the fields that the code uses.
-- - Apis/Policy: pkg/apis/policy.go (ValidateReplicaAllocationPolicy, AllocateReplicaDistribution).
-- - Apis/Configuration: pkg/apis/configuration.go (ParseFromAnnotations, ToAnnotations, Validate).
-- - Apis/ReplicaState: pkg/apis/replica_state.go (CalculateDesiredDistribution, GetNextAction).
-- - Apis/Leadership: pkg/apis/leadership_state.go. Apis/DisruptionPolicy:
--   pkg/apis/disruption_policy.go. Apis/ControllerConfiguration: pkg/apis/controller_config.go.
-- - Apis/NodeType: the node types of pkg/apis/node_classification.go.
-- - Annotations/Parser: internal/annotations/parser.go.
-- - Annotations/DisruptionWindow: internal/annotations/disruption_window.go.
-- - Webhook/AdmissionState: pkg/webhook/admission_state.go (SelectAndReserve and the tracker).
-- - Webhook/Placement, Webhook/JsonPointer: pkg/webhook/mutate.go (the label configuration,
--   generateNodeSelectorPatches, getPodCapacityType, the JSON pointer escapes).
-- - Observation: pkg/observation/workload.go (ActualCounts, EligiblePods); Observe is in Service.
-- - Controllers/Eviction: pkg/controllers/eviction.go (EvictPod, CanEvict, CheckPDBStatus).
-- - Controllers/Reconciler: what pkg/controllers/deployment_controller.go and
--   pkg/controllers/statefulset_controller.go have in common, for any type of workload: the state of
--   a reconciler, the guards of Reconcile (Guards), the eviction of one pod and the end of Reconcile
--   (Rebalancing), and the lemmas on evictions, updates and the cooldown.
-- - Controllers/Deployment: the rest of pkg/controllers/deployment_controller.go.
-- - Controllers/StatefulSet: the rest of pkg/controllers/statefulset_controller.go: the order of the
--   pods (Ordinals), the update of the pod template (Template), and Reconcile.
-- - Controllers/NamespaceFilter: pkg/controllers/namespace_filter.go: performFiltering is in Rules,
--   the counters in Metrics, the cache and its service in Service.
-- - Controllers/Manager: pkg/controllers/manager.go; what its setup leaves is in Setup.
-- - NodeClassifier: internal/config/node_classifier.go: ClassifyNode in NodeClassifier itself, the
--   cache in Service, ClassifyNodesByName in ByName.
-- - CircuitBreaker: the circuit breaker of pkg/utils/rate_limiter.go.
-- - Config: pkg/config/consolidated.go, and in Loader pkg/config/loader.go; Startup states what the
--   configuration that is loaded means for the reconcilers.
-- - Server/Health: internal/server/health.go: the handlers of /healthz and /readyz, the checks for
--   controller-runtime, and the settings.
-- - Operator/LeaderElection: pkg/operator/leader_election.go; its steps are in Runs.
-- - Operator/Shutdown: pkg/operator/shutdown.go: the states of the components and the status in
--   Shutdown itself, the phases and initiateShutdown in Phases, and that it returns in Returns. It
--   acts on the health checker and the manager of the election that the modules above model.
-- - Webhook/Owners, Webhook/Mutate: pkg/webhook/mutate.go (Handle, mutatePod, workloadForPod,
--   getWorkloadConfigForPod, determineTargetCapacityType with the observer).
--
-- A method that mutates its receiver returns the new record, and a lock that is held for the whole
-- of a method makes it one step. The readings of the clock, the answers of the API server, the cron
-- library, the regular expressions, sort.Slice and the selectors of apimachinery are arguments. A
-- pair of a value and an error is a Result; a nil pointer or map is `none`. An early return of
-- Reconcile is the error of a chain, with the state, the delay and the error that it returns.
--
-- Sums of counts wrap around at 32 bits, and the products of the allocation at 64 bits. All loops
-- are structural recursion over a list or a text, so that no fuel is needed; only the steps that
-- GetNextAction suggests are followed for a number of steps, the distance of the counts from their
-- targets, which is enough. The wait of the shutdown for a new leader takes fuel, of which one more
-- than the number of the round in which the timeout fires is enough; at a tick of 500 milliseconds
-- and a timeout of 15 seconds that is round 30 at the latest. What a select of the shutdown takes is
-- an argument, and so is what a hook does, which may hang. A waiting shutdown is a value.
-- The channel of the changes of the leader is the list of what waits in it, of which the runtime of
-- Go allows ten; the callbacks of the election hold no lock, and the one that starts to lead is two
-- steps.
--
-- Not modelled: logging, metrics, the HTTP servers, start-up and the registration with
-- controller-runtime, since they are input and output or wiring; the elections themselves, which
-- client-go makes; the limiter and the node cache of pkg/apis; the rate limiter, which waits
-- on golang.org/x/time/rate, and internal/config/loader.go; the paths of the controllers and
-- of the webhook without an observer, which the operator never takes. The webhook is modelled with
-- a tracker and without one; the handler that the operator builds has none. The controllers take
-- the answer of the namespace filter as an argument, and the observer that of the node classifier,
-- so that their theorems hold whatever these answer; the filter and the classifier have theorems of
-- their own.
pub mod Annotations
pub mod Apis
pub mod CircuitBreaker
pub mod Common
pub mod Config
pub mod Controllers
pub mod Kube
pub mod NodeClassifier
pub mod Observation
pub mod Operator
pub mod Server
pub mod Webhook
