-- ===== src/Lib.antt =====
-- A model of Petri, a Kubernetes operator for ephemeral environments, with proofs.
--
-- The program. An EphemeralEnvironment names a template, a list of components that depend on one
-- another. The controller (internal/controller) gives each environment a namespace of its own,
-- deploys the components level by level (internal/graph) as Jobs (internal/deployer), waits until
-- they are ready, and takes everything down in the reverse order when the environment is deleted
-- or its time is over. Shared components are provisioned by Jobs too (internal/provisioner).
--
-- The files.
--   Types           api/v1alpha1: the specs and statuses.
--   Cluster         the objects and calls of the Kubernetes API that the code uses. The server is
--                   the record `Api`: the answer to a call is a function of the calls made before.
--                   One `Api` is one course of events, other clients included, so a theorem for
--                   every `Api` holds for every interleaving of other writers with these calls.
--   Platform        what comes from libraries: the hex digest of sha256, time.ParseDuration, the
--                   conditions of apimachinery, finalizers, deep equality. All are parameters.
--   Graph           internal/graph/kahn.go: BuildLevels, a function for each loop. A map is the
--                   function that reads it.
--   Status          internal/controller/component_status.go, over the list of statuses. An int32 is
--                   its bit pattern, and `requeueAfter << retries` wraps as an int64.
--   Jobs            internal/deployer/common.go and deployer.go; Jobs/Protocol is submit and observe,
--                   which internal/deployer/job.go (Jobs/Deployer) and internal/provisioner/job.go
--                   (Jobs/Provisioner) share but for the name, the payload and the match.
--   Helm            internal/deployer/helm.go over the Helm SDK, whose answers depend on the calls
--                   before; Helm/Command is cmd/deployer/main.go, which a deployer Job runs.
--   Namespaces      internal/controller/ephemeralenvironment_controller.go: targetNamespace,
--                   allocateNamespace, createNamespace, ensureDeployerRoleBinding, ownsNamespace.
--   Environments    the same file: resolveDeadline, resolveDeployTimeout, setFailed,
--                   removeFinalizer, and StatusPatcher of internal/helpers/patcher.go; Requests is
--                   Reconcile, Reconcile is reconcile with its pure steps in Frontier, Teardown is
--                   reconcileDelete.
--   Deploys         internal/controller/deploy.go: partitionLevel, checkReadiness, eachComponent,
--                   deployOpts; processLevel, submitDeploys and observeDeploys in Deploys/Process.
--   Checker         internal/readiness/checker.go, which fills the checker that Deploys is given.
--   Config          internal/config/config.go, and the default limits of controller/ratelimit.go.
--   Undeploys       internal/controller/undeploy.go.
--   SecretGen       internal/secretgen/secretgen.go, over a source of random numbers.
--   Renderer        internal/renderer/render.go, over an engine for templates.
--   Shared          internal/controller/shared.go: Lease has acquireProvisionLease and its release,
--                   Consumers registerConsumer, Contention many callers of both in any order,
--                   Provision submitShared, observeShared and bindingComponents, Values
--                   renderConsumerValues, Deprovision deprovisionShared.
--   SharedComponents  internal/controller/sharedcomponent_controller.go: Requests is Reconcile,
--                   Reconcile is reconcile, Teardown is reconcileDelete with consumersDrained,
--                   Instance has createSharedNamespace and ensureInstanceSecret.
--   Observability   internal/controller/observability.go: the metrics and events of phases.
--   Operator        cmd/operator/main.go: the reconcilers with the parts that fill their interfaces;
--                   Operator/Completion puts the steps of an environment's deletion together.
--   Prelude         the shared helpers; Prelude/Effects has errors and handlers. A handler takes a
--                   state to a result and a state, and the state outlives an error.
--   Fixtures        concrete objects, used by the Samples module of each part.
--
-- How the parts interact. `World` (Namespaces) is the API's log and the environment object that
-- the code changes through a pointer. Reconcile takes the deployment of a level as a parameter,
-- which `process_level` fills; that takes the record `SharedDeploys`, the four functions of
-- internal/controller/shared.go that it calls, which Shared has. Teardown takes the record
-- `Cleanup`, the two steps that take components down and the law that they change the statuses of
-- components alone; Undeploys/Keeps fills it with undeployAll, and Shared/Deprovision with
-- deprovisionShared. Undeploys and Deploys take the record `Deployer`, which JobDeployer fills
-- (`job_deployer`); Shared takes the record `Provisioner`, which JobProvisioner fills. The Jobs
-- that JobDeployer builds run the command of Helm/Command, which calls Install and Uninstall. A
-- consumer registers with a shared component, and the controller of shared components drains it,
-- under the same lease. The random numbers, the clock and the end of a context are answers of `Api`
-- too.
--
-- Bounds and fuel. BuildLevels' loop gets one round more than there are components. The loop of
-- targetNamespace has 12 rounds and gets 45, that of allocateNamespace ends within 13 and gets
-- 53. The decimal digits of n get n + 1 rounds, more than there are digits. All other loops are
-- recursion on a list. Times and durations are nanoseconds.
--
-- What is simplified. Names and labels are ASCII, so a byte is a character. The Seconds of a
-- deadline are exact, not a float64. The goroutines of eachComponent run one after another. A
-- patch does not copy the server's answer back into the object. An error has one kind; a joined
-- error has the kind of its first part. %q adds quotation marks only. A float64 is a value of a
-- type with the comparisons that the code makes. Ports and numbers of replicas are not negative.
-- A nil dereference, which panics, is an error that ends the pass.
-- The time limits of contexts show as errors of the calls and of ctx.Err. A range over a map
-- visits its entries in the order of a list. A read decodes into an empty object.
--
-- What is not modelled: the flags, TLS options and the manager of cmd/operator; logs; the place
-- where reconcile sends its metrics and events, after a patch that has succeeded; the queues of
-- rate limits; and generated code.
mod Prelude
pub mod Types
pub mod Cluster
pub mod Graph
pub mod Helm
pub mod Status
pub mod Platform
pub mod Jobs
pub mod Namespaces
pub mod Environments
pub mod SecretGen
pub mod Renderer
pub mod Shared
pub mod Deploys
pub mod SharedComponents
pub mod Operator
pub mod Checker
pub mod Config
pub mod Undeploys
pub mod Observability
mod Fixtures
