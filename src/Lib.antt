-- ===== src/Lib.antt =====
-- A verification library of acmlab, the program that provisions, operates and retires OpenShift
-- clusters through an ACM hub. A manager of each package under internal/ reads and writes objects
-- of the hub's API server by one client; state is kept in those objects, except for the GPU
-- requests, which a manager keeps in memory.
--
-- The files and the code that they model:
-- Prelude: no code; names, lists, maps, texts, and Go's decimal numbers.
-- Kube: what the program uses of Go's errors and dynamic values, and of the Kubernetes
--   libraries. The API server is the record `Hub` of functions that step a world `W` and may fail;
--   the accessors of unstructured objects are the record `Accessors`. Both are arguments of every
--   model that uses them, and what a theorem needs of them is a record of laws beside it.
-- Client: internal/client/client.go, `CreateIfNotExists` and `DeleteIfExists`, the types
--   of internal/client/clustertype.go and the resource identifiers of internal/client/gvr.go. The plain calls are the fields of `Hub`.
-- Gpu.Request, Gpu.Requests: internal/gpu/request.go. Each operation is a function on the map of
--   requests; `SubmitRequest` and `RetryRequest` release their mutex while they route, so each is
--   two functions, and Gpu.Requests.System is a step relation that interleaves the critical
--   sections of any number of callers; Gpu.Requests.Ledger is what it implements.
-- Gpu.Routing: internal/gpu/routing.go and routing_builder.go. The poll loop of
--   `BestClusterWithTimeout` runs on fuel; the wait of a round is at least 500 ms, so a round for
--   each 500 ms of the timeout, and one more, are enough.
-- Decommission: internal/decommission, the workflow that retires a cluster: Phases, State and
--   ConfigMap for state.go, Audit for audit.go, Steps for drain.go, backup.go and cleanup.go, and
--   Manager for manager.go. `encoding/json` is the record `Codec`.
-- Lifecycle: internal/lifecycle/lifecycle.go: Power for Hive clusters, Capi for clusters of
--   Cluster API, Diagnosis for the checks and Reports for `Diagnose`. Power asks Capi where no
--   ClusterDeployment is found. Recovery is internal/lifecycle/recovery.go; the cluster that was
--   resumed is the record `Spoke`. Curators is curator.go and curator_builder.go.
-- Pool.Manual: internal/pool/manual.go, claiming, releasing and counting. A claim resumes its
--   cluster by Lifecycle.Power.
-- Pool.Hive: internal/pool/pool.go, the pools and claims that Hive keeps.
-- Batch: internal/batch/batch.go, `Execute`, as a step relation of its goroutines, the semaphore,
--   the channel of lines and the printer.
-- Fleet.Taints: internal/fleet/taints.go and taints_builder.go.
-- Scaling: internal/scaling/scaling.go: Pools for Hive's machine pools, Nodes for node pools and
--   MachineDeployments and for the choice between the three kinds.
-- Upgrade: internal/upgrade/upgrade.go, with the objects of internal/upgrade/builder.go and their
--   applying in Works.
-- Rollout: internal/rollout: rollout.go and builder.go, and ordering.go and ordering_builder.go in
--   Ordering.
-- Matrix: internal/matrix, the product of versions and architectures and its clusters.
-- Migration: internal/migration, the plans in their ConfigMaps; their objects are in Plans.
-- Access: internal/access. Tenant: internal/tenant. ClusterSets: internal/clusterset.
-- Cost: internal/cost/budget.go and internal/cost/budget_builder.go.
-- Reclamation: internal/reclamation/reclamation.go. A cluster is hibernated by Lifecycle.Power.
-- Examples: concrete servers and inputs at which the theorems apply.
--
-- Go names in camel case are written in snake case (`submitRequest` as `submit_request`). A time is
-- a number or its text, and an error of `fmt.Errorf` is its text or a constructor. Integers of 64
-- bits wrap around where the code adds them. Logging is left out.
--
-- Not modelled: the command line (cmd/acmlab), the server of internal/mcp, the tests, and the
-- packages of internal/ that mostly build objects. Of the packages above, creating and replenishing
-- a manual pool, waiting for a power state, and the estimates of costs from the nodes of a cluster
-- are left out.
pub mod Prelude
pub mod Gpu
pub mod Kube
pub mod Client
pub mod Decommission
pub mod Lifecycle
pub mod Pool
pub mod Batch
pub mod Fleet
pub mod Upgrade
pub mod Rollout
pub mod Migration
pub mod ClusterSets
pub mod Tenant
pub mod Access
pub mod Cost
pub mod Scaling
pub mod Matrix
pub mod Reclamation
pub mod Examples
