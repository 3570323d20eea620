-- ===== src/Lib.antt =====
-- The Verrazzano operator: models and bindings of applications, turned into Kubernetes resources in
-- managed clusters.
--
-- A model/binding pair says which clusters a binding is placed on. The controller keeps the known
-- models, bindings and pairs, and the connections to the clusters; when a binding is added it makes
-- the pair, waits for its clusters, creates resources in them and cleans up what no longer belongs
-- there; when a binding is deleted it deletes the resources and forgets the binding.
--
-- Files:
--   Controller, Controller/Resources, Controller/Handlers: pkg/controller/controller.go, the state
--     and the handlers processApplicationModelAdded, processApplicationModelDeleted,
--     processApplicationBindingAdded, processApplicationBindingDeleted, processManagedCluster, with
--     waitForManagedClusters, getClusterInfo, createManagedClusterResourcesForBinding and
--     cleanupOrphanedResources. Each has the name of its function in snake case.
--   Controller/Startup: NewController, Run and createUpdateGlobalEntitiesGoroutine of controller.go.
--   Controller/Unused: the functions of controller.go that nothing calls.
--   Entry, Signals: main of cmd/verrazzano-operator/main.go, and pkg/signals.
--   Packages: the interfaces of the controller, their implementations, and managedPackage, whose methods
--     that it does not define are those of an embedded nil interface.
--   Location: pkg/controller/verrazzano_location.go.
--   Types, Constants, Util: pkg/types/types.go, pkg/constants/constants.go, pkg/util/utils.go.
--   Environment: pkg/util/env.go, SharedVMIDefault and GetProfileBindingName; Environment/Replicas has
--     getEnvReplicaCount, with strconv.ParseInt at base 10 and 32 bits.
--   Managed/Namespaces, Secrets, ServiceAccounts, ConfigMaps, ClusterRoles, ClusterRoleBindings,
--     Deployments, Services, DaemonSets: the files of pkg/managed. The loops that these files repeat, to create or
--     update, to clean up and to delete, are written once in Managed/Shared.
--     Managed/Connections: BuildManagedClusterConnection of pkg/managed/utils.go.
--   Monitoring/Components, DaemonSets: pkg/monitoring/utils.go, clusterroles.go, clusterrolebinding.go
--     and daemonsets.go. Monitoring/VmiSecrets, KubeSecrets: pkg/monitoring/secrets.go, over the methods
--     of pkg/controller/secrets.go.
--   Local/Secrets, Local/AcmeDns: pkg/local/secrets.go. Local/ConfigMaps: pkg/local/configmaps.go.
--   Local/Instances, Local/Vmis: pkg/local/vmis.go, the instance that is built, and what is done with it.
--   Kube: the objects of Kubernetes, as far as their fields are read or written, and the calls.
--   Prog: programs that make calls, and in Prog/Rules what it is for a program to satisfy a
--     specification. Prelude: shared names, and Go's slices and maps.
--   Samples: a binding, a controller, and the theorems applied to them.
--
-- How the code is modelled. Code that calls a client, a lister, a timer or another package of the
-- outside is a `Prog`: it returns, it panics, or it makes a call and goes on with the answer. Answers are
-- left open, so that theorems hold whatever Kubernetes answers; what is stated of an outcome is
-- stated of the history of calls and answers. `Ensures G Q p` says that every call of `p` is allowed
-- by `G`, that `p` does not panic, and that `Q` holds of its result. Every `Prog` is well founded, so
-- each run returns, panics, or makes a call that has no answer, after finitely many calls. A receive from the
-- nil channel and os.Exit are such calls. The dereference of a nil pointer and an index
-- out of range are panics. A Go map is an association list, iterated in the order of the list; Go
-- leaves the order open, and theorems range over all lists. The nil map is the empty list.
--
-- Waits. A `select` over a timeout and a ticker asks for the number of ticks before the timeout, which is
-- left open; the loop is by recursion on that number, so no fuel is chosen.
--
-- Parameters. assets.Asset, which the build generates, and json.Marshal and json.Unmarshal at the map of
-- ACME DNS credentials are functions that the definitions take; what is needed of the latter two is the
-- hypothesis that a map that was marshalled is unmarshalled to one that reads the same. The answer of
-- rand.Intn is any number below its argument.
--
-- Shared objects. A lister returns the objects of its cache. Where the program changes such an object, as
-- UpdateAcmeDNSSecret does, the change is a call of its own, `write_cached`.
--
-- Goroutines. `go` is a call, `spawn`, and what it starts is modelled for itself: the endless loop of the
-- global entities by its first rounds, for any number of them, and the goroutine of SetupSignalHandler by
-- what it does at each signal. Client sets and configurations are known by their identity alone, and a
-- factory of informers by the resources that it watches.
--
-- Left out: logging, the read locks of connections and the mutex of a pair (handlers run one at a time),
-- the event recorder, which nothing uses, and the seed of the random numbers. Not modelled: the parsing of
-- flags; ListerSet, updateIstioPolicies, generateRandomString and createTempKubeconfigFile, which nothing
-- calls; the constants of pkg/managed/constants.go, which nothing reads; tests and their support.
pub mod Prelude
pub mod Constants
pub mod Kube
pub mod Prog
pub mod Types
pub mod Util
pub mod Location
pub mod Environment
pub mod Local
pub mod Monitoring
pub mod Managed
pub mod Packages
pub mod Controller
pub mod Signals
pub mod Entry
pub mod Samples
