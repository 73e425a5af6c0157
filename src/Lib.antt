-- ===== src/Lib.antt =====
-- The disaster-recovery controller: workers that copy the objects of a namespace to another cluster,
-- the filters that choose and change what is copied, the container of configurations, and the
-- reconcilers of the two custom resources.
--
-- A collector turns the events of watched resources into objects with an action. The worker of a
-- namespace takes an object from its queue, passes it through the filters, looks up what it depends
-- on and hands it to the transport manager, which sends each new version of an object through its
-- transporter and reports a condition to the status updater. The reconcilers start and stop the
-- workers and pass filter configurations and cluster settings to the container, which hands them on
-- to the filters and transporters that are registered there.
--
-- Files, with the code that each models:
--   Api/Types, Api/Filters, Api/Custom: pkg/apis/dr/v1alpha1 (types.go, gvr.go, drcluster_types.go,
--     drnamespace_types.go) and pkg/utils/utils.go; a pointer is an Option, a Go string type with
--     constants has a constructor for any other text.
--   Api/Content, Api/Unstructured: the content of an object, and the interface of the library
--     package unstructured, which is the parameter `u` of what uses it.
--   Filter: pkg/filter. Factory is filter_factory.go; WhiteList, VariableMapping, VariableDelete and
--     Pvc are the Out methods of the four filters. An Out method gives the object as it leaves it
--     beside the outcome, since the code changes the object in place.
--   Transport: pkg/transportmanager. Manager is transportmanager.go (`transport` is
--     transport_round), KubeApiserver is kubeapiserver/transporter.go over a dynamic client, Http is
--     http/transporter.go. Drain is the loop over the manager's own queue. Stores says what is
--     assumed of the other cluster, seen as a map from places to contents.
--   Worker: pkg/drmanager. Rounds is dependency_namesapce_worker.go (`run` is run_round), Checkers
--     are the two dependency checkers, BaseWorker is base_namespace_worker.go. System puts a worker
--     and its transport manager together, as steps in any order; Replication adds the cluster that
--     is written, Sending, Delivery and Clearing are about ways that its steps can take.
--   Configs: pkg/configs. Container is config_container.go, Watcher is configmap_watcher.go (the
--     handlers of `Run` are handle), Flags is flag_container.go.
--   Collector: pkg/resourcemanager. ListWatch and Start are listwatch/collector.go, Manager is
--     resource_manager.go.
--   Controller: NamespaceController is drnamespace_controller.go (`Reconcile` is reconcile), with
--     Workers for pkg/drmanager/manager.go; ClusterController is drcluster_controller.go
--     (reconcile_cluster); StatusUpdater is pkg/namespacecrstatusupdater/updater.go.
--   Lifecycle: the constructors and Run methods of pkg/drmanager and pkg/resourcemanager. Parts is the
--     worker with dependencies and the resource manager, BaseLife the worker without dependencies,
--     Reporting the way of a condition to the status of an object, StatusLoop the reconciler and
--     the updater around one object, Started the first state of the system of Worker/System.
--   Startup: cmd/manager/main.go is Process, with the registration of the controllers in Controllers;
--     Calls are the library calls, each known by its name and arguments.
--   The other files of a folder hold theorems, Base the shared helpers, and Tests examples: an API of
--   documents, small clients, and one run of each theorem.
--
-- State is passed explicitly. A call that changes a shared object gives the changed object back; a
-- listener of the container is the object that it changes. A Go call ends in a value, an error or a
-- panic (Base/Outcome). Loops over slices and maps are recursion on lists, a map is an association
-- list in the order of its iteration, and endless loops are taken round by round. Only
-- Transport/Drain has fuel, the number of rounds; as many as queued objects and refusals to come
-- are enough there. Texts are those of Go except that some messages of the standard library are short.
--
-- Parameters: the unstructured API with strconv.ParseFloat, the dynamic client, the clients of the
-- controllers, the configuration and the discovery client of the collector,
-- schema.ParseGroupVersion and json.Unmarshal. Work queues, channels and the scheduler are the
-- environment: what a round takes from a queue is its argument, what it adds is its result.
--
-- Not modelled: the flags and the set-up of the log in cmd/manager, the registration of schemes,
-- generated deep copies, vendored packages, logging, locks, the scheduling of goroutines, and the
-- In methods of the filters, which do nothing.
pub mod Base
pub mod Api
pub mod Filter
pub mod Transport
pub mod Worker
pub mod Configs
pub mod Collector
pub mod Controller
pub mod Lifecycle
pub mod Startup
pub mod Tests
