-- ===== src/Lifecycle/Parts.antt =====
-- resource_manager.go, and the constructor, `Run` and `objEnqueue` of
-- dependency_namesapce_worker.go. A goroutine is known by its loop; a panic in any of them ends
-- the process. The client of the cluster is a parameter.
use dr.Base.{Bool, true, false, Option, none, some, List, [], ◌∷◌, ◌++◌, Result, ok, panic, ◌>>=◌}
use dr.Api.{ObjResource, ResourceCollectorType}
use dr.Configs.{DrConfig}
use dr.Collector.{Collector, new_collector}
use dr.Worker.{ClusterReader, Waited}
use dr.Controller.{Worker, new_basic_transport_manager}

-- The loops that a worker starts: those of the transport manager, the collector, the one that moves
-- events to the queue, and the one of the worker itself.
pub data Loop : Type 0 where
  transport_loop collect_loop enqueue_loop work_loop : Loop

-- BaseResourceManager. What was sent to the channel and not yet received stands in `resource_chan`.
pub record ResourceManager : Type 0 where
  pub collector_type : ResourceCollectorType
  pub collector : Option Collector
  pub resource_chan : List ObjResource
  pub closed : Bool

unfoldable pub new_base_resource_manager : ResourceCollectorType → ResourceManager
unfolding new_collector
new_base_resource_manager t = record {
  collector_type = t;
  collector = new_collector t;
  resource_chan = [];
  closed = false;
}

-- `run`: a nil interface has no `Start`.
unfoldable pub start_collector : ResourceManager → Result (List Loop)
start_collector rm = elim rm.collector [ none ↦ panic | some _ ↦ ok (Loop.collect_loop ∷ []) ]

-- `Run` to its end: the collector is started, and once the context is done the channel is closed.
unfoldable pub base_resource_manager_run : ResourceManager → Result (List Loop × ResourceManager)
unfolding start_collector
base_resource_manager_run rm = do
  loops ← start_collector rm
  ok (loops, record rm { closed = true })

-- `for obj := range objChan { queue.Add(obj) }`
unfoldable pub obj_enqueue : List ObjResource → List ObjResource → List ObjResource
obj_enqueue [] queue = queue
obj_enqueue (objr ∷ events) queue = obj_enqueue events (queue ++ (objr ∷ []))

pub record DependencyWorker : Type 0 where
  pub worker : Worker
  pub obj_queue : List ObjResource
  pub dependencies : Waited
  pub client : ClusterReader
  pub resource_manager : Option ResourceManager
  pub loops : List Loop

-- NewDependencyNamesapceWorker. Without a client there is no worker.
unfoldable pub new_dependency_worker : Result ClusterReader → Worker → Result DependencyWorker
new_dependency_worker connected w = do
  client ← connected
  ok (record {
    worker = w;
    obj_queue = [];
    dependencies = [];
    client = client;
    resource_manager = none;
    loops = [];
  })

-- `Run`, up to where it waits for the context.
unfoldable pub run_dependency_worker :
    DependencyWorker → DrConfig → Result (DependencyWorker × DrConfig)
unfolding new_base_resource_manager start_collector
run_dependency_worker dnw drc =
    let rm = new_base_resource_manager dnw.worker.collector_type in
    do
      drc' ← new_basic_transport_manager dnw.worker drc
      collecting ← start_collector rm
      ok (
        record dnw {
          resource_manager = some rm;
          loops = Loop.transport_loop ∷ (collecting ++ (Loop.enqueue_loop ∷ Loop.work_loop ∷ []));
        },
        drc',
      )
