-- ===== src/Lifecycle/BaseLife.antt =====
-- base_namespace_worker.go: how the worker without dependencies is made, activated and
-- deactivated. A number stands for a context with its cancel function, and the contexts that are
-- not yet cancelled are a list.
use dr.Base.{String, ℕ, suc, Option, none, some, List, [], ◌∷◌, Result, ok, panic, ◌>>=◌}
use Prim.Native.Nat.{compare, Ordering}
use dr.Api.{ObjResource, TransportAdapter, ResourceCollectorType}
use dr.Configs.{DrConfig, get_filter_aggregation}
use dr.Controller.{Worker, new_worker, new_basic_transport_manager}
use dr.Lifecycle.Parts.{ResourceManager, new_base_resource_manager, start_collector}

pub record Contexts : Type 0 where
  pub next : ℕ
  pub live : List ℕ

pub record BaseWorker : Type 0 where
  pub namespace : String
  pub transport_adapter : TransportAdapter
  pub collector_type : ResourceCollectorType
  pub obj_queue : List ObjResource
  pub active_ctx_cancel : Option ℕ
  pub resource_manager : Option ResourceManager

-- NewBaseNamesapceWorker. Its filters are registered with the container.
unfoldable pub new_base_worker :
    TransportAdapter → ResourceCollectorType → String → DrConfig → BaseWorker × DrConfig
new_base_worker adapter collector namespace drc = (
  record {
    namespace = namespace;
    transport_adapter = adapter;
    collector_type = collector;
    obj_queue = [];
    active_ctx_cancel = none;
    resource_manager = none;
  },
  get_filter_aggregation namespace drc,
)

-- The arguments that `Active` hands to NewBasicTransportManager.
abbrev transport_arguments : BaseWorker → Worker
transport_arguments bnw = new_worker 0 "" "" bnw.transport_adapter bnw.collector_type bnw.namespace

-- `Active`: the four loops run under the new context.
unfoldable pub active :
    BaseWorker → Contexts × DrConfig → Result (BaseWorker × (Contexts × DrConfig))
unfolding new_base_resource_manager start_collector
active bnw (contexts, drc) =
    let rm = new_base_resource_manager bnw.collector_type in
    do
      drc' ← new_basic_transport_manager (transport_arguments bnw) drc
      _ ← start_collector rm
      ok (
        record bnw { active_ctx_cancel = some contexts.next; resource_manager = some rm },
        (record { next = suc contexts.next; live = contexts.next ∷ contexts.live }, drc'),
      )

unfoldable pub cancel_context : ℕ → List ℕ → List ℕ
cancel_context c [] = []
cancel_context c (d ∷ live) =
    let rest = cancel_context c live in elim (compare d c) [ Ordering.eq ↦ rest | _ ↦ d ∷ rest ]

-- `Deactive`. A cancel function that was never set is nil.
unfoldable pub deactive : BaseWorker → Contexts → Result Contexts
unfolding cancel_context
deactive bnw contexts = elim bnw.active_ctx_cancel [
  | none ↦ panic
  | some c ↦ ok (record contexts { live = cancel_context c contexts.live })
]
