-- ===== src/Controller/Workers.antt =====
-- manager.go: a namespace's worker. A worker runs until its context is cancelled, so the state is
-- the list of those that run. A number stands for a context with its cancel function; the
-- counter gives out new ones.
use dr.Base.{none, Result, ok, panic, String, ℕ, List, [], ◌∷◌, suc}
use Prim.Native.Nat.{compare, Ordering}
use dr.Api.{TransportAdapter, ResourceCollectorType, kube_apiserver, http, other_adapter}
use dr.Configs.{DrConfig, get_filter_aggregation, reg_cluster_config_listener}

-- What NewDRManager and AddNamespaceWorker pass to the worker.
pub record Worker : Type 0 where
  pub context : ℕ
  pub ns_cr_name : String
  pub ns_cr_namespace : String
  pub transport_adapter : TransportAdapter
  pub collector_type : ResourceCollectorType
  pub namespace : String

pub record Workers : Type 0 where
  pub next_context : ℕ
  pub running : List Worker

-- A call of a cancel function. To cancel twice changes nothing.
unfoldable pub stop : ℕ → List Worker → List Worker
stop context [] = []
stop context (w ∷ ws) =
    let rest = stop context ws in
    elim (compare w.context context) [ Ordering.eq ↦ rest | _ ↦ w ∷ rest ]

unfoldable pub cancel : ℕ → Workers → Workers
unfolding stop
cancel context ws = record ws { running = stop context ws.running }

abbrev pub new_worker :
    ℕ → String → String → TransportAdapter → ResourceCollectorType → String → Worker
new_worker context name ns adapter collector namespace = record {
  context = context;
  ns_cr_name = name;
  ns_cr_namespace = ns;
  transport_adapter = adapter;
  collector_type = collector;
  namespace = namespace;
}

-- NewDRManager under a new context, AddNamespaceWorker, and the goroutine's start. The filters of
-- the namespace are registered with the container.
unfoldable pub start :
    String
    → String
    → TransportAdapter
    → ResourceCollectorType
    → String
    → Workers × DrConfig
    → Workers × DrConfig
start name ns adapter collector namespace (ws, drc) = (
  record {
    next_context = suc ws.next_context;
    running = new_worker ws.next_context name ns adapter collector namespace ∷ ws.running;
  },
  get_filter_aggregation namespace drc,
)

-- NewBasicTransportManager in the worker's goroutine: the transporter's SetConfig is registered
-- with the container, and an error of that is dropped. No transporter is a nil interface, whose
-- method cannot be taken.
unfoldable pub new_basic_transport_manager : Worker → DrConfig → Result DrConfig
new_basic_transport_manager w drc = elim w.transport_adapter [
  | kube_apiserver ↦ ok (reg_cluster_config_listener w.namespace none drc).0
  | http ↦ ok (reg_cluster_config_listener w.namespace none drc).0
  | other_adapter _ ↦ panic
]
