-- ===== src/Controller/NamespaceController.antt =====
-- drnamespace_controller.go. `Reconcile` takes what the client's `Get` answered; the item for the
-- status updater's queue is part of the result.
use dr.Base.{
  String, ℕ, ◌==◌, not, ◌||◌, ◌&&◌, Bool, true, false, Option, none, some, Error, is_some,
  if◌then◌else◌,
}
use dr.Base.Dict.{Dict, lookup, insert, erase}
use dr.Api.{
  DrNamespace, DrComponents, TransportAdapter, kube_apiserver, http, other_adapter,
  ResourceCollectorType, list_watch, periodic, other_collector,
}
use dr.Configs.{DrConfig, update_filter_config_to_container, update_namespace_configed_cluster}
use dr.Controller.StatusUpdater.{StatusToUpdate}
use dr.Controller.Workers.{Workers, cancel, start}

-- The answer of `Get`, told apart by errors.IsNotFound.
pub data Fetched {ℓ} (A : Type ℓ) : Type ℓ where
  found : A → Fetched A
  not_found : Error → Fetched A
  failed : Error → Fetched A

-- The maps of ReconcileDRNamespace, the global previousNamespaceCR and the container. A manager is
-- known by the context of its worker.
pub record NamespaceState : Type 0 where
  pub dr_namespaces : Dict ℕ
  pub cancel_funcs : Dict ℕ
  pub previous : Dict DrNamespace
  pub workers : Workers
  pub container : DrConfig

abbrev pub adapter_eq : TransportAdapter → TransportAdapter → Bool
adapter_eq kube_apiserver kube_apiserver = true
adapter_eq http http = true
adapter_eq (other_adapter s) (other_adapter t) = s == t
adapter_eq _ _ = false

abbrev pub collector_eq : ResourceCollectorType → ResourceCollectorType → Bool
collector_eq list_watch list_watch = true
collector_eq periodic periodic = true
collector_eq (other_collector s) (other_collector t) = s == t
collector_eq _ _ = false

abbrev pub bool_eq : Bool → Bool → Bool
bool_eq true b = b
bool_eq false b = not b

-- `Role` is immutable.
abbrev pub next_role : String → String → String
next_role status spec = if status == "" && not (spec == "") then spec else status

-- The status after the role, the collector and the adapter are taken over.
abbrev pub synced_components : DrNamespace → DrComponents
synced_components inst = record {
  role = next_role inst.status.components.role inst.spec.components.role;
  active = inst.status.components.active;
  transport_adapter = inst.spec.components.transport_adapter;
  collector_type = inst.spec.components.collector_type;
}

-- Whether that changed the collector or the adapter.
abbrev pub components_changed : DrNamespace → Bool
components_changed inst =
    not (collector_eq inst.status.components.collector_type inst.spec.components.collector_type)
    || not
        (adapter_eq inst.status.components.transport_adapter inst.spec.components.transport_adapter)

pub record Reconciled : Type 0 where
  pub state : NamespaceState
  pub enqueued : Option StatusToUpdate
  pub error : Option Error

-- The object is gone: its worker is stopped and forgotten.
unfoldable pub clear : String → NamespaceState → NamespaceState
clear ns s = record s {
  dr_namespaces = erase ns s.dr_namespaces;
  cancel_funcs = erase ns s.cancel_funcs;
  workers = elim (lookup ns s.cancel_funcs) [ none ↦ s.workers | some c ↦ cancel c s.workers ];
}

-- The worker of the namespace, if any, is stopped.
unfoldable pub deactivate : String → NamespaceState → NamespaceState
deactivate ns s = elim (lookup ns s.cancel_funcs) [
  | none ↦ s
  | some c ↦ record s {
    dr_namespaces = erase ns s.dr_namespaces;
    cancel_funcs = erase ns s.cancel_funcs;
    workers = cancel c s.workers;
  }
]

-- A worker is started under a new context, and remembered.
unfoldable pub activate : DrNamespace → DrComponents → NamespaceState → NamespaceState
activate inst c s =
    let ns = inst.namespace in
    let (ws, drc) =
      start inst.name ns c.transport_adapter c.collector_type ns (s.workers, s.container) in
    record s {
      dr_namespaces = insert ns s.workers.next_context s.dr_namespaces;
      cancel_funcs = insert ns s.workers.next_context s.cancel_funcs;
      workers = ws;
      container = drc;
    }

-- The block "sync Active", for the value of Spec.Active.
unfoldable pub sync_active : DrNamespace → DrComponents → Bool → NamespaceState → NamespaceState
unfolding deactivate activate
sync_active inst c restart s =
    let active = inst.spec.components.active in
    if not (is_some (lookup inst.namespace s.cancel_funcs))
      || not (bool_eq active inst.status.components.active)
    then (let s' = if restart || not active then deactivate inst.namespace s else s in
        if active then activate inst c s' else s')
    else s

-- The filter configuration is passed on once for each namespace.
unfoldable pub sync_filters : DrNamespace → NamespaceState → NamespaceState
sync_filters inst s = if is_some (lookup inst.namespace s.previous) then s else record s {
  container =
      update_filter_config_to_container inst.namespace (some inst.spec.dr_filter_config)
        s.container;
}

abbrev pub cluster_changed : DrNamespace → NamespaceState → Bool
cluster_changed inst s =
    not (is_some (lookup inst.namespace s.previous))
    || not (inst.status.dr_pair_cluster_name == inst.spec.dr_pair_cluster_name)

-- The rest of a reconcile, once the name of the cluster is taken over.
-- Of what is remembered in `previous` only the presence is read: its configuration is kept as it was
-- read, where the code's is the one that addDefaultConfig has completed since.
unfoldable pub finish : DrNamespace → Bool → NamespaceState → Reconciled
unfolding sync_active
finish inst restart s =
    let c = synced_components inst in
    let s' = sync_active inst c restart s in
    let status = record inst.status {
      components = record c { active = inst.spec.components.active };
      dr_pair_cluster_name = inst.spec.dr_pair_cluster_name;
    } in
    record {
      state = record s' {
        previous = insert inst.namespace (record inst { status = status }) s'.previous;
      };
      enqueued = some (record { namespace = inst.namespace; name = inst.name; status = status });
      error = none;
    }

-- A reconcile of an object that is there.
unfoldable pub reconcile_found : DrNamespace → NamespaceState → Reconciled
unfolding sync_filters finish
reconcile_found inst s =
    let s' = sync_filters inst s in
    let first = not (is_some (lookup inst.namespace s.previous)) in
    if cluster_changed inst s
    then (let (drc, e) =
          update_namespace_configed_cluster inst.namespace inst.spec.dr_pair_cluster_name
            s'.container in
        elim e [
          | none ↦ finish inst true (record s' { container = drc })
          | some x ↦ record {
            state = record s' { container = drc };
            enqueued = none;
            error = some x;
          }
        ])
    else finish inst (components_changed inst || first) s'

-- `namespace` is that of the request.
unfoldable pub reconcile : String → Fetched DrNamespace → NamespaceState → Reconciled
unfolding clear reconcile_found
reconcile namespace (not_found _) s = record {
  state = clear namespace s;
  enqueued = none;
  error = none;
}
reconcile namespace (failed e) s = record { state = s; enqueued = none; error = some e }
reconcile namespace (found inst) s = reconcile_found inst s
