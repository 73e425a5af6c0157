-- ===== src/Lifecycle/StartLaws.antt =====
-- Which workers can be started, and what becomes of the others.
use dr.Base.{
  ◌≡◌, refl, Bool, eq_refl, arith, String, true, none, some, ◌∷◌, panic, ◌⊎◌, inl, inr, ◌↔◌,
}
use dr.Base.Dict.{lookup, lookup-insert}
use dr.Api.{
  DrNamespace, TransportAdapter, ResourceCollectorType, kube_apiserver, http, other_adapter,
  list_watch, periodic, other_collector,
}
use dr.Configs.{DrConfig}
use dr.Collector.{new_collector}
use dr.Controller.{
  Worker, NamespaceState, new_worker, new_basic_transport_manager, found, reconcile, finish,
  sync_active, synced_components, activate, start,
}
use dr.Controller.NamespaceWays.{Ways, found-Ways}
use dr.Controller.Reconciles.{sync_active-Syncs}
use dr.Lifecycle.Parts.{
  DependencyWorker, run_dependency_worker, new_base_resource_manager, start_collector,
}

-- The text is that of no known adapter, or of no known collector.
abbrev pub IsUnknown : TransportAdapter → ResourceCollectorType → Type 0
IsUnknown adapter collector =
    ((s : String) × (adapter ≡ other_adapter s)) ⊎ ((s : String) × (collector ≡ other_collector s))

module _ (dnw : DependencyWorker) (drc : DrConfig) where
  run_unknown :
      IsUnknown dnw.worker.transport_adapter dnw.worker.collector_type
      → run_dependency_worker dnw drc ≡ panic
  unfolding run_dependency_worker new_basic_transport_manager start_collector
      new_base_resource_manager new_collector
  run_unknown h = ground arith

  run_known :
      (a : TransportAdapter) (k : ResourceCollectorType)
      → dnw.worker.transport_adapter ≡ a
      → dnw.worker.collector_type ≡ k
      → run_dependency_worker dnw drc ≡ panic
      → IsUnknown a k
  unfolding run_dependency_worker new_basic_transport_manager start_collector
      new_base_resource_manager new_collector
  run_known (other_adapter s) k e f h = inl (s, refl)
  run_known a (other_collector s) e f h = inr (s, refl)
  run_known kube_apiserver list_watch e f h = absurd (cc (rw (e, run_dependency_worker, f) at h))
  run_known kube_apiserver periodic e f h = ground arith
  run_known http list_watch e f h = ground arith
  run_known http periodic e f h = ground arith

-- `Run` of a worker panics just where its adapter or its collector is none of the known ones.
pub run_dependency_worker_iff :
    (dnw : DependencyWorker) (drc : DrConfig)
    → (run_dependency_worker dnw drc ≡ panic)
      ↔ IsUnknown dnw.worker.transport_adapter dnw.worker.collector_type
run_dependency_worker_iff dnw drc = (
  run_known dnw drc dnw.worker.transport_adapter dnw.worker.collector_type refl refl,
  run_unknown dnw drc,
)

-- One more worker runs, it is remembered for the namespace, and its `Run` panics.
abbrev pub StartsPanic : DrNamespace → NamespaceState → NamespaceState → Type 0
StartsPanic inst s t =
    (w : Worker) × (t.workers.running ≡ w ∷ s.workers.running)
    × (lookup inst.namespace t.cancel_funcs ≡ some w.context)
    × ((dnw : DependencyWorker) (drc : DrConfig)
        → dnw.worker ≡ w
        → run_dependency_worker dnw drc ≡ panic)

activate-StartsPanic :
    (inst : DrNamespace) (s : NamespaceState)
    → IsUnknown inst.spec.components.transport_adapter inst.spec.components.collector_type
    → StartsPanic inst s (activate inst (synced_components inst) s)
unfolding activate start
activate-StartsPanic inst s unknown = (
  new_worker s.workers.next_context inst.name inst.namespace inst.spec.components.transport_adapter
      inst.spec.components.collector_type inst.namespace,
  refl,
  rw lookup-insert (rw eq_refl refl),
  λ dnw drc same. run_unknown dnw drc (rw same unknown),
)

sync_active-StartsPanic :
    (inst : DrNamespace) (restart : Bool) (s : NamespaceState)
    → lookup inst.namespace s.cancel_funcs ≡ none
    → inst.spec.components.active ≡ true
    → IsUnknown inst.spec.components.transport_adapter inst.spec.components.collector_type
    → StartsPanic inst s (sync_active inst (synced_components inst) restart s)
sync_active-StartsPanic inst restart s absent wanted unknown =
    elim (sync_active-Syncs inst (synced_components inst) restart s
      (λ e. absurd (cc (rw absent at e)))) [
        | inl (_, _, e) ↦ rw e (activate-StartsPanic inst s unknown)
        | inr (inl (off, _)) ↦ absurd (cc (wanted, off))
        | inr (inr (running, _, _)) ↦ absurd (cc (rw absent at running))
      ]

-- A reconcile of an object that is to be active, whose namespace has no worker and whose adapter or
-- collector is none of the known ones, and that ends without an error, starts a worker and
-- remembers it; and the `Run` of that worker panics, whatever the container then holds.
pub reconcile_unknown :
    (inst : DrNamespace) (s : NamespaceState)
    → lookup inst.namespace s.cancel_funcs ≡ none
    → inst.spec.components.active ≡ true
    → IsUnknown inst.spec.components.transport_adapter inst.spec.components.collector_type
    → (reconcile inst.namespace (found inst) s).error ≡ none
    → StartsPanic inst s (reconcile inst.namespace (found inst) s).state
unfolding reconcile Ways finish
reconcile_unknown inst s absent wanted unknown fine =
    let (drc, way) = found-Ways inst s in
    elim way [
      | inl (_, x, e) ↦ absurd (cc (e, fine))
      | inr (restart, e) ↦ rw e (
          sync_active-StartsPanic inst restart (record s { container = drc }) absent wanted unknown)
    ]
