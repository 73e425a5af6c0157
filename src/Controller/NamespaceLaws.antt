-- ===== src/Controller/NamespaceLaws.antt =====
-- The workers that the reconciler of namespaces starts and stops.
use dr.Base.{
  ◌≡◌, refl, ap, if◌then◌else◌, ◌≢◌, ◌∙◌, sym, ◌||◌, ◌==◌, arith, String, ℕ, Bool, true, false, not,
  Option, none, some, Error, eq_refl, All, List, [], ◌∷◌, inl, inr, is_some,
}
use dr.Base.Dict.{lookup, lookup-erase, lookup-insert}
use dr.Api.{DrNamespace, DrFilterConfig}
use dr.Configs.{DrConfig, update_namespace_configed_cluster}
use dr.Controller.Workers.{Worker, stop, cancel, start, new_worker}
use dr.Controller.NamespaceController.{
  Fetched, found, not_found, failed, NamespaceState, clear, deactivate, activate, sync_active,
  sync_filters, cluster_changed, components_changed, synced_components, finish, reconcile_found,
  reconcile, bool_eq,
}
use dr.Controller.NamespaceWays.{Ways, paired, found-Ways, found_seen, found_settled}

-- The manager of a namespace and the cancel function of its context are remembered together.
abbrev pub RemembersBoth : NamespaceState → Type 0
RemembersBoth s = s.dr_namespaces ≡ s.cancel_funcs

deactivate-RemembersBoth :
    (ns : String) (s : NamespaceState) → RemembersBoth s → RemembersBoth (deactivate ns s)
unfolding deactivate
deactivate-RemembersBoth ns s h = ground (arith, h)

activate-RemembersBoth :
    (inst : DrNamespace) (c : _) (s : NamespaceState)
    → RemembersBoth s
    → RemembersBoth (activate inst c s)
unfolding activate
activate-RemembersBoth inst c s h = ground (arith, h)

sync_active-RemembersBoth :
    (inst : DrNamespace) (c : _) (restart : Bool) (s : NamespaceState)
    → RemembersBoth s
    → RemembersBoth (sync_active inst c restart s)
unfolding sync_active
sync_active-RemembersBoth inst c restart s h = ground (
  arith,
  h,
  deactivate-RemembersBoth inst.namespace s h,
  activate-RemembersBoth inst c s h,
  activate-RemembersBoth inst c (deactivate inst.namespace s),
)

-- Whatever the client answers, a reconcile keeps the two maps together.
pub reconcile-RemembersBoth :
    (namespace : String) (answer : Fetched DrNamespace) (s : NamespaceState)
    → RemembersBoth s
    → RemembersBoth (reconcile namespace answer s).state
unfolding reconcile clear finish Ways
reconcile-RemembersBoth namespace (not_found e) s h = ground (arith, h)
reconcile-RemembersBoth namespace (failed e) s h = h
reconcile-RemembersBoth namespace (found inst) s h =
    let (drc, way) = found-Ways inst s in
    elim way [
      | inl (e, _, _) ↦ rw e h
      | inr (restart, e) ↦ rw e (
          sync_active-RemembersBoth inst (synced_components inst) restart
            (record s { container = drc }) h)
    ]

-- A worker that runs is left alone, whatever else has changed in its object, while the wanted
-- activity is the one in the status: no worker is started or stopped.
pub reconcile_unchanged :
    (inst : DrNamespace) (s : NamespaceState) (c : ℕ)
    → lookup inst.namespace s.cancel_funcs ≡ some c
    → bool_eq inst.spec.components.active inst.status.components.active ≡ true
    → (reconcile inst.namespace (found inst) s).state.workers ≡ s.workers
unfolding reconcile finish sync_active Ways
reconcile_unchanged inst s c running same =
    let (drc, way) = found-Ways inst s in
    elim way [ inl (e, _, _) ↦ rw e | inr (restart, e) ↦ rw e (ground (arith, running, same)) ]

-- A reconcile of an object with the same cluster, collector and adapter that reads a status from
-- before the last start, in which the namespace is not yet active, starts a second worker: both
-- run, and the context of the first one is forgotten.
pub reconcile_twice :
    (inst : DrNamespace) (s : NamespaceState) (c : ℕ)
    → lookup inst.namespace s.cancel_funcs ≡ some c
    → cluster_changed inst s ≡ false
    → components_changed inst ≡ false
    → inst.spec.components.active ≡ true
    → inst.status.components.active ≡ false
    → ((reconcile inst.namespace (found inst) s).state.workers.running
        ≡ new_worker s.workers.next_context inst.name inst.namespace
            inst.spec.components.transport_adapter inst.spec.components.collector_type
            inst.namespace
          ∷ s.workers.running)
      × (lookup inst.namespace (reconcile inst.namespace (found inst) s).state.cancel_funcs
          ≡ some s.workers.next_context)
unfolding reconcile reconcile_found finish sync_filters sync_active activate start
reconcile_twice inst s c running same_cluster same_components wanted stale =
    rw (found_settled inst s same_cluster same_components, running, wanted, stale)
      (refl, rw lookup-insert (rw eq_refl refl))

stop-All : (c : ℕ) (ws : List Worker) → All (λ w. w.context ≢ c) (stop c ws)
unfolding stop
stop-All c [] = tt
stop-All c (w ∷ ws) = ground (arith, stop-All c ws)

-- When the object of a namespace with a remembered worker is gone, the worker that is remembered for it does not run any more and is
-- forgotten; the workers of the other namespaces are still remembered.
pub reconcile_gone :
    (namespace : String) (e : Error) (s : NamespaceState) (c : ℕ)
    → lookup namespace s.cancel_funcs ≡ some c
    → All (λ w. w.context ≢ c) (reconcile namespace (not_found e) s).state.workers.running
      × (lookup namespace (reconcile namespace (not_found e) s).state.cancel_funcs ≡ none)
      × ((m : String)
          → (namespace == m) ≡ false
          → lookup m (reconcile namespace (not_found e) s).state.cancel_funcs
            ≡ lookup m s.cancel_funcs)
unfolding reconcile clear cancel
reconcile_gone namespace e s c running = (
  rw (running, All) (stop-All c s.workers.running),
  rw lookup-erase (rw eq_refl refl),
  λ m apart. rw lookup-erase (rw apart refl),
)

abbrev with_filters : DrFilterConfig → DrNamespace → DrNamespace
with_filters f inst = record inst { spec = record inst.spec { dr_filter_config = f } }

paired_container :
    (inst : DrNamespace) (f : DrFilterConfig) (s : NamespaceState)
    (answer : DrConfig × Option Error)
    → (paired (with_filters f inst) s answer).state.container
      ≡ (paired inst s answer).state.container
unfolding finish sync_active activate deactivate
paired_container inst f s (drc, none) = refl
paired_container inst f s (drc, some x) = refl

ways_container :
    (inst : DrNamespace) (f : DrFilterConfig) (s : NamespaceState) (b restart : Bool)
    (answer : DrConfig × Option Error)
    → (if b
        then paired (with_filters f inst) s answer
        else finish (with_filters f inst) restart s).state.container
      ≡ (if b then paired inst s answer else finish inst restart s).state.container
unfolding finish sync_active activate deactivate
ways_container inst f s true restart answer = paired_container inst f s answer
ways_container inst f s false restart answer = refl

found_container :
    (inst : DrNamespace) (f : DrFilterConfig) (s : NamespaceState)
    → is_some (lookup inst.namespace s.previous) ≡ true
    → (reconcile_found (with_filters f inst) s).state.container
      ≡ (reconcile_found inst s).state.container
unfolding reconcile_found
found_container inst f s seen =
    ap (λ r. r.state.container) (found_seen (with_filters f inst) s seen)
    ∙ ways_container inst f s (cluster_changed inst s)
        (components_changed inst || not (is_some (lookup inst.namespace s.previous)))
        (update_namespace_configed_cluster inst.namespace inst.spec.dr_pair_cluster_name
          s.container)
    ∙ ap (λ r. r.state.container) (sym (found_seen inst s seen))

-- The filter configuration of an object that was seen before, was deleted and is created again is
-- not read: the container is left the same with any other one in its place.
pub reconcile_recreated :
    (inst p : DrNamespace) (f : DrFilterConfig) (e : Error) (s : NamespaceState)
    → lookup inst.namespace s.previous ≡ some p
    → (reconcile inst.namespace
        (found (record inst { spec = record inst.spec { dr_filter_config = f } }))
        (reconcile inst.namespace (not_found e) s).state).state.container
      ≡ (reconcile inst.namespace
          (found inst)
          (reconcile inst.namespace (not_found e) s).state).state.container
unfolding reconcile clear
reconcile_recreated inst p f e s seen =
    found_container inst f (clear inst.namespace s) (rw seen refl)
