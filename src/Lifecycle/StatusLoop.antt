-- ===== src/Lifecycle/StatusLoop.antt =====
-- The reconciler of namespaces and the status updater around one stored object.
use dr.Base.{
  ◌≡◌, refl, sym, ap, ◌∙◌, ◌==◌, arith, suc, true, false, [], ◌∷◌, none, some, ok, is_some, inl,
  inr, eq_refl,
}
use mathlib.Core.Path.{subst}
use dr.Base.Dict.{lookup, lookup-insert, insert}
use dr.Api.{DrNamespace, SyncedCondition}
use dr.Controller.{
  new_worker, start, NamespaceState, found, reconcile, finish, sync_active, activate,
  synced_components, cluster_changed, components_changed, StatusClient, StatusToUpdate,
  take_condition, run_updates, update_status, with_condition,
}
use dr.Controller.StatusLaws.{StoresStatus, item, update_condition_found}
use dr.Controller.NamespaceLaws.{reconcile_twice}
use dr.Controller.NamespaceWays.{found_settled}
use dr.Controller.Reconciles.{sync_active-Syncs}
use dr.Lifecycle.Reporting.{IsFor, get-run_updates}

some_injective {ℓ} : {A : Type ℓ} {a b : A} → some a ≡ some b → a ≡ b
some_injective e = cc e

module _ (inst : DrNamespace) (s : NamespaceState) where
  -- The state after a reconcile whose block "sync Active" left the state `t`.
  abbrev finished : NamespaceState → NamespaceState
  finished t = record t {
    previous =
        insert inst.namespace
          (record inst {
            status = record inst.status {
              components = record (synced_components inst) { active = inst.spec.components.active };
              dr_pair_cluster_name = inst.spec.dr_pair_cluster_name;
            };
          })
          t.previous;
  }

  abbrev after_start : NamespaceState
  after_start = finished (activate inst (synced_components inst) s)

  activated :
      lookup inst.namespace s.cancel_funcs ≡ none
      → inst.spec.components.active ≡ true
      → sync_active inst (synced_components inst) false s ≡ activate inst (synced_components inst) s
  activated absent wanted =
      elim (sync_active-Syncs inst (synced_components inst) false s
        (λ h. absurd (cc (rw absent at h)))) [
          | inl (_, _, e) ↦ e
          | inr (inl (off, _)) ↦ absurd (cc (wanted, off))
          | inr (inr (running, _, _)) ↦ absurd (cc (rw absent at running))
        ]

  started_once :
      lookup inst.namespace s.cancel_funcs ≡ none
      → cluster_changed inst s ≡ false
      → components_changed inst ≡ false
      → inst.spec.components.active ≡ true
      → (reconcile inst.namespace (found inst) s).state ≡ after_start
  unfolding reconcile finish
  started_once absent same_cluster same_components wanted =
      ap (λ r. r.state) (found_settled inst s same_cluster same_components)
      ∙ ap finished (activated absent wanted)

  -- The object is read with a status from before the start, and one more condition.
  abbrev stale_read : SyncedCondition → DrNamespace
  stale_read c = record inst { status = with_condition c inst.status }

  seen_after_start : is_some (lookup inst.namespace after_start.previous) ≡ true
  seen_after_start = rw lookup-insert (rw eq_refl refl)

  same_pair :
      cluster_changed inst s ≡ false
      → (inst.status.dr_pair_cluster_name == inst.spec.dr_pair_cluster_name) ≡ true
  same_pair h = ground (arith, h)

  started_twice :
      (c : SyncedCondition)
      → cluster_changed inst s ≡ false
      → components_changed inst ≡ false
      → inst.spec.components.active ≡ true
      → inst.status.components.active ≡ false
      → (reconcile inst.namespace (found (stale_read c)) after_start).state.workers.running
        ≡ new_worker
            (suc s.workers.next_context)
            inst.name
            inst.namespace
            inst.spec.components.transport_adapter
            inst.spec.components.collector_type
            inst.namespace
          ∷ new_worker s.workers.next_context inst.name inst.namespace
              inst.spec.components.transport_adapter inst.spec.components.collector_type
              inst.namespace
          ∷ s.workers.running
  unfolding activate start with_condition
  started_twice c same_cluster same_components wanted stale =
      (reconcile_twice (stale_read c) after_start s.workers.next_context
        (rw lookup-insert (rw eq_refl refl)) (rw (seen_after_start, same_pair same_cluster) refl)
        same_components wanted stale).0

  enqueued_settled :
      (i : StatusToUpdate)
      → cluster_changed inst s ≡ false
      → components_changed inst ≡ false
      → (reconcile inst.namespace (found inst) s).enqueued ≡ some i
      → IsFor inst.namespace inst.name i
  unfolding reconcile finish
  enqueued_settled i same_cluster same_components queued =
      let e : (finish inst false s).enqueued ≡ some i =
        ap (λ r. r.enqueued) (sym (found_settled inst s same_cluster same_components)) ∙ queued in
      (ap (λ x. x.namespace) (sym (some_injective e)), ap (λ x. x.name) (sym (some_injective e)))

  module _ {ℓ} {S : Type ℓ} (client : StatusClient S) (L : StoresStatus client) where
    read_stale :
        (r : S) (c : SyncedCondition) (i : StatusToUpdate) (read : DrNamespace)
        → IsFor inst.namespace inst.name i
        → client.get inst.namespace inst.name r ≡ ok inst
        → client.get inst.namespace inst.name
            (run_updates client (take_condition client inst.namespace inst.name c r (i ∷ [])) r)
          ≡ ok read
        → stale_read c ≡ read
    unfolding take_condition update_status
    read_stale r c i read mine there again =
        let stored =
          get-run_updates client L (i ∷ item inst.namespace inst.name c inst ∷ []) r inst.namespace
            inst.name inst (mine, ((refl, refl), tt)) there in
        cc (
          stored,
          rw (update_condition_found client r inst.namespace inst.name c inst there, take_condition)
              at again,
        )

    -- With a server that stores what is written: an object that is to be active again, with the same
    -- cluster, collector and adapter as in its status, is reconciled and its worker is started. If a
    -- condition is reported before the item of that reconcile is written, then what is read after
    -- both items are written is again the status from before the start, and the next reconcile
    -- starts a second worker beside the first.
    pub reconcile_reported :
        (r : S) (c : SyncedCondition) (i : StatusToUpdate) (read : DrNamespace)
        → client.get inst.namespace inst.name r ≡ ok inst
        → lookup inst.namespace s.cancel_funcs ≡ none
        → cluster_changed inst s ≡ false
        → components_changed inst ≡ false
        → inst.spec.components.active ≡ true
        → inst.status.components.active ≡ false
        → (reconcile inst.namespace (found inst) s).enqueued ≡ some i
        → client.get inst.namespace inst.name
            (run_updates client (take_condition client inst.namespace inst.name c r (i ∷ [])) r)
          ≡ ok read
        → (reconcile inst.namespace
            (found read)
            (reconcile inst.namespace (found inst) s).state).state.workers.running
          ≡ new_worker
              (suc s.workers.next_context)
              inst.name
              inst.namespace
              inst.spec.components.transport_adapter
              inst.spec.components.collector_type
              inst.namespace
            ∷ new_worker s.workers.next_context inst.name inst.namespace
                inst.spec.components.transport_adapter inst.spec.components.collector_type
                inst.namespace
            ∷ s.workers.running
    reconcile_reported r c i read there absent same_cluster same_components wanted stale queued
          again =
        let mine = enqueued_settled i same_cluster same_components queued in
        rw (started_once absent same_cluster same_components wanted) (
          subst
            (λ x.
              (reconcile inst.namespace (found x) after_start).state.workers.running
              ≡ new_worker (suc s.workers.next_context) inst.name inst.namespace
                  inst.spec.components.transport_adapter inst.spec.components.collector_type
                  inst.namespace
                ∷ new_worker s.workers.next_context inst.name inst.namespace
                    inst.spec.components.transport_adapter inst.spec.components.collector_type
                    inst.namespace
                ∷ s.workers.running)
            (read_stale r c i read mine there again)
            (started_twice c same_cluster same_components wanted stale))
