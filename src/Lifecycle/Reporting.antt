-- ===== src/Lifecycle/Reporting.antt =====
-- The way of a condition from the transport manager to the status of the namespace's object: the
-- worker's namespacedStatusUpdateFunc, the updater's queue and its loop.
use dr.Base.{
  ◌≡◌, ◌==◌, false, refl, String, true, List, [], ◌∷◌, some, ok, All, last_or, map, eq_refl,
}
use dr.Base.Dict.{Dict, lookup, lookup-insert}
use dr.Api.{UnstructuredApi, ObjResource, DrNamespace, SyncedCondition}
use dr.Transport.{
  object, Transporter, transport_round, settle, is_new_version, generate_synced_condition,
}
use dr.Controller.{
  Worker, StatusClient, StatusToUpdate, take_condition, run_updates, update_round, condition_key,
  conditions_or_empty, with_condition, update_status,
}
use dr.Controller.StatusLaws.{StoresStatus, item, update_round_found, update_condition_found}

-- All items are for one object.
abbrev pub IsFor : String → String → StatusToUpdate → Type 0
IsFor namespace name i = (i.namespace ≡ namespace) × (i.name ≡ name)

module _ {ℓ} {S : Type ℓ} (client : StatusClient S) where
  -- namespacedStatusUpdateFunc
  unfoldable pub namespaced_status_update_func :
      Worker → SyncedCondition → S → List StatusToUpdate → List StatusToUpdate
  unfolding take_condition
  namespaced_status_update_func w condition =
      take_condition client w.ns_cr_namespace w.ns_cr_name condition

  -- What a round of the transport manager reports.
  unfoldable pub report :
      Worker → List SyncedCondition → S → List StatusToUpdate → List StatusToUpdate
  unfolding namespaced_status_update_func
  report w [] s queue = queue
  report w (c ∷ cs) s queue = report w cs s (namespaced_status_update_func w c s queue)

  stored_for :
      (L : StoresStatus client) (i : StatusToUpdate) (s : S) (namespace name : String)
      (inst : DrNamespace)
      → i.namespace ≡ namespace
      → i.name ≡ name
      → client.get namespace name s ≡ ok inst
      → client.get namespace name (update_round client i s) ≡ ok (record inst { status = i.status })
  stored_for L i s namespace name inst p q there =
      let before : client.get i.namespace i.name s ≡ ok inst = cc (p, q, there) in
      cc (p, q, update_round_found client L s i inst before)

  -- With a server that stores what is written: a queue of items for one object that is there
  -- leaves it with the status of the last item, and with all else as it was.
  pub get-run_updates :
      (L : StoresStatus client) (queue : List StatusToUpdate) (s : S) (namespace name : String)
      (inst : DrNamespace)
      → All (IsFor namespace name) queue
      → client.get namespace name s ≡ ok inst
      → client.get namespace name (run_updates client queue s)
        ≡ ok (record inst { status = last_or inst.status (map (λ i. i.status) queue) })
  unfolding run_updates
  get-run_updates L [] s namespace name inst h there = there
  get-run_updates L (i ∷ queue) s namespace name inst ((p, q), h) there =
      get-run_updates L queue (update_round client i s) namespace name
        (record inst { status = i.status }) h (stored_for L i s namespace name inst p q there)

module _ {ℓ κ} {S : Type ℓ} (client : StatusClient S) (L : StoresStatus client)
    (u : UnstructuredApi) {R : Type κ} (t : Transporter R) where
  sent_conditions :
      (objr : ObjResource) (versions : Dict String) (remote : R)
      → is_new_version u versions objr ≡ true
      → (t.transport objr remote).1 ≡ ok tt
      → (transport_round u t (object objr) versions remote).conditions
        ≡ generate_synced_condition u objr ∷ []
  unfolding transport_round settle
  sent_conditions objr versions remote new sent = rw (new, sent)

  report_one :
      (w : Worker) (c : SyncedCondition) (s : S) (inst : DrNamespace)
      → client.get w.ns_cr_namespace w.ns_cr_name s ≡ ok inst
      → report client w (c ∷ []) s [] ≡ item w.ns_cr_namespace w.ns_cr_name c inst ∷ []
  unfolding report namespaced_status_update_func take_condition update_status
  report_one w c s inst there =
      rw
        (
          update_condition_found client s w.ns_cr_namespace w.ns_cr_name c inst there,
          take_condition,
        )
        refl

  -- With a server that stores what is written: a round of the transport manager that sends a new
  -- version of an object, what it reports, and the updater's loop together leave the status of the
  -- namespace's object with the condition of that version and success under the object's key, and
  -- with the conditions under all other keys as they were.
  pub report-transport_round :
      (w : Worker) (objr : ObjResource) (versions : Dict String) (remote : R) (s : S)
      (inst : DrNamespace)
      → is_new_version u versions objr ≡ true
      → (t.transport objr remote).1 ≡ ok tt
      → client.get w.ns_cr_namespace w.ns_cr_name s ≡ ok inst
      → (final : DrNamespace) × (client.get w.ns_cr_namespace w.ns_cr_name (
            run_updates client
              (report client w (transport_round u t (object objr) versions remote).conditions s [])
              s)
          ≡ ok final)
        × (lookup
              (condition_key (generate_synced_condition u objr))
              (conditions_or_empty final.status)
            ≡ some (generate_synced_condition u objr))
        × ((k : String)
            → (condition_key (generate_synced_condition u objr) == k) ≡ false
            → lookup k (conditions_or_empty final.status)
              ≡ lookup k (conditions_or_empty inst.status))
  unfolding with_condition
  report-transport_round w objr versions remote s inst new sent there =
      let c = generate_synced_condition u objr in
      (
        record inst { status = with_condition c inst.status },
        rw (sent_conditions objr versions remote new sent, report_one w c s inst there)
            (get-run_updates client L (item w.ns_cr_namespace w.ns_cr_name c inst ∷ []) s
              w.ns_cr_namespace w.ns_cr_name inst ((refl, refl), tt) there),
        rw lookup-insert (rw eq_refl refl),
        λ k apart. rw lookup-insert (rw apart refl),
      )
