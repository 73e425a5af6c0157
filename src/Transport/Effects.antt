-- ===== src/Transport/Effects.antt =====
-- The outcomes of a send for what the other cluster holds.
use dr.Base.{
  ◌≡◌, ◌≢◌, refl, sym, String, true, Option, none, some, Result, Error, ok, err, panic, message,
  Result-cases, Bool-cases, inl, inr, ◌⊎◌,
}
use mathlib.Core.Path.{subst}
use dr.Base.Text.{contains}
use dr.Api.{
  UnstructuredApi, ObjResource, ObjectAction, create, update, delete, other_action, Fields,
  PairClusterSettings, KubeApiServerSettings,
}
use dr.Transport.KubeApiserver.{
  DynamicClient, RestConfig, client_config, kube_transport, send, send_create, send_patch,
  send_update, send_delete, returned, prepare_transport_when_creating,
  prepare_transport_when_updating,
}
use dr.Transport.Patience.{IsRetried}
use dr.Transport.Stores.{
  Place, IgnoresIdentity, Keeps, Sets, StoresContent, read-prepare_transport_when_creating,
  read-prepare_transport_when_updating,
}

-- The object that was sent is there, or gone if it was deleted.
abbrev pub Shows {κ} : {C : Type κ} → ObjectAction → Option C → C → Type κ
Shows create held c = held ≡ some c
Shows update held c = held ≡ some c
Shows delete held c = held ≡ none
Shows (other_action _) held c = Unit

returned_cases {ℓ} :
    {R : Type ℓ} (op : R × Option Error)
    → ((op.1 ≡ none) × (returned op ≡ (op.0, ok tt)))
      ⊎ ((e : Error) × (op.1 ≡ some e) × (returned op ≡ (op.0, err e)))
returned_cases (after, none) = inl (refl, refl)
returned_cases (after, some e) = inr (e, refl, refl)

module _ (u : UnstructuredApi) where
  abbrev pub place_of : ObjResource → Place
  place_of objr = record {
    gvr = objr.gvr;
    namespace = u.get_namespace objr.unstructured;
    name = u.get_name objr.unstructured;
  }

  module _ {ℓ κ} {R : Type ℓ} {C : Type κ} (view : R → Place → Option C)
      (content : Fields → C) where
    abbrev pub Holds : R → ObjResource → Type κ
    Holds remote objr = Shows objr.action (view remote (place_of objr)) (content objr.unstructured)

    pub data Effect (objr : ObjResource) (remote : R) (a : R × Result (Unit {0})) : Type κ where
      arrived :
          a.1 ≡ ok tt
          → Holds a.0 objr
          → ((q : Place) → q ≢ place_of objr → view a.0 q ≡ view remote q)
          → Effect objr remote a
      existed :
          (e : Error)
          → a.1 ≡ err e
          → objr.action ≡ create
          → view remote (place_of objr) ≢ none
          → Effect objr remote a
      refused :
          (e : Error) → a.1 ≡ err e → IsRetried e → Keeps view remote a.0 → Effect objr remote a
      stopped : a.1 ≡ panic → Keeps view remote a.0 → Effect objr remote a

    module _ (name_ignores : IgnoresIdentity u u.get_name)
        (namespace_ignores : IgnoresIdentity u u.get_namespace)
        (content_ignores : IgnoresIdentity u content) (client : DynamicClient R)
        (L : StoresContent view u client content) where
      -- A creation sets the place of the object, or changes nothing.
      abbrev Creates : ObjResource → R → R × Result (Unit {0}) → Type κ
      Creates objr remote a =
          ((a.1 ≡ ok tt) × Sets view (place_of objr) (some (content objr.unstructured)) remote a.0)
          ⊎ ((e : Error) × (a.1 ≡ err e)
              × Keeps view remote a.0
              × (contains (message e) "already exists" ≡ true → view remote (place_of objr) ≢ none))

      abbrev prepared : ObjResource → Fields
      prepared objr = (prepare_transport_when_creating u objr).unstructured

      prepared_place :
          (objr : ObjResource)
          → (record {
            gvr = objr.gvr;
            namespace = u.get_namespace (prepared objr);
            name = u.get_name (prepared objr);
          })
            ≡ place_of objr
      prepared_place objr = cc (
        read-prepare_transport_when_creating u u.get_namespace namespace_ignores objr,
        read-prepare_transport_when_creating u u.get_name name_ignores objr,
      )

      create-Creates :
          (objr : ObjResource) (remote : R) → Creates objr remote (send_create u client objr remote)
      unfolding send_create prepare_transport_when_creating
      create-Creates objr remote =
          let m = prepared objr in
          let op = client.create objr.gvr (u.get_namespace m) m remote in
          let same = read-prepare_transport_when_creating u content content_ignores objr in
          elim (returned_cases op) [
            | inl (fine, e) ↦
                subst (λ a. Creates objr remote a) (sym e)
                  (inl (
                    refl,
                    subst (λ c. Sets view (place_of objr) (some c) remote op.0) same
                        (subst (λ p. Sets view p (some (content m)) remote op.0)
                          (prepared_place objr) (L.created objr.gvr m remote fine)),
                  ))
            | inr (x, bad, e) ↦
                subst (λ a. Creates objr remote a) (sym e)
                  (inr (
                    x,
                    refl,
                    L.not_created objr.gvr m remote x bad,
                    λ there.
                        subst (λ p. view remote p ≢ none) (prepared_place objr)
                          (L.exists objr.gvr m remote x bad there),
                  ))
          ]

      set-Effect :
          (objr : ObjResource) (remote after : R)
          → Shows objr.action (some (content objr.unstructured)) (content objr.unstructured)
          → Sets view (place_of objr) (some (content objr.unstructured)) remote after
          → Effect objr remote (after, ok tt)
      set-Effect objr remote after shows s =
          Effect.arrived refl
            (subst (λ o. Shows objr.action o (content objr.unstructured)) (sym s.there) shows)
            s.elsewhere

      -- What a creation does, where the object that exists is one that is to be created.
      created-Effect :
          (objr : ObjResource) (remote : R) (a : R × Result (Unit {0}))
          → Shows objr.action (some (content objr.unstructured)) (content objr.unstructured)
          → (view remote (place_of objr) ≢ none → objr.action ≡ create)
          → Creates objr remote a
          → Effect objr remote a
      created-Effect objr remote (after, answer) shows only (inl (fine, s)) =
          Effect.arrived fine
            (subst (λ o. Shows objr.action o (content objr.unstructured)) (sym s.there) shows)
            s.elsewhere
      created-Effect objr remote (after, answer) shows only (inr (e, bad, keeps, taken)) =
          elim (Bool-cases (contains (message e) "already exists")) [
            | inl there ↦ Effect.existed e bad (only (taken there)) (taken there)
            | inr other ↦ Effect.refused e bad other keeps
          ]

      abbrev updated : ObjResource → Fields → Fields
      updated objr original = (prepare_transport_when_updating u objr original).unstructured

      abbrev updated_place : ObjResource → Fields → Place
      updated_place objr original = record {
        gvr = objr.gvr;
        namespace = u.get_namespace (updated objr original);
        name = u.get_name (updated objr original);
      }

      updated_place-eq :
          (objr : ObjResource) (original : Fields) → updated_place objr original ≡ place_of objr
      updated_place-eq objr original = cc (
        read-prepare_transport_when_updating u u.get_namespace namespace_ignores objr original,
        read-prepare_transport_when_updating u u.get_name name_ignores objr original,
      )

      patch-Effect :
          (objr : ObjResource) (original : Fields) (remote : R)
          → objr.action ≡ update
          → client.get objr.gvr
              (u.get_namespace objr.unstructured)
              (u.get_name objr.unstructured)
              remote
            ≡ ok original
          → Effect objr remote (send_patch u client objr original remote)
      unfolding send_patch prepare_transport_when_updating
      patch-Effect objr original remote act there =
          let p = updated_place objr original in
          let m = updated objr original in
          let same = read-prepare_transport_when_updating u content content_ignores objr original in
          let at = updated_place-eq objr original in
          let read =
            subst (λ (q : Place). client.get q.gvr q.namespace q.name remote ≡ ok original) (sym at)
              there in
          elim (Result-cases (client.patch_data original m)) [
            | inl (bytes, e) ↦
                rw (send_patch, e)
                  (let op = client.patch p.gvr p.namespace p.name bytes remote in
                    elim (returned_cases op) [
                      | inl (fine, f) ↦
                          let s = L.patched p original m bytes remote read e fine in
                          subst (λ a. Effect objr remote a) (sym f)
                            (set-Effect objr remote _ (rw act refl) (
                              subst (λ c. Sets view (place_of objr) (some c) remote op.0) same
                                (subst (λ q. Sets view q (some (content m)) remote op.0) at s)))
                      | inr (x, bad, f) ↦
                          let (retried, keeps) = L.not_patched p bytes remote x bad in
                          subst (λ a. Effect objr remote a) (sym f)
                            (Effect.refused x refl retried keeps)
                    ])
            | inr (inl (x, e)) ↦ absurd (L.computed original m x e)
            | inr (inr e) ↦ rw (send_patch, e) (Effect.stopped refl (λ q. refl))
          ]

      update-Effect :
          (objr : ObjResource) (remote : R)
          → objr.action ≡ update
          → Effect objr remote (send_update u client objr remote)
      unfolding send_update
      update-Effect objr remote act =
          let m = objr.unstructured in
          elim (Result-cases (client.get objr.gvr (u.get_namespace m) (u.get_name m) remote)) [
            | inl (original, e) ↦ rw (send_update, e) (patch-Effect objr original remote act e)
            | inr (inr e) ↦ rw (send_update, e) (Effect.stopped refl (λ q. refl))
            | inr (inl (x, e)) ↦ elim (Bool-cases (client.is_not_found x)) [
              | inr other ↦ rw (send_update, e, other) (Effect.stopped refl (λ q. refl))
              | inl gone ↦
                  rw (send_update, e, gone)
                    (created-Effect objr remote _ (rw act refl)
                      (λ held. absurd (held (L.missing (place_of objr) remote x e gone)))
                      (create-Creates objr remote))
            ]
          ]

      delete-Effect :
          (objr : ObjResource) (remote : R)
          → objr.action ≡ delete
          → Effect objr remote (send_delete u client objr remote)
      unfolding send_delete
      delete-Effect objr remote act =
          let p = place_of objr in
          elim (returned_cases (client.delete p.gvr p.namespace p.name remote)) [
            | inl (fine, e) ↦
                let s = L.deleted p remote fine in
                subst (λ a. Effect objr remote a) (sym e)
                  (Effect.arrived refl (rw act s.there) s.elsewhere)
            | inr (x, bad, e) ↦
                let (retried, keeps) = L.not_deleted p remote x bad in
                subst (λ a. Effect objr remote a) (sym e) (Effect.refused x refl retried keeps)
          ]

      idle-Effect :
          (objr : ObjResource) (remote : R) (x : String)
          → objr.action ≡ other_action x
          → Effect objr remote (remote, ok tt)
      idle-Effect objr remote x e = Effect.arrived refl (rw e tt) (λ q apart. refl)

      pub send-Effect :
          (objr : ObjResource) (remote : R) → Effect objr remote (send u client objr remote)
      unfolding send
      send-Effect objr remote = by_action objr.action refl
        where
          by_action :
              (a : ObjectAction) → objr.action ≡ a → Effect objr remote (send u client objr remote)
          by_action create e =
              subst (λ a. Effect objr remote a) (simp (send, e))
                (created-Effect objr remote _ (rw e refl) (λ held. e) (create-Creates objr remote))
          by_action update e =
              subst (λ a. Effect objr remote a) (simp (send, e)) (update-Effect objr remote e)
          by_action delete e =
              subst (λ a. Effect objr remote a) (simp (send, e)) (delete-Effect objr remote e)
          by_action (other_action x) e =
              subst (λ a. Effect objr remote a) (simp (send, e)) (idle-Effect objr remote x e)

      -- The same for Transport, with the settings that SetConfig stored.
      pub kube_transport-Effect :
          (new_for_config : RestConfig → Result (DynamicClient R)) (s : PairClusterSettings)
          (k : KubeApiServerSettings)
          → s.kube_apiserver_transportor_setting ≡ some k
          → new_for_config (client_config k) ≡ ok client
          → (objr : ObjResource) (remote : R)
          → Effect objr remote (kube_transport u new_for_config (some s) objr remote)
      unfolding kube_transport
      kube_transport-Effect new_for_config s k has made objr remote =
          rw has (rw made (send-Effect objr remote))
