-- ===== src/Transport/Recreated.antt =====
-- An object that is deleted and created again while the transport manager is busy.
use dr.Base.{
  ◌≡◌, ◌==◌, refl, ap, ◌∙◌, ◌++◌, arith, eq_iff, eq_refl, ℕ, zero, suc, String, true, false, List,
  [], ◌∷◌, some, none, Option, Result, Error, ok, err, message,
}
use dr.Base.Dict.{Dict, lookup, lookup-insert}
use dr.Base.Text.{contains}
use dr.Api.{
  UnstructuredApi, ObjResource, create, delete, Fields, PairClusterSettings, KubeApiServerSettings,
}
use dr.Transport.Manager.{Transporter, is_new_version, mark_as_successed, transport_round, settle}
use dr.Transport.KubeApiserver.{
  DynamicClient, RestConfig, client_config, kube_transport, kube_transporter, send, send_create,
  send_delete, returned,
}
use dr.Transport.Patience.{IsRetried}
use dr.Transport.Stores.{Place, StoresContent}
use dr.Transport.Effects.{place_of}
use dr.Transport.Drain.{drain, Drained}
use mathlib.Core.Path.{subst}

module _ {ℓ} (u : UnstructuredApi) {R : Type ℓ} (t : Transporter R) where
  drain_retried :
      (o : ObjResource) (queue : List ObjResource) (versions : Dict String) (r r' : R) (e : Error)
      (n : ℕ)
      → is_new_version u versions o ≡ true
      → t.transport o r ≡ (r', err e)
      → IsRetried e
      → drain u t (suc n) (o ∷ queue) versions r ≡ drain u t n (queue ++ (o ∷ [])) versions r'
  unfolding drain transport_round settle
  drain_retried o queue versions r r' e n new a retried =
      rw (new, a, settle, retried, ap (λ p. p.0) a) refl

  drain_exists :
      (o : ObjResource) (queue : List ObjResource) (versions : Dict String) (r r' : R) (e : Error)
      (n : ℕ)
      → is_new_version u versions o ≡ true
      → t.transport o r ≡ (r', err e)
      → contains (message e) "already exists" ≡ true
      → drain u t (suc n) (o ∷ queue) versions r
        ≡ drain u t n (queue ++ []) (mark_as_successed u o versions) r'
  unfolding drain transport_round settle
  drain_exists o queue versions r r' e n new a there =
      rw (new, a, settle, there, ap (λ p. p.0) a) refl

  drain_done :
      (o : ObjResource) (queue : List ObjResource) (versions : Dict String) (r r' : R) (n : ℕ)
      → is_new_version u versions o ≡ true
      → t.transport o r ≡ (r', ok tt)
      → drain u t (suc n) (o ∷ queue) versions r
        ≡ drain u t n (queue ++ []) (mark_as_successed u o versions) r'
  unfolding drain transport_round settle
  drain_done o queue versions r r' n new a = rw (new, a, settle, ap (λ p. p.0) a) refl

  drain_empty :
      (n : ℕ) (versions : Dict String) (r : R)
      → drain u t n [] versions r
        ≡ record { queue = []; versions = versions; remote = r; fault = false }
  unfolding drain
  drain_empty zero versions r = refl
  drain_empty (suc n) versions r = refl

  -- The rounds of a first object that is refused once, and a second one that exists already.
  drain_between :
      (old new : ObjResource) (versions : Dict String) (r0 r1 r2 r3 : R) (busy there : Error)
      → is_new_version u versions old ≡ true
      → is_new_version u versions new ≡ true
      → is_new_version u (mark_as_successed u new versions) old ≡ true
      → t.transport old r0 ≡ (r1, err busy)
      → IsRetried busy
      → t.transport new r1 ≡ (r2, err there)
      → contains (message there) "already exists" ≡ true
      → t.transport old r2 ≡ (r3, ok tt)
      → (n : ℕ)
      → drain u t (suc (suc (suc n))) (old ∷ new ∷ []) versions r0 ≡ record {
        queue = [];
        versions = mark_as_successed u old (mark_as_successed u new versions);
        remote = r3;
        fault = false;
      }
  drain_between old new versions r0 r1 r2 r3 busy there is_new is_new' still a retried b exists c
        n =
      drain_retried old (new ∷ []) versions r0 r1 busy (suc (suc n)) is_new a retried
      ∙ (drain_exists new (old ∷ []) versions r1 r2 there (suc n) is_new' b exists
          ∙ (drain_done old [] (mark_as_successed u new versions) r2 r3 n still c
              ∙ drain_empty n (mark_as_successed u old (mark_as_successed u new versions)) r3))

module _ (u : UnstructuredApi) where
  still_new :
      (old new : ObjResource) (versions : Dict String)
      → (u.get_uid new.unstructured == u.get_uid old.unstructured) ≡ false
      → is_new_version u versions old ≡ true
      → is_new_version u (mark_as_successed u new versions) old ≡ true
  unfolding is_new_version mark_as_successed
  still_new old new versions apart h = rw (lookup-insert, apart, is_new_version) h

  other :
      (old new : ObjResource)
      → (u.get_uid old.unstructured == u.get_uid new.unstructured) ≡ false
      → (u.get_uid new.unstructured == u.get_uid old.unstructured) ≡ false
  other old new h = ground (
    arith,
    eq_iff (u.get_uid old.unstructured) (u.get_uid new.unstructured),
    eq_iff (u.get_uid new.unstructured) (u.get_uid old.unstructured),
  )

  marks_both :
      (old new : ObjResource) (versions : Dict String)
      → (u.get_uid old.unstructured == u.get_uid new.unstructured) ≡ false
      → lookup
          (u.get_uid new.unstructured)
          (mark_as_successed u old (mark_as_successed u new versions))
        ≡ some (u.get_resource_version new.unstructured)
  unfolding mark_as_successed
  marks_both old new versions apart = simp (lookup-insert, apart, eq_refl)

  module _ {ℓ κ} {R : Type ℓ} {C : Type κ} (view : R → Place → Option C) (content : Fields → C)
      (client : DynamicClient R) (L : StoresContent view u client content)
      (new_for_config : RestConfig → Result (DynamicClient R)) (s : PairClusterSettings)
      (k : KubeApiServerSettings) (has : s.kube_apiserver_transportor_setting ≡ some k)
      (made : new_for_config (client_config k) ≡ ok client) where
    transport_delete :
        (o : ObjResource) (r : R)
        → o.action ≡ delete
        → kube_transport u new_for_config (some s) o r
          ≡ returned
              (client.delete o.gvr (u.get_namespace o.unstructured) (u.get_name o.unstructured) r)
    unfolding kube_transport send send_delete
    transport_delete o r act = simp (has, made, kube_transport, send, act, send_delete)

    transport_create :
        (o : ObjResource) (r : R)
        → o.action ≡ create
        → kube_transport u new_for_config (some s) o r ≡ send_create u client o r
    unfolding kube_transport send
    transport_create o r act = simp (has, made, kube_transport, send, act)

    -- An object is deleted and created again under another UID. If the other cluster refuses the
    -- deletion once, then the creation finds the old object, the manager takes it for sent, and the
    -- repeated deletion removes what is there: the queue is empty, the new object is marked as
    -- sent, and the other cluster does not have it.
    pub drain_recreated :
        (old new : ObjResource) (versions : Dict String) (r0 r1 r2 r3 : R) (busy there : Error)
        → old.action ≡ delete
        → new.action ≡ create
        → place_of u old ≡ place_of u new
        → (u.get_uid old.unstructured == u.get_uid new.unstructured) ≡ false
        → is_new_version u versions old ≡ true
        → is_new_version u versions new ≡ true
        → client.delete old.gvr (u.get_namespace old.unstructured) (u.get_name old.unstructured) r0
          ≡ (r1, some busy)
        → IsRetried busy
        → send_create u client new r1 ≡ (r2, err there)
        → contains (message there) "already exists" ≡ true
        → client.delete old.gvr (u.get_namespace old.unstructured) (u.get_name old.unstructured) r2
          ≡ (r3, none)
        → (n : ℕ)
        → let d =
            drain u
              (kube_transporter u new_for_config (some s))
              (suc (suc (suc n)))
              (old ∷ new ∷ [])
              versions
              r0 in
          (d.queue ≡ [])
          × (lookup (u.get_uid new.unstructured) d.versions
              ≡ some (u.get_resource_version new.unstructured))
          × (view d.remote (place_of u new) ≡ none)
    drain_recreated old new versions r0 r1 r2 r3 busy there del cre same apart is_new is_new' a
          retried b exists c n =
        let t = kube_transporter u new_for_config (some s) in
        let e =
          drain_between u t old new versions r0 r1 r2 r3 busy there is_new is_new'
            (still_new old new versions (other old new apart) is_new)
            (transport_delete old r0 del ∙ ap returned a) retried (transport_create new r1 cre ∙ b)
            exists (transport_delete old r2 del ∙ ap returned c) n in
        let gone = L.deleted (place_of u old) r2 (ap (λ p. p.1) c) in
        (
          ap (λ (d : Drained R). d.queue) e,
          ap (λ (d : Drained R). lookup (u.get_uid new.unstructured) d.versions) e
              ∙ marks_both old new versions apart,
          ap (λ (d : Drained R). view d.remote (place_of u new)) e
              ∙ subst (λ p. view r3 p ≡ none) same
                  (subst (λ r. view r (place_of u old) ≡ none) (ap (λ p. p.0) c) gone.there),
        )
