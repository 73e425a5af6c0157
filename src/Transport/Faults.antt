-- ===== src/Transport/Faults.antt =====
-- Which objects end the process of the transport manager, with the transporter for API servers.
use dr.Base.{
  ◌≡◌, ◌∙◌, sym, ap, ◌≢◌, refl, String, true, false, [], Option, none, some, Result, Error, ok, err,
  panic, Result-cases, Bool-cases, inl, inr, message,
}
use dr.Base.Text.{contains}
use dr.Base.Dict.{Dict}
use dr.Api.{
  UnstructuredApi, ObjResource, ObjectAction, Fields, PairClusterSettings, KubeApiServerSettings,
  GroupVersionResource, create, update, delete, other_action,
}
use dr.Transport.Manager.{Round, object, transport_round, is_new_version, settle}
use dr.Transport.KubeApiserver.{
  DynamicClient, RestConfig, client_config, kube_transporter, kube_transport, returned, send,
  send_create, send_update, send_patch, send_delete, prepare_transport_when_updating,
}

-- The client library does not panic itself, when it reads and when it makes a patch.
pub record Answers {ℓ} {R : Type ℓ} (client : DynamicClient R) : Type ℓ where
  pub reads :
      (gvr : GroupVersionResource) (ns name : String) (remote : R)
      → client.get gvr ns name remote ≢ panic
  pub compares : (a b : Fields) → client.patch_data a b ≢ panic

returned_ends {ℓ} : {R : Type ℓ} (a : R × Option Error) → (returned a).1 ≢ panic
returned_ends (r, none) e = cc e
returned_ends (r, some x) e = cc e

module _ {ℓ} (u : UnstructuredApi) {R : Type ℓ} (client : DynamicClient R)
    (A : Answers client) where
  -- The object is updated, and is read with an error other than that it is missing.
  abbrev pub IsUnreadable : ObjResource → R → Type 0
  IsUnreadable objr remote =
      (objr.action ≡ update)
      × (e : Error) × (client.get objr.gvr (u.get_namespace objr.unstructured)
            (u.get_name objr.unstructured) remote
          ≡ err e)
      × (client.is_not_found e ≡ false)

  send_patch_ends :
      (objr : ObjResource) (original : Fields) (remote : R)
      → (send_patch u client objr original remote).1 ≢ panic
  unfolding send_patch
  send_patch_ends objr original remote h =
      let m = (prepare_transport_when_updating u objr original).unstructured in
      elim (Result-cases (client.patch_data original m)) [
        | inl (bytes, e) ↦ returned_ends _ (rw (e, send_patch) at h)
        | inr (inl (x, e)) ↦ cc (rw (e, send_patch) at h)
        | inr (inr e) ↦ A.compares original m e
      ]

  send_create_ends :
      (objr : ObjResource) (remote : R) → (send_create u client objr remote).1 ≢ panic
  unfolding send_create
  send_create_ends objr remote h = returned_ends _ h

  send_update_reads :
      (objr : ObjResource) (remote : R)
      → (send_update u client objr remote).1 ≡ panic
      → (e : Error) × (client.get objr.gvr
            (u.get_namespace objr.unstructured)
            (u.get_name objr.unstructured)
            remote
          ≡ err e)
        × (client.is_not_found e ≡ false)
  unfolding send_update
  send_update_reads objr remote h =
      let m = objr.unstructured in
      elim (Result-cases (client.get objr.gvr (u.get_namespace m) (u.get_name m) remote)) [
        | inl (original, e) ↦
            absurd (send_patch_ends objr original remote (rw (e, send_update) at h))
        | inr (inr e) ↦ absurd (A.reads objr.gvr (u.get_namespace m) (u.get_name m) remote e)
        | inr (inl (x, e)) ↦ elim (Bool-cases (client.is_not_found x)) [
          | inl missing ↦ absurd (send_create_ends objr remote (rw (e, send_update, missing) at h))
          | inr other ↦ (x, e, other)
        ]
      ]

  send-IsUnreadable :
      (objr : ObjResource) (remote : R) (a : ObjectAction)
      → objr.action ≡ a
      → (send u client objr remote).1 ≡ panic
      → IsUnreadable objr remote
  unfolding send send_delete
  send-IsUnreadable objr remote create e h =
      absurd (send_create_ends objr remote (rw (e, send) at h))
  send-IsUnreadable objr remote update e h =
      let (x, read, other) = send_update_reads objr remote (rw (e, send) at h) in
      (e, x, read, other)
  send-IsUnreadable objr remote delete e h = absurd (returned_ends _ (rw (e, send) at h))
  send-IsUnreadable objr remote (other_action _) e h = absurd (cc (rw (e, send) at h))

  unreadable_panics :
      (objr : ObjResource) (remote : R)
      → IsUnreadable objr remote
      → send u client objr remote ≡ (remote, panic)
  unfolding send send_update
  unreadable_panics objr remote (act, x, e, other) =
      rw (act, send) (rw (e, send_update) (rw other refl))

  module _ (new_for_config : RestConfig → Result (DynamicClient R)) (s : PairClusterSettings)
      (k : KubeApiServerSettings) (has : s.kube_apiserver_transportor_setting ≡ some k)
      (made : new_for_config (client_config k) ≡ ok client) where
    kube_transport_sends :
        (objr : ObjResource) (remote : R)
        → kube_transport u new_for_config (some s) objr remote ≡ send u client objr remote
    unfolding kube_transport
    kube_transport_sends objr remote = rw has (rw made refl)

    settle_panics :
        (objr : ObjResource) (versions : Dict String) (a : R × Result (Unit {0}))
        → (settle u (kube_transporter u new_for_config (some s)) objr versions a).fault ≡ true
        → a.1 ≡ panic
    unfolding settle
    settle_panics objr versions (r, panic) h = refl
    settle_panics objr versions (r, ok tt) h = absurd (cc h)
    settle_panics objr versions (r, err e) h =
        elim (Bool-cases (contains (message e) "already exists")) [
          | inl there_is ↦ absurd (cc (rw (there_is, settle) at h))
          | inr other ↦ absurd (cc (rw (other, settle) at h))
        ]

    -- What a round leaves that panics.
    abbrev pub stopped : Dict String → R → Round R
    stopped versions remote = record {
      versions = versions;
      remote = remote;
      requeued = [];
      conditions = [];
      fault = true;
    }

    -- With settings and a client that does not panic itself: a round of the transport manager with
    -- the transporter for API servers panics just if its object is updated, has a new version, and
    -- is read from the other cluster with an error other than that it is missing. Then nothing is
    -- marked or put back, and the other cluster stays as it was.
    pub transport_round_panics_iff :
        (objr : ObjResource) (versions : Dict String) (remote : R)
        → let r =
            transport_round u
              (kube_transporter u new_for_config (some s))
              (object objr)
              versions
              remote in
          (r.fault ≡ true → (is_new_version u versions objr ≡ true) × IsUnreadable objr remote)
          × ((is_new_version u versions objr ≡ true) × IsUnreadable objr remote
              → r ≡ stopped versions remote)
    unfolding transport_round settle
    transport_round_panics_iff objr versions remote =
        let sends = kube_transport_sends objr remote in
        (
          λ h. elim (Bool-cases (is_new_version u versions objr)) [
            | inr old ↦ absurd (cc (rw old at h))
            | inl new ↦ (
              new,
              send-IsUnreadable objr remote objr.action refl (
                  ap (λ a. a.1) (sym sends)
                  ∙ settle_panics objr versions
                      (kube_transport u new_for_config (some s) objr remote) (rw new at h)),
            )
          ],
          λ h. rw (h.0, sends ∙ unreadable_panics objr remote h.1) refl,
        )
