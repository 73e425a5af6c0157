-- ===== src/Transport/Replica.antt =====
-- What the other cluster holds while the transport manager empties its queue.
use dr.Base.{
  ◌≡◌, ◌≢◌, sym, ◌∙◌, ◌==◌, eq_iff, ℕ, zero, suc, String, true, false, List, [], ◌∷◌, ◌++◌, Option,
  none, some, Option-cases, Bool-cases, inl, inr, All, All-append,
}
use mathlib.Core.Path.{subst}
use mathlib.Core.Bool.{false≢true}
use dr.Base.Dict.{Dict, lookup, lookup-insert}
use dr.Base.Int.{ltℤ}
use dr.Base.Text.{atoi}
use dr.Api.{UnstructuredApi, ObjResource, create, Fields}
use dr.Transport.Manager.{
  object, Transporter, is_new_version, mark_as_successed, transport_round, settle,
}
use dr.Transport.Stores.{Place, Keeps}
use dr.Transport.Effects.{Shows, place_of, Holds, Effect}
use dr.Transport.Requeues.{requeued-All, transport_round-Requeues}
use dr.Transport.Drain.{drain}

module _ (u : UnstructuredApi) where
  -- Objects of one place have one UID, and none is created with a version above that of another
  -- object of its UID.
  pub record IsHistory (In : ObjResource → Type 0) : Type 0 where
    pub owned :
        (o p : ObjResource)
        → In o
        → In p
        → place_of u o ≡ place_of u p
        → u.get_uid o.unstructured ≡ u.get_uid p.unstructured
    pub created_first :
        (o p : ObjResource)
        → In o
        → In p
        → o.action ≡ create
        → u.get_uid p.unstructured ≡ u.get_uid o.unstructured
        → ltℤ
            (atoi (u.get_resource_version p.unstructured)).0
            (atoi (u.get_resource_version o.unstructured)).0
          ≡ false

  module _ {ℓ κ} {R : Type ℓ} {C : Type κ} (view : R → Place → Option C) (content : Fields → C)
      (In : ObjResource → Type 0) (H : IsHistory In) (Known : Dict String → ObjResource → Type 0)
      (grows : (versions : Dict String) (objr o : ObjResource)
        → Known versions o
        → Known (mark_as_successed u objr versions) o) where
    -- What was not sent yet and is to be created is not there, and what is marked is there as the
    -- object with the marked version, of which what is to be known of a sent object holds.
    pub record Replicates (versions : Dict String) (remote : R) : Type κ where
      pub unsent :
          (o : ObjResource)
          → In o
          → lookup (u.get_uid o.unstructured) versions ≡ none
          → o.action ≡ create
          → view remote (place_of u o) ≡ none
      pub sent :
          (uid v : String)
          → lookup uid versions ≡ some v
          → (o : ObjResource) × In o
            × (u.get_uid o.unstructured ≡ uid)
            × (u.get_resource_version o.unstructured ≡ v)
            × Known versions o
            × Holds u view content remote o

    Holds-same :
        (o : ObjResource) (remote after : R)
        → view after (place_of u o) ≡ view remote (place_of u o)
        → Holds u view content remote o
        → Holds u view content after o
    Holds-same o remote after same h =
        subst (λ c. Shows o.action c (content o.unstructured)) (sym same) h

    Keeps-Replicates :
        (versions : Dict String) (remote after : R)
        → Keeps view remote after
        → Replicates versions remote
        → Replicates versions after
    Keeps-Replicates versions remote after keeps r = record {
      unsent = λ o m none_yet act. keeps (place_of u o) ∙ r.unsent o m none_yet act;
      sent = λ uid v e.
          let (o, m, same, mine, known, holds) = r.sent uid v e in
          (o, m, same, mine, known, Holds-same o remote after (keeps (place_of u o)) holds);
    }

    -- The place of an object is not that of one with another UID.
    elsewhere :
        (objr o : ObjResource)
        → In objr
        → In o
        → (u.get_uid objr.unstructured == u.get_uid o.unstructured) ≡ false
        → place_of u o ≢ place_of u objr
    elsewhere objr o m k apart same =
        false≢true (sym apart ∙ (eq_iff _ _).1 (sym (H.owned o objr k m same)))

    mark-Replicates :
        (objr : ObjResource) (versions : Dict String) (remote after : R)
        → In objr
        → Known versions objr
        → Holds u view content after objr
        → ((q : Place) → q ≢ place_of u objr → view after q ≡ view remote q)
        → Replicates versions remote
        → Replicates (mark_as_successed u objr versions) after
    unfolding mark_as_successed
    mark-Replicates objr versions remote after m known holds others r = record {
      unsent = λ o k none_yet act.
          elim (Bool-cases (u.get_uid objr.unstructured == u.get_uid o.unstructured)) [
            | inl mine ↦ absurd (cc (rw (lookup-insert, mine) at none_yet))
            | inr apart ↦
                others (place_of u o) (elsewhere objr o m k apart)
                ∙ r.unsent o k (rw (lookup-insert, apart) at none_yet) act
          ];
      sent = λ uid v e. elim (Bool-cases (u.get_uid objr.unstructured == uid)) [
        | inl mine ↦ (
          objr,
          m,
          (eq_iff _ _).0 mine,
          cc (rw (lookup-insert, mine) at e),
          grows versions objr objr known,
          holds,
        )
        | inr apart ↦
            let (o, k, same, at, knows, held) = r.sent uid v (rw (lookup-insert, apart) at e) in
            (
              o,
              k,
              same,
              at,
              grows versions objr o knows,
              Holds-same o remote after
                  (others (place_of u o) (
                    elsewhere objr o m k
                      (subst (λ id. (u.get_uid objr.unstructured == id) ≡ false) (sym same) apart)))
                  held,
            )
      ];
    }

    -- A creation that is sent finds its place empty.
    create_finds_none :
        (objr : ObjResource) (versions : Dict String) (remote : R)
        → In objr
        → objr.action ≡ create
        → is_new_version u versions objr ≡ true
        → Replicates versions remote
        → view remote (place_of u objr) ≡ none
    unfolding is_new_version
    create_finds_none objr versions remote m act new r =
        elim (Option-cases (lookup (u.get_uid objr.unstructured) versions)) [
          | inl none_yet ↦ r.unsent objr m none_yet act
          | inr (w, e) ↦
              let (o, k, same, at, knows, held) = r.sent (u.get_uid objr.unstructured) w e in
              absurd (
                false≢true (
                  sym (H.created_first objr o m k act same)
                  ∙ rw (at) (rw (e, is_new_version) at new)))
        ]

    module _ (t : Transporter R)
        (effect : (objr : ObjResource) (remote : R)
          → Effect u view content objr remote (t.transport objr remote)) where
      settle-Replicates :
          (objr : ObjResource) (versions : Dict String) (remote : R)
          → In objr
          → Known versions objr
          → is_new_version u versions objr ≡ true
          → Replicates versions remote
          → let s = settle u t objr versions (t.transport objr remote) in
            Replicates s.versions s.remote
      unfolding settle
      settle-Replicates objr versions remote m known new r =
          let after = (t.transport objr remote).0 in
          elim (effect objr remote) [
            | Effect.arrived e holds others ↦
                rw (e, settle) (mark-Replicates objr versions remote after m known holds others r)
            | Effect.existed x e act held ↦
                absurd (held (create_finds_none objr versions remote m act new r))
            | Effect.refused x e other keeps ↦
                rw (e, settle, other) (Keeps-Replicates versions remote after keeps r)
            | Effect.stopped e keeps ↦
                rw (e, settle) (Keeps-Replicates versions remote after keeps r)
          ]

      pub transport_round-Replicates :
          (objr : ObjResource) (versions : Dict String) (remote : R)
          → In objr
          → Known versions objr
          → Replicates versions remote
          → let s = transport_round u t (object objr) versions remote in
            Replicates s.versions s.remote
      unfolding transport_round
      transport_round-Replicates objr versions remote m known r =
          elim (Bool-cases (is_new_version u versions objr)) [
            | inr old ↦ rw old r
            | inl new ↦ rw new (settle-Replicates objr versions remote m known new r)
          ]

      pub drain-Replicates :
          (n : ℕ) (queue : List ObjResource) (versions : Dict String) (remote : R)
          → ((seen : Dict String) (o : ObjResource) → Known seen o)
          → All In queue
          → Replicates versions remote
          → let d = drain u t n queue versions remote in Replicates d.versions d.remote
      unfolding drain
      drain-Replicates zero queue versions remote all m r = r
      drain-Replicates (suc n) [] versions remote all m r = r
      drain-Replicates (suc n) (objr ∷ queue) versions remote all (k, m) r =
          let s = transport_round u t (object objr) versions remote in
          let first = transport_round-Replicates objr versions remote k (all versions objr) r in
          elim (Bool-cases s.fault) [
            | inl stopped ↦ rw stopped first
            | inr ran ↦ rw ran (
                drain-Replicates n (queue ++ s.requeued) s.versions s.remote all
                  (All-append In queue s.requeued m
                    (requeued-All In objr k (transport_round-Requeues u t objr versions remote)))
                  first)
          ]
