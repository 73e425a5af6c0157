-- ===== src/Worker/Replication.antt =====
-- A worker, its transport manager and the other cluster: what has arrived there at any point of a run.
use dr.Base.{
  ◌≡◌, ◌==◌, refl, String, true, List, [], ◌++◌, Option, none, some, ok, Result, Bool-cases,
  Option-cases, inl, inr, All, All-append, All-remove, All-map,
}
use dr.Base.Dict.{Dict, lookup, lookup-insert}
use dr.Api.{UnstructuredApi, ObjResource, Fields, create, PairClusterSettings}
use dr.Filter.{Filter}
use dr.Transport.{
  RestConfig, DynamicClient, kube_transporter, object, Transporter, is_resource_transported,
  mark_as_successed,
}
use dr.Transport.Requeues.{requeued-All, transport_round-Requeues}
use dr.Transport.Stores.{Place}
use dr.Transport.Effects.{kube_transport-Effect, place_of, Holds, Effect}
use dr.Transport.Replica.{IsHistory, Replicates, transport_round-Replicates}
use dr.Transport.Recovery.{IsConnected}
use dr.Worker.Checkers.{ClusterReader, get_dependencies}
use dr.Worker.Rounds.{run_round}
use dr.Worker.Safety.{NeedsDependencies}
use dr.Worker.System.{System, Step, Run, HandedBy, IsReady, Run-IsReady_in}

module _ {ℓ κ} (u : UnstructuredApi) (namespace : String) (filters : List Filter) {R : Type ℓ}
    (t : Transporter R) {C : Type κ} (view : R → Place → Option C) (content : Fields → C)
    (In : ObjResource → Type 0) (H : IsHistory u In) where
  -- All that the rounds of the worker hand over in a run.
  abbrev pub Handles : {a b : System R} → Run u namespace filters t a b → Type 0
  Handles Run.here = Unit
  Handles (Run.next r (Step.event objr)) = Handles r
  Handles (Run.next {a = a} r (Step.work client pre post objr e)) =
      Handles r
      × All In (run_round u client namespace filters (object objr) a.versions a.waited).transports
  Handles (Run.next r (Step.send pre post objr e)) = Handles r

  marked_stays :
      (versions : Dict String) (objr d : ObjResource)
      → is_resource_transported u versions d ≡ true
      → is_resource_transported u (mark_as_successed u objr versions) d ≡ true
  unfolding is_resource_transported mark_as_successed
  marked_stays versions objr d h =
      elim (Bool-cases (u.get_uid objr.unstructured == u.get_uid d.unstructured)) [
        | inl same ↦ rw (lookup-insert, same, is_resource_transported) refl
        | inr apart ↦ rw (lookup-insert, apart, is_resource_transported) h
      ]

  IsReady-grows :
      (Handed : ClusterReader → ObjResource → Type 0) (versions : Dict String)
      (objr o : ObjResource)
      → IsReady u namespace filters t Handed versions o
      → IsReady u namespace filters t Handed (mark_as_successed u objr versions) o
  IsReady-grows Handed versions objr o h needs =
      let (client, ds, handed, found, all) = h needs in
      (client, ds, handed, found, All-map _ _ ds (λ d. marked_stays versions objr d) all)

  abbrev IsCopy : (ClusterReader → ObjResource → Type 0) → Dict String → R → Type κ
  IsCopy Handed versions remote =
      Replicates u view content In H (IsReady u namespace filters t Handed) (IsReady-grows Handed)
        versions remote

  record Inv (Handed : ClusterReader → ObjResource → Type 0) (s : System R) : Type κ where
    handed : All In s.outgoing
    copy : IsCopy Handed s.versions s.remote

  module _ (Handed : ClusterReader → ObjResource → Type 0)
      (effect : (objr : ObjResource) (remote : R)
        → Effect u view content objr remote (t.transport objr remote)) where
    Run-Inv :
        {a b : System R} (r : Run u namespace filters t a b)
        → ((client : ClusterReader) (o : ObjResource)
            → HandedBy u namespace filters t r client o
            → Handed client o)
        → a.outgoing ≡ []
        → Handles r
        → IsCopy Handed a.versions a.remote
        → Inv Handed b
    Run-Inv Run.here within empty h c = record { handed = rw empty tt; copy = c }
    Run-Inv (Run.next r (Step.event objr)) within empty h c =
        let before = Run-Inv r within empty h c in
        record { handed = before.handed; copy = before.copy }
    Run-Inv (Run.next {a = a} r (Step.work client pre post objr e)) within empty (h, more) c =
        let before = Run-Inv r (λ reader o k. within reader o (inl k)) empty h c in
        record { handed = All-append In a.outgoing _ before.handed more; copy = before.copy }
    Run-Inv (Run.next {a = a} r (Step.send pre post objr e)) within empty h c =
        let before = Run-Inv r within empty h c in
        let (mine, others) = All-remove In pre post objr (rw e at before.handed) in
        let (ready, _) =
          All-remove (IsReady u namespace filters t Handed a.versions) pre post objr
            (rw e at (Run-IsReady_in u namespace filters t Handed r within empty)) in
        record {
          handed =
              All-append In (pre ++ post) _ others
                (requeued-All In objr mine (transport_round-Requeues u t objr a.versions a.remote));
          copy =
              transport_round-Replicates u view content In H (IsReady u namespace filters t Handed)
                (IsReady-grows Handed) t effect objr a.versions a.remote mine ready before.copy;
        }

module _ {ℓ κ} (u : UnstructuredApi) (namespace : String) (filters : List Filter) {R : Type ℓ}
    {C : Type κ} (view : R → Place → Option C) (content : Fields → C)
    (In : ObjResource → Type 0) where
  -- An object with this UID was handed over, and the other cluster holds it, or does not hold it any
  -- more if it was deleted.
  abbrev pub HasArrived : R → String → Type κ
  HasArrived remote uid =
      (p : ObjResource) × In p × (u.get_uid p.unstructured ≡ uid) × Holds u view content remote p

  -- If the object needs its dependencies, then a check that handed it over found them, and all have
  -- arrived.
  abbrev pub BringsDependencies : (ClusterReader → ObjResource → Type 0) → R → ObjResource → Type κ
  BringsDependencies Handed remote o =
      NeedsDependencies o.action
      → (client : ClusterReader) × (ds : List ObjResource) × Handed client o
        × (get_dependencies u client o ≡ ok ds)
        × All (λ d. HasArrived remote (u.get_uid d.unstructured)) ds

  -- The marked version is that of an object that was handed over, that the other cluster holds, and
  -- whose dependencies have arrived.
  pub record IsCarried (Handed : ClusterReader → ObjResource → Type 0) (remote : R) (uid v : String)
      : Type κ where
    pub object : ObjResource
    pub handed : In object
    pub named : u.get_uid object.unstructured ≡ uid
    pub versioned : u.get_resource_version object.unstructured ≡ v
    pub held : Holds u view content remote object
    pub closed : BringsDependencies Handed remote object

  module _ (H : IsHistory u In) (new_for_config : RestConfig → Result (DynamicClient R))
      (s : PairClusterSettings) (client : DynamicClient R)
      (K : IsConnected u view content new_for_config s client) where
    abbrev transporter : Transporter R
    transporter = kube_transporter u new_for_config (some s)

    arrived_of_transported :
        (Handed : ClusterReader → ObjResource → Type 0) (versions : Dict String) (remote : R)
        (d : ObjResource)
        → IsCopy u namespace filters transporter view content In H Handed versions remote
        → is_resource_transported u versions d ≡ true
        → HasArrived remote (u.get_uid d.unstructured)
    unfolding is_resource_transported
    arrived_of_transported Handed versions remote d copy h =
        elim (Option-cases (lookup (u.get_uid d.unstructured) versions)) [
          | inl gone ↦ absurd (cc (rw (gone, is_resource_transported) at h))
          | inr (w, e) ↦
              let (p, m, same, mine, ready, held) = copy.sent (u.get_uid d.unstructured) w e in
              (p, m, same, held)
        ]

    -- In a run of a worker and its transport manager, with settings and a client of a server that
    -- stores what it accepts, from a state with an empty transport queue and nothing marked as
    -- sent, where all that the worker hands over has one UID for each place, no object is created
    -- with a version above another of its UID, and what is to be created is not there yet: at the
    -- end of the run, whatever was refused or read in vain, each marked version is that of an
    -- object that was handed over and that the other cluster holds, or does not hold any more if
    -- it was deleted; and if it was created or updated, some round of the run handed it over, and
    -- for each dependency that is found in the cluster as that round read it, an object with its
    -- UID was handed over and has arrived in this sense.
    pub Run-IsCarried :
        {a b : System R} (r : Run u namespace filters transporter a b)
        → a.outgoing ≡ []
        → a.versions ≡ []
        → ((o : ObjResource) → In o → o.action ≡ create → view a.remote (place_of u o) ≡ none)
        → Handles u namespace filters transporter view content In H r
        → (uid v : String) → lookup uid b.versions ≡ some v
        → IsCarried (HandedBy u namespace filters transporter r) b.remote uid v
    unfolding lookup
    Run-IsCarried {a} {b} r empty fresh absent h uid v marked =
        let effect =
          kube_transport-Effect u view content K.name_ignores K.namespace_ignores K.content_ignores
            client K.stores new_for_config s K.settings K.has K.made in
        let Handed = HandedBy u namespace filters transporter r in
        let start : IsCopy u namespace filters transporter view content In H Handed a.versions
            a.remote =
          rw fresh
            (record { unsent = λ o m e act. absent o m act; sent = λ id w e. absurd (cc e) }) in
        let copy =
          (Run-Inv u namespace filters transporter view content In H Handed effect r
            (λ reader p k. k) empty h start).copy in
        let (o, m, same, mine, ready, held) = copy.sent uid v marked in
        record {
          object = o;
          handed = m;
          named = same;
          versioned = mine;
          held = held;
          closed = λ needs.
              let (reader, ds, checked, found, all) = ready needs in
              (
                reader,
                ds,
                checked,
                found,
                All-map _ _ ds (λ d. arrived_of_transported Handed b.versions b.remote d copy) all,
              );
        }
