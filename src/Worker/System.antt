-- ===== src/Worker/System.antt =====
-- A worker with its transport manager: the two loops as steps in any order, between the events of
-- the collector. A work queue gives any of its items, and each check may see another state of the
-- cluster. The transporter is any.
use dr.Base.{
  All-append, All-remove, All-map, ◌≡◌, String, true, List, [], ◌∷◌, ◌++◌, ok, Option-cases, inl,
  inr, ◌⊎◌, refl, Any, All,
}
use dr.Base.Dict.{Dict, lookup}
use dr.Api.{UnstructuredApi, ObjResource}
use dr.Filter.{Filter}
use dr.Transport.{object, Transporter, Round, transport_round, is_resource_transported}
use dr.Transport.Versions.{transport_round-NotBelow}
use dr.Transport.Requeues.{requeued-All, transport_round-Requeues}
use dr.Worker.Checkers.{ClusterReader, get_dependencies}
use dr.Worker.Rounds.{Waited, WorkerRound, run_round}
use dr.Worker.Outputs.{run_round-AtMostOne}
use dr.Worker.Safety.{NeedsDependencies, run_round-IsDue}

pub record System {ℓ} (R : Type ℓ) : Type ℓ where
  pub queue : List ObjResource
  pub outgoing : List ObjResource
  pub waited : Waited
  pub versions : Dict String
  pub remote : R

module _ {ℓ} (u : UnstructuredApi) (namespace : String) (filters : List Filter) {R : Type ℓ}
    (t : Transporter R) where
  -- What a step of either loop leaves.
  abbrev pub worked : System R → List ObjResource → WorkerRound → System R
  worked s rest r = record s {
    queue = rest ++ r.queue_adds;
    outgoing = s.outgoing ++ r.transports;
    waited = r.dependencies;
  }

  abbrev pub sent : System R → List ObjResource → Round R → System R
  sent s rest r = record s {
    outgoing = rest ++ r.requeued;
    versions = r.versions;
    remote = r.remote;
  }

  pub data Step (s : System R) : System R → Type ℓ where
    event : (objr : ObjResource) → Step s (record s { queue = s.queue ++ (objr ∷ []) })
    work :
        (client : ClusterReader) (pre post : List ObjResource) (objr : ObjResource)
        → s.queue ≡ pre ++ (objr ∷ post)
        → Step s (
            worked s
              (pre ++ post)
              (run_round u client namespace filters (object objr) s.versions s.waited))
    send :
        (pre post : List ObjResource) (objr : ObjResource)
        → s.outgoing ≡ pre ++ (objr ∷ post)
        → Step s (sent s (pre ++ post) (transport_round u t (object objr) s.versions s.remote))

  pub data Run (s : System R) : System R → Type ℓ where
    here : Run s s
    next : {a b : System R} → Run s a → Step a b → Run s b

  -- In some step of the run, the worker read the cluster as `client` and handed the object over.
  abbrev pub HandedBy : {a b : System R} → Run a b → ClusterReader → ObjResource → Type 0
  HandedBy here client o = ⊥
  HandedBy (next r (event objr)) client o = HandedBy r client o
  HandedBy (next {a = a} r (work reader pre post objr e)) client o =
      HandedBy r client o
      ⊎ ((reader ≡ client)
          × Any (λ x. x ≡ o)
              (run_round u reader namespace filters (object objr) a.versions a.waited).transports)
  HandedBy (next r (send pre post objr e)) client o = HandedBy r client o

  -- If the object needs its dependencies, then a check that handed it over found them, and all that
  -- it found have been sent.
  abbrev pub IsReady : (ClusterReader → ObjResource → Type 0) → Dict String → ObjResource → Type 0
  IsReady Handed versions objr =
      NeedsDependencies objr.action
      → (client : ClusterReader) × (ds : List ObjResource) × Handed client objr
        × (get_dependencies u client objr ≡ ok ds)
        × All (λ d. is_resource_transported u versions d ≡ true) ds

  stays_transported :
      (objr d : ObjResource) (versions : Dict String) (remote : R)
      → is_resource_transported u versions d ≡ true
      → is_resource_transported u (transport_round u t (object objr) versions remote).versions d
        ≡ true
  unfolding is_resource_transported
  stays_transported objr d versions remote h =
      elim (Option-cases (lookup (u.get_uid d.unstructured) versions)) [
        | inl gone ↦ absurd (cc (rw (gone, is_resource_transported) at h))
        | inr (v, e) ↦
            elim (Option-cases (
              lookup (u.get_uid d.unstructured)
                (transport_round u t (object objr) versions remote).versions)) [
                  | inr (w, f) ↦ rw (f, is_resource_transported)
                  | inl f ↦ absurd (
                      rw (e, f) at
                        (transport_round-NotBelow u t (object objr) versions remote
                          (u.get_uid d.unstructured)))
                ]
      ]

  module _ (Handed : ClusterReader → ObjResource → Type 0) where
    stays_IsReady :
        (objr o : ObjResource) (versions : Dict String) (remote : R)
        → IsReady Handed versions o
        → IsReady Handed (transport_round u t (object objr) versions remote).versions o
    stays_IsReady objr o versions remote h needs =
        let (client, ds, handed, found, all) = h needs in
        (
          client,
          ds,
          handed,
          found,
          All-map _ _ ds (λ d. stays_transported objr d versions remote) all,
        )

    worked_IsReady :
        (client : ClusterReader) (objr : ObjResource) (versions : Dict String) (waited : Waited)
        → ((o : ObjResource)
            → Any
                (λ x. x ≡ o)
                (run_round u client namespace filters (object objr) versions waited).transports
            → Handed client o)
        → All
            (IsReady Handed versions)
            (run_round u client namespace filters (object objr) versions waited).transports
    worked_IsReady client objr versions waited handed =
        elim (run_round-AtMostOne u namespace filters client versions waited objr) [
          | inl e ↦ rw (e, All) tt
          | inr (o, e) ↦
              let mine : Handed client o = handed o (rw e (Any.here refl)) in
              rw (e, All)
                (
                  (λ needs.
                      let (ds, found, all) =
                        (run_round-IsDue u client namespace filters objr o [] versions waited
                            e).ready
                          needs in
                      (client, ds, mine, found, all)),
                  tt,
                )
        ]

    sent_IsReady :
        (pre post : List ObjResource) (objr : ObjResource) (versions : Dict String) (remote : R)
        → All (IsReady Handed versions) (pre ++ (objr ∷ post))
        → let r = transport_round u t (object objr) versions remote in
          All (IsReady Handed r.versions) ((pre ++ post) ++ r.requeued)
    sent_IsReady pre post objr versions remote h =
        let (mine, others) = All-remove (IsReady Handed versions) pre post objr h in
        let after = (transport_round u t (object objr) versions remote).versions in
        All-append (IsReady Handed after) (pre ++ post) _
          (All-map (IsReady Handed versions) (IsReady Handed after) (pre ++ post)
            (λ o. stays_IsReady objr o versions remote) others)
          (requeued-All (IsReady Handed after) objr (stays_IsReady objr objr versions remote mine)
            (transport_round-Requeues u t objr versions remote))

    pub Run-IsReady_in :
        {a b : System R} (r : Run a b)
        → ((client : ClusterReader) (o : ObjResource) → HandedBy r client o → Handed client o)
        → a.outgoing ≡ []
        → All (IsReady Handed b.versions) b.outgoing
    Run-IsReady_in here within empty = rw (empty, All) tt
    Run-IsReady_in (next r (event objr)) within empty = Run-IsReady_in r within empty
    Run-IsReady_in (next {a = a} r (work client pre post objr e)) within empty =
        All-append (IsReady Handed a.versions) a.outgoing _
          (Run-IsReady_in r (λ c o h. within c o (inl h)) empty)
          (worked_IsReady client objr a.versions a.waited (λ o h. within client o (inr (refl, h))))
    Run-IsReady_in (next {a = a} r (send pre post objr e)) within empty =
        sent_IsReady pre post objr a.versions a.remote (rw e at (Run-IsReady_in r within empty))

  -- In any run of the worker and its transport manager, from any state with an empty transport
  -- queue, each created or updated object in the transport queue was handed over by a round of the
  -- run, and all the dependencies that are found in the cluster as that round read it have been
  -- sent and are still marked as sent.
  pub Run-IsReady :
      {a b : System R} (r : Run a b)
      → a.outgoing ≡ []
      → All (IsReady (HandedBy r) b.versions) b.outgoing
  Run-IsReady r empty = Run-IsReady_in (HandedBy r) r (λ c o h. h) empty
