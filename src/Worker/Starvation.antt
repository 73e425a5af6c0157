-- ===== src/Worker/Starvation.antt =====
-- What a worker does with an object whose dependency no filter lets through under its own UID.
use dr.Base.{
  ◌≡◌, ◌≢◌, ◌==◌, String, true, List, [], ◌∷◌, ◌++◌, none, ok, Bool-cases, inl, inr, All,
  All-append, All-remove, Any, eq_iff,
}
use dr.Base.Dict.{Dict, lookup, lookup-insert}
use dr.Api.{UnstructuredApi, ObjResource}
use dr.Filter.{Filter}
use dr.Transport.{object, Transporter, transport_round, is_resource_transported, mark_as_successed}
use dr.Transport.Versions.{versions_cases}
use dr.Transport.Requeues.{Requeues, transport_round-Requeues}
use dr.Worker.Checkers.{ClusterReader, get_dependencies}
use dr.Worker.Rounds.{Waited, filter, run_round}
use dr.Worker.Outputs.{run_round-AtMostOne}
use dr.Worker.Safety.{NeedsDependencies, run_round-IsDue}
use dr.Worker.System.{System, Step, Run}

module _ (u : UnstructuredApi) (filters : List Filter) (uid : String) where
  -- Nothing that the filters pass carries this UID.
  abbrev pub NeverPasses : Type 0
  NeverPasses =
      (objr final : ObjResource)
      → filter u filters objr ≡ (final, ok true)
      → u.get_uid final.unstructured ≢ uid

  IsOther : ObjResource → Type 0
  IsOther objr = u.get_uid objr.unstructured ≢ uid

  mark_other :
      (objr : ObjResource) (versions : Dict String)
      → IsOther objr
      → lookup uid versions ≡ none
      → lookup uid (mark_as_successed u objr versions) ≡ none
  unfolding mark_as_successed IsOther
  mark_other objr versions other h = elim (Bool-cases (u.get_uid objr.unstructured == uid)) [
    | inl same ↦ absurd (other ((eq_iff _ _).0 same))
    | inr apart ↦ rw (lookup-insert, apart) h
  ]

  requeued-IsOther :
      (objr : ObjResource) (l : List ObjResource) → Requeues objr l → IsOther objr → All IsOther l
  requeued-IsOther objr l (inl e) h = rw (e, All) tt
  requeued-IsOther objr l (inr e) h = rw (e, All) (h, tt)

  not_transported :
      (versions : Dict String) (ds : List ObjResource)
      → lookup uid versions ≡ none
      → Any (λ d. u.get_uid d.unstructured ≡ uid) ds
      → ¬ All (λ d. is_resource_transported u versions d ≡ true) ds
  unfolding is_resource_transported
  not_transported versions [] unmarked found all = elim found [ ]
  not_transported versions (d ∷ ds) unmarked (Any.here e) (sent_already, all) =
      cc (rw (e, unmarked, is_resource_transported) at sent_already)
  not_transported versions (d ∷ ds) unmarked (Any.there found) (_, all) =
      not_transported versions ds unmarked found all

  module _ {ℓ} (namespace : String) {R : Type ℓ} (t : Transporter R) where
    record Inv (s : System R) : Type 0 where
      unmarked : lookup uid s.versions ≡ none
      others : All IsOther s.outgoing

    worked_others :
        (client : ClusterReader) (objr : ObjResource) (versions : Dict String) (waited : Waited)
        → NeverPasses
        → All IsOther
            (run_round u client namespace filters (object objr) versions waited).transports
    unfolding IsOther
    worked_others client objr versions waited never =
        elim (run_round-AtMostOne u namespace filters client versions waited objr) [
          | inl e ↦ rw (e, All) tt
          | inr (o, e) ↦
              let due = run_round-IsDue u client namespace filters objr o [] versions waited e in
              rw (e, All) (never objr o due.passed, tt)
        ]

    sent_unmarked :
        (objr : ObjResource) (versions : Dict String) (remote : R)
        → IsOther objr
        → lookup uid versions ≡ none
        → lookup uid (transport_round u t (object objr) versions remote).versions ≡ none
    sent_unmarked objr versions remote other h = elim (versions_cases u t objr versions remote) [
      | inl same ↦ rw same h
      | inr (_, marked, _) ↦ rw marked (mark_other objr versions other h)
    ]

    Step-Inv : {a b : System R} → NeverPasses → Step u namespace filters t a b → Inv a → Inv b
    Step-Inv never (Step.event objr) h = record { unmarked = h.unmarked; others = h.others }
    Step-Inv {a = a} never (Step.work client pre post objr e) h = record {
      unmarked = h.unmarked;
      others =
          All-append IsOther a.outgoing _ h.others
            (worked_others client objr a.versions a.waited never);
    }
    Step-Inv {a = a} never (Step.send pre post objr e) h =
        let (mine, rest) = All-remove IsOther pre post objr (rw e at h.others) in
        record {
          unmarked = sent_unmarked objr a.versions a.remote mine h.unmarked;
          others = All-append IsOther (pre ++ post) _ rest (
              requeued-IsOther objr _ (transport_round-Requeues u t objr a.versions a.remote) mine);
        }

    Run-Inv :
        {a b : System R}
        → NeverPasses
        → a.outgoing ≡ []
        → lookup uid a.versions ≡ none
        → Run u namespace filters t a b
        → Inv b
    Run-Inv never empty h Run.here = record { unmarked = h; others = rw (empty, All) tt }
    Run-Inv never empty h (Run.next r step) = Step-Inv never step (Run-Inv never empty h r)

    -- If nothing that the filters pass carries a certain UID, and a run starts with that UID
    -- unmarked and nothing in the transport queue, then at no point of the run does a round of the
    -- worker hand over a created or updated object whose check finds a dependency with the UID.
    pub Run-holds_back :
        {a b : System R}
        → NeverPasses
        → a.outgoing ≡ []
        → lookup uid a.versions ≡ none
        → Run u namespace filters t a b
        → (client : ClusterReader) (objr final : ObjResource) (ds : List ObjResource)
        → filter u filters objr ≡ (final, ok true)
        → NeedsDependencies final.action
        → get_dependencies u client final ≡ ok ds
        → Any (λ d. u.get_uid d.unstructured ≡ uid) ds
        → (run_round u client namespace filters (object objr) b.versions b.waited).transports ≡ []
    Run-holds_back {b = b} never empty h r client objr final ds passed needs checked found =
        elim (run_round-AtMostOne u namespace filters client b.versions b.waited objr) [
          | inl e ↦ e
          | inr (o, e) ↦
              let due =
                run_round-IsDue u client namespace filters objr o [] b.versions b.waited e in
              let same : o ≡ final = cc (due.passed, passed) in
              let (ds', checked', all) = due.ready (rw same needs) in
              let one : ds ≡ ds' = cc (same, checked, checked') in
              absurd (
                not_transported b.versions ds' (Run-Inv never empty h r).unmarked (rw one at found)
                  all)
        ]
