-- ===== src/Worker/Delivery.antt =====
-- From any state of a worker and its transport manager, a queued object can still be brought across with all that it depends on.
use mathlib.Core.List.{append-nil, append_assoc}
use dr.Base.{
  ◌≡◌, refl, sym, ◌∙◌, ap, ℕ, String, true, List, [], ◌∷◌, ◌++◌, some, ok, inl, inr, All, All-map,
  All-self, Any, List-cases,
}
use dr.Base.Dict.{lookup}
use dr.Api.{UnstructuredApi, ObjResource}
use dr.Filter.{Filter}
use dr.Transport.{object, Transporter}
use dr.Transport.Versions.{NotBelow-refl}
use dr.Transport.Drain.{RefusesAtMost, IsSent}
use dr.Worker.Checkers.{ClusterReader, get_dependencies}
use dr.Worker.Rounds.{
  Waited, await, filter, run_round, get_object_namespace, get_not_transported_dependencies,
}
use dr.Worker.Safety.{NeedsDependencies}
use dr.Worker.Dependencies.{run_round_waits, lookup-await}
use dr.Worker.Progress.{run_round_hands_over, concerns_own, concerns_waited}
use dr.Worker.System.{System, Step, Run, worked}
use dr.Worker.Sending.{
  RunsAlone, Grows, Transported, stays_marked, transported_of_sent, all-Transported, none_missing,
  missing-All, Reached, Reached-trans, Run-trans, Run-hands_and_sends,
}

module _ (u : UnstructuredApi) where
  awaits_all :
      (ds : List ObjResource) (waited : Waited)
      → All (λ d. lookup (u.get_uid d.unstructured) (await u ds waited) ≡ some tt) ds
  awaits_all ds waited =
      All-map _ _ ds
        (λ d m. lookup-await u ds waited (u.get_uid d.unstructured) (inl (named ds d m)))
        (All-self ds)
    where
      named :
          (ds : List ObjResource) (d : ObjResource)
          → Any (λ q. q ≡ d) ds
          → Any (λ (q : ObjResource). u.get_uid q.unstructured ≡ u.get_uid d.unstructured) ds
      named [] d m = elim m [ ]
      named (x ∷ ds) d (Any.here e) =
          Any.here (ap (λ (q : ObjResource). u.get_uid q.unstructured) e)
      named (x ∷ ds) d (Any.there m) = Any.there (named ds d m)

module _ {ℓ} (u : UnstructuredApi) (client : ClusterReader) (namespace : String)
    (filters : List Filter) {R : Type ℓ} (t : Transporter R) {Sendable : ObjResource → Type 0}
    (budget : R → ℕ) (L : RefusesAtMost u t Sendable budget) where
  -- The object passes the filters with its UID, and then depends on nothing.
  pub record StandsAlone (d : ObjResource) : Type 0 where
    pub out : ObjResource
    pub passes : filter u filters d ≡ (out, ok true)
    pub written : NeedsDependencies out.action
    pub alone : get_dependencies u client out ≡ ok []
    pub same : u.get_uid out.unstructured ≡ u.get_uid d.unstructured
    pub sendable : Sendable out

  -- The object belongs to the worker, passes the filters as `final` each time, and depends on `ds`.
  pub record DependsOn (objr final : ObjResource) (ds : List ObjResource) : Type 0 where
    pub ours : get_object_namespace u objr ≡ namespace
    pub ours_still : get_object_namespace u final ≡ namespace
    pub passes : filter u filters objr ≡ (final, ok true)
    pub passes_still : filter u filters final ≡ (final, ok true)
    pub written : NeedsDependencies final.action
    pub found : get_dependencies u client final ≡ ok ds
    pub sendable : Sendable final

  -- Some run of the two loops alone takes the object out of the worker's queue and leaves both
  -- queues with all else that they had, and the object and all of `ds` are marked as sent.
  pub record IsBrought (s : System R) (queue : List ObjResource) (final : ObjResource)
      (ds : List ObjResource) : Type ℓ where
    pub after : System R
    pub run : Run u namespace filters t s after
    pub runs_alone : RunsAlone u namespace filters t client run
    pub queued : after.queue ≡ queue
    pub sending : after.outgoing ≡ s.outgoing
    pub sent : IsSent u t after.versions final
    pub closed : All (Transported u after.versions) ds
    pub grows : Grows s.versions after.versions

  abbrev Way : System R → List ObjResource → List ObjResource → Waited → Type ℓ
  Way = Reached u namespace filters t client

  send_all :
      (ds : List ObjResource) (s : System R) (pre outgoing : List ObjResource) (w : Waited)
      → s.queue ≡ pre ++ ds
      → s.outgoing ≡ outgoing
      → s.waited ≡ w
      → All (λ d. lookup (u.get_uid d.unstructured) w ≡ some tt) ds
      → All StandsAlone ds
      → (r : Way s pre outgoing w) × All (Transported u r.after.versions) ds
  unfolding get_not_transported_dependencies
  send_all [] s pre outgoing w queued goes awaits ws alone = (
    record {
      after = s;
      run = Run.here;
      runs_alone = tt;
      queued = queued ∙ append-nil pre;
      sending = goes;
      awaits = awaits;
      grows = λ uid. NotBelow-refl (lookup uid s.versions);
    },
    tt,
  )
  send_all (d ∷ ds) s pre outgoing w queued goes awaits (wanted, ws) (l, alone) =
      let round =
        run_round_hands_over u client namespace filters d l.out [] s.versions s.waited
          (concerns_waited u client namespace filters s.waited d (rw awaits wanted)) l.passes
          l.written l.alone refl in
      let (r, marked) =
        Run-hands_and_sends u namespace filters t client budget L s pre ds outgoing w d l.out queued
          goes awaits round l.sendable in
      let (k, all) = send_all ds r.after pre outgoing w r.queued r.sending r.awaits ws alone in
      (
        Reached-trans u namespace filters t r k,
        (
          stays_marked u r.after.versions k.after.versions d k.grows
              (transported_of_sent u t r.after.versions l.out d l.same marked),
          all,
        ),
      )

  -- The last step: all dependencies are sent, and the object is at the end of the queue.
  brings_last :
      (objr final : ObjResource) (ds : List ObjResource) (s : System R)
      (queue outgoing : List ObjResource) (w : Waited)
      → DependsOn objr final ds
      → s.queue ≡ queue ++ (final ∷ [])
      → s.outgoing ≡ outgoing
      → s.waited ≡ w
      → All (Transported u s.versions) ds
      → (r : Way s queue outgoing w) × IsSent u t r.after.versions final
        × All (Transported u r.after.versions) ds
  brings_last objr final ds s queue outgoing w D queued goes awaits all =
      let round =
        run_round_hands_over u client namespace filters final final ds s.versions s.waited
          (concerns_own u client namespace filters s.waited final D.ours_still) D.passes_still
          D.written D.found (none_missing u s.versions ds all) in
      let (r, marked) =
        Run-hands_and_sends u namespace filters t client budget L s queue [] outgoing w final final
          queued goes awaits round D.sendable in
      (
        record {
          after = r.after;
          run = r.run;
          runs_alone = r.runs_alone;
          queued = r.queued ∙ append-nil queue;
          sending = r.sending;
          awaits = r.awaits;
          grows = r.grows;
        },
        marked,
        All-map _ _ ds (λ d. stays_marked u s.versions r.after.versions d r.grows) all,
      )

  brings_ready :
      (s : System R) (pre post : List ObjResource) (objr final : ObjResource)
      (ds : List ObjResource)
      → s.queue ≡ pre ++ (objr ∷ post)
      → DependsOn objr final ds
      → get_not_transported_dependencies u s.versions ds ≡ []
      → IsBrought s (pre ++ post) final ds
  brings_ready s pre post objr final ds queued D none_left =
      let round =
        run_round_hands_over u client namespace filters objr final ds s.versions s.waited
          (concerns_own u client namespace filters s.waited objr D.ours) D.passes D.written D.found
          none_left in
      let (r, marked) =
        Run-hands_and_sends u namespace filters t client budget L s pre post s.outgoing s.waited
          objr final queued refl refl round D.sendable in
      record {
        after = r.after;
        run = r.run;
        runs_alone = r.runs_alone;
        queued = r.queued;
        sending = r.sending;
        sent = marked;
        closed = all-Transported u s.versions r.after.versions ds r.grows (rw none_left tt);
        grows = r.grows;
      }

  -- The first look puts the object back, with what is missing behind it.
  waits_first :
      (s : System R) (pre post : List ObjResource) (objr final d : ObjResource)
      (more ds : List ObjResource)
      → s.queue ≡ pre ++ (objr ∷ post)
      → DependsOn objr final ds
      → get_not_transported_dependencies u s.versions ds ≡ d ∷ more
      → Way s
          (((pre ++ post) ++ (final ∷ [])) ++ (d ∷ more))
          s.outgoing
          (await u (d ∷ more) s.waited)
  waits_first s pre post objr final d more ds queued D missing =
      let round =
        run_round_waits u client namespace filters objr final d more ds s.versions s.waited
          (concerns_own u client namespace filters s.waited objr D.ours) D.passes D.written D.found
          missing in
      let r = run_round u client namespace filters (object objr) s.versions s.waited in
      record {
        after = worked u namespace filters t s (pre ++ post) r;
        run = Run.next Run.here (Step.work client pre post objr queued);
        runs_alone = (tt, refl);
        queued = rw round (sym (append_assoc (pre ++ post) (final ∷ []) (d ∷ more)));
        sending = rw round (append-nil s.outgoing);
        awaits = rw round refl;
        grows = λ uid. NotBelow-refl (lookup uid s.versions);
      }

  brings_waiting :
      (s : System R) (pre post : List ObjResource) (objr final d : ObjResource)
      (more ds : List ObjResource)
      → s.queue ≡ pre ++ (objr ∷ post)
      → DependsOn objr final ds
      → All StandsAlone (d ∷ more)
      → get_not_transported_dependencies u s.versions ds ≡ d ∷ more
      → IsBrought s (pre ++ post) final ds
  brings_waiting s pre post objr final d more ds queued D alone missing =
      let w = await u (d ∷ more) s.waited in
      let r1 = waits_first s pre post objr final d more ds queued D missing in
      let (r2, all) =
        send_all (d ∷ more) r1.after ((pre ++ post) ++ (final ∷ [])) s.outgoing w r1.queued
          r1.sending r1.awaits (awaits_all u (d ∷ more) s.waited) alone in
      let first = Reached-trans u namespace filters t r1 r2 in
      let (r3, marked, closed) =
        brings_last objr final ds r2.after (pre ++ post) s.outgoing w D r2.queued r2.sending
          r2.awaits
          (all-Transported u s.versions r2.after.versions ds first.grows (rw missing all)) in
      record {
        after = r3.after;
        run = Run-trans u namespace filters t first.run r3.run;
        runs_alone = (Reached-trans u namespace filters t first r3).runs_alone;
        queued = r3.queued;
        sending = r3.sending;
        sent = marked;
        closed = closed;
        grows = (Reached-trans u namespace filters t first r3).grows;
      }

  pub Run-brings :
      (s : System R) (pre post : List ObjResource) (objr final : ObjResource)
      (ds : List ObjResource)
      → s.queue ≡ pre ++ (objr ∷ post)
      → DependsOn objr final ds
      → All StandsAlone ds
      → IsBrought s (pre ++ post) final ds
  Run-brings s pre post objr final ds queued D alone =
      elim (List-cases (get_not_transported_dependencies u s.versions ds)) [
        | inl none_left ↦ brings_ready s pre post objr final ds queued D none_left
        | inr (d, more, missing) ↦
            brings_waiting s pre post objr final d more ds queued D
              (rw missing at (missing-All u StandsAlone s.versions ds alone)) missing
      ]
