-- ===== src/Worker/Sending.antt =====
-- Ways of a worker and its transport manager in which an object is handed over and sent, from any state.
use dr.Base.{
  ◌≡◌, ◌∙◌, ◌⊎◌, refl, arith, ℕ, zero, suc, ◌≤◌, String, true, List, [], ◌∷◌, ◌++◌, inl, inr, All,
  Option-cases, Bool-cases,
}
use mathlib.Core.List.{append-nil}
use dr.Base.Dict.{Dict, lookup}
use dr.Api.{UnstructuredApi, ObjResource}
use dr.Filter.{Filter}
use dr.Transport.{object, Transporter, transport_round, is_resource_transported}
use dr.Transport.Versions.{NotBelow, NotBelow-refl, NotBelow-trans, transport_round-NotBelow}
use dr.Transport.Drain.{RefusesAtMost, IsSent, transport_round-IsProgress}
use dr.Worker.Checkers.{ClusterReader}
use dr.Worker.Rounds.{Waited, run_round, hand_over, get_not_transported_dependencies}
use dr.Worker.System.{System, Step, Run, worked, sent}

-- Each mark is kept or replaced by one not below it.
abbrev pub Grows : Dict String → Dict String → Type 0
Grows versions after = (uid : String) → NotBelow (lookup uid versions) (lookup uid after)

module _ (u : UnstructuredApi) where
  pub stays_marked :
      (versions after : Dict String) (d : ObjResource)
      → Grows versions after
      → is_resource_transported u versions d ≡ true
      → is_resource_transported u after d ≡ true
  unfolding is_resource_transported
  stays_marked versions after d grows h =
      elim (Option-cases (lookup (u.get_uid d.unstructured) versions)) [
        | inl gone ↦ absurd (cc (rw (gone, is_resource_transported) at h))
        | inr (v, e) ↦ elim (Option-cases (lookup (u.get_uid d.unstructured) after)) [
          | inr (w, f) ↦ rw (f, is_resource_transported) refl
          | inl f ↦ absurd (rw (e, f) at (grows (u.get_uid d.unstructured)))
        ]
      ]

  pub transported_of_sent {ℓ} :
      {R : Type ℓ} (t : Transporter R) (versions : Dict String) (o d : ObjResource)
      → u.get_uid o.unstructured ≡ u.get_uid d.unstructured
      → IsSent u t versions o
      → is_resource_transported u versions d ≡ true
  unfolding is_resource_transported
  transported_of_sent t versions o d same h =
      elim (Option-cases (lookup (u.get_uid d.unstructured) versions)) [
        | inl gone ↦ absurd (rw (same, gone) at h)
        | inr (v, e) ↦ rw (e, is_resource_transported) refl
      ]

  abbrev pub Transported : Dict String → ObjResource → Type 0
  Transported versions d = is_resource_transported u versions d ≡ true

  -- If what was missing is sent, then all are.
  pub all-Transported :
      (versions after : Dict String) (ds : List ObjResource)
      → Grows versions after
      → All (Transported after) (get_not_transported_dependencies u versions ds)
      → All (Transported after) ds
  unfolding get_not_transported_dependencies
  all-Transported versions after [] grows h = tt
  all-Transported versions after (d ∷ ds) grows h =
      elim (Bool-cases (is_resource_transported u versions d)) [
        | inl before ↦ (
          stays_marked versions after d grows before,
          all-Transported versions after ds grows
              (rw (before, get_not_transported_dependencies) at h),
        )
        | inr missing ↦
            let (here, there) = rw (missing, get_not_transported_dependencies) at h in
            (here, all-Transported versions after ds grows there)
      ]

  pub none_missing :
      (versions : Dict String) (ds : List ObjResource)
      → All (Transported versions) ds
      → get_not_transported_dependencies u versions ds ≡ []
  unfolding get_not_transported_dependencies
  none_missing versions [] h = refl
  none_missing versions (d ∷ ds) (here, there) =
      rw (here, get_not_transported_dependencies) (none_missing versions ds there)

  pub missing-All {ℓ} :
      (P : ObjResource → Type ℓ) (versions : Dict String) (ds : List ObjResource)
      → All P ds
      → All P (get_not_transported_dependencies u versions ds)
  unfolding get_not_transported_dependencies
  missing-All P versions [] h = tt
  missing-All P versions (d ∷ ds) (here, there) =
      elim (Bool-cases (is_resource_transported u versions d)) [
        | inl before ↦
            rw (before, get_not_transported_dependencies) (missing-All P versions ds there)
        | inr missing ↦
            rw (missing, get_not_transported_dependencies) (here, missing-All P versions ds there)
      ]

module _ {ℓ} (u : UnstructuredApi) (namespace : String) (filters : List Filter) {R : Type ℓ}
    (t : Transporter R) where
  -- The steps of the run are those of the two loops, without an event, and each check reads the
  -- cluster as `client`.
  abbrev pub RunsAlone : ClusterReader → {a b : System R} → Run u namespace filters t a b → Type 0
  RunsAlone client Run.here = Unit
  RunsAlone client (Run.next r (Step.event objr)) = ⊥
  RunsAlone client (Run.next r (Step.work reader pre post objr e)) =
      RunsAlone client r × (reader ≡ client)
  RunsAlone client (Run.next r (Step.send pre post objr e)) = RunsAlone client r

  pub Run-trans :
      {a b c : System R}
      → Run u namespace filters t a b
      → Run u namespace filters t b c
      → Run u namespace filters t a c
  Run-trans r Run.here = r
  Run-trans r (Run.next q step) = Run.next (Run-trans r q) step

  pub Run-trans-RunsAlone :
      (client : ClusterReader) {a b c : System R} (r : Run u namespace filters t a b)
      (q : Run u namespace filters t b c)
      → RunsAlone client r
      → RunsAlone client q
      → RunsAlone client (Run-trans r q)
  unfolding Run-trans
  Run-trans-RunsAlone client r Run.here h k = h
  Run-trans-RunsAlone client r (Run.next q (Step.event objr)) h k = absurd k
  Run-trans-RunsAlone client r (Run.next q (Step.work reader pre post objr e)) h (k, same) =
      (Run-trans-RunsAlone client r q h k, same)
  Run-trans-RunsAlone client r (Run.next q (Step.send pre post objr e)) h k =
      Run-trans-RunsAlone client r q h k

  -- A state that some run leads to, by what is in its queues and what it waits for.
  pub record Reached (client : ClusterReader) (s : System R) (queue outgoing : List ObjResource)
      (waited : Waited) : Type ℓ where
    pub after : System R
    pub run : Run u namespace filters t s after
    pub runs_alone : RunsAlone client run
    pub queued : after.queue ≡ queue
    pub sending : after.outgoing ≡ outgoing
    pub awaits : after.waited ≡ waited
    pub grows : Grows s.versions after.versions

  abbrev pub Reached-trans :
      {client : ClusterReader} {s : System R} {q o q' o' : List ObjResource} {w w' : Waited}
      (r : Reached client s q o w)
      → Reached client r.after q' o' w'
      → Reached client s q' o' w'
  Reached-trans {client} {s} r k = record {
    after = k.after;
    run = Run-trans r.run k.run;
    runs_alone = Run-trans-RunsAlone client r.run k.run r.runs_alone k.runs_alone;
    queued = k.queued;
    sending = k.sending;
    awaits = k.awaits;
    grows = λ uid.
        NotBelow-trans (lookup uid s.versions) (lookup uid r.after.versions) _ (r.grows uid)
          (k.grows uid);
  }

  module _ (client : ClusterReader) {Sendable : ObjResource → Type 0} (budget : R → ℕ)
      (L : RefusesAtMost u t Sendable budget) where
    -- A round for the last object of the transport queue sends it, or uses up a refusal.
    one_try :
        (s : System R) (q pre : List ObjResource) (w : Waited) (o : ObjResource)
        → s.queue ≡ q
        → s.outgoing ≡ pre ++ (o ∷ [])
        → s.waited ≡ w
        → Sendable o
        → ((r : Reached client s q pre w) × IsSent u t r.after.versions o)
          ⊎ ((r : Reached client s q (pre ++ (o ∷ [])) w) × (suc (budget r.after.remote)
                ≤ budget s.remote))
    one_try s q pre w o queued e awaits m =
        let r = transport_round u t (object o) s.versions s.remote in
        let p = transport_round-IsProgress u t budget L o s.versions s.remote m in
        let after = sent u namespace filters t s (pre ++ []) r in
        let step : Run u namespace filters t s after = Run.next Run.here (Step.send pre [] o e) in
        elim p.outcome [
          | inl (gone, less, marked) ↦ inl (
            record {
              after = after;
              run = step;
              runs_alone = tt;
              queued = queued;
              sending = rw gone (append-nil (pre ++ []) ∙ append-nil pre);
              awaits = awaits;
              grows = transport_round-NotBelow u t (object o) s.versions s.remote;
            },
            marked,
          )
          | inr (back, less) ↦ inr (
            record {
              after = after;
              run = step;
              runs_alone = tt;
              queued = queued;
              sending = rw (back, append-nil) refl;
              awaits = awaits;
              grows = transport_round-NotBelow u t (object o) s.versions s.remote;
            },
            less,
          )
        ]

    -- It is tried until it is sent.
    Run-sends :
        (n : ℕ) (s : System R) (q pre : List ObjResource) (w : Waited) (o : ObjResource)
        → s.queue ≡ q
        → s.outgoing ≡ pre ++ (o ∷ [])
        → s.waited ≡ w
        → Sendable o
        → budget s.remote ≤ n
        → (r : Reached client s q pre w) × IsSent u t r.after.versions o
    Run-sends zero s q pre w o queued e awaits m enough =
        elim (one_try s q pre w o queued e awaits m) [
          | inl done ↦ done
          | inr (r, less) ↦ absurd (omega arith)
        ]
    Run-sends (suc n) s q pre w o queued e awaits m enough =
        elim (one_try s q pre w o queued e awaits m) [
          | inl done ↦ done
          | inr (r, less) ↦
              let (k, marked) =
                Run-sends n r.after q pre w o r.queued r.sending r.awaits m (omega arith) in
              (Reached-trans r k, marked)
        ]

    -- An object whose round hands it over is taken from its place in the queue and sent.
    pub Run-hands_and_sends :
        (s : System R) (pre post outgoing : List ObjResource) (w : Waited) (objr o : ObjResource)
        → s.queue ≡ pre ++ (objr ∷ post)
        → s.outgoing ≡ outgoing
        → s.waited ≡ w
        → run_round u client namespace filters (object objr) s.versions s.waited
          ≡ hand_over s.waited o
        → Sendable o
        → (r : Reached client s (pre ++ post) outgoing w) × IsSent u t r.after.versions o
    Run-hands_and_sends s pre post outgoing w objr o queued goes awaits round m =
        let r = run_round u client namespace filters (object objr) s.versions s.waited in
        let after = worked u namespace filters t s (pre ++ post) r in
        let first : Reached client s (pre ++ post) (outgoing ++ (o ∷ [])) w = record {
          after = after;
          run = Run.next Run.here (Step.work client pre post objr queued);
          runs_alone = (tt, refl);
          queued = rw (round, append-nil) refl;
          sending = rw (round, goes) refl;
          awaits = rw round awaits;
          grows = λ uid. NotBelow-refl (lookup uid s.versions);
        } in
        let (k, marked) =
          Run-sends (budget after.remote) after (pre ++ post) outgoing w o first.queued
            first.sending first.awaits m (omega arith) in
        (Reached-trans first k, marked)
