-- ===== src/Worker/Clearing.antt =====
-- From any state of a worker and its transport manager, the queue of the worker can still be emptied.
use dr.Base.{true, some, ◌≡◌, refl, sym, ap, ◌∙◌, ℕ, String, List, [], ◌∷◌, ok, All, All-map}
use mathlib.Core.Path.{subst}
use dr.Base.Dict.{Dict, lookup}
use dr.Api.{UnstructuredApi, ObjResource}
use dr.Filter.{Filter}
use dr.Transport.{Transporter}
use dr.Transport.Versions.{NotBelow-refl, NotBelow-trans}
use dr.Transport.Drain.{RefusesAtMost, IsSent}
use dr.Worker.Checkers.{ClusterReader, get_dependencies}
use dr.Worker.Rounds.{filter}
use dr.Worker.System.{System, Run}
use dr.Worker.Sending.{RunsAlone, Run-trans-RunsAlone, Grows, Transported, stays_marked, Run-trans}
use dr.Worker.Safety.{NeedsDependencies}
use dr.Worker.Depth.{ReadsClaims, get_dependencies_twice}
use dr.Worker.Delivery.{DependsOn, StandsAlone, IsBrought, Run-brings}

module _ {ℓ} (u : UnstructuredApi) (client : ClusterReader) (reads : ReadsClaims u client)
    (namespace : String) (filters : List Filter) {R : Type ℓ} (t : Transporter R)
    {Sendable : ObjResource → Type 0} (budget : R → ℕ) (L : RefusesAtMost u t Sendable budget) where
  -- The object passes the filters with its UID.
  pub record Passes (d : ObjResource) : Type 0 where
    pub out : ObjResource
    pub passes : filter u filters d ≡ (out, ok true)
    pub written : NeedsDependencies out.action
    pub same : u.get_uid out.unstructured ≡ u.get_uid d.unstructured
    pub sendable : Sendable out

  -- An object of the worker that passes the filters, and whose dependencies pass them.
  pub record IsErrand (objr : ObjResource) : Type 0 where
    pub final : ObjResource
    pub dependencies : List ObjResource
    pub depends : DependsOn u client namespace filters t budget L objr final dependencies
    pub pass : All Passes dependencies

  stand_alone :
      (ds : List ObjResource)
      → All Passes ds
      → All (λ d. get_dependencies u client (filter u filters d).0 ≡ ok []) ds
      → All (StandsAlone u client namespace filters t budget L) ds
  stand_alone [] h k = tt
  stand_alone (d ∷ ds) (p, h) (lone, k) = (
    record {
      out = p.out;
      passes = p.passes;
      written = p.written;
      alone = subst (λ o. get_dependencies u client o ≡ ok []) (ap (λ r. r.0) p.passes) lone;
      same = p.same;
      sendable = p.sendable;
    },
    stand_alone ds h k,
  )

  -- What the filters make of the object is marked as sent, and so is all that it depends on.
  pub record IsAcross (versions : Dict String) (objr : ObjResource) : Type 0 where
    pub sent : IsSent u t versions (filter u filters objr).0
    pub closed :
        (ds : List ObjResource)
        → get_dependencies u client (filter u filters objr).0 ≡ ok ds
        → All (Transported u versions) ds

  -- Some run of the two loops alone empties the queue of the worker and leaves that of its transport
  -- manager as it was.
  pub record IsCleared (s : System R) (queue : List ObjResource) : Type ℓ where
    pub after : System R
    pub run : Run u namespace filters t s after
    pub runs_alone : RunsAlone u namespace filters t client run
    pub emptied : after.queue ≡ []
    pub sending : after.outgoing ≡ s.outgoing
    pub grows : Grows s.versions after.versions
    pub across : All (IsAcross after.versions) queue

  IsAcross-brought :
      (s : System R) (queue : List ObjResource) (objr : ObjResource) (E : IsErrand objr)
      (b : IsBrought u client namespace filters t budget L s queue E.final E.dependencies)
      (versions : Dict String)
      → Grows b.after.versions versions
      → IsAcross versions objr
  IsAcross-brought s queue objr E b versions grows =
      let same : E.final ≡ (filter u filters objr).0 = sym (ap (λ p. p.0) E.depends.passes) in
      record {
        sent = subst (IsSent u t versions) same (
            NotBelow-trans (some (u.get_resource_version E.final.unstructured))
              (lookup (u.get_uid E.final.unstructured) b.after.versions) _ b.sent
              (grows (u.get_uid E.final.unstructured)));
        closed = λ ds found.
            subst (All (Transported u versions))
              (same_list (
                sym E.depends.found
                ∙ subst (λ o. get_dependencies u client o ≡ ok ds) (sym same) found))
              (All-map _ _ E.dependencies (λ d. stays_marked u b.after.versions versions d grows)
                b.closed);
      }
    where
      same_list : {a b : List ObjResource} → ok a ≡ ok b → a ≡ b
      same_list e = cc e

  -- With a transporter that answers for the objects of a kind and refuses one only so often, and a
  -- cluster that answers a read of a claim with a claim: from any state of a worker and its
  -- transport manager in which each object of the worker's queue belongs to the worker and passes
  -- the filters each time in the same form, created or updated and of that kind, and each object
  -- that it depends on passes them in such a form with its UID, there is a run of the two loops
  -- alone, without an event and with this cluster for each check, that empties that queue and
  -- leaves the transport queue as it was, after which each object that was queued and all that it
  -- depends on are marked as sent.
  pub Run-clears :
      (queue : List ObjResource) (s : System R)
      → s.queue ≡ queue
      → All IsErrand queue
      → IsCleared s queue
  Run-clears [] s queued all = record {
    after = s;
    run = Run.here;
    runs_alone = tt;
    emptied = queued;
    sending = refl;
    grows = λ uid. NotBelow-refl (lookup uid s.versions);
    across = tt;
  }
  Run-clears (objr ∷ queue) s queued (E, all) =
      let b =
        Run-brings u client namespace filters t budget L s [] queue objr E.final E.dependencies
          queued E.depends
          (stand_alone E.dependencies E.pass (
            get_dependencies_twice u client reads filters E.final E.dependencies
              E.depends.found)) in
      let rest = Run-clears queue b.after b.queued all in
      record {
        after = rest.after;
        run = Run-trans u namespace filters t b.run rest.run;
        runs_alone =
            Run-trans-RunsAlone u namespace filters t client b.run rest.run b.runs_alone
              rest.runs_alone;
        emptied = rest.emptied;
        sending = rest.sending ∙ b.sending;
        grows = λ uid.
            NotBelow-trans (lookup uid s.versions) (lookup uid b.after.versions) _ (b.grows uid)
              (rest.grows uid);
        across = (IsAcross-brought s queue objr E b rest.after.versions rest.grows, rest.across);
      }
