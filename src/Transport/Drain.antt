-- ===== src/Transport/Drain.antt =====
-- The transport manager empties its own queue: the loop of `transport` with what it puts back, in
-- the order of the queue. The rate limiter's delays are left out, and no worker adds anything.
-- Fuel is the number of rounds.
use dr.Base.{
  ◌≡◌, ◌≢◌, refl, ap, eq_refl, Option-cases, arith, ℕ, zero, suc, ◌+◌, ◌≤◌, String, Bool, true,
  false, List, [], ◌∷◌, ◌++◌, some, Error, err, panic, message, Result-cases, Bool-cases, inl, inr,
  ◌⊎◌, if◌then◌else◌, length, length-append, All, All-append, All-split,
}
use dr.Base.Dict.{Dict, lookup, lookup-insert}
use dr.Base.Text.{contains}
use dr.Base.Int.{ltℤ_irrefl}
use dr.Base.Text.{atoi}
use dr.Api.{UnstructuredApi, ObjResource}
use dr.Transport.Manager.{
  object, Round, Transporter, is_new_version, mark_as_successed, settle, transport_round,
}
use dr.Transport.Requeues.{requeued-All, transport_round-Requeues}
use dr.Transport.Versions.{NotBelow, NotBelow-refl, NotBelow-trans, transport_round-NotBelow}

pub record Drained {ℓ} (R : Type ℓ) : Type ℓ where
  pub queue : List ObjResource
  pub versions : Dict String
  pub remote : R
  pub fault : Bool

module _ {ℓ} (u : UnstructuredApi) {R : Type ℓ} (t : Transporter R) where
  unfoldable pub drain : ℕ → List ObjResource → Dict String → R → Drained R
  drain zero queue versions remote = record {
    queue = queue;
    versions = versions;
    remote = remote;
    fault = false;
  }
  drain (suc n) [] versions remote = record {
    queue = [];
    versions = versions;
    remote = remote;
    fault = false;
  }
  drain (suc n) (objr ∷ queue) versions remote =
      let r = transport_round u t (object objr) versions remote in
      let rest = drain n (queue ++ r.requeued) r.versions r.remote in
      if r.fault
      then record {
        queue = queue ++ r.requeued;
        versions = r.versions;
        remote = r.remote;
        fault = true;
      }
      else rest

  -- The other side answers for the objects of a kind, and `budget` bounds how often it still refuses
  -- with an error that the manager tries again after.
  pub record RefusesAtMost (Sendable : ObjResource → Type 0) (budget : R → ℕ) : Type ℓ where
    pub answers :
        (objr : ObjResource) (remote : R) → Sendable objr → (t.transport objr remote).1 ≢ panic
    pub kept :
        (objr : ObjResource) (remote : R)
        → Sendable objr
        → budget (t.transport objr remote).0 ≤ budget remote
    pub spent :
        (objr : ObjResource) (remote : R) (e : Error)
        → Sendable objr
        → (t.transport objr remote).1 ≡ err e
        → contains (message e) "already exists" ≡ false
        → suc (budget (t.transport objr remote).0) ≤ budget remote

  -- A version of the object that is not below its own is marked.
  abbrev pub IsSent : Dict String → ObjResource → Type 0
  IsSent versions objr =
      NotBelow (some (u.get_resource_version objr.unstructured))
        (lookup (u.get_uid objr.unstructured) versions)

  marked-IsSent :
      (objr : ObjResource) (versions : Dict String)
      → IsSent (mark_as_successed u objr versions) objr
  unfolding mark_as_successed
  marked-IsSent objr versions =
      rw (lookup-insert, eq_refl) (ltℤ_irrefl (atoi (u.get_resource_version objr.unstructured)).0)

  old-IsSent :
      (objr : ObjResource) (versions : Dict String)
      → is_new_version u versions objr ≡ false
      → IsSent versions objr
  unfolding is_new_version
  old-IsSent objr versions old =
      elim (Option-cases (lookup (u.get_uid objr.unstructured) versions)) [
        | inl none_yet ↦ absurd (cc (rw (none_yet, is_new_version) at old))
        | inr (w, e) ↦ rw e (rw (e, is_new_version) at old)
      ]

  -- What a round does with its object: it is sent, or it goes back and a refusal is used up.
  pub record IsProgress (budget : R → ℕ) (objr : ObjResource) (remote : R) (r : Round R)
      : Type 0 where
    pub runs : r.fault ≡ false
    pub outcome :
        ((r.requeued ≡ []) × (budget r.remote ≤ budget remote) × IsSent r.versions objr)
        ⊎ ((r.requeued ≡ objr ∷ []) × (suc (budget r.remote) ≤ budget remote))

  module _ {Sendable : ObjResource → Type 0} (budget : R → ℕ)
      (L : RefusesAtMost Sendable budget) where
    settle-IsProgress :
        (objr : ObjResource) (versions : Dict String) (remote : R)
        → Sendable objr
        → IsProgress budget objr remote (settle u t objr versions (t.transport objr remote))
    unfolding settle
    settle-IsProgress objr versions remote m =
        let kept = L.kept objr remote m in
        let sent = marked-IsSent objr versions in
        elim (Result-cases (t.transport objr remote).1) [
          | inl (tt, e) ↦ record {
            runs = rw (e, settle);
            outcome = rw (e, settle) (inl (refl, kept, sent));
          }
          | inr (inr e) ↦ absurd (L.answers objr remote m e)
          | inr (inl (x, e)) ↦ elim (Bool-cases (contains (message x) "already exists")) [
            | inl there ↦ record {
              runs = rw (e, settle, there);
              outcome = rw (e, settle, there) (inl (refl, kept, sent));
            }
            | inr other ↦ record {
              runs = rw (e, settle, other);
              outcome = rw (e, settle, other) (inr (refl, L.spent objr remote x m e other));
            }
          ]
        ]

    pub transport_round-IsProgress :
        (objr : ObjResource) (versions : Dict String) (remote : R)
        → Sendable objr
        → IsProgress budget objr remote (transport_round u t (object objr) versions remote)
    unfolding transport_round
    transport_round-IsProgress objr versions remote m =
        elim (Bool-cases (is_new_version u versions objr)) [
          | inr old ↦ record {
            runs = rw old;
            outcome = rw old (inl (refl, omega arith, old-IsSent objr versions old));
          }
          | inl new ↦ rw new (settle-IsProgress objr versions remote m)
        ]

    round_measure :
        (objr : ObjResource) (queue : List ObjResource) (remote : R) (r : Round R) (n : ℕ)
        → IsProgress budget objr remote r
        → suc (length queue) + budget remote ≤ suc n
        → length (queue ++ r.requeued) + budget r.remote ≤ n
    round_measure objr queue remote r n p h =
        let whole = length-append queue r.requeued in
        elim p.outcome [
          | inl (e, less, _) ↦ omega (arith, whole, ap length e)
          | inr (e, less) ↦ omega (arith, whole, ap length e)
        ]

  drain-NotBelow :
      (n : ℕ) (queue : List ObjResource) (versions : Dict String) (remote : R) (uid : String)
      → NotBelow (lookup uid versions) (lookup uid (drain n queue versions remote).versions)
  unfolding drain
  drain-NotBelow zero queue versions remote uid = NotBelow-refl (lookup uid versions)
  drain-NotBelow (suc n) [] versions remote uid = NotBelow-refl (lookup uid versions)
  drain-NotBelow (suc n) (objr ∷ queue) versions remote uid =
      let r = transport_round u t (object objr) versions remote in
      let first = transport_round-NotBelow u t (object objr) versions remote uid in
      elim (Bool-cases r.fault) [
        | inl stopped ↦ rw stopped first
        | inr ran ↦ rw ran (
            NotBelow-trans (lookup uid versions) (lookup uid r.versions) _ first
              (drain-NotBelow n (queue ++ r.requeued) r.versions r.remote uid))
      ]

  module _ {Sendable : ObjResource → Type 0} (budget : R → ℕ)
      (L : RefusesAtMost Sendable budget) where
    -- The queue is empty, the process runs, and every object has been sent.
    pub record IsDelivered (queue : List ObjResource) (d : Drained R) : Type 0 where
      pub emptied : d.queue ≡ []
      pub runs : d.fault ≡ false
      pub delivered : All (IsSent d.versions) queue

    delivered_head :
        (objr : ObjResource) (queue : List ObjResource) (remote : R) (r : Round R) (d : Drained R)
        → IsProgress budget objr remote r
        → ((uid : String) → NotBelow (lookup uid r.versions) (lookup uid d.versions))
        → All (IsSent d.versions) (queue ++ r.requeued)
        → All (IsSent d.versions) (objr ∷ queue)
    delivered_head objr queue remote r d p grows all =
        let (later, back) = All-split (IsSent d.versions) queue r.requeued all in
        elim p.outcome [
          | inl (e, less, sent) ↦ (
            NotBelow-trans (some (u.get_resource_version objr.unstructured))
                (lookup (u.get_uid objr.unstructured) r.versions) _ sent
                (grows (u.get_uid objr.unstructured)),
            later,
          )
          | inr (e, less) ↦ ((rw e at back).0, later)
        ]

    -- If the other side always answers for the objects of a kind and `budget` bounds how often it
    -- still refuses one, and all queued objects are of that kind, then as many rounds as there are
    -- queued objects and refusals empty the queue without a panic, and for every object that was
    -- queued a version not below its own is marked as sent.
    pub drain-IsDelivered :
        (n : ℕ) (queue : List ObjResource) (versions : Dict String) (remote : R)
        → length queue + budget remote ≤ n
        → All Sendable queue
        → IsDelivered queue (drain n queue versions remote)
    unfolding drain
    drain-IsDelivered zero [] versions remote h ms = record {
      emptied = refl;
      runs = refl;
      delivered = tt;
    }
    drain-IsDelivered zero (objr ∷ queue) versions remote h ms = absurd (omega arith)
    drain-IsDelivered (suc n) [] versions remote h ms = record {
      emptied = refl;
      runs = refl;
      delivered = tt;
    }
    drain-IsDelivered (suc n) (objr ∷ queue) versions remote h (m, ms) =
        let r = transport_round u t (object objr) versions remote in
        let p = transport_round-IsProgress budget L objr versions remote m in
        let d = drain n (queue ++ r.requeued) r.versions r.remote in
        let rest =
          drain-IsDelivered n (queue ++ r.requeued) r.versions r.remote
            (round_measure budget L objr queue remote r n p h)
            (All-append Sendable queue r.requeued ms
              (requeued-All Sendable objr m (transport_round-Requeues u t objr versions remote))) in
        rw p.runs (record {
          emptied = rest.emptied;
          runs = rest.runs;
          delivered =
              delivered_head objr queue remote r d p
                (drain-NotBelow n (queue ++ r.requeued) r.versions r.remote) rest.delivered;
        })
