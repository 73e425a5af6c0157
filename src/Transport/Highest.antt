-- ===== src/Transport/Highest.antt =====
-- What the marked versions are once the queue of the transport manager is empty.
use dr.Base.{
  ◌≡◌, ◌==◌, ℕ, zero, suc, ◌+◌, ◌≤◌, String, List, [], ◌∷◌, ◌++◌, some, Bool-cases, inl, inr, ◌⊎◌,
  eq_iff, length, All, Any, Any-append, All-map,
}
use mathlib.Core.Path.{subst}
use dr.Base.Dict.{Dict, lookup, lookup-insert}
use dr.Api.{UnstructuredApi, ObjResource}
use dr.Transport.Manager.{object, Transporter, mark_as_successed, transport_round}
use dr.Transport.Versions.{NotBelow, versions_cases}
use dr.Transport.Requeues.{requeued-Any, transport_round-Requeues}
use dr.Transport.Drain.{drain, RefusesAtMost, IsSent, drain-IsDelivered}

module _ (u : UnstructuredApi) where
  -- The object has this UID and this version.
  abbrev pub IsOf : String → String → ObjResource → Type 0
  IsOf uid v objr =
      (u.get_uid objr.unstructured ≡ uid) × (u.get_resource_version objr.unstructured ≡ v)

  mark-IsOf :
      (objr : ObjResource) (versions : Dict String) (uid v : String)
      → lookup uid (mark_as_successed u objr versions) ≡ some v
      → (lookup uid versions ≡ some v) ⊎ IsOf uid v objr
  unfolding mark_as_successed
  mark-IsOf objr versions uid v h = elim (Bool-cases (u.get_uid objr.unstructured == uid)) [
    | inl mine ↦ inr ((eq_iff _ _).0 mine, cc (rw (lookup-insert, mine) at h))
    | inr apart ↦ inl (rw (lookup-insert, apart) at h)
  ]

  module _ {ℓ} {R : Type ℓ} (t : Transporter R) where
    round-IsOf :
        (objr : ObjResource) (versions : Dict String) (remote : R) (uid v : String)
        → lookup uid (transport_round u t (object objr) versions remote).versions ≡ some v
        → (lookup uid versions ≡ some v) ⊎ IsOf uid v objr
    round-IsOf objr versions remote uid v h = elim (versions_cases u t objr versions remote) [
      | inl same ↦ inl (rw same at h)
      | inr (new, marked, _) ↦ mark-IsOf objr versions uid v (rw marked at h)
    ]

    later_or_now :
        (objr : ObjResource) (queue : List ObjResource) (versions : Dict String) (remote : R)
        (uid v : String)
        → (lookup uid (transport_round u t (object objr) versions remote).versions ≡ some v)
          ⊎ Any (IsOf uid v) (queue ++ (transport_round u t (object objr) versions remote).requeued)
        → (lookup uid versions ≡ some v) ⊎ Any (IsOf uid v) (objr ∷ queue)
    later_or_now objr queue versions remote uid v (inl now) =
        elim (round-IsOf objr versions remote uid v now) [
          | inl old ↦ inl old
          | inr mine ↦ inr (Any.here mine)
        ]
    later_or_now objr queue versions remote uid v (inr later) =
        elim (Any-append (IsOf uid v) queue _ later) [
          | inl waiting ↦ inr (Any.there waiting)
          | inr back ↦ inr (
              Any.here (
                requeued-Any (IsOf uid v) (transport_round-Requeues u t objr versions remote) back))
        ]

    -- Every mark is an old one or the version of an object in the queue.
    drain-IsOf :
        (n : ℕ) (queue : List ObjResource) (versions : Dict String) (remote : R) (uid v : String)
        → lookup uid (drain u t n queue versions remote).versions ≡ some v
        → (lookup uid versions ≡ some v) ⊎ Any (IsOf uid v) queue
    unfolding drain
    drain-IsOf zero queue versions remote uid v h = inl h
    drain-IsOf (suc n) [] versions remote uid v h = inl h
    drain-IsOf (suc n) (objr ∷ queue) versions remote uid v h =
        let r = transport_round u t (object objr) versions remote in
        elim (Bool-cases r.fault) [
          | inl stopped ↦ elim (round-IsOf objr versions remote uid v (rw (stopped, drain) at h)) [
            | inl old ↦ inl old
            | inr mine ↦ inr (Any.here mine)
          ]
          | inr ran ↦
              later_or_now objr queue versions remote uid v (
                drain-IsOf n (queue ++ r.requeued) r.versions r.remote uid v (rw (ran, drain) at h))
        ]

    -- The mark is of a queued object, and no queued object with the UID has a greater version.
    pub record IsHighest (queue : List ObjResource) (uid v : String) : Type 0 where
      pub queued : Any (IsOf uid v) queue
      pub highest :
          All
            (λ o.
              u.get_uid o.unstructured ≡ uid
              → NotBelow (some (u.get_resource_version o.unstructured)) (some v))
            queue

    -- If the other side always answers for the objects of a kind and `budget` bounds how often it
    -- still refuses one, and all queued objects are of that kind, then with nothing marked at the
    -- start and as many rounds as queued objects and refusals, each UID that is marked at the end
    -- is marked with a version of one of its queued objects, and none of them has a greater one:
    -- the order of the queue does not matter.
    pub drain-IsHighest :
        {Sendable : ObjResource → Type 0} (budget : R → ℕ)
        → RefusesAtMost u t Sendable budget
        → (n : ℕ) (queue : List ObjResource) (remote : R) (uid v : String)
        → length queue + budget remote ≤ n
        → All Sendable queue
        → lookup uid (drain u t n queue [] remote).versions ≡ some v
        → IsHighest queue uid v
    unfolding lookup
    drain-IsHighest budget L n queue remote uid v enough all marked =
        let after = (drain u t n queue [] remote).versions in
        record {
          queued = elim (drain-IsOf n queue [] remote uid v marked) [
            | inl old ↦ absurd (cc old)
            | inr found ↦ found
          ];
          highest =
              All-map (IsSent u t after) _ queue
                (λ o h same. rw marked at (
                  subst
                    (λ k. NotBelow (some (u.get_resource_version o.unstructured)) (lookup k after))
                    same h))
                (drain-IsDelivered u t budget L n queue [] remote enough all).delivered;
        }
