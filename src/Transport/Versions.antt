-- ===== src/Transport/Versions.antt =====
-- The versions that the transport manager marks, over one round and over a run.
use dr.Base.{
  ◌≡◌, ◌≢◌, ap, ◌==◌, arith, String, Bool, true, false, List, [], ◌∷◌, Option, none, some, Result,
  Error, ok, err, message, Result-cases, Bool-cases, inl, inr, eq_iff, ◌⊎◌, if◌then◌else◌,
}
use mathlib.Core.Path.{subst}
use dr.Base.Dict.{Dict, lookup, lookup-insert}
use dr.Base.Int.{ltℤ, ltℤ_irrefl, ltℤ_asymm, geℤ_trans}
use dr.Base.Text.{atoi, contains}
use dr.Api.{UnstructuredApi, ObjResource}
use dr.Transport.Manager.{
  Item, closed, object, foreign, Transporter, is_new_version, mark_as_successed, transport_round,
  idle,
}

-- The number of a marked version is not below that of an earlier mark.
abbrev pub NotBelow : Option String → Option String → Type 0
NotBelow none after = Unit
NotBelow (some v) none = ⊥
NotBelow (some v) (some w) = ltℤ (atoi w).0 (atoi v).0 ≡ false

pub NotBelow-refl : (o : Option String) → NotBelow o o
NotBelow-refl none = tt
NotBelow-refl (some v) = ltℤ_irrefl (atoi v).0

pub NotBelow-trans : (o p q : Option String) → NotBelow o p → NotBelow p q → NotBelow o q
NotBelow-trans none p q h k = tt
NotBelow-trans (some v) (some w) (some x) h k = geℤ_trans (atoi v).0 (atoi w).0 (atoi x).0 h k
NotBelow-trans (some v) none q h k = absurd h
NotBelow-trans (some v) (some w) none h k = absurd k

abbrev is_newer : Option String → String → Bool
is_newer o v = elim o [ none ↦ true | some m ↦ ltℤ (atoi m).0 (atoi v).0 ]

NotBelow-new : (o : Option String) (v : String) → is_newer o v ≡ true → NotBelow o (some v)
NotBelow-new none v h = tt
NotBelow-new (some m) v h = ltℤ_asymm (atoi m).0 (atoi v).0 h

module _ (u : UnstructuredApi) where
  mark-NotBelow :
      (objr : ObjResource) (versions : Dict String) (uid : String)
      → is_new_version u versions objr ≡ true
      → NotBelow (lookup uid versions) (lookup uid (mark_as_successed u objr versions))
  unfolding mark_as_successed is_new_version
  mark-NotBelow objr versions uid new = elim (Bool-cases (u.get_uid objr.unstructured == uid)) [
    | inl same ↦
        rw (lookup-insert, same)
          (subst
            (λ k. NotBelow (lookup k versions) (some (u.get_resource_version objr.unstructured)))
            ((eq_iff _ _).0 same)
            (NotBelow-new (lookup (u.get_uid objr.unstructured) versions) _ new))
    | inr apart ↦ rw (lookup-insert, apart) (NotBelow-refl (lookup uid versions))
  ]

  module _ {ℓ} {R : Type ℓ} (t : Transporter R) where
    -- Why a version was marked.
    abbrev pub Accepted : Result (Unit {0}) → Type 0
    Accepted r =
        (r ≡ ok tt) ⊎ ((e : Error) × (r ≡ err e) × (contains (message e) "already exists" ≡ true))

    pub versions_cases :
        (objr : ObjResource) (versions : Dict String) (remote : R)
        → ((transport_round u t (object objr) versions remote).versions ≡ versions)
          ⊎ ((is_new_version u versions objr ≡ true)
              × ((transport_round u t (object objr) versions remote).versions
                  ≡ mark_as_successed u objr versions)
              × Accepted (t.transport objr remote).1)
    unfolding transport_round
    versions_cases objr versions remote = elim (Bool-cases (is_new_version u versions objr)) [
      | inr old ↦ inl (rw old)
      | inl new ↦ elim (Result-cases (t.transport objr remote).1) [
        | inl (tt, e) ↦ inr (new, rw (new, e), inl e)
        | inr (inr e) ↦ inl (rw (new, e))
        | inr (inl (x, e)) ↦ elim (Bool-cases (contains (message x) "already exists")) [
          | inl there ↦ inr (new, rw (new, e, there), inr (x, e, there))
          | inr other ↦ inl (rw (new, e, other))
        ]
      ]
    ]

    -- One round never lowers the marked version of any object, whatever the transporter answers.
    pub transport_round-NotBelow :
        (item : Item) (versions : Dict String) (remote : R) (uid : String)
        → NotBelow
            (lookup uid versions)
            (lookup uid (transport_round u t item versions remote).versions)
    unfolding transport_round
    transport_round-NotBelow closed versions remote uid = NotBelow-refl _
    transport_round-NotBelow foreign versions remote uid = NotBelow-refl _
    transport_round-NotBelow (object objr) versions remote uid =
        elim (versions_cases objr versions remote) [
          | inl same ↦ rw same (NotBelow-refl (lookup uid versions))
          | inr (new, marked, _) ↦ rw marked (mark-NotBelow objr versions uid new)
        ]

    -- The loop of `transport` over what the queue gives, until a panic ends the process.
    unfoldable pub transport_run : List Item → Dict String → R → Dict String × R
    transport_run [] versions remote = (versions, remote)
    transport_run (item ∷ items) versions remote =
        let r = transport_round u t item versions remote in
        let rest = transport_run items r.versions r.remote in
        if r.fault then (r.versions, r.remote) else rest

    -- Over any run, for any order of the items and any answers, the marked versions only grow.
    pub transport_run-NotBelow :
        (items : List Item) (versions : Dict String) (remote : R) (uid : String)
        → NotBelow (lookup uid versions) (lookup uid (transport_run items versions remote).0)
    unfolding transport_run
    transport_run-NotBelow [] versions remote uid = NotBelow-refl _
    transport_run-NotBelow (item ∷ items) versions remote uid =
        let r = transport_round u t item versions remote in
        let first = transport_round-NotBelow item versions remote uid in
        elim (Bool-cases r.fault) [
          | inl stopped ↦ rw stopped first
          | inr ran ↦ rw ran (
              NotBelow-trans (lookup uid versions) (lookup uid r.versions) _ first
                (transport_run-NotBelow items r.versions r.remote uid))
        ]

    -- A round marks a version only for the object that it sent, and only if the transporter
    -- succeeded or answered that the object exists already.
    pub transport_round-marks :
        (objr : ObjResource) (versions : Dict String) (remote : R) (uid : String)
        → lookup uid (transport_round u t (object objr) versions remote).versions
          ≢ lookup uid versions
        → (u.get_uid objr.unstructured ≡ uid)
          × (is_new_version u versions objr ≡ true)
          × Accepted (t.transport objr remote).1
    unfolding mark_as_successed
    transport_round-marks objr versions remote uid changed =
        elim (versions_cases objr versions remote) [
          | inl same ↦ absurd (changed (ap (lookup uid) same))
          | inr (new, marked, accepted) ↦ elim (Bool-cases (u.get_uid objr.unstructured == uid)) [
            | inl mine ↦ ((eq_iff _ _).0 mine, new, accepted)
            | inr apart ↦ absurd (changed (rw (marked, lookup-insert, apart)))
          ]
        ]

    -- An object that was marked is not sent again, nor is any object with the same UID whose
    -- version is not greater: the round does nothing at all.
    pub transport_round_again :
        (objr later : ObjResource) (versions : Dict String) (remote : R)
        → u.get_uid later.unstructured ≡ u.get_uid objr.unstructured
        → ltℤ
            (atoi (u.get_resource_version objr.unstructured)).0
            (atoi (u.get_resource_version later.unstructured)).0
          ≡ false
        → transport_round u t (object later) (mark_as_successed u objr versions) remote
          ≡ idle u t (mark_as_successed u objr versions) remote
    unfolding transport_round is_new_version mark_as_successed
    transport_round_again objr later versions remote same old =
        let id = u.get_uid objr.unstructured in
        let id' = u.get_uid later.unstructured in
        ground (
          arith,
          eq_iff id id',
          lookup-insert id id' (u.get_resource_version objr.unstructured) versions,
        )
