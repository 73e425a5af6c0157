-- ===== src/Transport/Requeues.antt =====
-- What a round of the transport manager puts back on its queue.
use dr.Base.Text.{contains}
use dr.Base.{
  Result, err, panic, message, ◌≡◌, refl, String, List, [], ◌∷◌, ok, Bool-cases, inl, inr, ◌⊎◌, Any,
  All,
}
use dr.Base.Dict.{Dict}
use dr.Api.{UnstructuredApi, ObjResource}
use dr.Transport.Manager.{settle, object, Transporter, transport_round, is_new_version}

-- Nothing, or the object itself.
abbrev pub Requeues : ObjResource → List ObjResource → Type 0
Requeues objr l = (l ≡ []) ⊎ (l ≡ objr ∷ [])

pub requeued-Any :
    {objr : ObjResource} {l : List ObjResource} (P : ObjResource → Type 0)
    → Requeues objr l
    → Any P l
    → P objr
requeued-Any P (inl e) h = elim (rw e at h) [ ]
requeued-Any P (inr e) h = elim (rw e at h) [
  | Any.here p ↦ p
  | Any.there none_left ↦ elim none_left [ ]
]

pub requeued-All :
    (P : ObjResource → Type 0) (objr : ObjResource) {l : List ObjResource}
    → P objr
    → Requeues objr l
    → All P l
requeued-All P objr p (inl e) = rw e tt
requeued-All P objr p (inr e) = rw e (p, tt)

module _ {ℓ} (u : UnstructuredApi) {R : Type ℓ} (t : Transporter R) where
  settle-Requeues :
      (objr : ObjResource) (versions : Dict String) (answer : R × Result (Unit {0}))
      → Requeues objr (settle u t objr versions answer).requeued
  unfolding settle
  settle-Requeues objr versions (remote, ok tt) = inl refl
  settle-Requeues objr versions (remote, panic) = inl refl
  settle-Requeues objr versions (remote, err e) =
      elim (Bool-cases (contains (message e) "already exists")) [
        | inl there ↦ inl (rw (there, settle))
        | inr other ↦ inr (rw (other, settle))
      ]

  pub transport_round-Requeues :
      (objr : ObjResource) (versions : Dict String) (remote : R)
      → Requeues objr (transport_round u t (object objr) versions remote).requeued
  unfolding transport_round
  transport_round-Requeues objr versions remote =
      elim (Bool-cases (is_new_version u versions objr)) [
        | inr old ↦ inl (rw old)
        | inl new ↦ rw new (settle-Requeues objr versions (t.transport objr remote))
      ]
