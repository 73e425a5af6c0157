-- ===== src/Worker/Safety.antt =====
-- When a round of the worker hands an object to the transport manager, and what it waits for.
use dr.Base.{
  ◌≡◌, refl, arith, String, true, false, List, [], ◌∷◌, some, ok, Result-cases, Bool-cases,
  Option-cases, List-cases, inl, inr, ◌⊎◌, eq_iff, All,
}
use mathlib.Core.Path.{subst}
use dr.Base.Dict.{Dict, lookup}
use dr.Api.{UnstructuredApi, ObjResource, ObjectAction, create, update, delete, other_action}
use dr.Filter.{Filter}
use dr.Transport.{object, is_resource_transported}
use dr.Worker.Checkers.{ClusterReader, get_dependencies}
use dr.Worker.Rounds.{
  Waited, filter, run_round, concerns, act, check_and_hand, get_not_transported_dependencies,
  get_object_namespace,
}

-- A created or updated object goes out only after what it depends on.
abbrev pub NeedsDependencies : ObjectAction → Type 0
NeedsDependencies create = Unit
NeedsDependencies update = Unit
NeedsDependencies delete = ⊥
NeedsDependencies (other_action _) = ⊥

module _ (u : UnstructuredApi) where
  not_transported_nil :
      (versions : Dict String) (ds : List ObjResource)
      → get_not_transported_dependencies u versions ds ≡ []
      → All (λ d. is_resource_transported u versions d ≡ true) ds
  unfolding get_not_transported_dependencies
  not_transported_nil versions [] h = tt
  not_transported_nil versions (d ∷ ds) h =
      elim (Bool-cases (is_resource_transported u versions d)) [
        | inl sent ↦ (
          sent,
          not_transported_nil versions ds (rw (sent, get_not_transported_dependencies) at h),
        )
        | inr not_sent ↦ absurd (cc (rw (not_sent, get_not_transported_dependencies) at h))
      ]

  module _ (client : ClusterReader) (namespace : String) (filters : List Filter) where
    -- What has been established of an object that is handed over: it is of the worker's namespace
    -- or is waited for, it came through the filters, and all that it depends on has been sent.
    pub record IsDue (versions : Dict String) (waited : Waited) (objr sent : ObjResource)
        : Type 0 where
      pub ours :
          (get_object_namespace u objr ≡ namespace)
          ⊎ (lookup (u.get_uid objr.unstructured) waited ≡ some tt)
      pub passed : filter u filters objr ≡ (sent, ok true)
      pub ready :
          NeedsDependencies sent.action
          → (ds : List ObjResource) × (get_dependencies u client sent ≡ ok ds)
            × All (λ d. is_resource_transported u versions d ≡ true) ds

    ours_of_concerns :
        (waited : Waited) (objr : ObjResource)
        → concerns u client namespace filters waited objr ≡ true
        → (get_object_namespace u objr ≡ namespace)
          ⊎ (lookup (u.get_uid objr.unstructured) waited ≡ some tt)
    unfolding concerns
    ours_of_concerns waited objr h =
        elim (Option-cases (lookup (u.get_uid objr.unstructured) waited)) [
          | inr (_, e) ↦ inr e
          | inl e ↦ inl ((eq_iff _ namespace).0 (rw (e, concerns) at h))
        ]

    -- What is known of an object that `check_and_hand` hands over.
    abbrev IsReady : Dict String → ObjResource → Type 0
    IsReady versions objr =
        (ds : List ObjResource) × (get_dependencies u client objr ≡ ok ds)
        × All (λ d. is_resource_transported u versions d ≡ true) ds

    IsReady-of_check :
        (versions : Dict String) (waited : Waited) (objr sent : ObjResource)
        (rest : List ObjResource)
        → (check_and_hand u client namespace filters versions waited objr).transports ≡ sent ∷ rest
        → (objr ≡ sent) × IsReady versions objr
    unfolding check_and_hand
    IsReady-of_check versions waited objr sent rest h =
        elim (Result-cases (get_dependencies u client objr)) [
          | inl (ds, e) ↦ elim (List-cases (get_not_transported_dependencies u versions ds)) [
            | inl all ↦ (
              cc (rw (e, check_and_hand, all) at h),
              (ds, e, not_transported_nil versions ds all),
            )
            | inr (x, xs, some_left) ↦ absurd (cc (rw (e, check_and_hand, some_left) at h))
          ]
          | inr (inl (x, e)) ↦ absurd (cc (rw (e, check_and_hand) at h))
          | inr (inr e) ↦ absurd (cc (rw (e, check_and_hand) at h))
        ]

    IsReady-of_act :
        (versions : Dict String) (waited : Waited) (objr sent : ObjResource)
        (rest : List ObjResource) (a : ObjectAction)
        → objr.action ≡ a
        → (act u client namespace filters versions waited objr).transports ≡ sent ∷ rest
        → (objr ≡ sent) × (NeedsDependencies a → IsReady versions objr)
    unfolding act
    IsReady-of_act versions waited objr sent rest create e h =
        let (same, ready) = IsReady-of_check versions waited objr sent rest (ground arith) in
        (same, λ _. ready)
    IsReady-of_act versions waited objr sent rest update e h =
        let (same, ready) = IsReady-of_check versions waited objr sent rest (ground arith) in
        (same, λ _. ready)
    IsReady-of_act versions waited objr sent rest delete e h = (ground arith, λ x. absurd x)
    IsReady-of_act versions waited objr sent rest (other_action s) e h =
        (ground arith, λ x. absurd x)

    due :
        (versions : Dict String) (waited : Waited) (objr objr' sent : ObjResource)
        (rest : List ObjResource)
        → concerns u client namespace filters waited objr ≡ true
        → filter u filters objr ≡ (objr', ok true)
        → (act u client namespace filters versions waited objr').transports ≡ sent ∷ rest
        → IsDue versions waited objr sent
    due versions waited objr objr' sent rest ours passed h =
        let (same, ready) = IsReady-of_act versions waited objr' sent rest objr'.action refl h in
        subst (IsDue versions waited objr) same
          (record { ours = ours_of_concerns waited objr ours; passed = passed; ready = ready })

    -- A round hands over an object only if it is due.
    pub run_round-IsDue :
        (objr sent : ObjResource) (rest : List ObjResource) (versions : Dict String)
        (waited : Waited)
        → (run_round u client namespace filters (object objr) versions waited).transports
          ≡ sent ∷ rest
        → IsDue versions waited objr sent
    unfolding run_round
    run_round-IsDue objr sent rest versions waited h =
        elim (Bool-cases (concerns u client namespace filters waited objr)) [
          | inr other ↦ absurd (cc (rw (other, run_round) at h))
          | inl ours ↦ elim (Result-cases (filter u filters objr).1) [
            | inr (inl (x, e)) ↦ absurd (cc (rw (ours, run_round, e) at h))
            | inr (inr e) ↦ absurd (cc (rw (ours, run_round, e) at h))
            | inl (false, e) ↦ absurd (cc (rw (ours, run_round, e) at h))
            | inl (true, e) ↦
                due versions waited objr (filter u filters objr).0 sent rest ours
                  (λ i. ((filter u filters objr).0, e i)) (rw (ours, run_round, e) at h)
          ]
        ]
