-- ===== src/Worker/Waiting.antt =====
-- What a round of the worker puts back on its queue.
use mathlib.Core.Path.{subst}
use dr.Base.{
  ◌≡◌, ◌≢◌, ◌==◌, refl, sym, arith, String, true, false, List, [], ◌∷◌, some, ok, Result-cases,
  Bool-cases, List-cases, inl, inr, ◌⊎◌, eq_iff, Any,
}
use dr.Base.Dict.{Dict, lookup, lookup-insert}
use dr.Api.{UnstructuredApi, ObjResource, ObjectAction, create, update, delete, other_action}
use dr.Filter.{Filter}
use dr.Transport.{object, is_resource_transported}
use dr.Worker.Checkers.{ClusterReader, get_dependencies}
use dr.Worker.Rounds.{
  Waited, WorkerRound, filter, run_round, concerns, act, check_and_hand, await,
  get_not_transported_dependencies,
}
use dr.Worker.Safety.{NeedsDependencies}
use dr.Worker.Dependencies.{lookup-await}

module _ (u : UnstructuredApi) where
  -- It is one of the dependencies, and not marked as sent.
  abbrev pub IsMissing : Dict String → List ObjResource → ObjResource → Type 0
  IsMissing versions found d =
      Any (λ x. x ≡ d) found × (is_resource_transported u versions d ≡ false)

  left-IsMissing :
      (versions : Dict String) (found : List ObjResource) (d : ObjResource)
      → Any (λ x. x ≡ d) (get_not_transported_dependencies u versions found)
      → IsMissing versions found d
  unfolding get_not_transported_dependencies
  left-IsMissing versions [] d h = elim h [ ]
  left-IsMissing versions (x ∷ xs) d h = elim (Bool-cases (is_resource_transported u versions x)) [
    | inl sent ↦
        let (found, unsent) =
          left-IsMissing versions xs d (rw (sent, get_not_transported_dependencies) at h) in
        (Any.there found, unsent)
    | inr unsent ↦ elim (rw (unsent, get_not_transported_dependencies) at h) [
      | Any.here e ↦
          (Any.here e, subst (λ o. is_resource_transported u versions o ≡ false) e unsent)
      | Any.there k ↦
          let (found, apart) = left-IsMissing versions xs d k in (Any.there found, apart)
    ]
  ]

  IsMissing-left :
      (versions : Dict String) (found : List ObjResource) (d : ObjResource)
      → IsMissing versions found d
      → Any (λ x. x ≡ d) (get_not_transported_dependencies u versions found)
  unfolding get_not_transported_dependencies
  IsMissing-left versions [] d (h, unsent) = elim h [ ]
  IsMissing-left versions (x ∷ xs) d (Any.here e, unsent) =
      let off : is_resource_transported u versions x ≡ false =
        subst (λ o. is_resource_transported u versions o ≡ false) (sym e) unsent in
      rw (off, get_not_transported_dependencies) (Any.here e)
  IsMissing-left versions (x ∷ xs) d (Any.there h, unsent) =
      let rest = IsMissing-left versions xs d (h, unsent) in
      elim (Bool-cases (is_resource_transported u versions x)) [
        | inl sent ↦ rw (sent, get_not_transported_dependencies) rest
        | inr off ↦ rw (off, get_not_transported_dependencies) (Any.there rest)
      ]

  abbrev Named : String → List ObjResource → Type 0
  Named uid = Any (λ (d : ObjResource). u.get_uid d.unstructured ≡ uid)

  await-lookup :
      (ds : List ObjResource) (waited : Waited) (uid : String)
      → lookup uid (await u ds waited) ≡ some tt
      → Named uid ds ⊎ (lookup uid waited ≡ some tt)
  unfolding await
  await-lookup [] waited uid h = inr h
  await-lookup (d ∷ ds) waited uid h = elim (await-lookup ds _ uid h) [
    | inl named ↦ inl (Any.there named)
    | inr before ↦ elim (Bool-cases (u.get_uid d.unstructured == uid)) [
      | inl same ↦ inl (Any.here ((eq_iff (u.get_uid d.unstructured) uid).0 same))
      | inr apart ↦ inr (rw (lookup-insert, apart) at before)
    ]
  ]

  module _ (client : ClusterReader) (namespace : String) (filters : List Filter)
      (versions : Dict String) (waited : Waited) where
    -- The round puts the object back with its missing dependencies behind it, hands nothing over,
    -- and waits for these beside all that was waited for before.
    pub record Waits (final : ObjResource) (r : WorkerRound) : Type 0 where
      pub found : List ObjResource
      pub missing : List ObjResource
      pub checked : get_dependencies u client final ≡ ok found
      pub some_missing : missing ≢ []
      pub exact :
          (d : ObjResource)
          → (Any (λ x. x ≡ d) missing → IsMissing versions found d)
            × (IsMissing versions found d → Any (λ x. x ≡ d) missing)
      pub back : r.queue_adds ≡ final ∷ missing
      pub holds_back : r.transports ≡ []
      pub awaits :
          (uid : String)
          → (lookup uid r.dependencies ≡ some tt
              → Named uid missing ⊎ (lookup uid waited ≡ some tt))
            × (Named uid missing ⊎ (lookup uid waited ≡ some tt)
                → lookup uid r.dependencies ≡ some tt)

    check_and_hand-Waits :
        (final : ObjResource)
        → (check_and_hand u client namespace filters versions waited final).queue_adds ≢ []
        → Waits final (check_and_hand u client namespace filters versions waited final)
    unfolding check_and_hand
    check_and_hand-Waits final h = elim (Result-cases (get_dependencies u client final)) [
      | inr (inl (x, e)) ↦ absurd (h (rw (e, check_and_hand) refl))
      | inr (inr e) ↦ absurd (h (rw (e, check_and_hand) refl))
      | inl (found, e) ↦ elim (List-cases (get_not_transported_dependencies u versions found)) [
        | inl all ↦ absurd (h (rw (e, check_and_hand, all) refl))
        | inr (d, ds, left) ↦
            rw (e, check_and_hand, left)
              (record {
                found = found;
                missing = d ∷ ds;
                checked = e;
                some_missing = λ k. cc k;
                exact = λ o. (
                  λ k. left-IsMissing versions found o (rw left k),
                  λ k. rw left at (IsMissing-left versions found o k),
                );
                back = refl;
                holds_back = refl;
                awaits =
                    λ uid. (await-lookup (d ∷ ds) waited uid, lookup-await u (d ∷ ds) waited uid);
              })
      ]
    ]

    act_checks :
        (final : ObjResource) (a : ObjectAction)
        → final.action ≡ a
        → NeedsDependencies a
        → check_and_hand u client namespace filters versions waited final
          ≡ act u client namespace filters versions waited final
    unfolding act
    act_checks final create e needs = ground arith
    act_checks final update e needs = ground arith
    act_checks final delete e needs = absurd needs
    act_checks final (other_action _) e needs = absurd needs

    checked_Waits :
        (final : ObjResource)
        → NeedsDependencies final.action
        → (act u client namespace filters versions waited final).queue_adds ≢ []
        → Waits final (act u client namespace filters versions waited final)
    checked_Waits final needs h =
        let same = act_checks final final.action refl needs in
        subst (Waits final) same
          (check_and_hand-Waits final (subst (λ (r : WorkerRound). r.queue_adds ≢ []) (sym same) h))

    act_needs :
        (final : ObjResource) (a : ObjectAction)
        → final.action ≡ a
        → (act u client namespace filters versions waited final).queue_adds ≢ []
        → NeedsDependencies a
    unfolding act
    act_needs final create e h = tt
    act_needs final update e h = tt
    act_needs final delete e h = absurd (h (rw (e, act) refl))
    act_needs final (other_action _) e h = absurd (h (rw (e, act) refl))

    -- If a round of the worker puts anything back on its queue, then what the filters made of the
    -- object is created or updated, and some of the dependencies that are found for it are not
    -- marked as sent. The object goes back with just those dependencies behind it, nothing is handed
    -- over, and what is waited for afterwards is what was before and those dependencies.
    pub run_round-Waits :
        (objr : ObjResource)
        → (run_round u client namespace filters (object objr) versions waited).queue_adds ≢ []
        → (final : ObjResource) × (filter u filters objr ≡ (final, ok true))
          × NeedsDependencies final.action
          × Waits final (run_round u client namespace filters (object objr) versions waited)
    unfolding run_round
    run_round-Waits objr h = elim (Bool-cases (concerns u client namespace filters waited objr)) [
      | inr other ↦ absurd (h (rw (other, run_round) refl))
      | inl ours ↦ elim (Result-cases (filter u filters objr).1) [
        | inr (inr e) ↦ absurd (h (rw (ours, run_round, e) refl))
        | inr (inl (x, e)) ↦ absurd (h (rw (ours, run_round, e) refl))
        | inl (false, e) ↦ absurd (h (rw (ours, run_round, e) refl))
        | inl (true, e) ↦
            let final = (filter u filters objr).0 in
            let adds = rw (ours, run_round, e) at h in
            let needs = act_needs final final.action refl adds in
            (
              final,
              (λ i. (final, e i)),
              needs,
              rw (ours, run_round, e) (checked_Waits final needs adds),
            )
      ]
    ]
