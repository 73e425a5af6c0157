-- ===== src/Worker/Outputs.antt =====
-- How many objects a round of the worker hands over.
use dr.Api.{ObjectAction}
use dr.Base.{
  ◌≡◌, refl, String, true, false, List, [], ◌∷◌, Result-cases, Bool-cases, List-cases, inl, inr,
  ◌⊎◌,
}
use dr.Base.Dict.{Dict}
use dr.Api.{UnstructuredApi, ObjResource, create, update, delete, other_action}
use dr.Filter.{Filter}
use dr.Transport.{object}
use dr.Worker.Checkers.{ClusterReader, get_dependencies}
use dr.Worker.Rounds.{
  Waited, filter, run_round, concerns, act, check_and_hand, get_not_transported_dependencies,
}

module _ (u : UnstructuredApi) (namespace : String) (filters : List Filter) where
  abbrev pub AtMostOne : List ObjResource → Type 0
  AtMostOne l = (l ≡ []) ⊎ ((sent : ObjResource) × (l ≡ sent ∷ []))

  module _ (client : ClusterReader) (versions : Dict String) (waited : Waited) where
    check_and_hand-AtMostOne :
        (objr : ObjResource)
        → AtMostOne (check_and_hand u client namespace filters versions waited objr).transports
    unfolding check_and_hand
    check_and_hand-AtMostOne objr = elim (Result-cases (get_dependencies u client objr)) [
      | inr (inr e) ↦ inl (rw (e, check_and_hand))
      | inr (inl (x, e)) ↦ inl (rw (e, check_and_hand))
      | inl (ds, e) ↦ elim (List-cases (get_not_transported_dependencies u versions ds)) [
        | inl all ↦ inr (objr, rw (e, check_and_hand, all))
        | inr (x, xs, left) ↦ inl (rw (e, check_and_hand, left))
      ]
    ]

    act-AtMostOne :
        (objr : ObjResource) (a : ObjectAction)
        → objr.action ≡ a
        → AtMostOne (act u client namespace filters versions waited objr).transports
    unfolding act
    act-AtMostOne objr create e = rw (e, act) (check_and_hand-AtMostOne objr)
    act-AtMostOne objr update e = rw (e, act) (check_and_hand-AtMostOne objr)
    act-AtMostOne objr delete e = rw (e, act) (inr (objr, refl))
    act-AtMostOne objr (other_action x) e = rw (e, act) (inr (objr, refl))

    -- A round hands over at most one object.
    pub run_round-AtMostOne :
        (objr : ObjResource)
        → AtMostOne (run_round u client namespace filters (object objr) versions waited).transports
    unfolding run_round
    run_round-AtMostOne objr = elim (Bool-cases (concerns u client namespace filters waited objr)) [
      | inr other ↦ inl (rw (other, run_round))
      | inl ours ↦ elim (Result-cases (filter u filters objr).1) [
        | inr (inr e) ↦ inl (rw (ours, run_round, e))
        | inr (inl (x, e)) ↦ inl (rw (ours, run_round, e))
        | inl (false, e) ↦ inl (rw (ours, run_round, e))
        | inl (true, e) ↦ rw (ours, run_round, e) (act-AtMostOne (filter u filters objr).0 _ refl)
      ]
    ]
