-- ===== src/Worker/Agreement.antt =====
-- The worker without dependencies against the worker with them.
use dr.Base.{
  ◌≡◌, ◌==◌, refl, arith, String, true, false, List, [], ◌∷◌, ok, no_pass_filter, failure,
  Result-cases, Bool-cases, inl, inr,
}
use dr.Base.Dict.{Dict, lookup}
use dr.Api.{UnstructuredApi, ObjResource, ObjectAction, create, update, delete, other_action}
use dr.Filter.{Filter}
use dr.Transport.{object}
use dr.Worker.Checkers.{ClusterReader, get_dependencies}
use dr.Worker.Rounds.{
  run_filters, filter, run_round, act, check_and_hand, concerns, get_object_namespace,
  get_not_transported_dependencies,
}
use dr.Worker.BaseWorker.{base_run_round, base_filter}

module _ (u : UnstructuredApi) (client : ClusterReader) (namespace : String) (filters : List Filter)
    (versions : Dict String) where
  act_hands :
      (objr : ObjResource) (a : ObjectAction)
      → objr.action ≡ a
      → get_dependencies u client objr ≡ ok []
      → ((act u client namespace filters versions [] objr).transports ≡ objr ∷ [])
        × ((act u client namespace filters versions [] objr).fault ≡ false)
  unfolding act check_and_hand get_not_transported_dependencies
  act_hands objr create e found = ground arith
  act_hands objr update e found = ground arith
  act_hands objr delete e found = ground arith
  act_hands objr (other_action x) e found = ground arith

  -- Where nothing is waited for and the object that the filters leave has no dependencies, a round
  -- of the worker with dependencies hands over what a round of the worker without them does, and
  -- panics just where that does.
  pub base_run_round_lem :
      (objr : ObjResource)
      → get_dependencies u client (filter u filters objr).0 ≡ ok []
      → ((run_round u client namespace filters (object objr) versions []).transports
          ≡ (base_run_round u namespace filters (object objr)).transports)
        × ((run_round u client namespace filters (object objr) versions []).fault
            ≡ (base_run_round u namespace filters (object objr)).fault)
  unfolding run_round base_run_round concerns lookup filter base_filter
  base_run_round_lem objr found =
      let (handed, ran) = act_hands (filter u filters objr).0 _ refl found in
      elim (Bool-cases (get_object_namespace u objr == namespace)) [
        | inr other ↦ rw other (refl, refl)
        | inl ours ↦ elim (Result-cases (run_filters u false filters objr).1) [
          | inl (true, e) ↦ rw (ours, e) (handed, ran)
          | inl (false, e) ↦ rw (ours, e) (refl, refl)
          | inr (inr e) ↦ rw (ours, e) (refl, refl)
          | inr (inl (no_pass_filter, e)) ↦ rw (ours, e) (refl, refl)
          | inr (inl (failure x, e)) ↦ rw (ours, e) (refl, refl)
        ]
      ]
