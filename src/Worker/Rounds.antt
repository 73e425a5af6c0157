-- ===== src/Worker/Rounds.antt =====
-- dependency_namesapce_worker.go. The work queue and the transport manager are the environment: a
-- round of `run` takes what `Get` gave and lists what it adds to either.
use dr.Base.{
  String, ◌==◌, Bool, true, false, ◌||◌, List, [], ◌∷◌, Result, ok, err, panic, no_pass_filter,
  failure, is_some, if◌then◌else◌,
}
use dr.Base.Dict.{Dict, lookup, insert, erase}
use dr.Api.{
  UnstructuredApi, ObjResource, cluster_resource_delegator, create, update, delete, other_action,
}
use dr.Filter.{Filter, out}
use dr.Transport.{Item, closed, object, foreign, is_resource_transported}
use dr.Worker.Checkers.{ClusterReader, get_dependencies}

-- The set of the UIDs that other objects wait for.
abbrev pub Waited : Type 0
Waited = Dict (Unit {0})

pub record WorkerRound : Type 0 where
  pub dependencies : Waited
  pub queue_adds : List ObjResource
  pub transports : List ObjResource
  pub fault : Bool

abbrev pub idle : Waited → WorkerRound
idle waited = record { dependencies = waited; queue_adds = []; transports = []; fault = false }

abbrev pub crash : Waited → WorkerRound
crash waited = record { dependencies = waited; queue_adds = []; transports = []; fault = true }

abbrev pub hand_over : Waited → ObjResource → WorkerRound
hand_over waited objr = record {
  dependencies = waited;
  queue_adds = [];
  transports = objr ∷ [];
  fault = false;
}

module _ (u : UnstructuredApi) where
  -- The loop over the filters: each works on the object that the one before left. `ok false` is a
  -- nil object without an error, which no filter at all gives.
  unfoldable pub run_filters : Bool → List Filter → ObjResource → ObjResource × Result Bool
  run_filters passed [] objr = (objr, ok passed)
  run_filters passed (f ∷ fs) objr =
      let step = out u f objr in
      let rest = run_filters true fs step.0 in
      elim step.1 [ ok _ ↦ rest | err e ↦ (step.0, err e) | panic ↦ (step.0, panic) ]

  -- ErrNoPassFilter becomes a nil object.
  abbrev pub refusal_as_nil : Result Bool → Result Bool
  refusal_as_nil (ok b) = ok b
  refusal_as_nil (err no_pass_filter) = ok false
  refusal_as_nil (err (failure s)) = err (failure s)
  refusal_as_nil panic = panic

  unfoldable pub filter : List Filter → ObjResource → ObjResource × Result Bool
  unfolding run_filters
  filter fs objr = let (objr', r) = run_filters false fs objr in (objr', refusal_as_nil r)

  unfoldable pub get_object_namespace : ObjResource → String
  get_object_namespace objr =
      let ns = u.get_namespace objr.unstructured in
      if ns == "" then cluster_resource_delegator else ns

  unfoldable pub get_not_transported_dependencies :
      Dict String → List ObjResource → List ObjResource
  get_not_transported_dependencies versions [] = []
  get_not_transported_dependencies versions (d ∷ ds) =
      let rest = get_not_transported_dependencies versions ds in
      if is_resource_transported u versions d then rest else d ∷ rest

  -- requeueDependencies, on the set of UIDs.
  unfoldable pub await : List ObjResource → Waited → Waited
  await [] waited = waited
  await (d ∷ ds) waited = await ds (insert (u.get_uid d.unstructured) tt waited)

  module _ (client : ClusterReader) (namespace : String) (filters : List Filter) where
    -- What is left of a round for a created or updated object that passed.
    unfoldable pub check_and_hand : Dict String → Waited → ObjResource → WorkerRound
    check_and_hand versions waited objr = elim (get_dependencies u client objr) [
      | err _ ↦ idle waited
      | panic ↦ crash waited
      | ok found ↦ elim (get_not_transported_dependencies versions found) [
        | [] ↦ hand_over waited objr
        | d ∷ ds ↦ record {
          dependencies = await (d ∷ ds) waited;
          queue_adds = objr ∷ d ∷ ds;
          transports = [];
          fault = false;
        }
      ]
    ]

    unfoldable pub act : Dict String → Waited → ObjResource → WorkerRound
    unfolding check_and_hand
    act versions waited objr = elim objr.action [
      | create ↦ check_and_hand versions waited objr
      | update ↦ check_and_hand versions waited objr
      | delete ↦ hand_over (erase (u.get_uid objr.unstructured) waited) objr
      | other_action _ ↦ hand_over waited objr
    ]

    unfoldable pub concerns : Waited → ObjResource → Bool
    unfolding get_object_namespace
    concerns waited objr =
        is_some (lookup (u.get_uid objr.unstructured) waited)
        || get_object_namespace objr == namespace

    -- A value of another type converts to a nil pointer, which the log line reads through.
    unfoldable pub run_round : Item → Dict String → Waited → WorkerRound
    unfolding act concerns filter
    run_round closed versions waited = idle waited
    run_round foreign versions waited = crash waited
    run_round (object objr) versions waited =
        let (objr', r) = filter filters objr in
        if concerns waited objr
        then elim r [
          | err _ ↦ idle waited
          | panic ↦ crash waited
          | ok false ↦ idle waited
          | ok true ↦ act versions waited objr'
        ]
        else idle waited
