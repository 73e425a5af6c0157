-- ===== src/Worker/Progress.antt =====
-- When a round of the worker hands an object over.
use dr.Base.{◌≡◌, refl, ap, arith, String, true, List, [], some, ok, eq_iff}
use dr.Base.Dict.{Dict, lookup}
use dr.Api.{UnstructuredApi, ObjResource, ObjectAction, create, update, delete, other_action}
use dr.Filter.{Filter}
use dr.Transport.{object}
use dr.Worker.Checkers.{ClusterReader, get_dependencies}
use dr.Worker.Safety.{NeedsDependencies}
use dr.Worker.Rounds.{
  Waited, filter, run_round, act, check_and_hand, concerns, hand_over, get_object_namespace,
  get_not_transported_dependencies,
}

module _ (u : UnstructuredApi) (client : ClusterReader) (namespace : String)
    (filters : List Filter) where
  act_hands_over :
      (final : ObjResource) (ds : List ObjResource) (versions : Dict String) (waited : Waited)
      (a : ObjectAction)
      → final.action ≡ a
      → NeedsDependencies a
      → get_dependencies u client final ≡ ok ds
      → get_not_transported_dependencies u versions ds ≡ []
      → act u client namespace filters versions waited final ≡ hand_over waited final
  unfolding act check_and_hand
  act_hands_over final ds versions waited create e needs found left = ground arith
  act_hands_over final ds versions waited update e needs found left = ground arith
  act_hands_over final ds versions waited delete e needs found left = absurd needs
  act_hands_over final ds versions waited (other_action _) e needs found left = absurd needs

  pub run_round_hands_over :
      (objr final : ObjResource) (ds : List ObjResource) (versions : Dict String) (waited : Waited)
      → concerns u client namespace filters waited objr ≡ true
      → filter u filters objr ≡ (final, ok true)
      → NeedsDependencies final.action
      → get_dependencies u client final ≡ ok ds
      → get_not_transported_dependencies u versions ds ≡ []
      → run_round u client namespace filters (object objr) versions waited ≡ hand_over waited final
  unfolding run_round
  run_round_hands_over objr final ds versions waited ours passed needs found left =
      rw (ours, run_round, ap (λ p. p.1) passed, ap (λ p. p.0) passed)
        (act_hands_over final ds versions waited final.action refl needs found left)

  pub concerns_own :
      (waited : Waited) (objr : ObjResource)
      → get_object_namespace u objr ≡ namespace
      → concerns u client namespace filters waited objr ≡ true
  unfolding concerns
  concerns_own waited objr e = ground (arith, (eq_iff (get_object_namespace u objr) namespace).1 e)

  pub concerns_waited :
      (waited : Waited) (objr : ObjResource)
      → lookup (u.get_uid objr.unstructured) waited ≡ some tt
      → concerns u client namespace filters waited objr ≡ true
  unfolding concerns
  concerns_waited waited objr e = rw (e, concerns) refl
