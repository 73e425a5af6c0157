-- ===== src/Tests/WorkerTests.antt =====
-- One run of each theorem on the workers.
use dr.Base.{Any, ◌≡◌, refl, true, false, List, [], ◌∷◌, ok}
use dr.Base.Dict.{lookup}
use dr.Base.Text.{join, split}
use dr.Api.{
  gvk_eq, GroupVersionKind, Fields, field, str, create, ObjResource, get, gvr_eq,
  persistent_volume_claim_gvr,
}
use dr.Filter.{
  delete_for_kinds, delete_for_objects, do_delete_variables, build_filters, add_default_config, out,
  Filter, pvc_filter,
}
use dr.Transport.{Transporter, object, is_resource_transported}
use dr.Worker.{
  base_run_round, ClusterReader, filter, run_round, get_dependencies, concerns,
  get_not_transported_dependencies, pvc_dependency_check, get_object_namespace,
}
use dr.Worker.Agreement.{base_run_round_lem}
use dr.Worker.Safety.{NeedsDependencies, run_round-IsDue, IsDue}
use dr.Worker.Waiting.{Waits, run_round-Waits}
use dr.Worker.System.{System, Step, Run}
use dr.Worker.Starvation.{Run-holds_back}
use dr.Worker.Stripping.{kinds_config, get_uid-filter, one_kind-NeverPasses}
use dr.Tests.Fixtures.{
  drop, docs-RemovesIdentity, service_kind, docs, document, text_at, config_map,
}

abbrev volume : Fields
volume = document "PersistentVolume" "" "v" "u3" "2"

-- A cluster that answers each read with the volume.
abbrev pub cluster : ClusterReader
cluster = record { get = λ gvr ns name. ok volume; list = λ gvr. ok [] }

abbrev pub only_pvc : List Filter
only_pvc = pvc_filter ∷ []

run_round-IsDue_example :
    IsDue docs cluster "shop" only_pvc [] []
      (config_map "u1" "7" create)
      (config_map "u1" "7" create)
unfolding run_round filter out gvr_eq concerns get_dependencies text_at get get_object_namespace
    lookup get_not_transported_dependencies
run_round-IsDue_example =
    run_round-IsDue docs cluster "shop" only_pvc (config_map "u1" "7" create)
      (config_map "u1" "7" create) [] [] [] refl

abbrev claim_content : Fields
claim_content =
    field "spec,volumeName" (str "v") (document "PersistentVolumeClaim" "shop" "c" "u2" "3")

abbrev pub claim : ObjResource
claim = record {
  unstructured = claim_content;
  gvr = persistent_volume_claim_gvr;
  namespaced = true;
  action = create;
}

abbrev pub volume_resource : ObjResource
volume_resource = record {
  unstructured = volume;
  gvr = record { group = ""; version = "v1"; resource = "persistentvolumes" };
  namespaced = false;
  action = create;
}

run_round-Waits_example :
    (final : ObjResource) × (filter docs only_pvc claim ≡ (final, ok true))
    × NeedsDependencies final.action
    × Waits docs cluster "shop" only_pvc [] [] final
        (run_round docs cluster "shop" only_pvc (object claim) [] [])
unfolding run_round filter out gvr_eq concerns get_dependencies text_at get get_object_namespace
    lookup get_not_transported_dependencies pvc_dependency_check is_resource_transported join
run_round-Waits_example = run_round-Waits docs cluster "shop" only_pvc [] [] claim (λ e. cc e)

abbrev accepting : Transporter (List ObjResource)
accepting = record { transport = λ objr taken. (objr ∷ taken, ok tt) }

abbrev idle_system : System (List ObjResource)
idle_system = record { queue = []; outgoing = []; waited = []; versions = []; remote = [] }

abbrev claim_kind : GroupVersionKind
claim_kind = record { group = ""; version = "v1"; kind = "PersistentVolumeClaim" }

abbrev stripped_claim : ObjResource
stripped_claim = record claim {
  unstructured = docs.remove_nested_field claim_content ("metadata" ∷ "uid" ∷ []);
}

-- Only claims are listed; the claim of the sample needs a volume.
abbrev claims_only : List Filter
claims_only = build_filters (add_default_config (kinds_config claim_kind []))

abbrev with_claim : System (List ObjResource)
with_claim = record idle_system { queue = claim ∷ [] }

claim_event : Run docs "shop" claims_only accepting idle_system with_claim
claim_event = Run.next Run.here (Step.event claim)

Run-holds_back_example :
    (run_round docs cluster "shop" claims_only
      (object claim)
      with_claim.versions
      with_claim.waited).transports
    ≡ []
unfolding text_at get filter build_filters out add_default_config gvk_eq delete_for_kinds
    delete_for_objects gvr_eq do_delete_variables drop join split lookup get_dependencies
    pvc_dependency_check
Run-holds_back_example =
    Run-holds_back docs claims_only "u3" "shop" accepting
      (one_kind-NeverPasses docs docs-RemovesIdentity claim_kind "u3" (λ e. cc e)) refl refl
      claim_event cluster claim stripped_claim (volume_resource ∷ []) refl tt refl (Any.here refl)

get_uid-filter_example : docs.get_uid stripped_claim.unstructured ≡ ""
unfolding text_at get filter build_filters out add_default_config gvk_eq delete_for_kinds
    delete_for_objects gvr_eq do_delete_variables drop join split
get_uid-filter_example =
    get_uid-filter docs docs-RemovesIdentity service_kind (claim_kind ∷ []) claim stripped_claim
      refl refl

base_run_round_lem_example :
    ((run_round docs cluster "shop" only_pvc (object (config_map "u1" "7" create)) [] []).transports
      ≡ (base_run_round docs "shop" only_pvc (object (config_map "u1" "7" create))).transports)
    × ((run_round docs cluster "shop" only_pvc (object (config_map "u1" "7" create)) [] []).fault
        ≡ (base_run_round docs "shop" only_pvc (object (config_map "u1" "7" create))).fault)
unfolding get_dependencies filter out gvr_eq
base_run_round_lem_example =
    base_run_round_lem docs cluster "shop" only_pvc [] (config_map "u1" "7" create) refl
