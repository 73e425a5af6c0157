-- ===== src/Worker/Checkers.antt =====
-- The dependency checkers of persistentvolumeclaim/ and statefulset/. The cluster is read through
-- the dynamic client; one check sees one state of the cluster.
use dr.Base.{
  String, ◌==◌, Bool, true, false, Option, none, some, List, [], ◌∷◌, ◌++◌, map, Result, ok, panic,
  ◌>>=◌, last_or, if◌then◌else◌,
}
use dr.Api.{
  UnstructuredApi, ObjResource, GroupVersionResource, Value, null, bool, int, float, str, arr, obj,
  Items, nil, cons, Fields, get, gvr_eq, gvk_to_gvr, persistent_volume_gvr,
  persistent_volume_claim_gvr, pod_gvr, stateful_set_gvr,
}

-- `get` takes a resource, a namespace ("" for none) and a name.
pub record ClusterReader : Type 0 where
  pub get : GroupVersionResource → String → String → Result Fields
  pub list : GroupVersionResource → Result (List Fields)

-- `reflect.ValueOf(x).String()`
unfoldable pub reflect_string : Value → String
reflect_string null = "<invalid Value>"
reflect_string (bool _) = "<bool Value>"
reflect_string (int _) = "<int64 Value>"
reflect_string (float _) = "<float64 Value>"
reflect_string (str s) = s
reflect_string (arr _) = "<[]interface {} Value>"
reflect_string (obj _) = "<map[string]interface {} Value>"

-- MapIndex on a value that is no map panics, and so does `Interface` on a key that is not there.
claim_name : Value → Result String
unfolding reflect_string
claim_name (obj m) = elim (get "claimName" m) [ none ↦ panic | some x ↦ ok (reflect_string x) ]
claim_name _ = panic

-- The claim of a volume; `none` is a volume of another kind.
unfoldable pub volume_claim : Value → Result (Option String)
unfolding claim_name
volume_claim (obj m) = elim (get "persistentVolumeClaim" m) [
  | none ↦ ok none
  | some pvc ↦ do name ← claim_name pvc; ok (some name)
]
volume_claim _ = panic

module _ (u : UnstructuredApi) (client : ClusterReader) where
  -- The persistent volume of a claim.
  unfoldable pub pvc_dependency_check : ObjResource → Result (List ObjResource)
  pvc_dependency_check objr =
      let volume_name = (u.nested_string objr.unstructured ("spec" ∷ "volumeName" ∷ [])).value in
      if volume_name == "" then ok [] else do
        pv ← client.get persistent_volume_gvr "" volume_name
        ok (
            record {
              unstructured = pv;
              gvr = persistent_volume_gvr;
              namespaced = false;
              action = objr.action;
            }
            ∷ [])

  unfoldable pub claims_of : String → Items → Result (List Fields)
  unfolding volume_claim
  claims_of ns nil = ok []
  claims_of ns (cons volume volumes) =
      let rest = claims_of ns volumes in
      do
        claim ← volume_claim volume
        elim claim [
          | none ↦ rest
          | some name ↦ do
            pvc ← client.get persistent_volume_claim_gvr ns name
            pvcs ← rest
            ok (pvc ∷ pvcs)
        ]

  -- checkPodVolumesDependency
  unfoldable pub check_pod_volumes_dependency : Fields → Result (List Fields)
  unfolding claims_of
  check_pod_volumes_dependency pod = do
    volumes ← u.nested_slice pod ("spec" ∷ "volumes" ∷ [])
    elim volumes [ none ↦ ok [] | some vs ↦ claims_of (u.get_namespace pod) vs ]

  -- siftPodsForStatefulSet: only the first owner counts, and a list with none is out of range.
  unfoldable pub sift_pods_for_stateful_set : List Fields → String → Result (List Fields)
  sift_pods_for_stateful_set [] uid = ok []
  sift_pods_for_stateful_set (pod ∷ pods) uid =
      let rest = sift_pods_for_stateful_set pods uid in
      elim (u.get_owner_references pod) [
        | none ↦ rest
        | some [] ↦ panic
        | some (owner ∷ _) ↦ if owner == uid then (do kept ← rest; ok (pod ∷ kept)) else rest
      ]

  unfoldable pub claims_of_pods : List Fields → Result (List Fields)
  unfolding check_pod_volumes_dependency
  claims_of_pods [] = ok []
  claims_of_pods (pod ∷ pods) =
      let rest = claims_of_pods pods in
      do here ← check_pod_volumes_dependency pod; later ← rest; ok (here ++ later)

  -- The last loop appends objects that point to the range variable `u`, which is one variable for
  -- the whole loop: all of them have the content that it holds at the end.
  unfoldable pub share_content : ObjResource → List Fields → List ObjResource
  share_content objr contents =
      map
        (λ content. record {
          unstructured = last_or content contents;
          gvr = gvk_to_gvr (u.group_version_kind content);
          namespaced = true;
          action = objr.action;
        })
        contents

  unfoldable pub stateful_set_dependency_check : ObjResource → Result (List ObjResource)
  unfolding sift_pods_for_stateful_set claims_of_pods share_content
  stateful_set_dependency_check objr = do
    pods ← client.list pod_gvr
    owned ← sift_pods_for_stateful_set pods (u.get_uid objr.unstructured)
    claims ← claims_of_pods owned
    ok (share_content objr claims)

  abbrev pub check_if : Bool → Result (List ObjResource) → Result (List ObjResource)
  check_if b found = if b then found else ok []

  -- getDependencies with the checkers of the worker, each after its ShouldCheck.
  unfoldable pub get_dependencies : ObjResource → Result (List ObjResource)
  unfolding pvc_dependency_check stateful_set_dependency_check
  get_dependencies objr = do
    pvs ← check_if (gvr_eq objr.gvr persistent_volume_claim_gvr) (pvc_dependency_check objr)
    pvcs ← check_if (gvr_eq objr.gvr stateful_set_gvr) (stateful_set_dependency_check objr)
    ok (pvs ++ pvcs)
