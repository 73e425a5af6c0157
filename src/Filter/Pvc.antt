-- ===== src/Filter/Pvc.antt =====
-- pvcfilter/filter.go
use dr.Base.{◌==◌, not, ◌∷◌, [], ok, err, no_pass_filter, if◌then◌else◌}
use dr.Api.{UnstructuredApi, ObjResource, gvr_eq, persistent_volume_claim_gvr}
use dr.Filter.Defs.{Filtered}

module _ (u : UnstructuredApi) where
  unfoldable pub pvc_out : ObjResource → Filtered
  pvc_out objr =
      if not (gvr_eq objr.gvr persistent_volume_claim_gvr)
      then (objr, ok tt)
      else if (u.nested_string objr.unstructured ("spec" ∷ "volumeName" ∷ [])).value == ""
      then (objr, err no_pass_filter)
      else (objr, ok tt)
