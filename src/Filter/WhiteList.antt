-- ===== src/Filter/WhiteList.antt =====
-- whitelistfilter/filter.go
use dr.Base.{◌==◌, ◌||◌, Bool, none, some, ok, err, no_pass_filter, any, if◌then◌else◌}
use dr.Api.{UnstructuredApi, ObjResource, DrFilterConfig, WhiteListFilterConfig, gvk_eq}
use dr.Filter.Defs.{Filtered}

module _ (u : UnstructuredApi) where
  -- The two loops, which return at the first entry that fits.
  unfoldable pub listed : WhiteListFilterConfig → ObjResource → Bool
  listed w objr =
      any (λ gvk. gvk_eq (u.group_version_kind objr.unstructured) gvk) w.kind_white_list
      || any (λ o. u.get_name objr.unstructured == o.object_key.name) w.object_white_list

  unfoldable pub white_list_out : DrFilterConfig → ObjResource → Filtered
  unfolding listed
  white_list_out config objr = elim config.white_list_filter [
    | none ↦ (objr, err no_pass_filter)
    | some w ↦ (objr, if listed w objr then ok tt else err no_pass_filter)
  ]
