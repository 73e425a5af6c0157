-- ===== src/Filter/VariableDelete.antt =====
-- variabledeletefilter/filter.go. A dereferenced nil pointer is a panic.
use dr.Base.{
  String, ◌==◌, ◌&&◌, Bool, false, none, some, List, [], ◌∷◌, Result, ok, panic, if◌then◌else◌,
}
use dr.Base.Text.{split}
use dr.Api.{
  UnstructuredApi, ObjResource, DrFilterConfig, VariableDelete, GroupVersionKind,
  GroupVersionKindObject, gvk_eq,
}
use dr.Filter.Defs.{Filtered}

module _ (u : UnstructuredApi) where
  -- doDeleteVariables
  unfoldable pub do_delete_variables : List String → ObjResource → ObjResource
  do_delete_variables [] objr = objr
  do_delete_variables (path ∷ rules) objr =
      do_delete_variables rules
        (record objr { unstructured = u.remove_nested_field objr.unstructured (split "," path) })

  kind_of : ObjResource → GroupVersionKind
  kind_of objr = u.group_version_kind objr.unstructured

  unfoldable pub delete_for_kinds : List VariableDelete → ObjResource → Filtered
  unfolding kind_of
  delete_for_kinds [] objr = (objr, ok tt)
  delete_for_kinds (d ∷ ds) objr =
      let rest = λ (kind : GroupVersionKind). delete_for_kinds ds (
        if gvk_eq (kind_of objr) kind then do_delete_variables d.key_value_delete objr else objr) in
      elim d.kind [ none ↦ (objr, panic) | some kind ↦ rest kind ]

  same_key : ObjResource → GroupVersionKindObject → Bool
  same_key objr o =
      u.get_namespace objr.unstructured == o.object_key.namespace
      && u.get_name objr.unstructured == o.object_key.name

  -- `&&` reads the object key only where the kind fits.
  unfoldable pub hits : ObjResource → VariableDelete → Result Bool
  unfolding kind_of same_key
  hits objr d = elim d.kind [
    | none ↦ panic
    | some kind ↦
        if gvk_eq (kind_of objr) kind
        then elim d.object [ none ↦ panic | some o ↦ ok (same_key objr o) ]
        else ok false
  ]

  unfoldable pub delete_for_objects : List VariableDelete → ObjResource → Filtered
  unfolding hits
  delete_for_objects [] objr = (objr, ok tt)
  delete_for_objects (d ∷ ds) objr =
      let rest = λ (hit : Bool).
        delete_for_objects ds (if hit then do_delete_variables d.key_value_delete objr else objr) in
      elim (hits objr d) [ ok hit ↦ rest hit | _ ↦ (objr, panic) ]

  unfoldable pub variable_delete_out : DrFilterConfig → ObjResource → Filtered
  variable_delete_out config objr = elim config.variable_delete_filter [
    | none ↦ (objr, panic)
    | some c ↦
        let (objr', r) = delete_for_kinds c.kind_delete_list objr in
        elim r [ ok _ ↦ delete_for_objects c.object_delete_list objr' | _ ↦ (objr', panic) ]
  ]
