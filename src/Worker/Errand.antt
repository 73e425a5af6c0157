-- ===== src/Worker/Errand.antt =====
-- What the filters leave alone of an object.
use dr.Base.{
  ◌≡◌, refl, ◌∙◌, arith, String, Bool, true, false, List, [], ◌∷◌, Result-cases, Option-cases, inl,
  inr, if◌then◌else◌,
}
use dr.Api.{UnstructuredApi, ObjResource, DrFilterConfig, VariableDelete, gvk_eq}
use dr.Filter.{
  Filter, Filtered, white_list_filter, variable_mapping_filter, variable_delete_filter, pvc_filter,
  out, variable_delete_out, do_delete_variables, delete_for_kinds, delete_for_objects, hits,
}
use dr.Worker.Rounds.{run_filters, filter}

-- The identity of an object on its way: its resource, its scope and what is to be done with it.
abbrev pub SameErrand : ObjResource → ObjResource → Type 0
SameErrand a b = (a.gvr ≡ b.gvr) × (a.namespaced ≡ b.namespaced) × (a.action ≡ b.action)

SameErrand-trans : (a b c : ObjResource) → SameErrand a b → SameErrand b c → SameErrand a c
SameErrand-trans a b c (p, q, r) (p', q', r') = (p ∙ p', q ∙ q', r ∙ r')

module _ (u : UnstructuredApi) where
  do_delete_variables-SameErrand :
      (rules : List String) (objr : ObjResource)
      → SameErrand (do_delete_variables u rules objr) objr
  unfolding do_delete_variables
  do_delete_variables-SameErrand [] objr = (refl, refl, refl)
  do_delete_variables-SameErrand (r ∷ rules) objr = do_delete_variables-SameErrand rules _

  delete_if-SameErrand :
      (b : Bool) (rules : List String) (objr : ObjResource)
      → SameErrand (if b then do_delete_variables u rules objr else objr) objr
  delete_if-SameErrand true rules objr = do_delete_variables-SameErrand rules objr
  delete_if-SameErrand false rules objr = (refl, refl, refl)

  then_delete :
      (b : Bool) (rules : List String) (objr : ObjResource) (rest : ObjResource → Filtered)
      → ((o : ObjResource) → SameErrand (rest o).0 o)
      → SameErrand (rest (if b then do_delete_variables u rules objr else objr)).0 objr
  then_delete b rules objr rest h =
      let objr' = if b then do_delete_variables u rules objr else objr in
      SameErrand-trans (rest objr').0 objr' objr (h objr') (delete_if-SameErrand b rules objr)

  delete_for_kinds-SameErrand :
      (ds : List VariableDelete) (objr : ObjResource)
      → SameErrand (delete_for_kinds u ds objr).0 objr
  unfolding delete_for_kinds
  delete_for_kinds-SameErrand [] objr = (refl, refl, refl)
  delete_for_kinds-SameErrand (d ∷ ds) objr = elim (Option-cases d.kind) [
    | inl nil ↦ rw (nil, delete_for_kinds) (refl, refl, refl)
    | inr (k, e) ↦
        rw (e, delete_for_kinds)
          (then_delete (gvk_eq (u.group_version_kind objr.unstructured) k) d.key_value_delete objr
            (delete_for_kinds u ds) (delete_for_kinds-SameErrand ds))
  ]

  delete_for_objects-SameErrand :
      (ds : List VariableDelete) (objr : ObjResource)
      → SameErrand (delete_for_objects u ds objr).0 objr
  unfolding delete_for_objects
  delete_for_objects-SameErrand [] objr = (refl, refl, refl)
  delete_for_objects-SameErrand (d ∷ ds) objr = elim (Result-cases (hits u objr d)) [
    | inl (b, e) ↦
        rw (e, delete_for_objects)
          (then_delete b d.key_value_delete objr (delete_for_objects u ds)
            (delete_for_objects-SameErrand ds))
    | inr (inl (x, e)) ↦ rw (e, delete_for_objects) (refl, refl, refl)
    | inr (inr e) ↦ rw (e, delete_for_objects) (refl, refl, refl)
  ]

  variable_delete_out-SameErrand :
      (c : DrFilterConfig) (objr : ObjResource) → SameErrand (variable_delete_out u c objr).0 objr
  unfolding variable_delete_out
  variable_delete_out-SameErrand c objr = elim (Option-cases c.variable_delete_filter) [
    | inl nil ↦ rw (nil, variable_delete_out) (refl, refl, refl)
    | inr (d, e) ↦
        let kinds = delete_for_kinds-SameErrand d.kind_delete_list objr in
        let objr' = (delete_for_kinds u d.kind_delete_list objr).0 in
        ground (
          arith,
          kinds,
          SameErrand-trans (delete_for_objects u d.object_delete_list objr').0 objr' objr
              (delete_for_objects-SameErrand d.object_delete_list objr') kinds,
        )
  ]

  out-SameErrand : (f : Filter) (objr : ObjResource) → SameErrand (out u f objr).0 objr
  unfolding out
  out-SameErrand (white_list_filter c) objr = ground arith
  out-SameErrand (variable_mapping_filter c) objr = ground arith
  out-SameErrand (variable_delete_filter c) objr = variable_delete_out-SameErrand c objr
  out-SameErrand pvc_filter objr = ground arith

  run_filters-SameErrand :
      (passed : Bool) (fs : List Filter) (objr : ObjResource)
      → SameErrand (run_filters u passed fs objr).0 objr
  unfolding run_filters
  run_filters-SameErrand passed [] objr = (refl, refl, refl)
  run_filters-SameErrand passed (f ∷ fs) objr =
      let here = out-SameErrand f objr in
      let later =
        SameErrand-trans (run_filters u true fs (out u f objr).0).0 (out u f objr).0 objr
          (run_filters-SameErrand true fs (out u f objr).0) here in
      elim (Result-cases (out u f objr).1) [
        | inl (_, e) ↦ rw (e, run_filters) later
        | inr (inl (x, e)) ↦ rw (e, run_filters) here
        | inr (inr e) ↦ rw (e, run_filters) here
      ]

  -- Filters may change the content of an object, but never its resource, its scope or the action
  -- that is asked for, whichever filters there are and however they end.
  pub filter-SameErrand :
      (fs : List Filter) (objr : ObjResource) → SameErrand (filter u fs objr).0 objr
  unfolding filter
  filter-SameErrand fs objr = run_filters-SameErrand false fs objr
