-- ===== src/Worker/Passing.antt =====
-- What the filters of a configuration let through.
use dr.Base.{
  ◌≡◌, sym, ap, ◌∙◌, arith, String, Bool, true, false, List, [], ◌∷◌, some, Error, ok, err, panic,
  no_pass_filter, Result-cases, Bool-cases, Option-cases, inl, inr, ◌⊎◌, eq_iff, Any, any, any→Any,
  is_some, ◌≢◌,
}
use dr.Api.{
  UnstructuredApi, ObjResource, DrFilterConfig, WhiteListFilterConfig, GroupVersionKindObject,
  gvk_eq, gvk_eq_iff, gvr_eq_iff, persistent_volume_claim_gvr,
}
use dr.Filter.{
  Filter, white_list_filter, variable_mapping_filter, variable_delete_filter, pvc_filter, out,
  white_list_out, build_filters, listed, filter_if,
}
use dr.Worker.Rounds.{run_filters, filter}

-- The kind of the object is listed, or its name is that of a listed object, which may be of another
-- kind and namespace.
abbrev pub SharesKindOrName : UnstructuredApi → WhiteListFilterConfig → ObjResource → Type 0
SharesKindOrName u w objr =
    Any (λ gvk. u.group_version_kind objr.unstructured ≡ gvk) w.kind_white_list
    ⊎ Any (λ (o : GroupVersionKindObject). u.get_name objr.unstructured ≡ o.object_key.name)
        w.object_white_list

module _ (u : UnstructuredApi) where
  listed→SharesKindOrName :
      (w : WhiteListFilterConfig) (objr : ObjResource)
      → listed u w objr ≡ true
      → SharesKindOrName u w objr
  unfolding listed
  listed→SharesKindOrName w objr h =
      elim (Bool-cases
        (any (λ gvk. gvk_eq (u.group_version_kind objr.unstructured) gvk) w.kind_white_list)) [
          | inl kind ↦ inl (any→Any _ _ w.kind_white_list (λ gvk e. (gvk_eq_iff _ gvk).0 e) kind)
          | inr other ↦ inr (
              any→Any _ _ w.object_white_list (λ o e. (eq_iff _ o.object_key.name).0 e)
                (rw other at h))
        ]

  -- The volume that a claim names.
  abbrev pub volume_name : ObjResource → String
  volume_name objr = (u.nested_string objr.unstructured ("spec" ∷ "volumeName" ∷ [])).value

  abbrev IsPvc : Filter → Type 0
  IsPvc pvc_filter = Unit
  IsPvc _ = ⊥

  abbrev EndsWithPvc : List Filter → Type 0
  EndsWithPvc [] = ⊥
  EndsWithPvc (f ∷ []) = IsPvc f
  EndsWithPvc (_ ∷ f ∷ fs) = EndsWithPvc (f ∷ fs)

  module _ (passed : Bool) (f : Filter) (fs : List Filter) (objr : ObjResource) where
    run_filters_passed :
        (out u f objr).1 ≡ ok tt
        → run_filters u passed (f ∷ fs) objr ≡ run_filters u true fs (out u f objr).0
    unfolding run_filters
    run_filters_passed e = rw (e, run_filters)

    run_filters_failed :
        {x : Error}
        → (out u f objr).1 ≡ err x
        → run_filters u passed (f ∷ fs) objr ≡ ((out u f objr).0, err x)
    unfolding run_filters
    run_filters_failed e = rw (e, run_filters)

    run_filters_panic :
        (out u f objr).1 ≡ panic → run_filters u passed (f ∷ fs) objr ≡ ((out u f objr).0, panic)
    unfolding run_filters
    run_filters_panic e = rw (e, run_filters)

  run_filters_pvc :
      (passed : Bool) (fs : List Filter) (objr final : ObjResource)
      → EndsWithPvc fs
      → run_filters u passed fs objr ≡ (final, ok true)
      → final.gvr ≡ persistent_volume_claim_gvr
      → volume_name final ≢ ""
  unfolding run_filters out
  run_filters_pvc passed [] objr final ends h = absurd ends
  run_filters_pvc passed (pvc_filter ∷ []) objr final ends h =
      ground (arith, gvr_eq_iff objr.gvr persistent_volume_claim_gvr, eq_iff (volume_name objr) "")
  run_filters_pvc passed (white_list_filter _ ∷ []) objr final ends h = absurd ends
  run_filters_pvc passed (variable_mapping_filter _ ∷ []) objr final ends h = absurd ends
  run_filters_pvc passed (variable_delete_filter _ ∷ []) objr final ends h = absurd ends
  run_filters_pvc passed (f ∷ g ∷ fs) objr final ends h = elim (Result-cases (out u f objr).1) [
    | inl (_, e) ↦
        run_filters_pvc true (g ∷ fs) (out u f objr).0 final ends
          (sym (run_filters_passed passed f (g ∷ fs) objr e) ∙ h)
    | inr (inl (x, e)) ↦ cc (h, run_filters_failed passed f (g ∷ fs) objr e)
    | inr (inr e) ↦ cc (h, run_filters_panic passed f (g ∷ fs) objr e)
  ]

  ends_with_pvc :
      (m d : Bool) (c : DrFilterConfig)
      → EndsWithPvc (
          white_list_filter c
          ∷ filter_if m
              (variable_mapping_filter c)
              (filter_if d (variable_delete_filter c) (pvc_filter ∷ [])))
  ends_with_pvc true true c = tt
  ends_with_pvc true false c = tt
  ends_with_pvc false true c = tt
  ends_with_pvc false false c = tt

  filter_ok :
      (fs : List Filter) (objr final : ObjResource)
      → filter u fs objr ≡ (final, ok true)
      → run_filters u false fs objr ≡ (final, ok true)
  unfolding filter
  filter_ok fs objr final h = ground arith

  white_list_out_unlisted :
      (c : DrFilterConfig) (w : WhiteListFilterConfig) (objr : ObjResource)
      → c.white_list_filter ≡ some w
      → listed u w objr ≡ false
      → white_list_out u c objr ≡ (objr, err no_pass_filter)
  unfolding white_list_out
  white_list_out_unlisted c w objr e off = rw (e, white_list_out, off)

  listed_of_ok :
      (c : DrFilterConfig) (objr : ObjResource)
      → (white_list_out u c objr).1 ≢ err no_pass_filter
      → (w : WhiteListFilterConfig) × (c.white_list_filter ≡ some w) × (listed u w objr ≡ true)
  unfolding white_list_out
  listed_of_ok c objr h = elim (Option-cases c.white_list_filter) [
    | inl nil ↦ absurd (h (rw nil))
    | inr (w, e) ↦ elim (Bool-cases (listed u w objr)) [
      | inl on ↦ (w, e, on)
      | inr off ↦ absurd (h (rw (e, off)))
    ]
  ]

  -- What the filters of a configuration pass had a kind of the white list as it came in, or only
  -- the name of an object on it, whatever the kind and the namespace of either; and it names its
  -- volume if it goes out as a claim.
  pub filter-build_filters :
      (c : DrFilterConfig) (objr final : ObjResource)
      → filter u (build_filters c) objr ≡ (final, ok true)
      → ((w : WhiteListFilterConfig) × (c.white_list_filter ≡ some w) × SharesKindOrName u w objr)
        × (final.gvr ≡ persistent_volume_claim_gvr → volume_name final ≢ "")
  unfolding filter build_filters out white_list_out
  filter-build_filters c objr final h =
      let fs = filter_if (is_some c.variable_mapping_filter) (variable_mapping_filter c) (
        filter_if (is_some c.variable_delete_filter) (variable_delete_filter c)
          (pvc_filter ∷ [])) in
      let ran = filter_ok (white_list_filter c ∷ fs) objr final h in
      let (w, e, on) =
        listed_of_ok c objr
          (λ x. cc (run_filters_failed false (white_list_filter c) fs objr x, ran)) in
      (
        (w, e, listed→SharesKindOrName w objr on),
        run_filters_pvc false (white_list_filter c ∷ fs) objr final
            (ends_with_pvc (is_some c.variable_mapping_filter) (is_some c.variable_delete_filter) c)
            ran,
      )

  -- An object with neither a kind of the white list nor the name of an object on it is refused
  -- without an error, and nothing of it is changed.
  pub filter_unlisted :
      (c : DrFilterConfig) (w : WhiteListFilterConfig) (objr : ObjResource)
      → c.white_list_filter ≡ some w
      → ¬ SharesKindOrName u w objr
      → filter u (build_filters c) objr ≡ (objr, ok false)
  unfolding filter build_filters out
  filter_unlisted c w objr e h = elim (Bool-cases (listed u w objr)) [
    | inl on ↦ absurd (h (listed→SharesKindOrName w objr on))
    | inr off ↦
        let refused = white_list_out_unlisted c w objr e off in
        ground
          (arith, run_filters_failed false (white_list_filter c) _ objr (ap (λ p. p.1) refused))
  ]
