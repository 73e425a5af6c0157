-- ===== src/Worker/Stripping.antt =====
-- What addDefaultConfig and the filters do together with the UIDs of the objects that pass.
use dr.Base.{
  ◌≡◌, arith, String, Bool, true, false, List, [], ◌∷◌, none, some, ok, if◌then◌else◌, last_or,
  Result-cases, Option-cases, inl, inr, replicate, length, ◌∙◌, sym, ◌≢◌, Any,
}
use dr.Base.Text.{split}
use dr.Api.{
  UnstructuredApi, ObjResource, DrFilterConfig, WhiteListFilterConfig, VariableDelete,
  GroupVersionKind, gvk_eq, gvk_eq_iff,
}
use dr.Filter.{
  out, white_list_filter, variable_delete_filter, pvc_filter, build_filters, add_default_config,
  append_kinds, append_objects, kind_entry, white_list_out, variable_delete_out, pvc_out, listed,
  delete_for_kinds, delete_for_objects, do_delete_variables,
}
use dr.Filter.DefaultLaws.{appended_lem}
use dr.Transport.Remote.{RemovesIdentity}
use dr.Worker.Passing.{SharesKindOrName, filter-build_filters}
use dr.Worker.Starvation.{NeverPasses}
use dr.Worker.Rounds.{run_filters, filter}

-- A configuration of a list of kinds and nothing else.
abbrev pub kinds_config : GroupVersionKind → List GroupVersionKind → DrFilterConfig
kinds_config k ks = record {
  variable_delete_filter = none;
  variable_mapping_filter = none;
  white_list_filter = some (record { object_white_list = []; kind_white_list = k ∷ ks });
}

white_list_of :
    (k : GroupVersionKind) (w : WhiteListFilterConfig)
    → (add_default_config (kinds_config k [])).white_list_filter ≡ some w
    → record { object_white_list = []; kind_white_list = k ∷ [] } ≡ w
unfolding add_default_config append_kinds append_objects
white_list_of k w e = cc e

module _ (u : UnstructuredApi) where
  HasNoUid : ObjResource → Type 0
  HasNoUid objr = u.get_uid objr.unstructured ≡ ""

  module _ (L : RemovesIdentity u) where
    do_delete_variables-HasNoUid :
        (rules : List String) (objr : ObjResource)
        → HasNoUid objr
        → HasNoUid (do_delete_variables u rules objr)
    unfolding do_delete_variables HasNoUid
    do_delete_variables-HasNoUid [] objr h = h
    do_delete_variables-HasNoUid (r ∷ rules) objr h =
        do_delete_variables-HasNoUid rules _ (L.uid_kept objr.unstructured (split "," r) h)

    delete_if-HasNoUid :
        (b : Bool) (rules : List String) (objr : ObjResource)
        → HasNoUid objr
        → HasNoUid (if b then do_delete_variables u rules objr else objr)
    delete_if-HasNoUid true rules objr h = do_delete_variables-HasNoUid rules objr h
    delete_if-HasNoUid false rules objr h = h

    delete_for_kinds-HasNoUid :
        (ds : List VariableDelete) (objr : ObjResource)
        → HasNoUid objr
        → HasNoUid (delete_for_kinds u ds objr).0
    unfolding delete_for_kinds
    delete_for_kinds-HasNoUid [] objr h = h
    delete_for_kinds-HasNoUid (d ∷ ds) objr h = elim (Option-cases d.kind) [
      | inl e ↦ rw (e, delete_for_kinds) h
      | inr (k, e) ↦
          rw (e, delete_for_kinds)
            (delete_for_kinds-HasNoUid ds _ (
              delete_if-HasNoUid (gvk_eq (u.group_version_kind objr.unstructured) k)
                d.key_value_delete objr h))
    ]

    uid_deleted :
        (k : GroupVersionKind) (ds : List VariableDelete) (objr : ObjResource)
        → u.group_version_kind objr.unstructured ≡ k
        → HasNoUid (delete_for_kinds u (kind_entry k ∷ ds) objr).0
    unfolding delete_for_kinds do_delete_variables HasNoUid split
    uid_deleted k ds objr e =
        rw ((gvk_eq_iff (u.group_version_kind objr.unstructured) k).1 e)
          (delete_for_kinds-HasNoUid ds _ (L.uid_removed objr.unstructured))

  passed_through :
      (c : DrFilterConfig) (objr final : ObjResource)
      → filter u (white_list_filter c ∷ variable_delete_filter c ∷ pvc_filter ∷ []) objr
        ≡ (final, ok true)
      → final ≡ (variable_delete_out u c objr).0
  unfolding filter run_filters out white_list_out pvc_out
  passed_through c objr final h = ground arith

  kind_of_listed :
      (k : GroupVersionKind) (objr : ObjResource) (w : WhiteListFilterConfig)
      → (add_default_config (kinds_config k [])).white_list_filter ≡ some w
      → SharesKindOrName u w objr
      → u.group_version_kind objr.unstructured ≡ k
  unfolding add_default_config append_kinds append_objects
  kind_of_listed k objr w e (inl on) = elim (rw (sym (white_list_of k w e)) at on) [
    | Any.here same ↦ same
    | Any.there none_left ↦ elim none_left [ ]
  ]
  kind_of_listed k objr w e (inr on) = elim (rw (sym (white_list_of k w e)) at on) [ ]

  module _ (L : RemovesIdentity u) where
    delete_out-HasNoUid :
        (k : GroupVersionKind) (ks : List GroupVersionKind) (objr : ObjResource)
        → u.group_version_kind objr.unstructured ≡ last_or k ks
        → HasNoUid (variable_delete_out u (add_default_config (kinds_config k ks)) objr).0
    unfolding variable_delete_out add_default_config append_kinds append_objects delete_for_objects
        HasNoUid delete_for_kinds
    delete_out-HasNoUid k ks objr e =
        let last = last_or k ks in
        let rules = replicate (length ks) (kind_entry last) in
        let deleted = uid_deleted L last rules objr e in
        rw (appended_lem kind_entry k ks)
          (elim (Result-cases (delete_for_kinds u (kind_entry last ∷ rules) objr).1) [
            | inl (_, r) ↦ rw r deleted
            | inr (inl (_, r)) ↦ rw r deleted
            | inr (inr r) ↦ rw r deleted
          ])

    -- With an API that removes fields as documented: from a white list of kinds alone,
    -- addDefaultConfig makes filters that take the UID of every object of the last kind that they
    -- pass.
    pub get_uid-filter :
        (k : GroupVersionKind) (ks : List GroupVersionKind) (objr final : ObjResource)
        → u.group_version_kind objr.unstructured ≡ last_or k ks
        → filter u (build_filters (add_default_config (kinds_config k ks))) objr ≡ (final, ok true)
        → u.get_uid final.unstructured ≡ ""
    unfolding build_filters add_default_config append_kinds append_objects HasNoUid
    get_uid-filter k ks objr final e h =
        rw (passed_through (add_default_config (kinds_config k ks)) objr final h)
          (delete_out-HasNoUid k ks objr e)

    -- The same for a white list of one kind: nothing that its filters pass carries any other UID
    -- than the empty one.
    pub one_kind-NeverPasses :
        (k : GroupVersionKind) (uid : String)
        → uid ≢ ""
        → NeverPasses u (build_filters (add_default_config (kinds_config k []))) uid
    unfolding add_default_config append_kinds append_objects listed
    one_kind-NeverPasses k uid nonempty objr final h same =
        let ((w, e, on), _) =
          filter-build_filters u (add_default_config (kinds_config k [])) objr final h in
        nonempty (sym same ∙ get_uid-filter k [] objr final (kind_of_listed k objr w e on) h)
