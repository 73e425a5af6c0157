-- ===== src/Filter/DefaultLaws.antt =====
-- What addDefaultConfig makes of a white list, and what the delete filter then does.
use dr.Base.{
  ◌≡◌, refl, ap, ◌∙◌, arith, List, [], ◌∷◌, ◌++◌, map, ℕ, zero, none, some, suc, length, replicate,
  last_or, Any, Any-append_right, panic, inl, inr, Result-cases,
}
use mathlib.Core.List.{append-nil, append_assoc}
use dr.Api.{
  UnstructuredApi, ObjResource, DrFilterConfig, WhiteListFilterConfig, VariableDelete,
  VariableDeleteFilterConfig, GroupVersionKind, GroupVersionKindObject,
}
use dr.Filter.VariableDelete.{delete_for_kinds, delete_for_objects, variable_delete_out, hits}
use dr.Filter.Factory.{
  Entry, kind_entry, object_entry, append_loop, appended, delete_config_or_empty,
  add_default_config, append_kinds, append_objects, white_list_or_empty,
}

-- The loop ends with the last item in its variable, and one function for each item.
append_loop_lem {ℓ} :
    {A : Type ℓ} (entry : Entry A) (x : A) (xs : List A) (es : List (Entry A))
    → append_loop entry x xs es ≡ (last_or x xs, es ++ replicate (length xs) entry)
unfolding append_loop
append_loop_lem entry x [] es = rw append-nil
append_loop_lem entry x (y ∷ xs) es =
    append_loop_lem entry y xs (es ++ (entry ∷ [])) ∙ rw append_assoc

map-replicate {ℓ κ} :
    {A : Type ℓ} {B : Type κ} (f : A → B) (n : ℕ) (a : A)
    → map f (replicate n a) ≡ replicate n (f a)
map-replicate f zero a = refl
map-replicate f (suc n) a = ap (λ l. f a ∷ l) (map-replicate f n a)

pub appended_lem {ℓ} :
    {A : Type ℓ} (entry : Entry A) (x : A) (xs : List A)
    → appended entry (x ∷ xs) ≡ replicate (length (x ∷ xs)) (entry (last_or x xs))
unfolding appended
appended_lem entry x xs =
    rw append_loop_lem (map-replicate (λ e. e (last_or x xs)) (length (x ∷ xs)) entry)

append_objects_kinds :
    (os : List GroupVersionKindObject) (c : DrFilterConfig)
    → (delete_config_or_empty (append_objects os c)).kind_delete_list
      ≡ (delete_config_or_empty c).kind_delete_list
unfolding append_objects
append_objects_kinds [] c = refl
append_objects_kinds (o ∷ os) c = refl

append_kinds_kinds :
    (l : List GroupVersionKind) (c : DrFilterConfig) (k : GroupVersionKind)
    (ks : List GroupVersionKind)
    → l ≡ k ∷ ks
    → (delete_config_or_empty (append_kinds l c)).kind_delete_list
      ≡ (delete_config_or_empty c).kind_delete_list
        ++ replicate (length (k ∷ ks)) (kind_entry (last_or k ks))
unfolding append_kinds
append_kinds_kinds l c k ks e = rw (e, append_kinds, appended_lem)

append_objects_objects :
    (l : List GroupVersionKindObject) (c : DrFilterConfig) (o : GroupVersionKindObject)
    (os : List GroupVersionKindObject)
    → l ≡ o ∷ os
    → (d : VariableDeleteFilterConfig) × ((append_objects l c).variable_delete_filter ≡ some d)
      × Any (λ d. d.kind ≡ none) d.object_delete_list
unfolding append_objects
append_objects_objects l c o os e =
    rw (e, append_objects)
      (
        _,
        refl,
        Any-append_right _ ((delete_config_or_empty c).object_delete_list)
            (appended object_entry (o ∷ os)) (rw appended_lem (Any.here refl)),
      )

-- For a white list of the kinds `k`, …, addDefaultConfig appends one delete rule for each kind to
-- the rules that are there, and every one of them names the LAST kind of the list.
pub kind_delete_list-add_default_config :
    (c : DrFilterConfig) (w : WhiteListFilterConfig) (k : GroupVersionKind)
    (ks : List GroupVersionKind)
    → c.white_list_filter ≡ some w
    → w.kind_white_list ≡ k ∷ ks
    → (delete_config_or_empty (add_default_config c)).kind_delete_list
      ≡ (delete_config_or_empty c).kind_delete_list
        ++ replicate (length (k ∷ ks)) (kind_entry (last_or k ks))
unfolding add_default_config
kind_delete_list-add_default_config c w k ks e f =
    append_objects_kinds (white_list_or_empty c).object_white_list _
    ∙ append_kinds_kinds (white_list_or_empty c).kind_white_list
        (record c { white_list_filter = some (white_list_or_empty c) }) k ks (ground arith)

module _ (u : UnstructuredApi) where
  delete_for_objects_nil_kind :
      (ds : List VariableDelete) (objr : ObjResource)
      → Any (λ d. d.kind ≡ none) ds
      → (delete_for_objects u ds objr).1 ≡ panic
  unfolding delete_for_objects hits
  delete_for_objects_nil_kind [] objr h = elim h [ ]
  delete_for_objects_nil_kind (d ∷ ds) objr (Any.here e) = rw (e, delete_for_objects)
  delete_for_objects_nil_kind (d ∷ ds) objr (Any.there h) = elim (Result-cases (hits u objr d)) [
    | inl (b, e) ↦ rw (e, delete_for_objects) (delete_for_objects_nil_kind ds _ h)
    | inr (inl (x, e)) ↦ rw (e, delete_for_objects)
    | inr (inr e) ↦ rw (e, delete_for_objects)
  ]

  variable_delete_out_nil_kind :
      (c : DrFilterConfig) (objr : ObjResource) (d : VariableDeleteFilterConfig)
      → c.variable_delete_filter ≡ some d
      → Any (λ d. d.kind ≡ none) d.object_delete_list
      → (variable_delete_out u c objr).1 ≡ panic
  unfolding variable_delete_out
  variable_delete_out_nil_kind c objr d e h = ground (
    arith,
    delete_for_objects_nil_kind d.object_delete_list (delete_for_kinds u d.kind_delete_list objr).0
        h,
  )

  -- A white list that names an object makes the delete filter panic, for every object that
  -- reaches it: the rule that addDefaultConfig appends for it has no kind, and is read through.
  pub variable_delete_out-add_default_config :
      (c : DrFilterConfig) (w : WhiteListFilterConfig) (o : GroupVersionKindObject)
      (os : List GroupVersionKindObject) (objr : ObjResource)
      → c.white_list_filter ≡ some w
      → w.object_white_list ≡ o ∷ os
      → (variable_delete_out u (add_default_config c) objr).1 ≡ panic
  unfolding add_default_config variable_delete_out
  variable_delete_out-add_default_config c w o os objr e f =
      let (d, same, nil) =
        append_objects_objects (white_list_or_empty c).object_white_list
          (append_kinds (white_list_or_empty c).kind_white_list
            (record c { white_list_filter = some (white_list_or_empty c) }))
          o os (ground arith) in
      variable_delete_out_nil_kind (add_default_config c) objr d same nil
