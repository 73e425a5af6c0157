-- ===== src/Filter/MappingLaws.antt =====
-- What the mapping filter leaves alone, where it panics, and how a path goes through a slice.
use dr.Base.{
  ◌≡◌, refl, ◌==◌, arith, String, true, false, List, [], ◌∷◌, some, panic, Option-cases, inl, inr,
  All,
}
use dr.Base.Dict.{Dict}
use dr.Base.Text.{split}
use dr.Api.{
  UnstructuredApi, ObjResource, DrFilterConfig, VariableMapping, VariableMappings, Value, Items,
  nil, cons, Fields, get, get-put, arr, obj,
}
use dr.Filter.VariableMapping.{
  each, iterate_path, set_element, map_at, map_entries, map_for_kinds, variable_mapping_out,
}

-- The path of a mapping does not begin at the top-level key.
abbrev pub StartsElsewhere : String → List String → Type 0
StartsElsewhere key [] = Unit
StartsElsewhere key (k ∷ path) = (k == key) ≡ false

abbrev pub SparesKey : String → VariableMappings → Type 0
SparesKey key c = All (λ e. StartsElsewhere key (split "," e.0)) c.key_value_mappings

module _ (u : UnstructuredApi) (key : String) where
  get-map_at :
      (path : List String) (v : VariableMapping) (m : Fields)
      → StartsElsewhere key path
      → get key (map_at u path v m).0 ≡ get key m
  unfolding map_at
  get-map_at [] v m e = refl
  get-map_at (k ∷ path) v m e = elim (Option-cases (get k m)) [
    | inl gone ↦ ground (arith)
    | inr (x, here) ↦ ground (arith, get-put k key (iterate_path u path v x).0 m)
  ]

  get-map_entries :
      (es : Dict VariableMapping) (m : Fields)
      → All (λ e. StartsElsewhere key (split "," e.0)) es
      → get key (map_entries u es m).0 ≡ get key m
  unfolding map_entries
  get-map_entries [] m h = refl
  get-map_entries ((k, v) ∷ es) m (e, h) =
      ground
        (arith, get-map_at (split "," k) v m e, get-map_entries es (map_at u (split "," k) v m).0 h)

  get-map_for_kinds :
      (cs : List VariableMappings) (m : Fields)
      → All (SparesKey key) cs
      → get key (map_for_kinds u cs m).0 ≡ get key m
  unfolding map_for_kinds
  get-map_for_kinds [] m h = refl
  get-map_for_kinds (c ∷ cs) m (e, h) = ground (
    arith,
    get-map_entries c.key_value_mappings m e,
    get-map_for_kinds cs m h,
    get-map_for_kinds cs (map_entries u c.key_value_mappings m).0 h,
  )

  -- A top-level field of an object at which no path of the configuration begins is the same after
  -- the mapping filter, also where the filter fails or panics on the way.
  pub get-variable_mapping_out :
      (config : DrFilterConfig) (objr : ObjResource)
      → ((c : _)
          → config.variable_mapping_filter ≡ some c
          → All (SparesKey key) c.kind_variable_mappings)
      → get key (variable_mapping_out u config objr).0.unstructured ≡ get key objr.unstructured
  unfolding variable_mapping_out
  get-variable_mapping_out config objr h = elim (Option-cases config.variable_mapping_filter) [
    | inl e ↦ ground arith
    | inr (c, e) ↦
        ground (arith, get-map_for_kinds c.kind_variable_mappings objr.unstructured (h c e))
  ]

module _ (u : UnstructuredApi) where
  -- A mapping whose key is one segment panics where an object has a map at that
  -- field.
  pub map_entries_one_segment :
      (k : String) (v : VariableMapping) (es : Dict VariableMapping) (m fs : Fields)
      → split "," k ≡ k ∷ []
      → u.nested_field_exists m (k ∷ []) ≡ true
      → get k m ≡ some (obj fs)
      → (map_entries u ((k, v) ∷ es) m).1 ≡ panic
  unfolding map_entries map_at iterate_path
  map_entries_one_segment k v es m fs one there e = ground arith

  abbrev pub IsMap : Value → Type 0
  IsMap (obj _) = Unit
  IsMap _ = ⊥

  abbrev pub AllMaps : Items → Type 0
  AllMaps nil = Unit
  AllMaps (cons x xs) = IsMap x × AllMaps xs

  iterate_path_map :
      (key : String) (v : VariableMapping) (x : Value)
      → IsMap x
      → iterate_path u (key ∷ []) v x ≡ set_element u v (key ∷ []) x
  unfolding iterate_path set_element
  iterate_path_map key v (obj m) h = refl
  iterate_path_map key v x h = absurd h

  each_map :
      (key : String) (v : VariableMapping) (xs : Items)
      → AllMaps xs
      → each (iterate_path u (key ∷ []) v) xs ≡ each (set_element u v (key ∷ [])) xs
  unfolding each
  each_map key v nil h = refl
  each_map key v (cons x xs) (h, hs) =
      ground (arith, iterate_path_map key v x h, each_map key v xs hs)

  -- Before the last key of a path, a slice of maps may be passed with a segment of its own or
  -- without one: both ways set the same fields, with the same outcome. The segment is not read.
  pub iterate_path_slice :
      (any_segment key : String) (v : VariableMapping) (xs : Items)
      → AllMaps xs
      → iterate_path u (any_segment ∷ key ∷ []) v (arr xs) ≡ iterate_path u (key ∷ []) v (arr xs)
  unfolding iterate_path
  iterate_path_slice any_segment key v xs h = rw (each_map key v xs h)
