-- ===== src/Filter/VariableMapping.antt =====
-- variablemappingfilter/filter.go. The walk changes the object in place, so each step gives the
-- value as it leaves it beside its outcome; what was changed before a fault stays changed. The
-- texts of errors are only logged, and those of strconv stand here in short.
use dr.Base.{
  String, Option, none, some, List, [], ◌∷◌, Result, Error, ok, err, panic, failure, if◌then◌else◌,
}
use dr.Base.Dict.{Dict}
use dr.Base.Text.{split, replace_one, atoi, parse_bool}
use dr.Api.{
  UnstructuredApi, ObjResource, DrFilterConfig, VariableMapping, VariableMappings, Value, null,
  bool, int, float, str, arr, obj, Items, nil, cons, Fields, get, put, gvk_eq, var_int, var_bool,
  var_float, var_str, other_type,
}
use dr.Filter.Defs.{Filtered}

-- `return err`, where nil is the success.
abbrev pub from_error : Option Error → Result (Unit {0})
from_error none = ok tt
from_error (some e) = err e

-- The walk over a slice, up to the first fault.
unfoldable pub each : (Value → Value × Result (Unit {0})) → Items → Items × Result (Unit {0})
each f nil = (nil, ok tt)
each f (cons x xs) =
    let rest = each f xs in
    let (x', r) = f x in elim r [ ok _ ↦ (cons x' rest.0, rest.1) | fault ↦ (cons x' xs, fault) ]

module _ (u : UnstructuredApi) where
  store : Fields → List String → Value → Fields × Result (Unit {0})
  store m path v = let (m', e) = u.set_nested_field m v path in (m', from_error e)

  -- setMappingValue
  unfoldable pub set_mapping_value :
      VariableMapping → List String → Fields → Fields × Result (Unit {0})
  unfolding store
  set_mapping_value v path m = elim v.variable_type [
    | var_str ↦
        let old = u.nested_string m path in
        elim old.error [
          | some e ↦ (m, err e)
          | none ↦
              if old.found
              then store m path (str (replace_one v.from_sub_str v.to_sub_str old.value))
              else (m, ok tt)
        ]
    | var_bool ↦ elim (parse_bool v.to_sub_str) [
      | none ↦ (m, err (failure "strconv.ParseBool"))
      | some b ↦ store m path (bool b)
    ]
    | var_int ↦
        let (n, e) = atoi v.to_sub_str in
        elim e [ some _ ↦ (m, err (failure "strconv.Atoi")) | none ↦ store m path (int n) ]
    | var_float ↦ elim (u.parse_float v.to_sub_str) [
      | none ↦ (m, err (failure "strconv.ParseFloat"))
      | some x ↦ store m path (float x)
    ]
    | other_type _ ↦ (m, err (failure "unsupported type"))
  ]

  -- An element of the slice that holds the last layer. `reflect.TypeOf` of nil has no `Kind`.
  unfoldable pub set_element : VariableMapping → List String → Value → Value × Result (Unit {0})
  set_element v path (obj m) = let (m', r) = set_mapping_value v path m in (obj m', r)
  set_element v path null = (null, panic)
  set_element v path x = (x, err (failure "interface not a map"))

  -- iteratePath with one key left: the value is a map, or a slice of maps.
  unfoldable pub set_leaf : VariableMapping → List String → Value → Value × Result (Unit {0})
  unfolding set_element
  set_leaf v path (obj m) = let (m', r) = set_mapping_value v path m in (obj m', r)
  set_leaf v path (arr xs) = let (xs', r) = each (set_element v path) xs in (arr xs', r)
  set_leaf v path null = (null, panic)
  set_leaf v path x = (x, err (failure "wrong type"))

  -- iteratePath with no key left: `path[0]` and `path[1:]` are out of range.
  past_end : Value → Value × Result (Unit {0})
  past_end (arr nil) = (arr nil, ok tt)
  past_end (arr xs) = (arr xs, panic)
  past_end (obj m) = (obj m, panic)
  past_end null = (null, panic)
  past_end x = (x, err (failure "wrong type"))

  -- One layer down: a map goes on at the key, a slice at each element. A key that is not there
  -- ends the walk.
  unfoldable pub descend :
      (Value → Value × Result (Unit {0})) → String → Value → Value × Result (Unit {0})
  descend go key (obj m) = elim (get key m) [
    | none ↦ (obj m, ok tt)
    | some x ↦ let (x', r) = go x in (obj (put key x' m), r)
  ]
  descend go key (arr xs) = let (xs', r) = each go xs in (arr xs', r)
  descend go key null = (null, panic)
  descend go key x = (x, err (failure "wrong type"))

  unfoldable pub iterate_path : List String → VariableMapping → Value → Value × Result (Unit {0})
  unfolding set_leaf past_end descend
  iterate_path [] v inf = past_end inf
  iterate_path (key ∷ []) v inf = set_leaf v (key ∷ []) inf
  iterate_path (key ∷ next ∷ path) v inf = descend (iterate_path (next ∷ path) v) key inf

  -- One entry of KeyValueMappings. The value that is walked is the one under `path[0]`.
  unfoldable pub map_at : List String → VariableMapping → Fields → Fields × Result (Unit {0})
  map_at [] v m = (m, panic)
  map_at (key ∷ path) v m =
      if u.nested_field_exists m (key ∷ [])
      then elim (get key m) [
        | none ↦ (m, panic)
        | some x ↦ let (x', r) = iterate_path path v x in (put key x' m, r)
      ]
      else (m, ok tt)

  -- The loop over one KeyValueMappings, in the order in which `range` visits the map.
  unfoldable pub map_entries : Dict VariableMapping → Fields → Fields × Result (Unit {0})
  unfolding map_at
  map_entries [] m = (m, ok tt)
  map_entries ((k, v) ∷ entries) m =
      let step = map_at (split "," k) v m in
      let rest = map_entries entries step.0 in elim step.1 [ ok _ ↦ rest | _ ↦ step ]

  unfoldable pub map_for_kinds : List VariableMappings → Fields → Fields × Result (Unit {0})
  map_for_kinds [] m = (m, ok tt)
  map_for_kinds (c ∷ cs) m =
      let skip = map_for_kinds cs m in
      let step = map_entries c.key_value_mappings m in
      let rest = map_for_kinds cs step.0 in
      elim c.kind [
        | none ↦ (m, panic)
        | some kind ↦
            if gvk_eq (u.group_version_kind m) kind
            then elim step.1 [ ok _ ↦ rest | _ ↦ step ]
            else skip
      ]

  unfoldable pub variable_mapping_out : DrFilterConfig → ObjResource → Filtered
  variable_mapping_out config objr = elim config.variable_mapping_filter [
    | none ↦ (objr, panic)
    | some c ↦
        let (m, r) = map_for_kinds c.kind_variable_mappings objr.unstructured in
        (record objr { unstructured = m }, r)
  ]
