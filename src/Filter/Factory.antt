-- ===== src/Filter/Factory.antt =====
-- filter_factory.go. The range variables `gvk` and `gvkObj` are one variable for the whole loop
-- (go.mod asks for Go 1.13), and the entries that a loop appends point to it. So a loop is a walk
-- over the variable and the appended entries, where an entry is a function of what the variable
-- holds; nothing writes to the variable after the loop, and `deref` reads it there.
use dr.Base.{String, Option, none, some, List, [], ◌∷◌, ◌++◌, map, is_some, Bool, if◌then◌else◌}
use dr.Api.{
  UnstructuredApi, ObjResource, DrFilterConfig, WhiteListFilterConfig, VariableDelete,
  VariableDeleteFilterConfig, GroupVersionKind, GroupVersionKindObject,
}
use dr.Filter.Defs.{
  Filter, white_list_filter, variable_mapping_filter, variable_delete_filter, pvc_filter, Filtered,
}
use dr.Filter.WhiteList.{white_list_out}
use dr.Filter.Pvc.{pvc_out}
use dr.Filter.VariableDelete.{variable_delete_out}
use dr.Filter.VariableMapping.{variable_mapping_out}

-- An appended entry, over the content of the loop's variable.
abbrev pub Entry {ℓ} : Type ℓ → Type ℓ
Entry A = A → VariableDelete

abbrev pub kind_entry : Entry GroupVersionKind
kind_entry gvk = record { object = none; kind = some gvk; key_value_delete = "metadata,uid" ∷ [] }

abbrev pub object_entry : Entry GroupVersionKindObject
object_entry o = record { object = some o; kind = none; key_value_delete = "metadata,uid" ∷ [] }

-- `for _, x := range xs { list = append(list, entry(&x)) }`
unfoldable pub append_loop {ℓ} :
    {A : Type ℓ} → Entry A → A → List A → List (Entry A) → A × List (Entry A)
append_loop entry x [] es = (x, es)
append_loop entry _ (x ∷ xs) es = append_loop entry x xs (es ++ (entry ∷ []))

abbrev pub deref {ℓ} : {A : Type ℓ} → A × List (Entry A) → List VariableDelete
deref (x, es) = map (λ e. e x) es

unfoldable pub appended {ℓ} : {A : Type ℓ} → Entry A → List A → List VariableDelete
unfolding append_loop
appended entry [] = []
appended entry (x ∷ xs) = deref (append_loop entry x (x ∷ xs) [])

abbrev pub empty_delete_config : VariableDeleteFilterConfig
empty_delete_config = record { object_delete_list = []; kind_delete_list = [] }

abbrev pub delete_config_or_empty : DrFilterConfig → VariableDeleteFilterConfig
delete_config_or_empty c = elim c.variable_delete_filter [ none ↦ empty_delete_config | some d ↦ d ]

-- A loop that runs at least once creates the configuration that is missing.
unfoldable pub append_kinds : List GroupVersionKind → DrFilterConfig → DrFilterConfig
unfolding appended
append_kinds [] c = c
append_kinds (k ∷ ks) c =
    let d = delete_config_or_empty c in
    let d' = record d { kind_delete_list = d.kind_delete_list ++ appended kind_entry (k ∷ ks) } in
    record c { variable_delete_filter = some d' }

unfoldable pub append_objects : List GroupVersionKindObject → DrFilterConfig → DrFilterConfig
unfolding appended
append_objects [] c = c
append_objects (o ∷ os) c =
    let d = delete_config_or_empty c in
    let d' = record d {
      object_delete_list = d.object_delete_list ++ appended object_entry (o ∷ os);
    } in
    record c { variable_delete_filter = some d' }

abbrev pub white_list_or_empty : DrFilterConfig → WhiteListFilterConfig
white_list_or_empty c = elim c.white_list_filter [
  | none ↦ record { object_white_list = []; kind_white_list = [] }
  | some w ↦ w
]

-- What the call leaves in the caller's configuration.
unfoldable pub add_default_config : DrFilterConfig → DrFilterConfig
unfolding append_kinds append_objects
add_default_config c =
    let w = white_list_or_empty c in
    append_objects w.object_white_list
      (append_kinds w.kind_white_list (record c { white_list_filter = some w }))

abbrev pub filter_if : Bool → Filter → List Filter → List Filter
filter_if b f fs = if b then f ∷ fs else fs

abbrev pub no_filter_config : DrFilterConfig
no_filter_config = record {
  variable_delete_filter = none;
  variable_mapping_filter = none;
  white_list_filter = none;
}

-- The filters for a configuration that has its defaults.
unfoldable pub build_filters : DrFilterConfig → List Filter
build_filters c =
    white_list_filter c
    ∷ filter_if (is_some c.variable_mapping_filter) (variable_mapping_filter c)
        (filter_if (is_some c.variable_delete_filter) (variable_delete_filter c) (pvc_filter ∷ []))

-- The configuration as the call leaves it, and the filters. A nil configuration stays nil: the
-- fresh one in addDefaultConfig is that function's own.
unfoldable pub get_filters : Option DrFilterConfig → Option DrFilterConfig × List Filter
unfolding add_default_config build_filters
get_filters none = (none, white_list_filter no_filter_config ∷ pvc_filter ∷ [])
get_filters (some c) = let c' = add_default_config c in (some c', build_filters c')

-- UpdateFilterHook replaces the filters of the aggregation.
pub record FilterAggregation : Type 0 where
  pub namespace : String
  pub filters : List Filter

unfoldable pub update_filter_hook : Option DrFilterConfig → FilterAggregation → FilterAggregation
unfolding get_filters
update_filter_hook c fa = record fa { filters = (get_filters c).1 }

module _ (u : UnstructuredApi) where
  unfoldable pub out : Filter → ObjResource → Filtered
  unfolding white_list_out variable_mapping_out variable_delete_out pvc_out
  out (white_list_filter c) objr = white_list_out u c objr
  out (variable_mapping_filter c) objr = variable_mapping_out u c objr
  out (variable_delete_filter c) objr = variable_delete_out u c objr
  out pvc_filter objr = pvc_out u objr
