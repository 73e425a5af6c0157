-- ===== src/Api/Filters.antt =====
-- The filter configuration in types.go. A pointer is an `Option`.
use dr.Base.{String, Option, List}
use dr.Base.Dict.{Dict}
use dr.Api.Types.{GroupVersionKind, GroupVersionKindObject}

pub data VariableType : Type 0 where
  var_int var_bool var_float var_str : VariableType
  other_type : String → VariableType

pub record VariableMapping : Type 0 where
  pub from_sub_str : String
  pub to_sub_str : String
  pub variable_type : VariableType

pub record VariableMappings : Type 0 where
  pub object : Option GroupVersionKindObject
  pub kind : Option GroupVersionKind
  pub key_value_mappings : Dict VariableMapping

pub record VariableDelete : Type 0 where
  pub object : Option GroupVersionKindObject
  pub kind : Option GroupVersionKind
  pub key_value_delete : List String

pub record VariableDeleteFilterConfig : Type 0 where
  pub object_delete_list : List VariableDelete
  pub kind_delete_list : List VariableDelete

pub record WhiteListFilterConfig : Type 0 where
  pub object_white_list : List GroupVersionKindObject
  pub kind_white_list : List GroupVersionKind

pub record VariableMappingFilterConfig : Type 0 where
  pub object_variable_mappings : List VariableMappings
  pub kind_variable_mappings : List VariableMappings

pub record DrFilterConfig : Type 0 where
  pub variable_delete_filter : Option VariableDeleteFilterConfig
  pub variable_mapping_filter : Option VariableMappingFilterConfig
  pub white_list_filter : Option WhiteListFilterConfig
