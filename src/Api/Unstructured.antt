-- ===== src/Api/Unstructured.antt =====
-- The package k8s.io/apimachinery/pkg/apis/meta/v1/unstructured, as far as the program calls
-- it, and the one function of strconv that is not written out here.
use dr.Base.{String, ℕ, Bool, Option, List, Result, Error}
use dr.Api.Content.{Value, Items, Fields}
use dr.Api.Types.{GroupVersionKind}

-- A function that fails beside its value gives both, as in Go. `nested_field_exists` is the
-- second value of NestedFieldCopy. An owner reference is known by its UID; `none` is a nil slice.
-- `parse_float` is strconv.ParseFloat(s, 64), as a bit pattern.
pub record UnstructuredApi : Type 0 where
  pub nested_string :
      Fields → List String → record { value : String; found : Bool; error : Option Error }
  pub nested_slice : Fields → List String → Result (Option Items)
  pub nested_field_exists : Fields → List String → Bool
  pub set_nested_field : Fields → Value → List String → Fields × Option Error
  pub remove_nested_field : Fields → List String → Fields
  pub get_uid : Fields → String
  pub get_name : Fields → String
  pub get_namespace : Fields → String
  pub get_resource_version : Fields → String
  pub set_resource_version : Fields → String → Fields
  pub set_uid : Fields → String → Fields
  pub group_version_kind : Fields → GroupVersionKind
  pub parse_float : String → Option ℕ
  pub get_owner_references : Fields → Option (List String)
