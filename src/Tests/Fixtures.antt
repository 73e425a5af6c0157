-- ===== src/Tests/Fixtures.antt =====
-- An API of documents whose nested fields stand under their whole path, with sample objects.
use dr.Base.{
  Bool, Error, ◌≡◌, ◌==◌, arith, eq_iff, String, true, false, Option, none, some, [], ◌∷◌, Result,
  ok, err, failure, is_some, if◌then◌else◌,
}
use dr.Base.Text.{join}
use dr.Api.{
  UnstructuredApi, Value, Items, str, arr, Fields, end, field, get, put, GroupVersionKind,
  ObjResource, ObjectAction, DrFilterConfig, WhiteListFilterConfig,
}
use dr.Transport.Remote.{RemovesIdentity}

unfoldable pub drop : String → Fields → Fields
drop k end = end
drop k (field j v m) = let rest = drop k m in if j == k then rest else field j v rest

pub get-drop : (k j : String) (m : Fields) → get j (drop k m) ≡ (if k == j then none else get j m)
unfolding get drop
get-drop k j end = ground arith
get-drop k j (field i v m) = ground (arith, eq_iff k j, eq_iff i k, eq_iff i j, get-drop k j m)

abbrev pub text : Option Value → String
text (some (str s)) = s
text _ = ""

unfoldable pub text_at : String → Fields → String
text_at k m = text (get k m)

abbrev nested_text : Option Value → record { value : String; found : Bool; error : Option Error }
nested_text none = record { value = ""; found = false; error = none }
nested_text (some (str s)) = record { value = s; found = true; error = none }
nested_text (some _) = record { value = ""; found = false; error = some (failure "not a string") }

abbrev nested_items : Option Value → Result (Option Items)
nested_items none = ok none
nested_items (some (arr xs)) = ok (some xs)
nested_items (some _) = err (failure "not a slice")

abbrev pub docs : UnstructuredApi
docs = record {
  nested_string = λ m path. nested_text (get (join "," path) m);
  nested_slice = λ m path. nested_items (get (join "," path) m);
  nested_field_exists = λ m path. is_some (get (join "," path) m);
  set_nested_field = λ m v path. (put (join "," path) v m, none);
  remove_nested_field = λ m path. drop (join "," path) m;
  get_uid = λ m. text_at "metadata,uid" m;
  get_name = λ m. text_at "metadata,name" m;
  get_namespace = λ m. text_at "metadata,namespace" m;
  get_resource_version = λ m. text_at "metadata,resourceVersion" m;
  set_resource_version = λ m s. put "metadata,resourceVersion" (str s) m;
  set_uid = λ m s. put "metadata,uid" (str s) m;
  group_version_kind =
      λ m. record { group = ""; version = text_at "apiVersion" m; kind = text_at "kind" m };
  parse_float = λ s. none;
  get_owner_references = λ m. none;
}

text_kept : (k j : String) (m : Fields) → text_at j m ≡ "" → text_at j (drop k m) ≡ ""
unfolding text_at
text_kept k j m e = ground (arith, e, get-drop k j m)

pub docs-RemovesIdentity : RemovesIdentity docs
unfolding text_at join
docs-RemovesIdentity = record {
  uid_removed = λ m. rw get-drop;
  version_removed = λ m. rw get-drop;
  uid_kept = λ m path e. text_kept (join "," path) "metadata,uid" m e;
  version_kept = λ m path e. text_kept (join "," path) "metadata,resourceVersion" m e;
}

abbrev pub document : String → String → String → String → String → Fields
document kind ns name uid version = field "apiVersion" (str "v1") (
    field "kind" (str kind) (
      field "metadata,namespace" (str ns) (
        field "metadata,name" (str name)
          (field "metadata,uid" (str uid) (field "metadata,resourceVersion" (str version) end)))))

abbrev pub config_map_kind : GroupVersionKind
config_map_kind = record { group = ""; version = "v1"; kind = "ConfigMap" }

abbrev pub service_kind : GroupVersionKind
service_kind = record { group = ""; version = "v1"; kind = "Service" }

abbrev pub resource_of : Fields → String → ObjectAction → ObjResource
resource_of m r a = record {
  unstructured = m;
  gvr = record { group = ""; version = "v1"; resource = r };
  namespaced = true;
  action = a;
}

abbrev pub config_map : String → String → ObjectAction → ObjResource
config_map uid version a =
    resource_of (document "ConfigMap" "shop" "settings" uid version) "configmaps" a

abbrev pub white_list : WhiteListFilterConfig
white_list = record {
  object_white_list = [];
  kind_white_list = config_map_kind ∷ service_kind ∷ [];
}

abbrev pub filter_config : DrFilterConfig
filter_config = record {
  variable_delete_filter = none;
  variable_mapping_filter = none;
  white_list_filter = some white_list;
}
